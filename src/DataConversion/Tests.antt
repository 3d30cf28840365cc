-- ===== src/DataConversion/Tests.antt =====
-- A stereo stream at 44100 Hz in floats onto a mono child at 48000 Hz.
use android_audio_samples.Prelude.{◌≡◌, refl, List, [], ◌∷◌, ◌++◌, ◌⊎◌, some, none, pos}
use android_audio_samples.Definitions.{Result, AudioFormat, SampleRateConversionQuality}
use android_audio_samples.StreamBase.{default_base}
use android_audio_samples.DataConversion.{
  StreamInfo, SampleFormat, sample_format, Quality, convert_oboe_sr_quality_to_mcr, Node,
  first_node, reduce_channels, convert_rate, middle_channels, expand_channels, configure,
  uses_caller,
}
use android_audio_samples.DataConversion.Chain.{
  IsSource, Runs, source_flow, sink_flow, configure-Runs,
}

abbrev app : StreamInfo
app = record {
  settings = record default_base {
    format = AudioFormat.float;
    channel_count = pos 2;
    sample_rate = pos 44100;
    sample_rate_conversion_quality = SampleRateConversionQuality.medium;
  };
  frames_per_burst = pos 192;
}

abbrev child : StreamInfo
child = record {
  settings = record default_base {
    format = AudioFormat.i16;
    channel_count = pos 1;
    sample_rate = pos 48000;
  };
  frames_per_burst = pos 192;
}

configure-app :
    (configure app child).1.nodes
    ≡ Node.source SampleFormat.float (pos 2)
      ∷ Node.multi_to_mono_converter (pos 2)
      ∷ Node.sample_rate_converter (pos 1) (pos 44100) (pos 48000) Quality.medium
      ∷ Node.sink SampleFormat.i16 (pos 1)
      ∷ []
unfolding configure sample_format first_node uses_caller reduce_channels convert_rate
    middle_channels expand_channels convert_oboe_sr_quality_to_mcr
configure-app = refl

configure-Runs_example :
    ((f : SampleFormat) × (g : SampleFormat) × (first : Node) × (inner : List Node) × (sample_format
          AudioFormat.float
        ≡ some f)
      × (sample_format AudioFormat.i16 ≡ some g)
      × ((configure app child).0 ≡ Result.ok)
      × ((configure app child).1.nodes ≡ first ∷ (inner ++ (Node.sink g (pos 1) ∷ [])))
      × IsSource app f first
      × Runs (source_flow app child) inner (sink_flow app child))
    ⊎ (((sample_format AudioFormat.float ≡ none) ⊎ (sample_format AudioFormat.i16 ≡ none))
        × ((configure app child).0 ≡ Result.error_illegal_argument))
configure-Runs_example = configure-Runs app child
