-- ===== src/DataConversion.antt =====
-- The flow graph that converts between two streams: src/common/DataConversionFlowGraph.cpp, as the chain
-- of nodes that `configure` connects. A node is named by its class, with what its constructor is given.
mod Chain
mod Tests
use android_audio_samples.Prelude.{
  ℕ, ◌*◌, List, [], ◌∷◌, ◌++◌, Bool, true, false, not, ◌&&◌, ◌||◌, Option, some, none, ℤ, pos,
  pos_part, ltb_ℤ, eqb_ℤ, if◌then◌else◌,
}
use android_audio_samples.Definitions.{Result, AudioFormat, Direction, SampleRateConversionQuality}
use android_audio_samples.StreamBase.{
  AudioStreamBase, is_input, is_unspecified, is_data_callback_specified,
  convert_format_to_size_in_bytes,
}

-- An open stream, as the graph sees it.
pub record StreamInfo : Type 0 where
  pub settings : AudioStreamBase
  pub frames_per_burst : ℤ

-- `AudioFormat` without the formats that no node handles.
pub data SampleFormat : Type 0 where
  float i16 i24 i32 : SampleFormat

pub sample_format : AudioFormat → Option SampleFormat
sample_format AudioFormat.float = some SampleFormat.float
sample_format AudioFormat.i16 = some SampleFormat.i16
sample_format AudioFormat.i24 = some SampleFormat.i24
sample_format AudioFormat.i32 = some SampleFormat.i32
sample_format _ = none

-- `MultiChannelResampler::Quality`
pub data Quality : Type 0 where
  fastest low medium high best : Quality

pub convert_oboe_sr_quality_to_mcr : SampleRateConversionQuality → Quality
convert_oboe_sr_quality_to_mcr SampleRateConversionQuality.none = Quality.medium
convert_oboe_sr_quality_to_mcr SampleRateConversionQuality.fastest = Quality.fastest
convert_oboe_sr_quality_to_mcr SampleRateConversionQuality.low = Quality.low
convert_oboe_sr_quality_to_mcr SampleRateConversionQuality.medium = Quality.medium
convert_oboe_sr_quality_to_mcr SampleRateConversionQuality.high = Quality.high
convert_oboe_sr_quality_to_mcr SampleRateConversionQuality.best = Quality.best

pub data Node : Type 0 where
  source_caller : SampleFormat → (channels frames_per_callback : ℤ) → Node
  source : SampleFormat → (channels : ℤ) → Node
  multi_to_mono_converter : (inputs : ℤ) → Node
  channel_count_converter : (inputs outputs : ℤ) → Node
  sample_rate_converter : (channels input_rate output_rate : ℤ) → Quality → Node
  mono_to_multi_converter : (outputs : ℤ) → Node
  sink : SampleFormat → (channels : ℤ) → Node

-- `configure` leaves a chain, and the size of a block of the writer after the sink, if it opens it.
pub record FlowGraph : Type 0 where
  pub nodes : List Node
  pub block_size : Option ℤ

module _ (source_stream sink_stream : StreamInfo) where
  abbrev source_channels : ℤ
  source_channels = source_stream.settings.channel_count

  abbrev sink_channels : ℤ
  sink_channels = sink_stream.settings.channel_count

  -- A callback size, or the burst of the stream if that is unspecified.
  abbrev actual_frames_per_callback : StreamInfo → ℤ
  actual_frames_per_callback s =
      if is_unspecified s.settings.frames_per_callback
      then s.frames_per_burst
      else s.settings.frames_per_callback

  -- IF OUTPUT and a callback, or INPUT and none
  pub uses_caller : Bool
  uses_caller =
      let called = is_data_callback_specified source_stream.settings in
      let input = is_input source_stream.settings in (called && not input) || (not called && input)

  pub first_node : SampleFormat → Node
  first_node f =
      if uses_caller
      then Node.source_caller f source_channels (actual_frames_per_callback source_stream)
      else Node.source f source_channels

  pub reduce_channels : List Node
  reduce_channels =
      if ltb_ℤ sink_channels source_channels
      then if eqb_ℤ sink_channels (pos 1)
        then Node.multi_to_mono_converter source_channels ∷ []
        else Node.channel_count_converter source_channels sink_channels ∷ []
      else []

  -- `lastOutput->getSamplesPerFrame()` after the reduction
  pub middle_channels : ℤ
  middle_channels = if ltb_ℤ sink_channels source_channels then sink_channels else source_channels

  pub convert_rate : List Node
  convert_rate =
      let input_rate = source_stream.settings.sample_rate in
      let output_rate = sink_stream.settings.sample_rate in
      if eqb_ℤ input_rate output_rate
      then []
      else Node.sample_rate_converter middle_channels input_rate output_rate
          (convert_oboe_sr_quality_to_mcr source_stream.settings.sample_rate_conversion_quality)
        ∷ []

  pub expand_channels : List Node
  expand_channels =
      if ltb_ℤ source_channels sink_channels
      then if eqb_ℤ source_channels (pos 1)
        then Node.mono_to_multi_converter sink_channels ∷ []
        else Node.channel_count_converter source_channels sink_channels ∷ []
      else []

  -- The sizes of an open stream are not negative.
  pub block_writer : Option ℤ
  block_writer =
      let size = pos (
        pos_part (actual_frames_per_callback sink_stream)
        * pos_part sink_channels
        * convert_format_to_size_in_bytes sink_stream.settings.format) in
      if not uses_caller && is_input source_stream.settings then some size else none

  pub configure : Result × FlowGraph
  configure =
      let nothing : FlowGraph = record { nodes = []; block_size = none } in
      elim (sample_format source_stream.settings.format) [
        | none ↦ (Result.error_illegal_argument, nothing)
        | some f ↦
            let front = first_node f ∷ (reduce_channels ++ (convert_rate ++ expand_channels)) in
            elim (sample_format sink_stream.settings.format) [
              | none ↦ (
                Result.error_illegal_argument,
                record { nodes = front; block_size = block_writer },
              )
              | some g ↦ (
                Result.ok,
                record {
                  nodes = front ++ (Node.sink g sink_channels ∷ []);
                  block_size = block_writer;
                },
              )
            ]
      ]
