-- ===== src/Builder/Tests.antt =====
-- A stream at 44100 Hz, with rate conversion, on a device that opens streams at 48000 Hz.
use android_audio_samples.Prelude.{ℕ, ◌+◌, ◌≡◌, refl, true, some, none, pos, pos_part, Returned}
use android_audio_samples.Definitions.{
  Result, AudioFormat, PerformanceMode, SampleRateConversionQuality,
}
use android_audio_samples.StreamBase.{AudioStreamBase, default_base, Platform, is_valid_config}
use android_audio_samples.Quirks.{common}
use android_audio_samples.DataConversion.{StreamInfo}
use android_audio_samples.Builder.{
  System, Device, Policy, is_policy_enabled, is_mmap_enabled, untouched, fill_in, filter_info,
  open_stream, open_managed_stream, open_shared_stream, Reply,
}
use android_audio_samples.Builder.Outcome.{Outcome}
use android_audio_samples.Builder.Laws.{Restores, open_stream-enough, open_stream-Restores}

abbrev pie : Platform
pie = record { sdk_version = 28; aaudio_supported = true; workarounds_enabled = true }

-- what the device chooses where it may
abbrev chosen : StreamInfo
chosen = record {
  settings = record default_base {
    format = AudioFormat.float;
    channel_count = pos 2;
    sample_rate = pos 48000;
    performance_mode = PerformanceMode.low_latency;
    buffer_capacity_in_frames = pos 1920;
  };
  frames_per_burst = pos 192;
}

-- It sums the buffer sizes asked for.
abbrev device : System
device = record {
  W = ℕ;
  open_backend = λ kind b mmap w. (Result.ok, filter_info (fill_in b chosen.settings) chosen, w);
  set_mmap_policy = λ asked policy. asked;
  set_buffer_size = λ info size w. w + pos_part size;
  close_backend = λ info w. w;
}

abbrev request : AudioStreamBase
request = record default_base {
  data_callback = some 1;
  sample_rate = pos 44100;
  performance_mode = PerformanceMode.low_latency;
  sample_rate_conversion_quality = SampleRateConversionQuality.medium;
}

abbrev start : Device ℕ
start = record { mmap_policy = Policy.always; world = 0 }

open_stream-enough_example :
    (reply : Reply device pie common) × (open_stream device pie common 2 request start ≡ some reply)
    × (open_stream device pie common 5 request start ≡ some reply)
open_stream-enough_example = open_stream-enough device pie common 3 request start

open_stream-Restores_example :
    Returned
      (λ (r : Reply device pie common).
        Restores Policy.always r.2.mmap_policy × (is_mmap_enabled r.2 ≡ true))
      (open_stream device pie common 2 request start)
unfolding is_policy_enabled
open_stream-Restores_example =
    open_stream-Restores device (λ asked policy. refl) pie common 2 request start

abbrev invalid : AudioStreamBase
invalid = record default_base { format = AudioFormat.invalid }

-- The pointer of a managed stream is left as it was.
managed :
    open_managed_stream device pie common invalid start
    ≡ some (Result.error_invalid_format, untouched, start)
unfolding open_managed_stream open_stream is_valid_config
managed = refl

shared :
    open_shared_stream device pie common invalid start
    ≡ some (Result.error_invalid_format, none, start)
unfolding open_shared_stream open_stream is_valid_config
shared = refl
