-- ===== src/Quirks/Tests.antt =====
-- Runs of the work-arounds, and the theorems on them at a request that needs three of them.
use Prim.Native.String.{String}
use text.Mathlib.Text.{◌==◌ as str_eq}
use android_audio_samples.Prelude.{
  arith, if◌then◌else◌, ◌||◌, ◌≡◌, refl, ◌⊎◌, ◌≤ℤ◌, true, false, some, pos,
}
use android_audio_samples.Definitions.{
  AudioFormat, Direction, PerformanceMode, SampleRateConversionQuality,
}
use android_audio_samples.StreamBase.{
  AudioStreamBase, Platform, default_base, will_use_aaudio, unspecified,
}
use android_audio_samples.Quirks.{
  DeviceQuirks, exynos, common, detect, is_mmap_safe, is_conversion_needed, StreamSizes,
  convert_callback, convert_rate, convert_format, convert_channels, avoids_callback_size,
  frees_sample_rate, forces_i16_input, forces_i16_output, uses_mono, uses_stereo, clip_buffer_size,
}
use android_audio_samples.Quirks.Child.{
  no_conversion, child_settled, child_leave, clip_buffer_size_bounds,
}

abbrev pie : Platform
pie = record { sdk_version = 28; aaudio_supported = true; workarounds_enabled = true }

abbrev galaxy : DeviceQuirks
galaxy = exynos true false false 18847185

-- a mono recording at low latency, in floats and at a rate of its own
abbrev recording : AudioStreamBase
recording = record default_base {
  data_callback = some 1;
  frames_per_callback = pos 64;
  channel_count = pos 1;
  sample_rate = pos 44100;
  format = AudioFormat.float;
  direction = Direction.input;
  performance_mode = PerformanceMode.low_latency;
  sample_rate_conversion_quality = SampleRateConversionQuality.medium;
  format_conversion_allowed = true;
}

abbrev playback : AudioStreamBase
playback = record default_base { channel_count = pos 2 }

-- the child records in stereo, with the rate and the callback size left to the device
recording_child : is_conversion_needed pie galaxy recording recording ≡ (
  true,
  record recording {
    frames_per_callback = unspecified;
    sample_rate = unspecified;
    channel_count = pos 2;
  },
)
unfolding is_conversion_needed convert_callback convert_rate convert_format convert_channels
    avoids_callback_size frees_sample_rate forces_i16_input forces_i16_output uses_mono uses_stereo
    will_use_aaudio
recording_child = refl

silent_build : is_mmap_safe pie galaxy recording ≡ false
unfolding is_mmap_safe
silent_build = refl

samsung : String → String
samsung name =
    if str_eq name "ro.product.manufacturer"
    then "samsung"
    else if str_eq name "ro.arch" || str_eq name "ro.hardware.chipname"
    then "exynos9810"
    else ""

detect-galaxy : detect samsung 18847185 ≡ galaxy
unfolding detect samsung
detect-galaxy = refl

abbrev sizes : StreamSizes
sizes = record { mmap_used = true; exclusive = true; frames_per_burst = 96; capacity = 1536 }

playback_kept : (is_conversion_needed pie common playback playback).0 ≡ false
unfolding is_conversion_needed avoids_callback_size frees_sample_rate forces_i16_input
    forces_i16_output uses_mono uses_stereo will_use_aaudio
playback_kept = refl

child_settled_example :
    (is_conversion_needed pie galaxy
      (is_conversion_needed pie galaxy recording recording).1
      (is_conversion_needed pie galaxy recording recording).1).0
    ≡ false
child_settled_example = child_settled pie galaxy recording

no_conversion_example : (is_conversion_needed pie common playback playback).1 ≡ playback
no_conversion_example = no_conversion pie common playback playback playback_kept

child_left :
    let child = (is_conversion_needed pie galaxy recording recording).1 in
    ((child.format ≡ AudioFormat.float) ⊎ (true ≡ true))
    × ((child.sample_rate ≡ pos 44100) ⊎ (true ≡ true))
    × ((child.channel_count ≡ pos 1) ⊎ (false ≡ true) ⊎ (true ≡ true))
child_left = child_leave pie galaxy recording

clip_buffer_size_bounds_example :
    let size = clip_buffer_size pie galaxy sizes (pos 96) in
    (pos 192 ≤ℤ size)
    × (size ≤ℤ pos 1440)
    × ((size ≡ pos 96)
        ⊎ ((pos 96 ≤ℤ pos 192) × (size ≡ pos 192))
        ⊎ ((pos 1440 ≤ℤ pos 96) × (size ≡ pos 1440)))
clip_buffer_size_bounds_example =
    clip_buffer_size_bounds pie galaxy sizes (pos 96) refl (omega arith)
