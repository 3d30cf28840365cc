-- ===== src/Quirks.antt =====
-- Work-arounds for devices: src/common/QuirksManager.h and src/common/QuirksManager.cpp. Logging is
-- left out. `__ANDROID_API_L__`, `O`, `P` and `R` are 21, 26, 28 and 30.
pub mod Child
mod Tests
use Prim.Native.String.{String}
use text.Mathlib.Text.{◌==◌ as str_eq, starts_with}
use android_audio_samples.Prelude.{
  ℕ, ◌*◌, Bool, true, false, ◌&&◌, ◌||◌, not, ltb, leb, ◌==◌, ℤ, pos, ltb_ℤ, eqb_ℤ, ◌-ℤ◌,
  if◌then◌else◌,
}
use android_audio_samples.Definitions.{InputPreset, AudioFormat}
use android_audio_samples.StreamBase.{
  AudioStreamBase, Platform, unspecified, is_unspecified, is_low_latency, is_input, is_float,
  converts_rate, is_data_callback_specified, will_use_aaudio,
}

-- `DeviceQuirks` and its two subclasses, with what their constructors read of the device.
pub data DeviceQuirks : Type 0 where
  common : DeviceQuirks
  exynos : (is_exynos9810 is_exynos990 is_exynos850 : Bool) → (build_changelist : ℕ) → DeviceQuirks
  qualcomm : (is_sm8150 : Bool) → DeviceQuirks

-- The constructor of the manager. `property` is the platform's table of system properties, and the
-- number is `ro.build.changelist` read as an integer.
pub detect : (String → String) → ℕ → DeviceQuirks
detect property changelist =
    let samsung =
      str_eq (property "ro.product.manufacturer") "samsung"
      && starts_with (property "ro.arch") "exynos" in
    let chip = property "ro.hardware.chipname" in
    if samsung
    then exynos (str_eq chip "exynos9810") (str_eq chip "exynos990") (str_eq chip "exynos850")
        changelist
    else if str_eq (property "ro.soc.manufacturer") "Qualcomm"
    then qualcomm (str_eq (property "ro.soc.model") "SDM8150")
    else common

abbrev pub exclusive_bottom_margin : DeviceQuirks → ℕ
exclusive_bottom_margin common = 0
exclusive_bottom_margin (exynos _ _ _ _) = 2
exclusive_bottom_margin (qualcomm _) = 1

abbrev pub exclusive_top_margin : DeviceQuirks → ℕ
exclusive_top_margin (exynos _ _ _ _) = 1
exclusive_top_margin _ = 0

abbrev pub is_mono_mmap_actually_stereo : DeviceQuirks → Bool
is_mono_mmap_actually_stereo (exynos is9810 is990 is850 _) = is9810 || is850
is_mono_mmap_actually_stereo _ = false

abbrev pub has_preset : InputPreset → AudioStreamBase → Bool
has_preset InputPreset.camcorder b = elim b.input_preset [
  | InputPreset.camcorder ↦ true
  | _ ↦ false
]
has_preset InputPreset.voice_communication b = elim b.input_preset [
  | InputPreset.voice_communication ↦ true
  | _ ↦ false
]
has_preset _ b = false

-- `DeviceQuirks::isAAudioMMapPossible`
abbrev pub mmap_possible : AudioStreamBase → Bool
mmap_possible b =
    is_low_latency b
    && (is_unspecified b.sample_rate || eqb_ℤ b.sample_rate (pos 48000) || converts_rate b)
    && not (ltb_ℤ (pos 2) b.channel_count)

abbrev pub is_aaudio_mmap_possible : DeviceQuirks → AudioStreamBase → Bool
is_aaudio_mmap_possible (exynos _ _ _ _) b =
    mmap_possible b && not (has_preset InputPreset.camcorder b)
is_aaudio_mmap_possible _ b = mmap_possible b

pub is_mmap_safe : Platform → DeviceQuirks → AudioStreamBase → Bool
is_mmap_safe p (exynos is9810 is990 is850 changelist) b =
    let is_recording_corrupted = is_input b && is990 && ltb changelist 19350896 in
    let would_record_silence =
      is_input b
      && is9810
      && leb changelist 18847185
      && not (has_preset InputPreset.voice_communication b) in
    not p.workarounds_enabled || (not is_recording_corrupted && not would_record_silence)
is_mmap_safe p (qualcomm is_sm8150) b =
    not p.workarounds_enabled || not (is_sm8150 && leb p.sdk_version 28)
is_mmap_safe p common b = true

-- What the stream tells `clipBufferSize`.
pub record StreamSizes : Type 0 where
  pub mmap_used : Bool
  pub exclusive : Bool
  pub frames_per_burst : ℕ
  pub capacity : ℕ

abbrev pub bottom_margin : DeviceQuirks → StreamSizes → ℕ
bottom_margin q s =
    if s.mmap_used then (if s.exclusive then exclusive_bottom_margin q else 0) else 1

abbrev pub top_margin : DeviceQuirks → StreamSizes → ℕ
top_margin q s = if s.mmap_used then (if s.exclusive then exclusive_top_margin q else 0) else 0

pub clip_buffer_size : Platform → DeviceQuirks → StreamSizes → ℤ → ℤ
clip_buffer_size p q s requested_size =
    let min_size = pos (bottom_margin q s * s.frames_per_burst) in
    let max_size = pos s.capacity -ℤ pos (top_margin q s * s.frames_per_burst) in
    if not p.workarounds_enabled
    then requested_size
    else if ltb_ℤ requested_size min_size
    then min_size
    else if ltb_ℤ max_size requested_size
    then max_size
    else requested_size

-- The four work-arounds of `isConversionNeeded`, each a test on the request and a change to the child.
module _ (p : Platform) (q : DeviceQuirks) (b : AudioStreamBase) where
  pub avoids_callback_size : Bool
  avoids_callback_size =
      p.workarounds_enabled
      && will_use_aaudio p b
      && is_data_callback_specified b
      && not (is_unspecified b.frames_per_callback)
      && leb p.sdk_version 30

  pub frees_sample_rate : Bool
  frees_sample_rate = not (is_unspecified b.sample_rate) && converts_rate b && is_low_latency b

  pub forces_i16_input : Bool
  forces_i16_input =
      is_float b
      && is_input b
      && b.format_conversion_allowed
      && is_low_latency b
      && (not (will_use_aaudio p b) || ltb p.sdk_version 28)

  pub forces_i16_output : Bool
  forces_i16_output =
      is_float b && not (is_input b) && ltb p.sdk_version 21 && b.format_conversion_allowed

  pub uses_mono : Bool
  uses_mono =
      p.workarounds_enabled
      && b.channel_conversion_allowed
      && eqb_ℤ b.channel_count (pos 2)
      && is_input b
      && is_low_latency b
      && not (will_use_aaudio p b)
      && p.sdk_version == 26

  pub uses_stereo : Bool
  uses_stereo =
      p.workarounds_enabled
      && eqb_ℤ b.channel_count (pos 1)
      && is_input b
      && is_mono_mmap_actually_stereo q
      && will_use_aaudio p b
      && is_aaudio_mmap_possible q b

  pub convert_callback : AudioStreamBase → AudioStreamBase
  convert_callback child =
      if avoids_callback_size then record child { frames_per_callback = unspecified } else child

  pub convert_rate : AudioStreamBase → AudioStreamBase
  convert_rate child =
      if frees_sample_rate then record child { sample_rate = unspecified } else child

  pub convert_format : AudioStreamBase → AudioStreamBase
  convert_format child =
      if forces_i16_input || forces_i16_output
      then record child { format = AudioFormat.i16 }
      else child

  pub convert_channels : AudioStreamBase → AudioStreamBase
  convert_channels child =
      if uses_mono
      then record child { channel_count = pos 1 }
      else if uses_stereo
      then record child { channel_count = pos 2 }
      else child

  -- Whether a conversion is needed, and the child's builder.
  pub is_conversion_needed : AudioStreamBase → Bool × AudioStreamBase
  is_conversion_needed child = (
    avoids_callback_size || frees_sample_rate || forces_i16_input || forces_i16_output || uses_mono
        || uses_stereo,
    convert_channels (convert_format (convert_rate (convert_callback child))),
  )
