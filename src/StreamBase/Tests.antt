-- ===== src/StreamBase/Tests.antt =====
-- The choice of the interface at concrete requests.
use android_audio_samples.Prelude.{◌≡◌, ◌⊎◌, refl, true, pos}
use android_audio_samples.StreamBase.{
  Platform, default_base, Backend, build, is_compatible, unspecified, AudioStreamBase,
  will_use_aaudio, same_format,
}
use android_audio_samples.StreamBase.Choice.{
  build-will_use_aaudio, is_compatible_lem, is_compatible_refl,
}
use android_audio_samples.Definitions.{AudioFormat}

abbrev oreo : Platform
oreo = record { sdk_version = 26; aaudio_supported = true; workarounds_enabled = true }

build-will_use_aaudio_example : build oreo default_base ≡ Backend.output_open_sles
unfolding will_use_aaudio
build-will_use_aaudio_example = build-will_use_aaudio oreo default_base

abbrev stereo : AudioStreamBase
stereo = record default_base { channel_count = pos 2; sample_rate = pos 48000 }

abbrev opened : AudioStreamBase
opened = record stereo { frames_per_callback = pos 192; format = AudioFormat.i16 }

stereo-opened : is_compatible stereo opened ≡ true
unfolding is_compatible same_format
stereo-opened = refl

is_compatible_same_rate :
    ((pos 48000 ≡ unspecified) ⊎ (pos 48000 ≡ pos 48000))
    × ((pos 2 ≡ unspecified) ⊎ (pos 2 ≡ pos 2))
    × ((unspecified ≡ unspecified) ⊎ (unspecified ≡ pos 192))
is_compatible_same_rate = is_compatible_lem stereo opened stereo-opened

is_compatible_refl_test : is_compatible opened opened ≡ true
is_compatible_refl_test = is_compatible_refl opened
