-- ===== src/StreamBase/Choice.antt =====
-- The choice of the native interface, and the comparison of a request with the opened stream.
use android_audio_samples.Prelude.{◌≡◌, arith, ◌&&◌, ◌||◌, if◌then◌else◌, ℤ, eqb_ℤ, Bool, true, ◌⊎◌}
use android_audio_samples.Definitions.{AudioFormat}
use android_audio_samples.StreamBase.{
  AudioStreamBase, Platform, Backend, build, will_use_aaudio, is_aaudio_recommended, is_input,
  is_compatible, is_unspecified, unspecified, same_format,
}

-- The stream that the builder makes is an AAudio stream exactly where the builder says that it will use
-- AAudio; otherwise it is the OpenSL ES stream of the direction asked for.
pub build-will_use_aaudio :
    (p : Platform) (b : AudioStreamBase)
    → build p b ≡ (
        if will_use_aaudio p b
        then Backend.aaudio_stream
        else if is_input b
        then Backend.input_open_sles
        else Backend.output_open_sles)
unfolding build will_use_aaudio is_aaudio_recommended
build-will_use_aaudio p b = ground arith

abbrev agrees : ℤ → ℤ → Bool
agrees a b = is_unspecified a || eqb_ℤ a b

agrees_refl : (a : ℤ) → agrees a a ≡ true
agrees_refl a = ground arith

agrees_cases : (a b : ℤ) → agrees a b ≡ true → (a ≡ unspecified) ⊎ (a ≡ b)
agrees_cases a b h = ground arith

of_four : (a b c d : Bool) → a ≡ true → b ≡ true → c ≡ true → d ≡ true → (a && b && c && d) ≡ true
of_four a b c d = ground arith

all_four : (a b c d : Bool) → (a && b && c && d) ≡ true → (a ≡ true) × (c ≡ true) × (d ≡ true)
all_four a b c d = ground arith

same_format_refl : (f : AudioFormat) → same_format f f ≡ true
unfolding same_format
same_format_refl f = ground arith

either : (a b : Bool) → b ≡ true → (a || b) ≡ true
either a b = ground arith

-- Every request is compatible with itself.
pub is_compatible_refl : (b : AudioStreamBase) → is_compatible b b ≡ true
unfolding is_compatible
is_compatible_refl b =
    of_four _ _ _ _ (agrees_refl b.sample_rate) (either _ _ (same_format_refl b.format))
      (agrees_refl b.frames_per_callback) (agrees_refl b.channel_count)

-- A stream that is compatible with a request has the request's sample rate, channel count and callback
-- size, each unless the request leaves it unspecified.
pub is_compatible_lem :
    (b other : AudioStreamBase)
    → is_compatible b other ≡ true
    → ((b.sample_rate ≡ unspecified) ⊎ (b.sample_rate ≡ other.sample_rate))
      × ((b.channel_count ≡ unspecified) ⊎ (b.channel_count ≡ other.channel_count))
      × ((b.frames_per_callback ≡ unspecified)
          ⊎ (b.frames_per_callback ≡ other.frames_per_callback))
unfolding is_compatible
is_compatible_lem b other h =
    let parts =
      all_four (agrees b.sample_rate other.sample_rate)
        (same_format b.format AudioFormat.unspecified || same_format b.format other.format)
        (agrees b.frames_per_callback other.frames_per_callback)
        (agrees b.channel_count other.channel_count) h in
    (
      agrees_cases b.sample_rate other.sample_rate parts.0,
      agrees_cases b.channel_count other.channel_count parts.2,
      agrees_cases b.frames_per_callback other.frames_per_callback parts.1,
    )
