-- ===== src/OpenSles/Stream/Opening/Laws.antt =====
-- What opening a stream leaves, on every path.
use android_audio_samples.Prelude.{true, false, some, none, ℤ, pos, ◌+ℤ◌, eqb_ℤ, ◌≡◌, if◌then◌else◌}
use android_audio_samples.Definitions.{Result}
use android_audio_samples.StreamBase.{Platform, is_input, is_float}
use android_audio_samples.OpenSles.Engine.Laws.{engine_starts, mixer_starts}
use android_audio_samples.OpenSles.Stream.{Stream}
use android_audio_samples.OpenSles.Stream.Configuring.{
  DefaultStreamValues, OpenSlEs, engine_calls, mixer_calls,
}
use android_audio_samples.OpenSles.Stream.Opening.{has_float, System, Answer}
use android_audio_samples.OpenSles.Stream.Opening.SetUp.{IsOpened}

module _ (p : Platform) (defaults : DefaultStreamValues) (sles : OpenSlEs) where
  open sles use {W}

  -- How the opening of `s` ends, in the system `y`.
  pub data Outcome (s : Stream) (y : System p defaults sles) : Answer p defaults sles → Type 0 where
    refused :
        is_float s.base ≡ true
        → has_float p s.base ≡ false
        → Outcome s y (some (Result.error_invalid_format, s, y))
    blocks_at_engine :
        eqb_ℤ y.engine.open_count (pos 0) ≡ true
        → engine_starts (engine_calls sles) y.outside ≡ false
        → Outcome s y none
    blocks_at_mixer :
        is_input s.base ≡ false
        → eqb_ℤ y.mixer.open_count (pos 0) ≡ true
        → (w : W) → mixer_starts (mixer_calls sles) w ≡ false
        → Outcome s y none
    leaks :
        {s' : Stream} {y' : System p defaults sles}
        → s'.state ≡ s.state
        → y'.engine.open_count ≡ y.engine.open_count +ℤ pos 1
        → y'.mixer.open_count
          ≡ (if is_input s.base then y.mixer.open_count else y.mixer.open_count +ℤ pos 1)
        → Outcome s y (some (Result.error_internal, s', y'))
    opens :
        {s' : Stream} {y' : System p defaults sles}
        → IsOpened s'
        → y'.engine.open_count ≡ y.engine.open_count +ℤ pos 1
        → y'.mixer.open_count
          ≡ (if is_input s.base then y.mixer.open_count else y.mixer.open_count +ℤ pos 1)
        → Outcome s y (some (Result.ok, s', y'))

  -- The users of the mix after an opening of `s` that got through.
  abbrev mixer_users : Stream → System p defaults sles → ℤ
  mixer_users s y = if is_input s.base then y.mixer.open_count else y.mixer.open_count +ℤ pos 1
