-- ===== src/LatencyTuner/Tests.antt =====
-- The tuner over a stream that records the sizes it is set to.
use android_audio_samples.Prelude.{
  ◌≡◌, ◌≢◌, ◌⊎◌, refl, inl, inr, arith, ℤ, pos, ◌≤ℤ◌, List, [], ◌∷◌, ◌+ℤ◌, ◌-ℤ◌, wrap32,
}
use android_audio_samples.Definitions.{Result}
use android_audio_samples.LatencyTuner.{
  AudioStream, value, State, Tuner, idle_count, tune, process_requests, count_down, grow, settle,
  requested_size,
}
use android_audio_samples.LatencyTuner.Laws.{
  tune_unsupported, tune_requests, tune_result, tune_times, tune_grace,
}

-- A new xrun at each look; the newest size first.
abbrev recorder : AudioStream
recorder = record {
  S = List ℤ;
  x_run_count = λ s. value (pos 1);
  buffer_size = λ s. pos 96;
  set_buffer_size = λ size s. (value size, size ∷ s);
}

abbrev fresh : Tuner
fresh = record {
  state = State.idle;
  max_buffer_size = pos 500;
  previous_x_runs = pos 0;
  idle_count_down = idle_count;
  minimum_buffer_size = pos 192;
  buffer_size_increment = pos 96;
  trigger_requests = pos 0;
  trigger_responses = pos 0;
}

abbrev about_to_act : Tuner
about_to_act = record fresh { idle_count_down = pos 1 }

tune-about_to_act : (tune recorder about_to_act []).2 ≡ pos 192 ∷ []
unfolding tune process_requests count_down grow settle requested_size ◌+ℤ◌ ◌-ℤ◌ wrap32
tune-about_to_act = refl

abbrev broken : Tuner
broken = record fresh { state = State.unsupported }

tune_unsupported_example : tune recorder broken [] ≡ (Result.error_unimplemented, broken, [])
tune_unsupported_example = tune_unsupported recorder broken [] refl

tune_never_fails :
    ((tune recorder about_to_act []).0 ≡ Result.error_unimplemented)
      × ((tune recorder about_to_act []).1.state ≡ State.unsupported)
    ⊎ ((tune recorder about_to_act []).0 ≡ Result.ok)
      × ((tune recorder about_to_act []).1.state ≢ State.unsupported)
tune_never_fails = tune_result recorder about_to_act []

-- no size above the maximum is recorded
abbrev Bounded : List ℤ → Type 0
Bounded [] = Unit
Bounded (x ∷ xs) = (x ≤ℤ pos 500) × Bounded xs

keeps :
    (size : ℤ) (u : List ℤ) → (size ≡ pos 192) ⊎ (size ≤ℤ pos 500) → Bounded u → Bounded (size ∷ u)
keeps size u (inl e) b = (ground arith, b)
keeps size u (inr l) b = (l, b)

tune_requests_example : Bounded (tune recorder about_to_act []).2
tune_requests_example = tune_requests recorder Bounded about_to_act [] keeps tt

tune_waits : tune_times recorder 5 fresh [] ≡ (record fresh { idle_count_down = pos 3 }, [])
tune_waits = tune_grace recorder 5 fresh [] (omega arith) refl refl refl
