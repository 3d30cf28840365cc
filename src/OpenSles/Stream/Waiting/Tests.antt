-- ===== src/OpenSles/Stream/Waiting/Tests.antt =====
-- Waiting for a stream that has started.
use android_audio_samples.Prelude.{ℕ, ◌≡◌, ◌≢◌, refl, arith, false, some, ◌⊎◌, pos, Returned}
use android_audio_samples.Definitions.{Result, StreamState, stream_state_code, same_state}
use android_audio_samples.OpenSles.Stream.{Stream}
use android_audio_samples.OpenSles.Stream.Example.{clock, stream, sleep}
use android_audio_samples.OpenSles.Stream.Waiting.{
  start, pause, flush, stop, wait_for_state_transition,
}
use android_audio_samples.OpenSles.Stream.Waiting.Laws.{
  wait_for_state_transition_returns, waiting_arrives, flush_never_ok,
}

wait_for_state_transition_returns_example :
    (t : Result × Stream × ℕ) × (wait_for_state_transition clock sleep 4 StreamState.started
        StreamState.stopped
        (pos 50000000)
        stream
        0
      ≡ some t)
wait_for_state_transition_returns_example =
    wait_for_state_transition_returns clock sleep 3 StreamState.started StreamState.stopped
      (pos 50000000) stream 0 (omega arith)

waiting_arrives_example :
    Returned
      (λ (t : Result × Stream × ℕ). (t.0 ≢ Result.ok) ⊎ (t.1.state ≡ StreamState.started))
      (start clock sleep 9 (pos 5) stream 0)
    × Returned
        (λ (t : Result × Stream × ℕ). (t.0 ≢ Result.ok) ⊎ (t.1.state ≡ StreamState.paused))
        (pause clock sleep 9 (pos 5) stream 0)
    × Returned
        (λ (t : Result × Stream × ℕ). (t.0 ≢ Result.ok) ⊎ (t.1.state ≡ StreamState.flushed))
        (flush clock sleep 9 (pos 5) stream 0)
    × Returned
        (λ (t : Result × Stream × ℕ). (t.0 ≢ Result.ok) ⊎ (t.1.state ≡ StreamState.stopped))
        (stop clock sleep 9 (pos 5) stream 0)
waiting_arrives_example = waiting_arrives clock sleep 9 (pos 5) stream 0 refl

started_not_flushing : same_state StreamState.started StreamState.flushing ≡ false
unfolding same_state stream_state_code
started_not_flushing = refl

started_not_flushed : same_state StreamState.started StreamState.flushed ≡ false
unfolding same_state stream_state_code
started_not_flushed = refl

flush_never_ok_example :
    Returned (λ (t : Result × Stream × ℕ). t.0 ≢ Result.ok) (flush clock sleep 9 (pos 5) stream 0)
flush_never_ok_example =
    flush_never_ok clock sleep 9 (pos 5) stream 0 started_not_flushing started_not_flushed refl
