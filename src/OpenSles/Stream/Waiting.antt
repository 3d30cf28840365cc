-- ===== src/OpenSles/Stream/Waiting.antt =====
-- Requests that wait for their end: `start`, `pause`, `flush` and `stop` of src/common/AudioStream.cpp,
-- with `waitForStateChange` of src/opensles/AudioStreamOpenSLES.cpp. Another thread may change the stream
-- while this one sleeps.
mod Laws
mod Tests
use android_audio_samples.Prelude.{
  ℕ, zero, suc, Bool, true, false, not, ◌&&◌, ◌||◌, Option, none, some, ℤ, pos, ◌-ℤ◌, ltb_ℤ, eqb_ℤ,
  if◌then◌else◌,
}
use android_audio_samples.Definitions.{Result, StreamState, is_ok, same_state}
use android_audio_samples.OpenSles.Stream.{Outside, Stream}
use android_audio_samples.OpenSles.Stream.Requests.{
  Reply, request_start, request_pause, request_flush, request_stop,
}

pub is_lost : StreamState → Option Result
is_lost StreamState.closed = some Result.error_closed
is_lost StreamState.disconnected = some Result.error_disconnected
is_lost _ = none

module _ (outside : Outside) (sleep : ℤ → Stream → outside.W → Stream × outside.W) where
  open outside use {W}

  -- The loop of `waitForStateChange`, with `sleepTimeNanos` and `timeLeftNanos`; `none` where the fuel is
  -- spent. The state seen last is that of the stream returned.
  pub wait_loop : ℕ → StreamState → ℤ → ℤ → Stream → W → Reply outside
  wait_loop zero current sleep_time time_left s w = none
  wait_loop (suc fuel) current sleep_time time_left s w =
      let nanos = if ltb_ℤ time_left sleep_time then time_left else sleep_time in
      let (s', w') = sleep nanos s w in
      let rest = wait_loop fuel current nanos (time_left -ℤ nanos) s' w' in
      if same_state current s.state
      then (if ltb_ℤ (pos 0) time_left then rest else some (Result.error_timeout, s, w))
      else some (Result.ok, s, w)

  -- 20 milliseconds at a time
  pub wait_for_state_change : ℕ → StreamState → ℤ → Stream → W → Reply outside
  wait_for_state_change fuel current timeout s w = wait_loop fuel current (pos 20000000) timeout s w

  -- the last test of `waitForStateTransition`
  pub arrived : StreamState → Result × Stream × W → Result × Stream × W
  arrived ending_state (result, s, w) =
      if is_ok result
      then (if same_state s.state ending_state then Result.ok else Result.error_invalid_state, s, w)
      else (result, s, w)

  pub wait_for_state_transition : ℕ → StreamState → StreamState → ℤ → Stream → W → Reply outside
  wait_for_state_transition fuel starting_state ending_state timeout s w =
      let changed : Reply outside = elim (wait_for_state_change fuel s.state timeout s w) [
        | none ↦ none
        | some reply ↦ some (arrived ending_state reply)
      ] in
      elim (is_lost s.state) [
        | some result ↦ some (result, s, w)
        | none ↦
            if same_state s.state starting_state && not (same_state s.state ending_state)
            then changed
            else some (arrived ending_state (Result.ok, s, w))
      ]

  -- What follows a request that succeeds, if there is time to wait.
  pub then_wait : ℕ → StreamState → StreamState → ℤ → Reply outside → Reply outside
  then_wait fuel starting_state ending_state timeout none = none
  then_wait fuel starting_state ending_state timeout (some (result, s, w)) =
      if is_ok result && ltb_ℤ (pos 0) timeout
      then wait_for_state_transition fuel starting_state ending_state timeout s w
      else some (result, s, w)

  pub start : ℕ → ℤ → Stream → W → Reply outside
  start fuel timeout s w =
      then_wait fuel StreamState.starting StreamState.started timeout (request_start outside s w)

  pub pause : ℕ → ℤ → Stream → W → Reply outside
  pause fuel timeout s w =
      then_wait fuel StreamState.pausing StreamState.paused timeout (request_pause outside s w)

  pub flush : ℕ → ℤ → Stream → W → Reply outside
  flush fuel timeout s w =
      then_wait fuel StreamState.flushing StreamState.flushed timeout (request_flush outside s w)

  pub stop : ℕ → ℤ → Stream → W → Reply outside
  stop fuel timeout s w =
      then_wait fuel StreamState.stopping StreamState.stopped timeout (request_stop outside s w)
