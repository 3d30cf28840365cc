-- ===== src/LatencyTuner.antt =====
-- The latency tuner: include/oboe/LatencyTuner.h and src/common/LatencyTuner.cpp. The stream that it
-- tunes is reached through the three virtual methods of `AudioStream` that it calls.
mod Laws
mod Tests
use android_audio_samples.Prelude.{
  ℕ, ◌*◌, suc, Bool, true, false, ℤ, pos, negsuc, ◌+ℤ◌, ◌-ℤ◌, ltb_ℤ, eqb_ℤ, wrap32, if◌then◌else◌,
  not, ◌∷◌, [],
}
use android_audio_samples.Definitions.{Result}

-- What `getXRunCount` and `setBufferSizeInFrames` return: a value, or an error.
pub data ResultWithValue : Type 0 where
  value : ℤ → ResultWithValue
  error : Result → ResultWithValue

-- A stream's state `S` with the methods called on it. Setting the size returns the new state.
pub record AudioStream : Type 1 where
  pub S : Type 0
  pub x_run_count : S → ResultWithValue
  pub buffer_size : S → ℤ
  pub set_buffer_size : ℤ → S → ResultWithValue × S

pub data State : Type 0 where
  idle active at_max unsupported : State

pub record Tuner : Type 0 where
  pub state : State
  pub max_buffer_size : ℤ
  pub previous_x_runs : ℤ
  pub idle_count_down : ℤ
  pub minimum_buffer_size : ℤ
  pub buffer_size_increment : ℤ
  pub trigger_requests : ℤ
  pub trigger_responses : ℤ

abbrev pub idle_count : ℤ
idle_count = pos 8

abbrev pub is_unsupported : State → Bool
is_unsupported State.unsupported = true
is_unsupported _ = false

abbrev pub is_idle : State → Bool
is_idle State.idle = true
is_idle _ = false

abbrev pub is_active : State → Bool
is_active State.active = true
is_active _ = false

abbrev pub is_at_maximum_buffer_size : Tuner → Bool
is_at_maximum_buffer_size t = elim t.state [ State.at_max ↦ true | _ ↦ false ]

abbrev set_minimum_buffer_size : ℤ → Tuner → Tuner
set_minimum_buffer_size buffer_size t = record t { minimum_buffer_size = buffer_size }

abbrev set_buffer_size_increment : ℤ → Tuner → Tuner
set_buffer_size_increment size_increment t = record t { buffer_size_increment = size_increment }

pub request_reset : Tuner → Tuner
request_reset t =
    if not (is_unsupported t.state)
    then record t { trigger_requests = wrap32 (t.trigger_requests +ℤ pos 1) }
    else t

module _ (stream : AudioStream) where
  open stream use {S, x_run_count, buffer_size, set_buffer_size}

  -- The result of setting the size is not looked at.
  pub reset : Tuner → S → Tuner × S
  reset t s = (
    record t { state = State.idle; idle_count_down = idle_count },
    (set_buffer_size t.minimum_buffer_size s).1,
  )

  -- The constructor, with the burst size that the stream reports. The source leaves the two fields that
  -- the setters write uninitialized; they start at 0 here.
  pub new_tuner : ℤ → ℕ → S → Tuner × S
  new_tuner maximum_buffer_size burst_size s =
      let t : Tuner = record {
        state = State.idle;
        max_buffer_size = maximum_buffer_size;
        previous_x_runs = pos 0;
        idle_count_down = pos 0;
        minimum_buffer_size = pos 0;
        buffer_size_increment = pos 0;
        trigger_requests = pos 0;
        trigger_responses = pos 0;
      } in
      reset
        (set_buffer_size_increment (pos burst_size)
          (set_minimum_buffer_size (pos (2 * burst_size)) t))
        s

  -- a pending request to reset
  pub process_requests : Tuner → S → Tuner × S
  process_requests t s =
      if eqb_ℤ t.trigger_requests t.trigger_responses
      then (t, s)
      else reset (record t { trigger_responses = t.trigger_requests }) s

  -- `mState == Idle && --mIdleCountDown <= 0`
  pub count_down : Tuner → Tuner
  count_down t =
      if is_idle t.state
      then record t {
        idle_count_down = t.idle_count_down -ℤ pos 1;
        state = if ltb_ℤ (pos 0) (t.idle_count_down -ℤ pos 1) then State.idle else State.active;
      }
      else t

  -- the size that an active tuner asks for: one increment more, at most the maximum
  pub requested_size : Tuner → S → ℤ
  requested_size t s =
      let wanted = wrap32 (buffer_size s +ℤ t.buffer_size_increment) in
      if ltb_ℤ t.max_buffer_size wanted then t.max_buffer_size else wanted

  -- what the stream answers to that size
  pub settle : Tuner → ℤ → ResultWithValue → Tuner × Result
  settle t old (error e) = (record t { state = State.unsupported }, e)
  settle t old (value size) =
      (if eqb_ℤ size old then record t { state = State.at_max } else t, Result.ok)

  -- the body of the `Active` state, by the answer to `getXRunCount`
  pub grow : Tuner → S → ResultWithValue → Tuner × S × Result
  grow t s (error e) = (record t { state = State.unsupported }, s, Result.ok)
  grow t s (value x_runs) =
      let counted = record t { previous_x_runs = x_runs } in
      let (answer, s') = set_buffer_size (requested_size t s) s in
      let (t', result) = settle counted (buffer_size s) answer in
      if ltb_ℤ (pos 0) (wrap32 (x_runs -ℤ t.previous_x_runs))
      then (t', s', result)
      else (t, s, Result.ok)

  pub tune : Tuner → S → Result × Tuner × S
  tune t s =
      let (t1, s1) = process_requests t s in
      let t2 = count_down t1 in
      let (t3, s3, result) = grow t2 s1 (x_run_count s1) in
      let last : Tuner × S × Result =
        if is_active t2.state then (t3, s3, result) else (t2, s1, Result.ok) in
      let (t4, s4, result4) = last in
      if is_unsupported t.state then (Result.error_unimplemented, t, s) else (
        if is_unsupported t4.state
            then Result.error_unimplemented
            else if is_at_maximum_buffer_size t4
            then Result.ok
            else result4,
        t4,
        s4,
      )
