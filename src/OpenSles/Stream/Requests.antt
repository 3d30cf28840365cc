-- ===== src/OpenSles/Stream/Requests.antt =====
-- The requests to a stream and the callback of OpenSL ES. The virtual methods go by the direction.
mod Laws
mod Session
mod Errors
mod Tests
use android_audio_samples.Prelude.{
  ℕ, zero, ◌+◌, ◌%◌, List, get_or, [], Bool, true, false, not, Option, some, none, ℤ, pos, ◌+ℤ◌,
  ltb_ℤ, if◌then◌else◌,
}
use android_audio_samples.Definitions.{is_ok, Result, StreamState, DataCallbackResult}
use android_audio_samples.StreamBase.{is_input, is_data_callback_specified}
use android_audio_samples.MonotonicCounter.{reset32}
use android_audio_samples.OpenSles.Stream.{
  Outside, Stream, ControlState, set_control, set_buffer, set_frames_read, update_frames_written,
  update_frames_read, on_default_callback,
}

-- What a call returns, with the stream and the outside after it, or `none` if it blocks for ever.
abbrev pub Reply : Outside → Type 0
Reply outside = Option (Result × Stream × outside.W)

abbrev pub continues : DataCallbackResult → Bool
continues DataCallbackResult.continue = true
continues DataCallbackResult.stop = false

-- What a request does in a state: return at once, or go on.
pub data Gate : Type 0 where
  done : Result → Gate
  proceed : Gate

abbrev pub pass {ℓ} : {A : Type ℓ} → Gate → (Result → A) → A → A
pass (done result) answer body = answer result
pass proceed answer body = body

pub start_gate : StreamState → Gate
start_gate StreamState.starting = done Result.ok
start_gate StreamState.started = done Result.ok
start_gate StreamState.closed = done Result.error_closed
start_gate _ = proceed

pub pause_gate : StreamState → Gate
pause_gate StreamState.pausing = done Result.ok
pause_gate StreamState.paused = done Result.ok
pause_gate StreamState.closed = done Result.error_closed
pause_gate _ = proceed

pub stop_gate : StreamState → Gate
stop_gate StreamState.stopping = done Result.ok
stop_gate StreamState.stopped = done Result.ok
stop_gate StreamState.closed = done Result.error_closed
stop_gate _ = proceed

abbrev pub is_closed : StreamState → Bool
is_closed StreamState.closed = true
is_closed _ = false

-- the client's position, by the frames handled
pub count_frames : Stream → Stream
count_frames s =
    if is_input s.base
    then record s { frames_read = s.frames_read +ℤ s.base.frames_per_callback }
    else record s { frames_written = s.frames_written +ℤ s.base.frames_per_callback }

module _ (outside : Outside) where
  open outside use {
    W, clear_queue, enqueue, queue_depth, on_audio_ready, nanoseconds, destroy, leave_mix,
    leave_engine,
  }

  -- `getFramesWritten`, and the position that an output stream sets from it when it pauses or stops.
  pub catch_up : Stream → W → Stream × W
  catch_up s w =
      let (s', w') = update_frames_written outside true s w in
      if ltb_ℤ s'.frames_written (pos 0)
      then (s', w')
      else (set_frames_read s'.frames_written s', w')

  -- `AudioOutputStreamOpenSLES::requestPause_l`
  pub pause_output : Stream → W → Result × Stream × W
  pause_output s w =
      pass (pause_gate s.state) (λ result. (result, s, w))
        (let (result, w1) = set_control outside ControlState.paused s w in
          let (s', w2) = catch_up (record s { state = StreamState.pausing }) w1 in
          if is_ok result
          then (result, record s' { state = StreamState.paused }, w2)
          else (result, s, w1))

  -- `AudioOutputStreamOpenSLES::requestFlush_l`
  pub flush_output : Stream → W → Result × W
  flush_output s w =
      let (cleared, w') = clear_queue w in
      if is_closed s.state
      then (Result.error_closed, w)
      else if not s.control_interface
      then (Result.error_invalid_state, w)
      else if not s.queue_interface
      then (Result.error_invalid_state, w)
      else (if cleared then Result.ok else Result.error_internal, w')

  -- `AudioOutputStreamOpenSLES::requestFlush`, which locks `mLock`: it blocks for ever if the thread that
  -- calls it holds that mutex.
  abbrev pub lock_and_flush : Bool → Stream → W → Option (Result × W)
  lock_and_flush true s w = none
  lock_and_flush false s w = some (flush_output s w)

  -- `AudioOutputStreamOpenSLES::requestStop`, which holds `mLock` from its first line to its last. If the
  -- queue cannot be flushed, the message that is logged calls `flush`, which begins with `requestFlush`;
  -- the wait after that would change nothing here.
  pub stop_output : Stream → W → Reply outside
  stop_output s w =
      pass (stop_gate s.state) (λ result. some (result, s, w))
        (let (result, w1) = set_control outside ControlState.stopped s w in
          let stopping = record s { state = StreamState.stopping } in
          let (flushed, w2) = flush_output stopping w1 in
          let (s', w3) =
            catch_up (record stopping { position_millis = reset32 s.position_millis }) w2 in
          if is_ok result
          then (if is_ok flushed
              then some (Result.ok, record s' { state = StreamState.stopped }, w3)
              else elim (lock_and_flush true stopping w2) [
                | none ↦ none
                | some (again, w4) ↦
                    let (s'', w5) =
                      catch_up (record stopping { position_millis = reset32 s.position_millis })
                        w4 in
                    some (Result.ok, record s'' { state = StreamState.stopped }, w5)
              ])
          else some (result, s, w1))

  -- `AudioInputStreamOpenSLES::requestStop_l`
  pub stop_input : Stream → W → Result × Stream × W
  stop_input s w =
      pass (stop_gate s.state) (λ result. (result, s, w))
        (let (result, w1) = set_control outside ControlState.stopped s w in
          if is_ok result
          then (
            result,
            record s { state = StreamState.stopped; position_millis = reset32 s.position_millis },
            w1,
          )
          else (result, s, w1))

  pub request_stop : Stream → W → Reply outside
  request_stop s w = if is_input s.base then some (stop_input s w) else stop_output s w

  -- An input stream neither pauses nor flushes.
  pub request_pause : Stream → W → Reply outside
  request_pause s w =
      if is_input s.base then some (Result.error_unimplemented, s, w) else some (pause_output s w)

  unfoldable pub request_flush : Stream → W → Reply outside
  request_flush s w =
      if is_input s.base
      then some (Result.error_unimplemented, s, w)
      else elim (lock_and_flush false s w) [
        | none ↦ none
        | some (result, w') ↦ some (result, s, w')
      ]

  pub fire_data_callback : List ℕ → ℤ → Stream → W → DataCallbackResult × List ℕ × Stream × W
  fire_data_callback audio_data num_frames s w =
      let (asked, data1, w1) = on_audio_ready audio_data num_frames w in
      let (served, data2, s2) = on_default_callback outside audio_data num_frames s w in
      if not s.data_callback_enabled
      then (DataCallbackResult.stop, audio_data, s, w)
      else if is_data_callback_specified s.base
      then (asked, data1, record s { data_callback_enabled = continues asked }, w1)
      else (served, data2, record s2 { data_callback_enabled = continues served }, w)

  pub enqueue_callback_buffer : Stream → W → Bool × Stream × W
  enqueue_callback_buffer s w =
      let (succeeded, w') = enqueue (get_or s.callback_buffer s.callback_buffer_index []) w in
      (succeeded, record s { callback_buffer_index = (s.callback_buffer_index + 1) % 2 }, w')

  -- the end of `processBufferCallback`, if the stream is to stop
  pub stop_stream : Stream → W → Option (Stream × W)
  stop_stream s w = elim (request_stop s w) [
    | none ↦ none
    | some (result, s', w') ↦ some (record s' { callback_buffer_index = 0 }, w')
  ]

  pub process_buffer_callback : Stream → W → Option (Stream × W)
  process_buffer_callback s w =
      let i = s.callback_buffer_index in
      let (result, audio_data, s1, w1) =
        fire_data_callback (get_or s.callback_buffer i []) s.base.frames_per_callback s w in
      let s2 = record s1 { callback_buffer = set_buffer i audio_data s1.callback_buffer } in
      let (enqueued, s3, w3) = enqueue_callback_buffer s2 w1 in
      let s4 = count_frames s3 in
      elim result [
        | DataCallbackResult.continue ↦ if enqueued then some (s4, w3) else stop_stream s4 w3
        | DataCallbackResult.stop ↦ stop_stream s2 w1
      ]

  -- The output stream fills its first buffer after it has given the mutex back, if the queue is empty.
  pub first_buffer : Stream → W → Reply outside
  first_buffer s w =
      let filled : Reply outside = elim (process_buffer_callback s w) [
        | none ↦ none
        | some (s', w') ↦ some (Result.ok, s', w')
      ] in
      elim (queue_depth w) [ some zero ↦ filled | _ ↦ some (Result.ok, s, w) ]

  pub request_start : Stream → W → Reply outside
  request_start s w =
      pass (start_gate s.state) (λ result. some (result, s, w))
        (let enabled = record s { data_callback_enabled = true } in
          let (result, w1) =
            set_control outside ControlState.running
              (record enabled { state = StreamState.starting }) w in
          let started = record enabled { state = StreamState.started } in
          let (enqueued, s2, w2) = enqueue_callback_buffer started w1 in
          if is_ok result
          then (if is_input s.base then some (Result.ok, s2, w2) else first_buffer started w1)
          else some (result, enabled, w1))

  -- `AudioStreamOpenSLES::close_l`, after the control interface is dropped.
  pub close_l : Stream → W → Result × Stream × W
  close_l s w =
      let (s1, w1) = update_frames_written outside true s w in
      let (s2, w2) = update_frames_read outside true s1 w1 in
      let w3 = if s2.object_interface then destroy w2 else w2 in
      let w4 = if is_input s.base then w3 else leave_mix w3 in
      if is_closed s.state then (Result.error_closed, s, w) else (
        Result.ok,
        record s2 { object_interface = false; queue_interface = false; state = StreamState.closed },
        leave_engine w4,
      )

  -- `close` of the two subclasses: an output stream is paused first, an input stream stopped.
  pub close : Stream → W → Result × Stream × W
  close s w =
      let (result, s1, w1) = if is_input s.base then stop_input s w else pause_output s w in
      if is_closed s.state
      then (Result.error_closed, s, w)
      else close_l (record s1 { control_interface = false }) w1
