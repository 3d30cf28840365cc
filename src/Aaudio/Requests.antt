-- ===== src/Aaudio/Requests.antt =====
-- The requests, reading and writing, the sizes and times, and the callbacks.
use android_audio_samples.Prelude.{
  ℕ, List, Bool, true, false, not, ◌&&◌, ◌||◌, ◌==◌, none, some, ℤ, pos, pos_part, leb, ltb_ℤ, ◌+ℤ◌,
  ◌-ℤ◌, inl, inr, if◌then◌else◌,
}
use android_audio_samples.Definitions.{
  Result, StreamState, SharingMode, DataCallbackResult, is_ok, result_code,
}
use android_audio_samples.StreamBase.{Platform, is_input, is_data_callback_specified}
use android_audio_samples.MonotonicCounter.{quotient, times}
use android_audio_samples.Quirks.{DeviceQuirks, StreamSizes, clip_buffer_size}
use android_audio_samples.Aaudio.{Library, Stream, Answer, create_based_on_sign, is_early}
use android_audio_samples.Aaudio.Open.{
  stop_handle, get_state, close_aaudio, update_frames_read, update_frames_written,
}

abbrev pub starts : StreamState → Bool
starts StreamState.starting = true
starts StreamState.started = true
starts _ = false

abbrev pauses : StreamState → Bool
pauses StreamState.pausing = true
pauses StreamState.paused = true
pauses _ = false

abbrev flushes : StreamState → Bool
flushes StreamState.flushing = true
flushes StreamState.flushed = true
flushes _ = false

abbrev is_started : StreamState → Bool
is_started StreamState.started = true
is_started _ = false

abbrev is_exclusive : SharingMode → Bool
is_exclusive SharingMode.exclusive = true
is_exclusive SharingMode.shared = false

-- `ErrorClosed`, as the code of an error
abbrev pub closed_answer : Answer
closed_answer = inl (result_code Result.error_closed)

module _ (library : Library) (p : Platform) where
  open library use {
    W, start_stream, pause_stream, flush_stream, state_of, write_stream, read_stream, set_size,
    size_of, x_run_count_of, timestamp_of, mmap_used_of, on_audio_ready, on_error,
    on_error_before_close, on_error_after_close, nanoseconds,
  }

  unfoldable pub request_start : Stream → W → Result × Stream × W
  request_start s w = elim s.aaudio_stream [
    | none ↦ (Result.error_closed, s, w)
    | some h ↦
        let enabled = record s {
          data_callback_enabled = is_data_callback_specified s.base || s.data_callback_enabled;
          stop_thread_allowed = true;
        } in
        let (result, w') = start_stream h w in
        if is_early p && starts (state_of h w) then (Result.ok, s, w) else (result, enabled, w')
  ]

  unfoldable pub request_pause : Stream → W → Result × W
  request_pause s w = elim s.aaudio_stream [
    | none ↦ (Result.error_closed, w)
    | some h ↦ if is_early p && pauses (state_of h w) then (Result.ok, w) else pause_stream h w
  ]

  unfoldable pub request_flush : Stream → W → Result × W
  request_flush s w = elim s.aaudio_stream [
    | none ↦ (Result.error_closed, w)
    | some h ↦ if is_early p && flushes (state_of h w) then (Result.ok, w) else flush_stream h w
  ]

  unfoldable pub request_stop : Stream → W → Result × W
  request_stop s w = elim s.aaudio_stream [
    | none ↦ (Result.error_closed, w)
    | some h ↦ stop_handle library p h w
  ]

  unfoldable pub write : List ℕ → ℤ → ℤ → Stream → W → Answer × W
  write buffer num_frames timeout s w = elim s.aaudio_stream [
    | none ↦ (closed_answer, w)
    | some h ↦
        let (result, w') = write_stream h buffer num_frames timeout w in
        (create_based_on_sign result, w')
  ]

  -- With the caller's buffer after the call.
  unfoldable pub read : List ℕ → ℤ → ℤ → Stream → W → Answer × List ℕ × W
  read buffer num_frames timeout s w = elim s.aaudio_stream [
    | none ↦ (closed_answer, buffer, w)
    | some h ↦
        let (result, filled, w') = read_stream h buffer num_frames timeout w in
        (create_based_on_sign result, filled, w')
  ]

  unfoldable pub is_mmap_used : Stream → W → Bool
  is_mmap_used s w = elim s.aaudio_stream [ none ↦ false | some h ↦ mmap_used_of h w ]

  -- What `clipBufferSize` asks the stream; the sizes of a stream are not negative.
  unfoldable pub sizes_of : Stream → W → StreamSizes
  sizes_of s w = record {
    mmap_used = is_mmap_used s w;
    exclusive = is_exclusive s.base.sharing_mode;
    frames_per_burst = pos_part s.frames_per_burst;
    capacity = pos_part s.base.buffer_capacity_in_frames;
  }

  -- `adjustedFrames`
  unfoldable pub adjusted_frames : DeviceQuirks → ℤ → Stream → W → ℤ
  adjusted_frames q requested s w =
      let capacity = s.base.buffer_capacity_in_frames in
      clip_buffer_size p q (sizes_of s w) (if ltb_ℤ capacity requested then capacity else requested)

  unfoldable pub set_buffer_size_in_frames : DeviceQuirks → ℤ → Stream → W → Answer × Stream × W
  set_buffer_size_in_frames q requested s w = elim s.aaudio_stream [
    | none ↦ (closed_answer, s, w)
    | some h ↦
        let (size, w') = set_size h (adjusted_frames q requested s w) w in
        let resized = record s { base = record s.base { buffer_size_in_frames = size } } in
        (create_based_on_sign size, if ltb_ℤ (pos 0) size then resized else s, w')
  ]

  unfoldable pub get_buffer_size_in_frames : Stream → W → ℤ × Stream
  get_buffer_size_in_frames s w = elim s.aaudio_stream [
    | none ↦ (s.base.buffer_size_in_frames, s)
    | some h ↦
        (size_of h w, record s { base = record s.base { buffer_size_in_frames = size_of h w } })
  ]

  unfoldable pub get_x_run_count : Stream → W → Answer
  get_x_run_count s w = elim s.aaudio_stream [
    | none ↦ inl (result_code Result.error_null)
    | some h ↦ create_based_on_sign (x_run_count_of h w)
  ]

  -- The result, the position and the time.
  unfoldable pub get_timestamp : Stream → W → Result × ℤ × ℤ
  get_timestamp s w =
      let nothing : Result → Result × ℤ × ℤ = λ r. (r, pos 0, pos 0) in
      let asked : Result × ℤ × ℤ = elim s.aaudio_stream [
        | none ↦ nothing Result.error_null
        | some h ↦ timestamp_of h w
      ] in
      if is_started (get_state library p s w) then asked else nothing Result.error_invalid_state

  -- `calculateLatencyMillis`, in nanoseconds: `latencyNanos` before it is divided. The sample rate of an
  -- open stream is positive.
  unfoldable pub latency_nanos : Stream → W → Answer
  latency_nanos s w =
      let (result, position, time) = get_timestamp s w in
      let written = (update_frames_written library p s w).frames_written in
      let read_frames = (update_frames_read library p s w).frames_read in
      let app = if is_input s.base then read_frames else written in
      let delta = quotient (times (app -ℤ position) 1000000000) (pos_part s.base.sample_rate) in
      let hardware = time +ℤ delta in
      let now = nanoseconds w in
      if is_ok result
      then inr (if is_input s.base then now -ℤ hardware else hardware -ℤ now)
      else inl (result_code result)

  -- `fireDataCallback`; without a data callback the stream's own returns `Stop`.
  unfoldable pub fire_data_callback :
      List ℕ → ℤ → Stream → W → DataCallbackResult × List ℕ × Stream × W
  fire_data_callback buffer num_frames s w =
      let (asked, filled, w') = on_audio_ready buffer num_frames w in
      let goes_on : Bool = elim asked [
        | DataCallbackResult.continue ↦ true
        | DataCallbackResult.stop ↦ false
      ] in
      if not s.data_callback_enabled
      then (DataCallbackResult.stop, buffer, s, w)
      else if is_data_callback_specified s.base
      then (asked, filled, record s { data_callback_enabled = goes_on }, w')
      else (DataCallbackResult.stop, buffer, record s { data_callback_enabled = false }, w)

  -- Whether a thread is started that stops the stream.
  unfoldable pub launch_stop_thread : Stream → Bool × Stream
  launch_stop_thread s = (s.stop_thread_allowed, record s { stop_thread_allowed = false })

  -- With whether it starts the thread. Up to R AAudio is told to go on, and the thread stops it.
  unfoldable pub call_on_audio_ready :
      List ℕ → ℤ → Stream → W → DataCallbackResult × List ℕ × Bool × Stream × W
  call_on_audio_ready buffer num_frames s w =
      let (result, filled, s', w') = fire_data_callback buffer num_frames s w in
      let (launched, s'') = launch_stop_thread s' in
      elim result [
        | DataCallbackResult.continue ↦ (DataCallbackResult.continue, filled, false, s', w')
        | DataCallbackResult.stop ↦
            if p.workarounds_enabled && leb p.sdk_version 30
            then (DataCallbackResult.continue, filled, launched, s'', w')
            else (DataCallbackResult.stop, filled, false, s', w')
      ]

  -- On R a timeout stands for a disconnection.
  unfoldable pub coerced : Result → Result
  coerced Result.error_timeout =
      if p.workarounds_enabled && p.sdk_version == 30
      then Result.error_disconnected
      else Result.error_timeout
  coerced error = error

  abbrev is_underlying : ℕ → Stream → Bool
  is_underlying h s = elim s.aaudio_stream [ none ↦ false | some k ↦ h == k ]

  -- `internalErrorCallback`, from a stream of AAudio; whether a thread is started for the error.
  unfoldable pub internal_error_callback : ℕ → Result → Stream → Bool × Stream
  internal_error_callback h error s = (
    not s.error_callback_called && is_underlying h s,
    record s { error_callback_result = coerced error; error_callback_called = true },
  )

  -- `oboe_aaudio_error_thread_proc`, the thread
  unfoldable pub error_thread : Result → Stream → W → Stream × W
  error_thread error s w =
      let (handled, w1) = on_error error w in
      let w2 = on_error_before_close error (request_stop s w1).1 in
      let (result, s', w3) = close_aaudio library p s w2 in
      elim s.base.error_callback [
        | none ↦ (s, w)
        | some f ↦ if handled then (s, w1) else (s', on_error_after_close error w3)
      ]
