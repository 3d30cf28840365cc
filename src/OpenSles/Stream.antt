-- ===== src/OpenSles/Stream.antt =====
-- The output and input streams of OpenSL ES: src/opensles/AudioStreamBuffered.cpp,
-- src/opensles/AudioStreamOpenSLES.cpp, src/opensles/AudioOutputStreamOpenSLES.cpp and
-- src/opensles/AudioInputStreamOpenSLES.cpp, from the open stream on, with `fireDataCallback` and
-- `close` of src/common/AudioStream.cpp. The direction says which subclass a stream is.
-- A request runs alone, under the stream's mutex. A thread that locks a mutex that it holds never goes
-- on: such a call is `none`.
mod Formats
mod Configuring
mod Opening
mod Requests
mod Transfer
mod Waiting
mod Example
use android_audio_samples.Prelude.{
  ℕ, zero, suc, ◌+◌, ◌%◌, List, [], ◌∷◌, get_or, Bool, true, false, not, ◌&&◌, Option, some, none,
  ℤ, pos, pos_part, ◌+ℤ◌, ltb_ℤ, if◌then◌else◌,
}
use android_audio_samples.Definitions.{Result, StreamState, DataCallbackResult}
use android_audio_samples.StreamBase.{AudioStreamBase, is_input, is_data_callback_specified}
use android_audio_samples.MonotonicCounter.{MonotonicCounter, quotient, times, get, set, update32}
use android_audio_samples.Fifo
use android_audio_samples.Fifo.{FifoBuffer, read_now}

-- `SL_PLAYSTATE_*` and `SL_RECORDSTATE_*`
pub data ControlState : Type 0 where
  stopped paused running : ControlState

-- What is outside of the stream: the interfaces of OpenSL ES, the application's callback, the clock.
-- `W` is their state, a flag is `SL_RESULT_SUCCESS`. `leave_mix` and `leave_engine` close the two shared
-- objects, which OpenSles.Engine models.
pub record Outside : Type 1 where
  pub W : Type 0
  pub set_control_state : ControlState → W → Bool × W
  pub get_position : W → Option ℕ × W
  pub clear_queue : W → Bool × W
  pub enqueue : List ℕ → W → Bool × W
  pub queue_depth : W → Option ℕ
  pub on_audio_ready : List ℕ → ℤ → W → DataCallbackResult × List ℕ × W
  pub nanoseconds : W → ℤ
  pub destroy : W → W
  pub leave_mix : W → W
  pub leave_engine : W → W

-- The fields of the class and of its base classes. The three interfaces are only set or null.
pub record Stream : Type 0 where
  pub base : AudioStreamBase
  pub state : StreamState
  pub data_callback_enabled : Bool
  pub control_interface : Bool
  pub queue_interface : Bool
  pub object_interface : Bool
  pub frames_written : ℤ
  pub frames_read : ℤ
  pub frames_per_burst : ℤ
  pub bytes_per_callback : ℤ
  pub position_millis : MonotonicCounter
  pub callback_buffer : List (List ℕ)
  pub callback_buffer_index : ℕ
  pub fifo_buffer : Option FifoBuffer
  pub x_run_count : ℤ
  pub last_background_size : ℤ
  pub background_ran_at : ℤ

abbrev pub using_fifo : Stream → Bool
using_fifo s = not (is_data_callback_specified s.base)

-- `mCallbackBuffer[i] = …` of the two buffers
abbrev set_buffer : ℕ → List ℕ → List (List ℕ) → List (List ℕ)
set_buffer i b [] = []
set_buffer zero b (c ∷ cs) = b ∷ cs
set_buffer (suc i) b (c ∷ cs) = c ∷ set_buffer i b cs

-- Frames from milliseconds and back. The sample rate of an open stream is positive.
abbrev frames_of_millis : Stream → ℤ → ℤ
frames_of_millis s millis = quotient (times millis (pos_part s.base.sample_rate)) 1000

-- `AudioOutputStreamOpenSLES::setFramesRead`
pub set_frames_read : ℤ → Stream → Stream
set_frames_read frames s = record s {
  position_millis =
      set (quotient (times frames 1000) (pos_part s.base.sample_rate)) s.position_millis;
}

-- The two methods of `AudioStreamBuffered`.
pub buffered_frames_written : Stream → Stream
buffered_frames_written s = elim s.fifo_buffer [
  | some f ↦ record s { frames_written = pos f.write_counter }
  | none ↦ s
]

pub buffered_frames_read : Stream → Stream
buffered_frames_read s = elim s.fifo_buffer [
  | some f ↦ record s { frames_read = pos f.read_counter }
  | none ↦ s
]

module _ (outside : Outside) where
  open outside use {W, set_control_state, get_position, enqueue, on_audio_ready, nanoseconds}

  -- `setPlayState_l` and `setRecordState_l`
  pub set_control : ControlState → Stream → W → Result × W
  set_control new_state s w =
      let (succeeded, w') = set_control_state new_state w in
      if not s.control_interface
      then (Result.error_invalid_state, w)
      else (if succeeded then Result.ok else Result.error_internal, w')

  -- `held` says that the caller holds the mutex: then `try_lock` fails, and nothing is done.
  pub update_service_frame_counter : Bool → Stream → W → Result × Stream × W
  update_service_frame_counter held s w =
      let (position, w') = get_position w in
      if held
      then (Result.ok, s, w)
      else if not s.control_interface
      then (Result.error_null, s, w)
      else elim position [
        | none ↦ (Result.error_internal, s, w')
        | some msec ↦
            (Result.ok, record s { position_millis = update32 (pos msec) s.position_millis }, w')
      ]

  -- `getFramesProcessedByServer`
  pub frames_processed_by_server : Bool → Stream → W → ℤ × Stream × W
  frames_processed_by_server held s w =
      let (result, s', w') = update_service_frame_counter held s w in
      (frames_of_millis s' (get s'.position_millis), s', w')

  -- Overridden by the input stream only.
  pub update_frames_written : Bool → Stream → W → Stream × W
  update_frames_written held s w =
      let (frames, s', w') = frames_processed_by_server held s w in
      if is_input s.base && not (using_fifo s)
      then (record s' { frames_written = frames }, w')
      else (buffered_frames_written s, w)

  -- Overridden by the output stream only.
  pub update_frames_read : Bool → Stream → W → Stream × W
  update_frames_read held s w =
      let (frames, s', w') = frames_processed_by_server held s w in
      if not (is_input s.base) && not (using_fifo s)
      then (record s' { frames_read = frames }, w')
      else (buffered_frames_read s, w)

  -- `onDefaultCallback`: the back end of the FIFO, which a stream without a data callback has.
  pub on_default_callback : List ℕ → ℤ → Stream → W → DataCallbackResult × List ℕ × Stream
  on_default_callback audio_data num_frames s w = elim s.fifo_buffer [
    | none ↦ (DataCallbackResult.continue, audio_data, s)
    | some f ↦
        (let (frames_written, f1) = Fifo.write f audio_data num_frames in
          let (frames_read, audio_data', f2) = read_now f audio_data num_frames in
          let frames = if is_input s.base then frames_written else frames_read in
          (
            DataCallbackResult.continue,
            if is_input s.base then audio_data else audio_data',
            record s {
              fifo_buffer = some (if is_input s.base then f1 else f2);
              x_run_count =
                  if ltb_ℤ frames num_frames then s.x_run_count +ℤ pos 1 else s.x_run_count;
              last_background_size = num_frames;
              background_ran_at = nanoseconds w;
            },
          ))
  ]
