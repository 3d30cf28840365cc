-- ===== src/OpenSles/Stream/Example.antt =====
-- An output stream without a callback, in mono with two bytes a frame, which holds two of its eight
-- frames, for the tests of the blocking calls.
use android_audio_samples.Prelude.{ℕ, ◌+◌, [], ◌∷◌, true, some, ℤ, pos, pos_part}
use android_audio_samples.Definitions.{StreamState, DataCallbackResult, AudioFormat}
use android_audio_samples.StreamBase.{default_base}
use android_audio_samples.Fifo.{FifoBuffer}
use android_audio_samples.OpenSles.Stream.{Outside, Stream}

-- The clock is all there is outside.
abbrev pub clock : Outside
clock = record {
  W = ℕ;
  set_control_state = λ c w. (true, w);
  get_position = λ w. (some 0, w);
  clear_queue = λ w. (true, w);
  enqueue = λ b w. (true, w);
  queue_depth = λ w. some 1;
  on_audio_ready = λ b n w. (DataCallbackResult.continue, b, w);
  nanoseconds = λ w. pos w;
  destroy = λ w. w;
  leave_mix = λ w. w;
  leave_engine = λ w. w;
}

abbrev pub fifo : FifoBuffer
fifo = record {
  total_frames = 8;
  read_counter = 3;
  write_counter = 5;
  bytes_per_frame = 2;
  storage = 1 ∷ 2 ∷ 3 ∷ 4 ∷ 5 ∷ 6 ∷ 7 ∷ 8 ∷ 9 ∷ 10 ∷ 11 ∷ 12 ∷ 13 ∷ 14 ∷ 15 ∷ 16 ∷ [];
  storage_owned = true;
  frames_read_count = 0;
  frames_underrun_count = 0;
}

abbrev pub stream : Stream
stream = record {
  base = record default_base {
    channel_count = pos 1;
    sample_rate = pos 48000;
    format = AudioFormat.i16;
    buffer_size_in_frames = pos 4;
    buffer_capacity_in_frames = pos 8;
  };
  state = StreamState.started;
  data_callback_enabled = true;
  control_interface = true;
  queue_interface = true;
  object_interface = true;
  frames_written = pos 0;
  frames_read = pos 0;
  frames_per_burst = pos 2;
  bytes_per_callback = pos 4;
  position_millis = record { counter64 = pos 0; counter32 = pos 0 };
  callback_buffer = [];
  callback_buffer_index = 0;
  fifo_buffer = some fifo;
  x_run_count = pos 0;
  last_background_size = pos 0;
  background_ran_at = pos 0;
}

abbrev pub sleep : ℤ → Stream → ℕ → Stream × ℕ
sleep nanos s w = (s, w + pos_part nanos)
