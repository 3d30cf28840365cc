-- ===== src/OpenSles/Stream/Requests/Tests.antt =====
-- An output stream without a data callback, over an OpenSL ES whose queue cannot be cleared.
use android_audio_samples.Prelude.{
  Returned, ℕ, suc, [], ◌∷◌, ◌≡◌, ◌≢◌, ◌⊎◌, ◌↔◌, refl, true, false, some, none, pos,
}
use android_audio_samples.Definitions.{Result, StreamState, AudioFormat, DataCallbackResult}
use android_audio_samples.StreamBase.{default_base}
use android_audio_samples.OpenSles.Stream.{Outside, Stream, ControlState, set_control}
use android_audio_samples.OpenSles.Stream.Requests.{
  proceed, stop_gate, continues, request_start, request_stop, request_pause, request_flush,
  stop_output, flush_output, fire_data_callback, close,
}
use android_audio_samples.OpenSles.Stream.Requests.Session.{
  start, pause, stop, shut, perform_all, Lives, perform_all-Lives,
}
use android_audio_samples.OpenSles.Stream.Requests.Errors.{
  closed_requests, failed_requests, stop_output-none, fire_data_callback-stop,
}

-- It counts the calls; its application stops at the first callback.
abbrev counting : Outside
counting = record {
  W = ℕ;
  set_control_state = λ c w. (true, suc w);
  get_position = λ w. (some w, suc w);
  clear_queue = λ w. (false, suc w);
  enqueue = λ b w. (true, suc w);
  queue_depth = λ w. some 1;
  on_audio_ready = λ b n w. (DataCallbackResult.stop, b, suc w);
  nanoseconds = λ w. pos w;
  destroy = λ w. suc w;
  leave_mix = λ w. suc w;
  leave_engine = λ w. suc w;
}

abbrev stream : Stream
stream = record {
  base = record default_base {
    data_callback = some 1;
    frames_per_callback = pos 192;
    channel_count = pos 2;
    sample_rate = pos 48000;
    format = AudioFormat.i16;
  };
  state = StreamState.opened;
  data_callback_enabled = true;
  control_interface = true;
  queue_interface = true;
  object_interface = true;
  frames_written = pos 0;
  frames_read = pos 0;
  frames_per_burst = pos 192;
  bytes_per_callback = pos 768;
  position_millis = record { counter64 = pos 0; counter32 = pos 0 };
  callback_buffer = (1 ∷ 2 ∷ []) ∷ (3 ∷ 4 ∷ []) ∷ [];
  callback_buffer_index = 0;
  fifo_buffer = none;
  x_run_count = pos 0;
  last_background_size = pos 0;
  background_ran_at = pos 0;
}

abbrev shut_stream : Stream
shut_stream = record stream { state = StreamState.closed }

perform_all-Lives_example :
    Returned
      (λ (q : Stream × ℕ). Lives stream q.0)
      (perform_all counting (start ∷ pause ∷ start ∷ shut ∷ stop ∷ []) stream 0)
perform_all-Lives_example =
    perform_all-Lives counting (start ∷ pause ∷ start ∷ shut ∷ stop ∷ []) stream 0

closed_requests_refused :
    (request_start counting shut_stream 7 ≡ some (Result.error_closed, shut_stream, 7))
    × (request_stop counting shut_stream 7 ≡ some (Result.error_closed, shut_stream, 7))
    × (request_pause counting shut_stream 7 ≡ some (Result.error_closed, shut_stream, 7))
    × (request_flush counting shut_stream 7 ≡ some (Result.error_closed, shut_stream, 7))
    × (close counting shut_stream 7 ≡ (Result.error_closed, shut_stream, 7))
closed_requests_refused = closed_requests counting shut_stream 7 refl

failed_requests_example :
    Returned
      (λ (q : Result × Stream × ℕ). (q.0 ≡ Result.ok) ⊎ (q.1.state ≡ StreamState.opened))
      (request_start counting stream 0)
    × Returned
        (λ (q : Result × Stream × ℕ). (q.0 ≡ Result.ok) ⊎ (q.1.state ≡ StreamState.opened))
        (request_stop counting stream 0)
    × Returned
        (λ (q : Result × Stream × ℕ). (q.0 ≡ Result.ok) ⊎ (q.1.state ≡ StreamState.opened))
        (request_pause counting stream 0)
failed_requests_example = failed_requests counting stream 0

opened_proceeds : stop_gate StreamState.opened ≡ proceed
unfolding stop_gate
opened_proceeds = refl

-- it hangs
stop_hangs : stop_output counting stream 0 ≡ none
unfolding stop_output stop_gate set_control flush_output
stop_hangs = refl

stop_blocks : (stop_output counting stream 0 ≡ none) ↔ (
    ((set_control counting ControlState.stopped stream 0).0 ≡ Result.ok)
    × ((flush_output counting
          (record stream { state = StreamState.stopping })
          (set_control counting ControlState.stopped stream 0).1).0
        ≢ Result.ok))
stop_blocks = stop_output-none counting stream 0 opened_proceeds

asked_to_stop : continues (fire_data_callback counting [] (pos 192) stream 0).0 ≡ false
unfolding fire_data_callback
asked_to_stop = refl

fire_data_callback_stopped :
    fire_data_callback counting
      (5 ∷ [])
      (pos 96)
      (fire_data_callback counting [] (pos 192) stream 0).2
      (fire_data_callback counting [] (pos 192) stream 0).3
    ≡ (
      DataCallbackResult.stop,
      5 ∷ [],
      (fire_data_callback counting [] (pos 192) stream 0).2,
      (fire_data_callback counting [] (pos 192) stream 0).3,
    )
fire_data_callback_stopped =
    fire_data_callback-stop counting [] (5 ∷ []) (pos 192) (pos 96) stream 0 asked_to_stop
