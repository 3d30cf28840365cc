-- ===== src/Aaudio/Tests.antt =====
-- An AAudio whose state is the number of its builders, and a stream over it.
use android_audio_samples.Prelude.{
  ℕ, ◌+◌, ◌-◌, ◌≤◌, ◌≡◌, refl, arith, List, [], ◌∷◌, true, false, none, some, ◌⊎◌, pos,
}
use android_audio_samples.Definitions.{
  Result, StreamState, AudioFormat, SharingMode, PerformanceMode, Usage, ContentType, InputPreset,
  SessionId, DataCallbackResult, is_ok,
}
use android_audio_samples.StreamBase.{default_base, Platform}
use android_audio_samples.Quirks.{common}
use android_audio_samples.Aaudio.{Library, Stream, Properties}
use android_audio_samples.Aaudio.Open.{open_aaudio, close_aaudio}
use android_audio_samples.Aaudio.Requests.{
  call_on_audio_ready, fire_data_callback, launch_stop_thread,
}
use android_audio_samples.Aaudio.Wait.{Waited, wait_for_state_change, wait_for_state_change_returns}
use android_audio_samples.Aaudio.Session.{start, stop, report, perform_all, perform_all-closed}
use android_audio_samples.Aaudio.Threads.{
  Event, call, audio, count_threads, starts_in, count_threads-le,
}
use android_audio_samples.Aaudio.Balance.{IsDocumented, is_some, open_aaudio_lem}

abbrev answers : Properties
answers = record {
  device_id = pos 3;
  channel_count = pos 2;
  sample_rate = pos 48000;
  format = AudioFormat.float;
  sharing_mode = SharingMode.exclusive;
  performance_mode = PerformanceMode.low_latency;
  buffer_capacity = pos 1920;
  buffer_size = pos 384;
  frames_per_burst = pos 192;
  usage = Usage.media;
  content_type = ContentType.music;
  input_preset = InputPreset.generic;
  session_id = SessionId.none;
}

abbrev aaudio : Library
aaudio = record {
  W = ℕ;
  has_usage = true;
  has_content_type = true;
  has_input_preset = true;
  has_session_id = true;
  create_builder = λ w. (Result.ok, w + 1);
  open_stream = λ r w. (Result.ok, some 5, w);
  delete_builder = λ w. w - 1;
  properties = λ h w. answers;
  close_stream = λ h w. (Result.ok, w);
  start_stream = λ h w. (Result.ok, w);
  pause_stream = λ h w. (Result.ok, w);
  flush_stream = λ h w. (Result.ok, w);
  stop_stream = λ h w. (Result.ok, w);
  state_of = λ h w. StreamState.started;
  next_state = λ h state w. (Result.error_timeout, StreamState.started, w);
  write_stream = λ h b n t w. (n, w);
  read_stream = λ h b n t w. (n, b, w);
  set_size = λ h n w. (n, w);
  size_of = λ h w. pos 384;
  frames_read_of = λ h w. pos 0;
  frames_written_of = λ h w. pos 0;
  x_run_count_of = λ h w. pos 0;
  timestamp_of = λ h w. (Result.ok, pos 0, pos 0);
  mmap_used_of = λ h w. true;
  on_audio_ready = λ b n w. (DataCallbackResult.stop, b, w);
  on_error = λ e w. (false, w);
  on_error_before_close = λ e w. w;
  on_error_after_close = λ e w. w;
  nanoseconds = λ w. pos 0;
}

abbrev pie : Platform
pie = record { sdk_version = 28; aaudio_supported = true; workarounds_enabled = true }

abbrev fresh : Stream
fresh = record {
  base = record default_base { data_callback = some 1 };
  aaudio_stream = none;
  frames_per_burst = pos 0;
  frames_read = pos 0;
  frames_written = pos 0;
  data_callback_enabled = false;
  stop_thread_allowed = false;
  error_callback_called = false;
  error_callback_result = Result.ok;
}

abbrev opened : Stream
opened = record fresh {
  aaudio_stream = some 5;
  data_callback_enabled = true;
  stop_thread_allowed = true;
}

documented : IsDocumented aaudio (λ w. w)
documented = record { creates = λ w. refl; opens = λ r w. (refl, refl); deletes = λ w. refl }

open_aaudio_lem_example :
    let (result, s', w') = open_aaudio aaudio pie fresh 0 in
    (w' ≡ 0)
    × (((false ≡ true) × (result ≡ Result.error_invalid_state) × (s' ≡ fresh))
        ⊎ ((fresh.aaudio_stream ≡ none) × (is_some s'.aaudio_stream ≡ is_ok result)))
open_aaudio_lem_example = open_aaudio_lem aaudio pie (λ w. w) documented fresh 0

perform_all-closed_example :
    let (result, closed, w1) = close_aaudio aaudio pie opened 4 in
    let (t, w2) =
      perform_all aaudio pie common
        (start ∷ report 5 Result.error_disconnected ∷ stop ∷ [])
        closed
        w1 in
    (t.aaudio_stream ≡ none) × (w2 ≡ w1)
perform_all-closed_example =
    perform_all-closed aaudio pie common (start ∷ report 5 Result.error_disconnected ∷ stop ∷ [])
      opened 4

abbrev events : List Event
events =
    audio [] (pos 192)
    ∷ audio [] (pos 192)
    ∷ call (report 5 Result.error_timeout)
    ∷ call start
    ∷ call (report 5 Result.error_timeout)
    ∷ []

count_threads-le_example :
    let t = count_threads aaudio pie common events opened 0 in
    (t.for_errors ≤ 1) × (t.for_stops ≤ starts_in events + 1)
count_threads-le_example = count_threads-le aaudio pie common events opened 0

-- The first callback that stops starts a thread, and goes on as far as AAudio sees.
stops : call_on_audio_ready aaudio pie [] (pos 192) opened 0 ≡ (
  DataCallbackResult.continue,
  [],
  true,
  record opened { data_callback_enabled = false; stop_thread_allowed = false },
  0,
)
unfolding call_on_audio_ready fire_data_callback launch_stop_thread
stops = refl

wait_for_state_change_returns_example :
    (t : Waited aaudio pie (λ n s w. (s, w))) × (wait_for_state_change aaudio pie
        (λ n s w. (s, w))
        3
        StreamState.started
        StreamState.unknown
        (pos 30000000)
        opened
        0
      ≡ some t)
wait_for_state_change_returns_example =
    wait_for_state_change_returns aaudio pie (λ n s w. (s, w)) 2 StreamState.started
      StreamState.unknown (pos 30000000) opened 0 (omega arith)
