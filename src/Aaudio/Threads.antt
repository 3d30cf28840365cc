-- ===== src/Aaudio/Threads.antt =====
-- The threads that a stream starts: one for the first error, and one to stop it after a callback.
use android_audio_samples.Prelude.{
  ℕ, ◌+◌, ◌≤◌, List, [], ◌∷◌, ◌≡◌, arith, Bool, true, false, not, ℤ, if◌then◌else◌,
}
use android_audio_samples.StreamBase.{Platform}
use android_audio_samples.Quirks.{DeviceQuirks}
use android_audio_samples.Aaudio.{Library, Stream}
use android_audio_samples.Aaudio.Open.{close_aaudio, update_frames_read, update_frames_written}
use android_audio_samples.Aaudio.Requests.{
  request_start, set_buffer_size_in_frames, get_buffer_size_in_frames, internal_error_callback,
  error_thread, fire_data_callback, launch_stop_thread, call_on_audio_ready,
}
use android_audio_samples.Aaudio.Session.{
  Call, start, pause, flush, stop, shut, count, put, get, resize, report, perform,
}

-- A call, or the callback for the next buffer.
pub data Event : Type 0 where
  call : Call → Event
  audio : List ℕ → ℤ → Event

-- How many threads were started.
pub record Threads : Type 0 where
  pub for_errors : ℕ
  pub for_stops : ℕ

abbrev one_if : Bool → ℕ
one_if true = 1
one_if false = 0

pub starts_in : List Event → ℕ
starts_in [] = 0
starts_in (call start ∷ es) = 1 + starts_in es
starts_in (e ∷ es) = starts_in es

module _ (library : Library) (p : Platform) (q : DeviceQuirks) where
  open library use {W}

  pub step : Event → Stream → W → Threads × Stream × W
  step (call (report h error)) s w =
      let (launched, s') = internal_error_callback library p h error s in
      let (s'', w') = perform library p q (report h error) s w in
      (record { for_errors = one_if launched; for_stops = 0 }, s'', w')
  step (call c) s w =
      let (s', w') = perform library p q c s w in (record { for_errors = 0; for_stops = 0 }, s', w')
  step (audio buffer n) s w =
      let (result, filled, launched, s', w') = call_on_audio_ready library p buffer n s w in
      (record { for_errors = 0; for_stops = one_if launched }, s', w')

  pub count_threads : List Event → Stream → W → Threads
  count_threads [] s w = record { for_errors = 0; for_stops = 0 }
  count_threads (e ∷ es) s w =
      let (now, s', w') = step e s w in
      let later = count_threads es s' w' in
      record {
        for_errors = now.for_errors + later.for_errors;
        for_stops = now.for_stops + later.for_stops;
      }

  -- What a step may start, against what it leaves to the later ones.
  record IsBudgeted (allowed : ℕ) (s : Stream) (t : Threads × Stream × W) : Type 0 where
    errors :
        t.0.for_errors + one_if (not t.1.error_callback_called)
        ≤ one_if (not s.error_callback_called)
    stops : t.0.for_stops + one_if t.1.stop_thread_allowed ≤ allowed + one_if s.stop_thread_allowed

  step-IsBudgeted :
      (e : Event) (s : Stream) (w : W) → IsBudgeted (starts_in (e ∷ [])) s (step e s w)
  unfolding step starts_in perform request_start close_aaudio set_buffer_size_in_frames
      get_buffer_size_in_frames update_frames_read update_frames_written internal_error_callback
      error_thread call_on_audio_ready fire_data_callback launch_stop_thread
  step-IsBudgeted (call start) s w = ground arith
  step-IsBudgeted (call pause) s w = ground arith
  step-IsBudgeted (call flush) s w = ground arith
  step-IsBudgeted (call stop) s w = ground arith
  step-IsBudgeted (call shut) s w = ground arith
  step-IsBudgeted (call count) s w = ground arith
  step-IsBudgeted (call (put b n t)) s w = ground arith
  step-IsBudgeted (call (get b n t)) s w = ground arith
  step-IsBudgeted (call (resize n)) s w = ground arith
  step-IsBudgeted (call (report h r)) s w = ground arith
  step-IsBudgeted (audio b n) s w = ground arith

  starts_in-cons :
      (e : Event) (es : List Event) → starts_in (e ∷ es) ≡ starts_in (e ∷ []) + starts_in es
  unfolding starts_in
  starts_in-cons e es = ground arith

  -- Whatever the application calls and AAudio reports, at most one thread is started for an error,
  -- and none if one was reported before; and at most one to stop the stream for each start, with one more if
  -- the stream was started before and has not been stopped that way.
  pub count_threads-le :
      (es : List Event) (s : Stream) (w : W)
      → let t = count_threads es s w in
        (t.for_errors ≤ (if s.error_callback_called then 0 else 1))
        × (t.for_stops ≤ starts_in es + (if s.stop_thread_allowed then 1 else 0))
  unfolding count_threads
  count_threads-le [] s w = (ground arith, ground arith)
  count_threads-le (e ∷ es) s w =
      let (now, s', w') = step e s w in
      let one = step-IsBudgeted e s w in
      let rest = count_threads-le es s' w' in
      let sum = starts_in-cons e es in
      (ground (arith, one.errors, rest), ground (arith, one.stops, rest, sum))
