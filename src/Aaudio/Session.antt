-- ===== src/Aaudio/Session.antt =====
-- Sequences of calls of a stream between its opening and the next.
use android_audio_samples.Prelude.{
  ℕ, List, [], ◌∷◌, ◌≡◌, refl, ◌∙◌, arith, Option-cases, none, ℤ, inl, inr, if◌then◌else◌,
}
use android_audio_samples.Definitions.{Result}
use android_audio_samples.StreamBase.{Platform}
use android_audio_samples.Quirks.{DeviceQuirks}
use android_audio_samples.Aaudio.{Library, Stream}
use android_audio_samples.Aaudio.Open.{close_aaudio, update_frames_read, update_frames_written}
use android_audio_samples.Aaudio.Requests.{
  request_start, request_pause, request_flush, request_stop, write, read, set_buffer_size_in_frames,
  get_buffer_size_in_frames, internal_error_callback, error_thread,
}

-- Calls that the application may make of a stream that it has opened, and AAudio's report of an error,
-- with the thread that it starts. `open`, which AAudio is called for, and the data callback are not among
-- them.
pub data Call : Type 0 where
  start pause flush stop shut count : Call
  put get : List ℕ → ℤ → ℤ → Call
  resize : ℤ → Call
  report : ℕ → Result → Call

module _ (library : Library) (p : Platform) (q : DeviceQuirks) where
  open library use {W}

  unfoldable pub perform : Call → Stream → W → Stream × W
  perform start s w = let (r, s', w') = request_start library p s w in (s', w')
  perform pause s w = (s, (request_pause library p s w).1)
  perform flush s w = (s, (request_flush library p s w).1)
  perform stop s w = (s, (request_stop library p s w).1)
  perform shut s w = let (r, s', w') = close_aaudio library p s w in (s', w')
  perform count s w =
      ((get_buffer_size_in_frames library p (update_frames_read library p s w) w).1, w)
  perform (put buffer n timeout) s w = (s, (write library p buffer n timeout s w).1)
  perform (get buffer n timeout) s w = (s, (read library p buffer n timeout s w).2)
  perform (resize n) s w = let (r, s', w') = set_buffer_size_in_frames library p q n s w in (s', w')
  perform (report h error) s w =
      let (launched, s') = internal_error_callback library p h error s in
      if launched then error_thread library p s'.error_callback_result s' w else (s', w)

  pub perform_all : List Call → Stream → W → Stream × W
  perform_all [] s w = (s, w)
  perform_all (c ∷ cs) s w = let (s', w') = perform c s w in perform_all cs s' w'

  -- A stream without a stream of AAudio, with `w` the state of AAudio.
  record IsShut (w : W) (t : Stream × W) : Type 0 where
    null : t.0.aaudio_stream ≡ none
    untouched : t.1 ≡ w

  perform-IsShut :
      (c : Call) (s : Stream) (w : W) → s.aaudio_stream ≡ none → IsShut w (perform c s w)
  unfolding perform request_start request_pause request_flush request_stop write read close_aaudio
      set_buffer_size_in_frames get_buffer_size_in_frames update_frames_read update_frames_written
      internal_error_callback
  perform-IsShut start s w e = ground arith
  perform-IsShut pause s w e = ground arith
  perform-IsShut flush s w e = ground arith
  perform-IsShut stop s w e = ground arith
  perform-IsShut shut s w e = ground arith
  perform-IsShut count s w e = ground arith
  perform-IsShut (put b n t) s w e = ground arith
  perform-IsShut (get b n t) s w e = ground arith
  perform-IsShut (resize n) s w e = ground arith
  perform-IsShut (report h r) s w e = ground arith

  perform_all-IsShut :
      (cs : List Call) (s : Stream) (w : W) → s.aaudio_stream ≡ none → IsShut w (perform_all cs s w)
  unfolding perform_all
  perform_all-IsShut [] s w e = record { null = e; untouched = refl }
  perform_all-IsShut (c ∷ cs) s w e =
      let one = perform-IsShut c s w e in
      let rest = perform_all-IsShut cs (perform c s w).0 (perform c s w).1 one.null in
      record { null = rest.null; untouched = rest.untouched ∙ one.untouched }

  close-null : (s : Stream) (w : W) → (close_aaudio library p s w).1.aaudio_stream ≡ none
  unfolding close_aaudio
  close-null s w = elim (Option-cases s.aaudio_stream) [
    | inl e ↦ rw e refl
    | inr (h, e) ↦ rw e refl
  ]

  -- Once a stream is closed, with whatever result, and as long as it is not opened again, no sequence of
  -- starts, pauses, flushes, stops, closings, reads, writes, changes of the buffer's size and counts of
  -- frames, and of reports of errors by AAudio, calls AAudio or the application: it leaves both as
  -- the closing left them, and the stream without a stream of AAudio. A data callback that AAudio makes
  -- late is not one of them.
  pub perform_all-closed :
      (cs : List Call) (s : Stream) (w : W)
      → let (result, closed, w1) = close_aaudio library p s w in
        let (t, w2) = perform_all cs closed w1 in (t.aaudio_stream ≡ none) × (w2 ≡ w1)
  perform_all-closed cs s w =
      let (result, closed, w1) = close_aaudio library p s w in
      let h = perform_all-IsShut cs closed w1 (close-null s w) in (h.null, h.untouched)
