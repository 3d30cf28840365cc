-- ===== src/OpenSles/Stream/Requests/Laws.antt =====
-- What the requests leave behind.
use android_audio_samples.Prelude.{
  Returned, blocks, returns, ℕ, List, ℤ, ◌≡◌, ◌≢◌, refl, arith, ◌⊎◌, inl, inr, not, Option, some,
  none, Option-cases, Bool-cases, get_or, [], ◌∙◌, if-elim,
}
use android_audio_samples.Definitions.{Result, StreamState, DataCallbackResult}
use android_audio_samples.StreamBase.{is_input, is_data_callback_specified}
use android_audio_samples.OpenSles.Stream.{
  Outside, Stream, set_buffer, update_frames_written, set_frames_read, frames_processed_by_server,
  update_service_frame_counter, buffered_frames_written, on_default_callback,
}
use android_audio_samples.OpenSles.Stream.Requests.{
  Reply, Gate, pass, done, proceed, start_gate, pause_gate, stop_gate, catch_up, pause_output,
  stop_output, stop_input, request_stop, fire_data_callback, enqueue_callback_buffer, count_frames,
  stop_stream, process_buffer_callback,
}

-- A state that no request is in the middle of.
abbrev pub IsSettled : StreamState → Type 0
IsSettled s =
    (s ≢ StreamState.starting)
    × (s ≢ StreamState.pausing)
    × (s ≢ StreamState.flushing)
    × (s ≢ StreamState.stopping)
    × (s ≢ StreamState.closing)

pub pass-elim {ℓ κ} :
    {A : Type ℓ} (P : A → Type κ) (g : Gate) {answer : Result → A} {body : A}
    → ((r : Result) → g ≡ done r → P (answer r))
    → (g ≡ proceed → P body)
    → P (pass g answer body)
pass-elim P (done r) told went = told r refl
pass-elim P proceed told went = went refl

pause_gate_opened : (s : StreamState) → pause_gate s ≡ proceed → s ≢ StreamState.closed
unfolding pause_gate
pause_gate_opened s g = ground arith

stop_gate_opened : (s : StreamState) → stop_gate s ≡ proceed → s ≢ StreamState.closed
unfolding stop_gate
stop_gate_opened s g = ground arith

pub start_gate_opened : (s : StreamState) → start_gate s ≡ proceed → s ≢ StreamState.closed
unfolding start_gate
start_gate_opened s g = ground arith

on_result :
    {A : Type 0} (P : A → Type 0) (r : DataCallbackResult) {x y : A}
    → P x
    → P y
    → P (elim r [ DataCallbackResult.continue ↦ x | DataCallbackResult.stop ↦ y ])
on_result P DataCallbackResult.continue p q = p
on_result P DataCallbackResult.stop p q = q

module _ (outside : Outside) where
  open outside use {W}

  pub catch_up-state : (s : Stream) (w : W) → (catch_up outside s w).0.state ≡ s.state
  unfolding catch_up update_frames_written set_frames_read frames_processed_by_server
      update_service_frame_counter buffered_frames_written
  catch_up-state s w = ground arith

  -- A request leaves the state, or takes the stream to the state asked for; it never opens a closed one.
  abbrev pub Reaches : StreamState → Stream → Stream → Type 0
  Reaches target s s' =
      (s'.state ≡ s.state) ⊎ ((s'.state ≡ target) × (s.state ≢ StreamState.closed))

  pub pause_output-Reaches :
      (s : Stream) (w : W) → Reaches StreamState.paused s (pause_output outside s w).1
  unfolding pause_output
  pause_output-Reaches s w =
      pass-elim (λ (r : Result × Stream × W). Reaches StreamState.paused s r.1) (pause_gate s.state)
        (λ r g. inl refl)
        (λ g.
          if-elim (λ (r : Result × Stream × W). Reaches StreamState.paused s r.1) _
            (inr (refl, pause_gate_opened s.state g)) (inl refl))

  stop_input-Reaches :
      (s : Stream) (w : W) → Reaches StreamState.stopped s (stop_input outside s w).1
  unfolding stop_input
  stop_input-Reaches s w =
      pass-elim (λ (r : Result × Stream × W). Reaches StreamState.stopped s r.1) (stop_gate s.state)
        (λ r g. inl refl)
        (λ g.
          if-elim (λ (r : Result × Stream × W). Reaches StreamState.stopped s r.1) _
            (inr (refl, stop_gate_opened s.state g)) (inl refl))

  stop_output-Reaches :
      (s : Stream) (w : W)
      → Returned (λ r. Reaches StreamState.stopped s r.1) (stop_output outside s w)
  unfolding stop_output
  stop_output-Reaches s w =
      pass-elim (Returned (λ r. Reaches StreamState.stopped s r.1)) (stop_gate s.state)
        (λ r g. returns (inl refl))
        (λ g.
          if-elim (Returned (λ r. Reaches StreamState.stopped s r.1)) _
            (if-elim (Returned (λ r. Reaches StreamState.stopped s r.1)) _
              (returns (inr (refl, stop_gate_opened s.state g))) blocks)
            (returns (inl refl)))

  pub request_stop-Reaches :
      (s : Stream) (w : W)
      → Returned (λ r. Reaches StreamState.stopped s r.1) (request_stop outside s w)
  unfolding request_stop
  request_stop-Reaches s w =
      if-elim (Returned (λ r. Reaches StreamState.stopped s r.1)) _
        (returns (stop_input-Reaches s w)) (stop_output-Reaches s w)

  on_default_callback-state :
      (b : List ℕ) (n : ℤ) (s : Stream) (w : W)
      → (on_default_callback outside b n s w).2.state ≡ s.state
  unfolding on_default_callback
  on_default_callback-state b n s w = elim (Option-cases s.fifo_buffer) [
    | inl e ↦ rw e refl
    | inr (f, e) ↦ rw e refl
  ]

  fire_data_callback-state :
      (b : List ℕ) (n : ℤ) (s : Stream) (w : W)
      → (fire_data_callback outside b n s w).2.state ≡ s.state
  unfolding fire_data_callback
  fire_data_callback-state b n s w = elim (Bool-cases (not s.data_callback_enabled)) [
    | inl off ↦ rw off refl
    | inr on ↦ elim (Bool-cases (is_data_callback_specified s.base)) [
      | inl given ↦ rw (on, given) refl
      | inr none_given ↦ rw (on, none_given) (on_default_callback-state b n s w)
    ]
  ]

  count_frames-state : (s : Stream) → (count_frames s).state ≡ s.state
  unfolding count_frames
  count_frames-state s = elim (Bool-cases (is_input s.base)) [
    | inl e ↦ rw e refl
    | inr e ↦ rw e refl
  ]

  stop_stream-Reaches :
      (s : Stream) (w : W)
      → Returned (λ r. Reaches StreamState.stopped s r.0) (stop_stream outside s w)
  unfolding stop_stream
  stop_stream-Reaches s w = go (request_stop outside s w) (request_stop-Reaches s w)
    where
      go :
          (r : Reply outside)
          → Returned (λ (q : Result × Stream × W). Reaches StreamState.stopped s q.1) r
          → Returned
              (λ (q : Stream × W). Reaches StreamState.stopped s q.0)
              (elim r [
                | none ↦ none
                | some (result, s', w') ↦ some (record s' { callback_buffer_index = 0 }, w')
              ])
      go none h = blocks
      go (some (result, s', w')) (returns h) = returns h

  pub Reaches-from :
      {target : StreamState} (s s1 s' : Stream)
      → s1.state ≡ s.state
      → Reaches target s1 s'
      → Reaches target s s'
  Reaches-from s s1 s' e (inl same) = inl (same ∙ e)
  Reaches-from s s1 s' e (inr (h, opened)) = inr (h, λ c. opened (e ∙ c))

  stopped_from :
      (s s1 : Stream) (w : W)
      → s1.state ≡ s.state
      → Returned (λ r. Reaches StreamState.stopped s r.0) (stop_stream outside s1 w)
  stopped_from s s1 w e = go (stop_stream outside s1 w) (stop_stream-Reaches s1 w)
    where
      go :
          (r : Option (Stream × W))
          → Returned (λ (q : Stream × W). Reaches StreamState.stopped s1 q.0) r
          → Returned (λ (q : Stream × W). Reaches StreamState.stopped s q.0) r
      go none h = blocks
      go (some q) (returns h) = returns (Reaches-from s s1 q.0 e h)

  pub process_buffer_callback-Reaches :
      (s : Stream) (w : W)
      → Returned (λ r. Reaches StreamState.stopped s r.0) (process_buffer_callback outside s w)
  unfolding process_buffer_callback enqueue_callback_buffer
  process_buffer_callback-Reaches s w =
      on_result (Returned (λ (r : Stream × W). Reaches StreamState.stopped s r.0)) fired.0
        (if-elim (Returned (λ (r : Stream × W). Reaches StreamState.stopped s r.0)) _
          (returns (inl (count_frames-state s3 ∙ kept)))
          (stopped_from s (count_frames s3) w3 (count_frames-state s3 ∙ kept)))
        (stopped_from s s2 fired.3 kept)
    where
      i : ℕ
      i = s.callback_buffer_index

      fired : DataCallbackResult × List ℕ × Stream × W
      fired =
          fire_data_callback outside (get_or s.callback_buffer i []) s.base.frames_per_callback s w

      kept : fired.2.state ≡ s.state
      kept = fire_data_callback-state (get_or s.callback_buffer i []) s.base.frames_per_callback s w

      s2 : Stream
      s2 = record fired.2 { callback_buffer = set_buffer i fired.1 fired.2.callback_buffer }

      s3 : Stream
      s3 = (enqueue_callback_buffer outside s2 fired.3).1

      w3 : W
      w3 = (enqueue_callback_buffer outside s2 fired.3).2
