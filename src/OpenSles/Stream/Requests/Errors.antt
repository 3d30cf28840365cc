-- ===== src/OpenSles/Stream/Requests/Errors.antt =====
-- The error paths of the requests.
use android_audio_samples.Prelude.{
  Returned, blocks, returns, ℕ, zero, suc, List, ◌≡◌, ◌≢◌, refl, ap, arith, ◌⊎◌, ◌↔◌, inl, inr,
  true, false, not, Option, some, none, ℤ, Bool-cases, if◌then◌else◌, if-elim,
}
use android_audio_samples.Definitions.{is_ok, Result, StreamState, DataCallbackResult}
use android_audio_samples.StreamBase.{is_input, is_data_callback_specified}
use android_audio_samples.OpenSles.Stream.{Outside, Stream, ControlState, set_control}
use android_audio_samples.OpenSles.Stream.Requests.{
  done, proceed, is_closed, continues, start_gate, stop_gate, pause_gate, request_stop,
  request_pause, request_flush, pause_output, stop_output, stop_input, flush_output,
  fire_data_callback, process_buffer_callback, first_buffer, request_start, close,
}
use android_audio_samples.OpenSles.Stream.Requests.Laws.{pass-elim}

is_ok-true : (r : Result) → is_ok r ≡ true → r ≡ Result.ok
is_ok-true r h = ground arith

module _ (outside : Outside) where
  open outside use {W, queue_depth}

  -- Every request to a closed stream, and closing it again, is an error that touches neither the stream
  -- nor OpenSL ES: `ErrorClosed`, but `ErrorUnimplemented` from the pause and the flush of an input stream.
  pub closed_requests :
      (s : Stream) (w : W)
      → s.state ≡ StreamState.closed
      → let refused : Result =
          if is_input s.base then Result.error_unimplemented else Result.error_closed in
        (request_start outside s w ≡ some (Result.error_closed, s, w))
        × (request_stop outside s w ≡ some (Result.error_closed, s, w))
        × (request_pause outside s w ≡ some (refused, s, w))
        × (request_flush outside s w ≡ some (refused, s, w))
        × (close outside s w ≡ (Result.error_closed, s, w))
  unfolding request_start request_stop request_pause request_flush stop_input stop_output
      pause_output flush_output close
  closed_requests s w h = (
    rw starts refl,
    elim (Bool-cases (is_input s.base)) [ inl e ↦ rw (e, stops) refl | inr e ↦ rw (e, stops) refl ],
    elim (Bool-cases (is_input s.base)) [ inl e ↦ rw e refl | inr e ↦ rw (e, pauses) refl ],
    elim (Bool-cases (is_input s.base)) [ inl e ↦ rw e refl | inr e ↦ rw (e, shut) refl ],
    rw shut refl,
  )
    where
      starts : start_gate s.state ≡ done Result.error_closed
      starts = unfold start_gate in ap start_gate h

      stops : stop_gate s.state ≡ done Result.error_closed
      stops = unfold stop_gate in ap stop_gate h

      pauses : pause_gate s.state ≡ done Result.error_closed
      pauses = unfold pause_gate in ap pause_gate h

      shut : is_closed s.state ≡ true
      shut = ap is_closed h

  -- what the stream was, if the result is an error
  abbrev Kept : Stream → Result × Stream × W → Type 0
  Kept s q = (q.0 ≡ Result.ok) ⊎ (q.1.state ≡ s.state)

  first_buffer-ok : (s t : Stream) (w : W) → Returned (Kept s) (first_buffer outside t w)
  unfolding first_buffer
  first_buffer-ok s t w = depth (queue_depth w)
    where
      filled :
          (r : Option (Stream × W))
          → Returned (Kept s) (elim r [ none ↦ none | some (s', w') ↦ some (Result.ok, s', w') ])
      filled none = blocks
      filled (some (s', w')) = returns (inl refl)

      depth :
          (d : Option ℕ)
          → Returned (Kept s) (elim d [
            | some zero ↦ elim (process_buffer_callback outside t w) [
              | none ↦ none
              | some (s', w') ↦ some (Result.ok, s', w')
            ]
            | _ ↦ some (Result.ok, t, w)
          ])
      depth none = returns (inl refl)
      depth (some zero) = filled (process_buffer_callback outside t w)
      depth (some (suc n)) = returns (inl refl)

  stop_input-Kept : (s : Stream) (w : W) → Kept s (stop_input outside s w)
  unfolding stop_input
  stop_input-Kept s w =
      pass-elim (Kept s) (stop_gate s.state) (λ r g. inr refl)
        (λ g. elim (Bool-cases (is_ok (set_control outside ControlState.stopped s w).0)) [
          | inl e ↦ inl (rw e (is_ok-true _ e))
          | inr e ↦ inr (rw e refl)
        ])

  pause_output-Kept : (s : Stream) (w : W) → Kept s (pause_output outside s w)
  unfolding pause_output
  pause_output-Kept s w =
      pass-elim (Kept s) (pause_gate s.state) (λ r g. inr refl)
        (λ g. elim (Bool-cases (is_ok (set_control outside ControlState.paused s w).0)) [
          | inl e ↦ inl (rw e (is_ok-true _ e))
          | inr e ↦ inr (rw e refl)
        ])

  -- A start, stop or pause that returns an error leaves the stream in the state that it was in.
  pub failed_requests :
      (s : Stream) (w : W)
      → Returned
          (λ (q : Result × Stream × W). (q.0 ≡ Result.ok) ⊎ (q.1.state ≡ s.state))
          (request_start outside s w)
        × Returned
            (λ (q : Result × Stream × W). (q.0 ≡ Result.ok) ⊎ (q.1.state ≡ s.state))
            (request_stop outside s w)
        × Returned
            (λ (q : Result × Stream × W). (q.0 ≡ Result.ok) ⊎ (q.1.state ≡ s.state))
            (request_pause outside s w)
  unfolding request_start request_stop request_pause stop_output
  failed_requests s w = (
    pass-elim (Returned (Kept s)) (start_gate s.state) (λ r g. returns (inr refl))
        (λ g.
          if-elim (Returned (Kept s)) _
            (if-elim (Returned (Kept s)) _ (returns (inl refl)) (first_buffer-ok s _ _))
            (returns (inr refl))),
    if-elim (Returned (Kept s)) _ (returns (stop_input-Kept s w)) (
        pass-elim (Returned (Kept s)) (stop_gate s.state) (λ r g. returns (inr refl))
          (λ g.
            if-elim (Returned (Kept s)) _
              (if-elim (Returned (Kept s)) _ (returns (inl refl)) blocks) (returns (inr refl)))),
    if-elim (Returned (Kept s)) _ (returns (inr refl)) (returns (pause_output-Kept s w)),
  )

  -- Stopping an output stream that is neither stopped nor closed blocks the thread for ever exactly when
  -- the player stops but its queue cannot be cleared.
  pub stop_output-none :
      (s : Stream) (w : W)
      → stop_gate s.state ≡ proceed
      → let stopping : Stream = record s { state = StreamState.stopping } in
        let halted = set_control outside ControlState.stopped s w in
        (stop_output outside s w ≡ none)
        ↔ ((halted.0 ≡ Result.ok) × ((flush_output outside stopping halted.1).0 ≢ Result.ok))
  unfolding stop_output
  stop_output-none s w g =
      rw g (elim (Bool-cases (is_ok (set_control outside ControlState.stopped s w).0)) [
        | inl halts ↦ elim (Bool-cases (is_ok flushed)) [
          | inl clears ↦
              rw (halts, clears) ((λ n. cc), (λ h. absurd (h.1 (is_ok-true flushed clears))))
          | inr stuck ↦
              rw (halts, stuck) ((λ n. (is_ok-true _ halts, λ e. cc (e, stuck))), (λ h. refl))
        ]
        | inr fails ↦ rw fails ((λ n. cc), (λ h. cc (ap is_ok h.0, fails)))
      ])
    where
      flushed : Result
      flushed =
          (flush_output outside (record s { state = StreamState.stopping })
            (set_control outside ControlState.stopped s w).1).0

  disabled :
      (b : List ℕ) (n : ℤ) (s : Stream) (w : W)
      → continues (fire_data_callback outside b n s w).0 ≡ false
      → (fire_data_callback outside b n s w).2.data_callback_enabled ≡ false
  unfolding fire_data_callback
  disabled b n s w = elim (Bool-cases (not s.data_callback_enabled)) [
    | inl off ↦ rw off (λ h. ground arith)
    | inr on ↦ elim (Bool-cases (is_data_callback_specified s.base)) [
      | inl given ↦ rw (on, given) (λ h. h)
      | inr none_given ↦ rw (on, none_given) (λ h. h)
    ]
  ]

  -- Once a data callback has returned anything but `Continue`, the next is refused: the application is
  -- not called, and `Stop` is returned.
  pub fire_data_callback-stop :
      (data1 data2 : List ℕ) (n m : ℤ) (s : Stream) (w : W)
      → continues (fire_data_callback outside data1 n s w).0 ≡ false
      → let (result, _, s', w') = fire_data_callback outside data1 n s w in
        fire_data_callback outside data2 m s' w' ≡ (DataCallbackResult.stop, data2, s', w')
  fire_data_callback-stop data1 data2 n m s w h = refused data2 m _ _ (disabled data1 n s w h)
    where
      refused :
          (b : List ℕ) (k : ℤ) (t : Stream) (u : W)
          → t.data_callback_enabled ≡ false
          → fire_data_callback outside b k t u ≡ (DataCallbackResult.stop, b, t, u)
      refused b k t u e = unfold fire_data_callback in rw (ap not e) refl
