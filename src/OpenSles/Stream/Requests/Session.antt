-- ===== src/OpenSles/Stream/Requests/Session.antt =====
-- Whole lives of a stream: any sequence of requests and callbacks.
use android_audio_samples.Prelude.{
  Returned, blocks, returns, ℕ, zero, suc, List, [], ◌∷◌, ◌≡◌, refl, ◌∙◌, arith, inl, inr, true,
  Option, some, none, Bool-cases, if-elim,
}
use android_audio_samples.Definitions.{Result, StreamState}
use android_audio_samples.OpenSles.Stream.{Outside, Stream}
use android_audio_samples.OpenSles.Stream.Requests.{
  Reply, proceed, is_closed, start_gate, request_stop, request_pause, request_flush, pause_output,
  process_buffer_callback, first_buffer, request_start, enqueue_callback_buffer, close_l, close,
}
use android_audio_samples.OpenSles.Stream.Requests.Laws.{
  IsSettled, Reaches, pass-elim, start_gate_opened, pause_output-Reaches, request_stop-Reaches,
  process_buffer_callback-Reaches,
}

-- A closed stream stays closed, and a settled one settled.
pub record Lives (s s' : Stream) : Type 0 where
  pub stays_closed : s.state ≡ StreamState.closed → s'.state ≡ StreamState.closed
  pub settles : IsSettled s.state → IsSettled s'.state

module _ (outside : Outside) where
  open outside use {W, queue_depth}

  Lives-of :
      (target : StreamState) (s s' : Stream)
      → IsSettled target
      → Reaches outside target s s'
      → Lives s s'
  Lives-of target s s' t (inl same) = record {
    stays_closed = λ c. same ∙ c;
    settles = λ h. rw same h;
  }
  Lives-of target s s' t (inr (e, opened)) = record {
    stays_closed = λ c. absurd (opened c);
    settles = λ h. rw e t;
  }

  Lives-refl : (s : Stream) → Lives s s
  Lives-refl s = record { stays_closed = λ c. c; settles = λ h. h }

  Lives-same : (s s' : Stream) → s'.state ≡ s.state → Lives s s'
  Lives-same s s' e = record { stays_closed = λ c. e ∙ c; settles = λ h. rw e h }

  Lives-trans : (s t u : Stream) → Lives s t → Lives t u → Lives s u
  Lives-trans s t u a b = record {
    stays_closed = λ c. b.stays_closed (a.stays_closed c);
    settles = λ h. b.settles (a.settles h);
  }

  -- The stream of an outcome lives on from `s`.
  abbrev LivesOn : Stream → Option (Stream × W) → Type 0
  LivesOn s = Returned (λ (q : Stream × W). Lives s q.0)

  abbrev Replies : Stream → Reply outside → Type 0
  Replies s = Returned (λ (q : Result × Stream × W). Lives s q.1)

  request_stop-Replies : (s : Stream) (w : W) → Replies s (request_stop outside s w)
  request_stop-Replies s w = go (request_stop outside s w) (request_stop-Reaches outside s w)
    where
      go :
          (r : Reply outside)
          → Returned (λ (q : Result × Stream × W). Reaches outside StreamState.stopped s q.1) r
          → Replies s r
      go none h = blocks
      go (some q) (returns h) = returns (Lives-of StreamState.stopped s q.1 (ground arith) h)

  process_buffer_callback-LivesOn :
      (s : Stream) (w : W) → LivesOn s (process_buffer_callback outside s w)
  process_buffer_callback-LivesOn s w =
      go (process_buffer_callback outside s w) (process_buffer_callback-Reaches outside s w)
    where
      go :
          (r : Option (Stream × W))
          → Returned (λ (q : Stream × W). Reaches outside StreamState.stopped s q.0) r
          → LivesOn s r
      go none h = blocks
      go (some q) (returns h) = returns (Lives-of StreamState.stopped s q.0 (ground arith) h)

  request_pause-Replies : (s : Stream) (w : W) → Replies s (request_pause outside s w)
  unfolding request_pause
  request_pause-Replies s w = if-elim (Replies s) _ (returns (Lives-refl s)) (
      returns (
        Lives-of StreamState.paused s (pause_output outside s w).1 (ground arith)
          (pause_output-Reaches outside s w)))

  request_flush-Replies : (s : Stream) (w : W) → Replies s (request_flush outside s w)
  unfolding request_flush
  request_flush-Replies s w =
      if-elim (Replies s) _ (returns (Lives-refl s)) (returns (Lives-refl s))

  first_buffer-Replies : (s : Stream) (w : W) → Replies s (first_buffer outside s w)
  unfolding first_buffer
  first_buffer-Replies s w = depth (queue_depth w)
    where
      filled :
          (r : Option (Stream × W))
          → LivesOn s r
          → Replies s (elim r [ none ↦ none | some (s', w') ↦ some (Result.ok, s', w') ])
      filled none h = blocks
      filled (some (s', w')) (returns h) = returns h

      depth :
          (d : Option ℕ)
          → Replies s (elim d [
            | some zero ↦ elim (process_buffer_callback outside s w) [
              | none ↦ none
              | some (s', w') ↦ some (Result.ok, s', w')
            ]
            | _ ↦ some (Result.ok, s, w)
          ])
      depth none = returns (Lives-refl s)
      depth (some zero) =
          filled (process_buffer_callback outside s w) (process_buffer_callback-LivesOn s w)
      depth (some (suc n)) = returns (Lives-refl s)

  after_start : (s t : Stream) (w : W) → Lives s t → Replies s (first_buffer outside t w)
  after_start s t w l = go (first_buffer outside t w) (first_buffer-Replies t w)
    where
      go : (r : Reply outside) → Replies t r → Replies s r
      go none h = blocks
      go (some q) (returns h) = returns (Lives-trans s t q.1 l h)

  request_start-Replies : (s : Stream) (w : W) → Replies s (request_start outside s w)
  unfolding request_start enqueue_callback_buffer
  request_start-Replies s w =
      pass-elim (Replies s) (start_gate s.state) (λ r g. returns (Lives-refl s))
        (λ g.
          if-elim (Replies s) _
            (if-elim (Replies s) _ (returns (opened g _ refl))
              (after_start s _ _ (opened g _ refl)))
            (returns (Lives-same s _ refl)))
    where
      opened :
          start_gate s.state ≡ proceed → (s' : Stream) → s'.state ≡ StreamState.started → Lives s s'
      opened g s' e =
          Lives-of StreamState.started s s' (ground arith) (inr (e, start_gate_opened s.state g))

  is_closed-true : (s : StreamState) → is_closed s ≡ true → s ≡ StreamState.closed
  is_closed-true s h = ground arith

  close_l-closed : (s : Stream) (w : W) → (close_l outside s w).1.state ≡ StreamState.closed
  unfolding close_l
  close_l-closed s w = elim (Bool-cases (is_closed s.state)) [
    | inl e ↦ rw e (is_closed-true s.state e)
    | inr e ↦ rw e refl
  ]

  -- However it ends, closing leaves a closed stream.
  close-closed : (s : Stream) (w : W) → (close outside s w).1.state ≡ StreamState.closed
  unfolding close
  close-closed s w = elim (Bool-cases (is_closed s.state)) [
    | inl e ↦ rw e (is_closed-true s.state e)
    | inr e ↦ rw e (close_l-closed _ _)
  ]

-- What the application or OpenSL ES may call.
pub data Call : Type 0 where
  start pause flush stop callback shut : Call

module _ (outside : Outside) where
  open outside use {W}

  abbrev pub forget : Reply outside → Option (Stream × W)
  forget none = none
  forget (some (result, s, w)) = some (s, w)

  -- `none` if the thread blocks for ever.
  pub perform : Call → Stream → W → Option (Stream × W)
  perform start s w = forget (request_start outside s w)
  perform pause s w = forget (request_pause outside s w)
  perform flush s w = forget (request_flush outside s w)
  perform stop s w = forget (request_stop outside s w)
  perform callback s w = process_buffer_callback outside s w
  perform shut s w = some ((close outside s w).1, (close outside s w).2)

  pub perform_all : List Call → Stream → W → Option (Stream × W)
  perform_all [] s w = some (s, w)
  perform_all (c ∷ cs) s w = elim (perform c s w) [
    | none ↦ none
    | some (s', w') ↦ perform_all cs s' w'
  ]

  forget-LivesOn :
      (s : Stream) (r : Reply outside) → Replies outside s r → LivesOn outside s (forget r)
  forget-LivesOn s none h = blocks
  forget-LivesOn s (some (r, s', w')) (returns h) = returns h

  perform-LivesOn : (c : Call) (s : Stream) (w : W) → LivesOn outside s (perform c s w)
  unfolding perform
  perform-LivesOn start s w = forget-LivesOn s _ (request_start-Replies outside s w)
  perform-LivesOn pause s w = forget-LivesOn s _ (request_pause-Replies outside s w)
  perform-LivesOn flush s w = forget-LivesOn s _ (request_flush-Replies outside s w)
  perform-LivesOn stop s w = forget-LivesOn s _ (request_stop-Replies outside s w)
  perform-LivesOn callback s w = process_buffer_callback-LivesOn outside s w
  perform-LivesOn shut s w = returns (record {
    stays_closed = λ c. close-closed outside s w;
    settles = λ h. rw (close-closed outside s w) (ground arith);
  })

  -- After any sequence of requests, callbacks and closings, whatever OpenSL ES and the application
  -- answer, unless one of them blocks for ever: a stream that was closed is closed, and a stream that was
  -- not in the middle of a request is not in the middle of one.
  pub perform_all-Lives :
      (cs : List Call) (s : Stream) (w : W)
      → Returned (λ (q : Stream × W). Lives s q.0) (perform_all cs s w)
  unfolding perform_all
  perform_all-Lives [] s w = returns (Lives-refl outside s)
  perform_all-Lives (c ∷ cs) s w = go (perform_all-Lives cs) (perform c s w) (perform-LivesOn c s w)
    where
      on :
          (s' : Stream)
          → Lives s s'
          → (r : Option (Stream × W)) → LivesOn outside s' r
          → LivesOn outside s r
      on s' l none h = blocks
      on s' l (some q) (returns h) = returns (Lives-trans outside s s' q.0 l h)

      go :
          ((s' : Stream) (w' : W) → LivesOn outside s' (perform_all cs s' w'))
          → (r : Option (Stream × W)) → LivesOn outside s r
          → LivesOn outside s (elim r [ none ↦ none | some (s', w') ↦ perform_all cs s' w' ])
      go ih none h = blocks
      go ih (some q) (returns h) = on q.0 h (perform_all cs q.0 q.1) (ih q.0 q.1)
