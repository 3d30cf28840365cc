-- ===== src/OpenSles/Stream/Waiting/Laws.antt =====
-- A wait ends with its timeout, and is only good if the state is the one waited for.
use android_audio_samples.Prelude.{
  shrinks, ℕ, zero, suc, ◌*◌, ◌≡◌, ◌≢◌, refl, arith, Bool, true, false, not, ◌&&◌, Bool-cases,
  Option-cases, Option, none, some, ◌⊎◌, inl, inr, ℤ, pos, ◌-ℤ◌, ◌≤ℤ◌, ltb_ℤ, eqb_ℤ, if◌then◌else◌,
  Returned, blocks, returns,
}
use android_audio_samples.Definitions.{same_state, Result, StreamState, is_ok, stream_state_code}
use android_audio_samples.Definitions.Codes.{codes_distinct}
use android_audio_samples.StreamBase.{is_input}
use android_audio_samples.OpenSles.Stream.{Outside, Stream}
use android_audio_samples.OpenSles.Stream.Requests.{Reply, request_flush, flush_output}
use android_audio_samples.OpenSles.Stream.Waiting.{
  is_lost, wait_loop, wait_for_state_change, arrived, wait_for_state_transition, then_wait, start,
  pause, flush, stop,
}

same_code : (a b : ℤ) → eqb_ℤ a b ≡ true → a ≡ b
same_code a b h = ground arith

same_state-true : (a b : StreamState) → same_state a b ≡ true → a ≡ b
unfolding same_state
same_state-true a b h =
    codes_distinct.1 a b (same_code (stream_state_code a) (stream_state_code b) h)

not_ok : (r : Result) → is_ok r ≡ false → r ≢ Result.ok
not_ok r h e = ground arith

is_lost-error : (a : StreamState) (r : Result) → is_lost a ≡ some r → r ≢ Result.ok
unfolding is_lost
is_lost-error a r h e = ground arith

module _ (outside : Outside) (sleep : ℤ → Stream → outside.W → Stream × outside.W) where
  open outside use {W}

  Ends : Reply outside → Type 0
  Ends r = (t : Result × Stream × W) × (r ≡ some t)

  wait_loop-Ends :
      (fuel : ℕ) (current : StreamState) (m left : ℤ) (s : Stream) (w : W)
      → pos 1 ≤ℤ m
      → left ≤ℤ pos (fuel * 20000000)
      → (m ≡ pos 20000000) ⊎ (left ≤ℤ m)
      → Ends (wait_loop outside sleep (suc fuel) current m left s w)
  unfolding wait_loop Ends
  wait_loop-Ends zero current m left s w a b c =
      let h : ltb_ℤ (pos 0) left ≡ false = ground arith in
      elim (Bool-cases (same_state current s.state)) [
        | inl e ↦ rw (e, h) (_, refl)
        | inr e ↦ rw e (_, refl)
      ]
  wait_loop-Ends (suc fuel) current m left s w a b c =
      elim (Bool-cases (same_state current s.state)) [
        | inr e ↦ rw e (_, refl)
        | inl e ↦ elim (Bool-cases (ltb_ℤ (pos 0) left)) [
          | inr h ↦ rw (e, h) (_, refl)
          | inl h ↦
              let nanos = if ltb_ℤ left m then left else m in
              let (s', w') = sleep nanos s w in
              let (low, high, c') = shrinks left m fuel a b h c in
              rw (e, h) (wait_loop-Ends fuel current nanos (left -ℤ nanos) s' w' low high c')
        ]
      ]

  transition-Ends :
      (lost : Option Result) (asked : Bool) (ending_state : StreamState) (s : Stream) (w : W)
      (changed : Reply outside)
      → Ends changed
      → Ends (elim lost [
        | some result ↦ some (result, s, w)
        | none ↦
            if asked
            then elim changed [
              | none ↦ none
              | some reply ↦ some (arrived outside sleep ending_state reply)
            ]
            else some (arrived outside sleep ending_state (Result.ok, s, w))
      ])
  unfolding Ends
  transition-Ends (some result) asked e s w changed h = (_, refl)
  transition-Ends none true e s w none h = absurd (ground arith)
  transition-Ends none true e s w (some t) h = (_, refl)
  transition-Ends none false e s w changed h = (_, refl)

  -- Waiting for a state ends, whatever happens meanwhile: one round for each 20 milliseconds of
  -- the timeout, and one more, are enough.
  pub wait_for_state_transition_returns :
      (fuel : ℕ) (starting_state ending_state : StreamState) (timeout : ℤ) (s : Stream) (w : W)
      → timeout ≤ℤ pos (fuel * 20000000)
      → (t : Result × Stream × W) × (wait_for_state_transition outside sleep
            (suc fuel)
            starting_state
            ending_state
            timeout
            s
            w
          ≡ some t)
  unfolding wait_for_state_transition wait_for_state_change Ends
  wait_for_state_transition_returns fuel a b timeout s w h =
      transition-Ends (is_lost s.state) (same_state s.state a && not (same_state s.state b)) b s w _
        (wait_loop-Ends fuel s.state (pos 20000000) timeout s w (omega arith) h (inl refl))

  Arrives : StreamState → Reply outside → Type 0
  Arrives ending_state =
      Returned (λ (t : Result × Stream × W). (t.0 ≢ Result.ok) ⊎ (t.1.state ≡ ending_state))

  arrived-Arrives :
      (b : StreamState) (t : Result × Stream × W) → Arrives b (some (arrived outside sleep b t))
  unfolding arrived Arrives
  arrived-Arrives b (r, s, w) = elim (Bool-cases (is_ok r)) [
    | inr e ↦ rw e (returns (inl (not_ok r e)))
    | inl e ↦ elim (Bool-cases (same_state s.state b)) [
      | inl f ↦ rw (e, f) (returns (inr (same_state-true s.state b f)))
      | inr f ↦ rw (e, f) (returns (inl (λ h. absurd (ground arith))))
    ]
  ]

  transition-Arrives :
      (fuel : ℕ) (a b : StreamState) (timeout : ℤ) (s : Stream) (w : W)
      → Arrives b (wait_for_state_transition outside sleep fuel a b timeout s w)
  unfolding wait_for_state_transition Arrives
  transition-Arrives fuel a b timeout s w =
      go (is_lost s.state) (is_lost-error s.state)
        (same_state s.state a && not (same_state s.state b))
        (wait_for_state_change outside sleep fuel s.state timeout s w)
    where
      go :
          (lost : Option Result)
          → ((r : Result) → lost ≡ some r → r ≢ Result.ok)
          → (asked : Bool) (changed : Reply outside)
          → Arrives b (elim lost [
            | some result ↦ some (result, s, w)
            | none ↦
                if asked
                then elim changed [
                  | none ↦ none
                  | some reply ↦ some (arrived outside sleep b reply)
                ]
                else some (arrived outside sleep b (Result.ok, s, w))
          ])
      go (some r) h asked changed = returns (inl (h r refl))
      go none h true none = blocks
      go none h true (some t) = arrived-Arrives b t
      go none h false changed = arrived-Arrives b (Result.ok, s, w)

  then_wait-Arrives :
      (fuel : ℕ) (a b : StreamState) (timeout : ℤ) (r : Reply outside)
      → ltb_ℤ (pos 0) timeout ≡ true
      → Arrives b (then_wait outside sleep fuel a b timeout r)
  unfolding then_wait Arrives
  then_wait-Arrives fuel a b timeout none h = blocks
  then_wait-Arrives fuel a b timeout (some (r, s, w)) h = elim (Bool-cases (is_ok r)) [
    | inl e ↦ rw (e, h) (transition-Arrives fuel a b timeout s w)
    | inr e ↦ rw e (returns (inl (not_ok r e)))
  ]

  -- With time to wait, a start, pause, flush or stop that returns `OK` returns it for a stream in the
  -- state asked for.
  pub waiting_arrives :
      (fuel : ℕ) (timeout : ℤ) (s : Stream) (w : W)
      → ltb_ℤ (pos 0) timeout ≡ true
      → Returned
          (λ (t : Result × Stream × W). (t.0 ≢ Result.ok) ⊎ (t.1.state ≡ StreamState.started))
          (start outside sleep fuel timeout s w)
        × Returned
            (λ (t : Result × Stream × W). (t.0 ≢ Result.ok) ⊎ (t.1.state ≡ StreamState.paused))
            (pause outside sleep fuel timeout s w)
        × Returned
            (λ (t : Result × Stream × W). (t.0 ≢ Result.ok) ⊎ (t.1.state ≡ StreamState.flushed))
            (flush outside sleep fuel timeout s w)
        × Returned
            (λ (t : Result × Stream × W). (t.0 ≢ Result.ok) ⊎ (t.1.state ≡ StreamState.stopped))
            (stop outside sleep fuel timeout s w)
  unfolding start pause flush stop Arrives
  waiting_arrives fuel timeout s w h = (
    then_wait-Arrives fuel _ _ timeout _ h,
    then_wait-Arrives fuel _ _ timeout _ h,
    then_wait-Arrives fuel _ _ timeout _ h,
    then_wait-Arrives fuel _ _ timeout _ h,
  )

  unchanged :
      (fuel : ℕ) (timeout : ℤ) (s : Stream) (w : W)
      → same_state s.state StreamState.flushing ≡ false
      → same_state s.state StreamState.flushed ≡ false
      → Returned
          (λ (t : Result × Stream × W). t.0 ≢ Result.ok)
          (wait_for_state_transition outside sleep fuel StreamState.flushing StreamState.flushed
            timeout s w)
  unfolding wait_for_state_transition arrived
  unchanged fuel timeout s w h k = elim (Option-cases (is_lost s.state)) [
    | inl e ↦ rw (wait_for_state_transition, e, h, k) (returns (λ x. absurd (ground arith)))
    | inr (r, e) ↦ rw (wait_for_state_transition, e) (returns (is_lost-error s.state r e))
  ]

  -- With time to wait, a flush never returns `OK` where the stream was neither flushing nor flushed before.
  pub flush_never_ok :
      (fuel : ℕ) (timeout : ℤ) (s : Stream) (w : W)
      → same_state s.state StreamState.flushing ≡ false
      → same_state s.state StreamState.flushed ≡ false
      → ltb_ℤ (pos 0) timeout ≡ true
      → Returned
          (λ (t : Result × Stream × W). t.0 ≢ Result.ok)
          (flush outside sleep fuel timeout s w)
  unfolding flush request_flush then_wait
  flush_never_ok fuel timeout s w h k l = elim (Bool-cases (is_input s.base)) [
    | inl i ↦ rw i (returns (λ x. absurd (ground arith)))
    | inr i ↦ elim (Bool-cases (is_ok (flush_output outside s w).0)) [
      | inl e ↦ rw (i, e, l) (unchanged fuel timeout s _ h k)
      | inr e ↦ rw (i, e) (returns (not_ok _ e))
    ]
  ]
