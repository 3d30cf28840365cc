-- ===== src/Aaudio/Wait.antt =====
-- `waitForStateChange`: it asks AAudio without blocking, and sleeps while others may use the stream.
use android_audio_samples.Prelude.{
  ℕ, zero, suc, ◌*◌, ◌≡◌, refl, arith, ◌⊎◌, inl, Bool, true, false, not, ◌&&◌, Option, none, some,
  ℤ, pos, ◌-ℤ◌, ◌≤ℤ◌, ltb_ℤ, shrinks, if◌then◌else◌,
}
use android_audio_samples.Definitions.{Result, StreamState, same_state, is_ok}
use android_audio_samples.StreamBase.{Platform}
use android_audio_samples.Aaudio.{Library, Stream, forced}

abbrev is_timeout : Result → Bool
is_timeout Result.error_timeout = true
is_timeout _ = false

module _ (library : Library) (p : Platform)
    (sleep : ℤ → Stream → library.W → Stream × library.W) where
  open library use {W, next_state}

  -- The result, `*nextState`, and the stream and the library after it.
  abbrev pub Waited : Type 0
  Waited = Result × StreamState × Stream × W

  -- The loop, with `*nextState` so far, `sleepTimeNanos` and `timeLeftNanos`; `none` where the fuel is
  -- spent.
  pub wait_loop : ℕ → StreamState → StreamState → ℤ → ℤ → Stream → W → Option Waited
  wait_loop zero current seen sleep_time time_left s w = none
  wait_loop (suc fuel) current seen sleep_time time_left s w = elim s.aaudio_stream [
    | none ↦ some (Result.error_closed, StreamState.closed, s, w)
    | some h ↦
        let (result, state, w1) = next_state h current w in
        let next = forced p state in
        let nanos = if ltb_ℤ time_left sleep_time then time_left else sleep_time in
        let (s', w2) = sleep nanos s w1 in
        let rest = wait_loop fuel current next nanos (time_left -ℤ nanos) s' w2 in
        if not (is_ok result) && not (is_timeout result)
        then some (result, seen, s, w1)
        else if same_state current next
        then (if ltb_ℤ (pos 0) time_left then rest else some (Result.error_timeout, next, s, w1))
        else some (Result.ok, next, s, w1)
  ]

  -- 20 milliseconds at a time
  pub wait_for_state_change : ℕ → StreamState → StreamState → ℤ → Stream → W → Option Waited
  wait_for_state_change fuel current seen timeout s w =
      wait_loop fuel current seen (pos 20000000) timeout s w

  Ends : Option Waited → Type 0
  Ends r = (t : Waited) × (r ≡ some t)

  finished :
      (failed same waits : Bool) (result : Result) (seen next : StreamState) (s : Stream) (w1 : W)
      (rest : Option Waited)
      → (waits ≡ true → Ends rest)
      → Ends (
          if failed
          then some (result, seen, s, w1)
          else if same
          then (if waits then rest else some (Result.error_timeout, next, s, w1))
          else some (Result.ok, next, s, w1))
  unfolding Ends
  finished true same waits r a b s w rest h = (_, refl)
  finished false false waits r a b s w rest h = (_, refl)
  finished false true false r a b s w rest h = (_, refl)
  finished false true true r a b s w rest h = h refl

  by_handle :
      (o : Option ℕ) (x : Option Waited) (f : ℕ → Option Waited)
      → Ends x
      → ((h : ℕ) → Ends (f h))
      → Ends (elim o [ none ↦ x | some h ↦ f h ])
  by_handle none x f a b = a
  by_handle (some h) x f a b = b h

  wait_loop-Ends :
      (fuel : ℕ) (current seen : StreamState) (m left : ℤ) (s : Stream) (w : W)
      → pos 1 ≤ℤ m
      → left ≤ℤ pos (fuel * 20000000)
      → (m ≡ pos 20000000) ⊎ (left ≤ℤ m)
      → Ends (wait_loop (suc fuel) current seen m left s w)
  unfolding wait_loop Ends
  wait_loop-Ends zero current seen m left s w a b c =
      by_handle s.aaudio_stream _ _ (_, refl)
        (λ h.
          let (result, state, w1) = next_state h current w in
          finished (not (is_ok result) && not (is_timeout result))
            (same_state current (forced p state)) (ltb_ℤ (pos 0) left) result seen (forced p state)
            s w1 none (λ t. absurd (ground arith)))
  wait_loop-Ends (suc fuel) current seen m left s w a b c =
      by_handle s.aaudio_stream _ _ (_, refl)
        (λ h.
          let (result, state, w1) = next_state h current w in
          let next = forced p state in
          let nanos = if ltb_ℤ left m then left else m in
          let (s', w2) = sleep nanos s w1 in
          finished (not (is_ok result) && not (is_timeout result)) (same_state current next)
            (ltb_ℤ (pos 0) left) result seen next s w1 _
            (λ t.
              let (low, high, c') = shrinks left m fuel a b t c in
              wait_loop-Ends fuel current next nanos (left -ℤ nanos) s' w2 low high c'))

  -- Waiting for a change of the state ends, whatever AAudio answers and other threads do: one round for
  -- each 20 milliseconds of the timeout, and one more, are enough.
  pub wait_for_state_change_returns :
      (fuel : ℕ) (current seen : StreamState) (timeout : ℤ) (s : Stream) (w : W)
      → timeout ≤ℤ pos (fuel * 20000000)
      → (t : Waited) × (wait_for_state_change (suc fuel) current seen timeout s w ≡ some t)
  unfolding wait_for_state_change Ends
  wait_for_state_change_returns fuel current seen timeout s w h =
      wait_loop-Ends fuel current seen (pos 20000000) timeout s w (omega arith) h (inl refl)
