-- ===== src/OpenSles/Stream/Transfer/Laws.antt =====
-- The blocking transfer ends at its timeout, and returns as many frames as it moved; the sizes that the
-- FIFO and its threshold may have.
use android_audio_samples.Prelude.{
  ℕ, zero, suc, ◌≤◌, ◌≡◌, refl, arith, List, Bool, true, false, not, ◌&&◌, Bool-cases, Option, none,
  some, ◌⊎◌, inl, inr, ℤ, pos, pos_part, ◌+ℤ◌, ◌-ℤ◌, ◌≤ℤ◌, ltb_ℤ, if◌then◌else◌, if_cases,
}
use android_audio_samples.Definitions.{Result}
use android_audio_samples.Fifo.{FifoBuffer}
use android_audio_samples.OpenSles.Stream.{Outside, Stream}
use android_audio_samples.OpenSles.Stream.Transfer.{
  Cursor, Transferred, burst_nanos, check_arguments, predict_next_callback_time, sleep_time,
  transfer, transfer_loop, transfer_once, after_step,
}

-- One burst takes a nanosecond at least.
abbrev pub IsSteady : Stream → Type 0
IsSteady s = pos 1 ≤ℤ burst_nanos s

at_least : (a : ℤ) → pos 1 ≤ℤ (if ltb_ℤ a (pos 1000000) then pos 1000000 else a)
at_least a = ground arith

either : (c : Bool) (a b : ℤ) → pos 1 ≤ℤ a → pos 1 ≤ℤ b → pos 1 ≤ℤ (if c then a else b)
either true a b h k = h
either false a b h k = k

sleep_time_positive : (s : Stream) (q n : ℤ) → IsSteady s → pos 1 ≤ℤ sleep_time s q n
unfolding sleep_time
sleep_time_positive s q n h =
    let wake = predict_next_callback_time s in
    let wake' = if ltb_ℤ q wake then q else wake in
    either (ltb_ℤ (pos 0) wake) _ (burst_nanos s) (at_least (wake' -ℤ n)) h

-- A stream with a FIFO, which takes its steps.
pub record IsReady (s : Stream) : Type 0 where
  pub steady : IsSteady s
  pub fifo : FifoBuffer
  pub given : s.fifo_buffer ≡ some fifo

-- A step is taken, and the stream stays ready.
IsTaken : Option (ℤ × ℤ × Cursor × Stream) → Type 0
IsTaken none = true ≡ false
IsTaken (some step) = IsReady step.3

taken :
    (c : Bool) (r left left' : ℤ) (at at' : Cursor) (s : Stream)
    → IsReady s
    → IsTaken (if c then some (r, left, at, s) else some (r, left', at', s))
unfolding IsTaken
taken true r left left' at at' s h = h
taken false r left left' at at' s h = h

transfer_once-IsTaken :
    (s : Stream) (c : Cursor) (left : ℤ) → IsReady s → IsTaken (transfer_once s c left)
unfolding transfer_once burst_nanos
transfer_once-IsTaken s c left h =
    rw h.given (taken _ _ _ _ _ _ _ (record { steady = h.steady; fifo = _; given = refl }))

-- The clock after a sleep, against the fuel that is left.
later :
    (q now now' : ℤ) (fuel : ℕ)
    → q ≤ℤ (now +ℤ pos (suc fuel))
    → (now +ℤ pos 1) ≤ℤ now'
    → q ≤ℤ (now' +ℤ pos fuel)
unfolding ◌+ℤ◌
later q now now' fuel h k = ground arith

sooner : (a n b : ℤ) → pos 1 ≤ℤ n → (a +ℤ n) ≤ℤ b → (a +ℤ pos 1) ≤ℤ b
unfolding ◌+ℤ◌
sooner a n b h k = ground arith

spent : (q now : ℤ) → q ≤ℤ (now +ℤ pos 0) → ltb_ℤ now q ≡ false
unfolding ◌+ℤ◌
spent q now h = ground arith

in_time :
    (now timeout : ℤ) (fuel : ℕ)
    → pos_part timeout ≤ fuel
    → ltb_ℤ (pos 0) timeout ≡ true
    → (now +ℤ timeout) ≤ℤ (now +ℤ pos fuel)
unfolding ◌+ℤ◌
in_time now timeout fuel h k = ground arith

third : (a b c : Bool) → (a && b && c) ≡ true → c ≡ true
third a b c h = ground arith

module _ (outside : Outside) (sleep : ℤ → Stream → outside.W → Stream × outside.W)
    (passes : (n : ℤ) (s : Stream) (w : outside.W)
      → pos 1 ≤ℤ n
      → (outside.nanoseconds w +ℤ n) ≤ℤ outside.nanoseconds (sleep n s w).1)
    (keeps : (n : ℤ) (s : Stream) (w : outside.W) → IsReady s → IsReady (sleep n s w).0) where
  open outside use {W, nanoseconds}

  Ends : Option (Transferred outside sleep) → Type 0
  Ends r = (t : Transferred outside sleep) × (r ≡ some t)

  -- A step that is taken, after which the loop ends if it goes on.
  after_step-Ends :
      (next : Cursor → ℤ → Stream → W → Option (Transferred outside sleep)) (n t q : ℤ) (w : W)
      (step : Option (ℤ × ℤ × Cursor × Stream))
      → (ltb_ℤ (pos 0) t ≡ true
          → ltb_ℤ (nanoseconds w) q ≡ true
          → (c : Cursor) (left : ℤ) (s : Stream) (w' : W) → IsReady s
          → (nanoseconds w +ℤ pos 1) ≤ℤ nanoseconds w'
          → Ends (next c left s w'))
      → IsTaken step
      → Ends (after_step outside sleep next n t q w step)
  unfolding Ends IsTaken
  after_step-Ends next n t q w none rest g = cc
  after_step-Ends next n t q w (some (result, left, c, s)) rest g =
      let nanos = sleep_time s q (nanoseconds w) in
      let long = sleep_time_positive s q (nanoseconds w) g.steady in
      if_cases Ends (ltb_ℤ (pos 0) left && not (ltb_ℤ result (pos 0)) && ltb_ℤ (pos 0) t)
        (λ goes_on.
          if_cases Ends (ltb_ℤ (nanoseconds w) q)
            (λ in_time.
              rest (third (ltb_ℤ (pos 0) left) (not (ltb_ℤ result (pos 0))) _ goes_on) in_time c
                left _ _ (keeps nanos s w g)
                (sooner (nanoseconds w) nanos _ long (passes nanos s w long)))
            (λ late. (_, refl)))
        (λ ends. (_, refl))

  transfer_loop-Ends :
      (fuel : ℕ) (num_frames timeout q : ℤ) (c : Cursor) (left : ℤ) (s : Stream) (w : W)
      → IsReady s
      → q ≤ℤ (nanoseconds w +ℤ pos fuel)
      → Ends (transfer_loop outside sleep (suc fuel) num_frames timeout q c left s w)
  unfolding transfer_loop Ends
  transfer_loop-Ends zero n t q c left s w h k =
      after_step-Ends (transfer_loop outside sleep zero n t q) n t q w _
        (λ waits e. cc (e, spent q (nanoseconds w) k)) (transfer_once-IsTaken s c left h)
  transfer_loop-Ends (suc fuel) n t q c left s w h k =
      after_step-Ends _ n t q w _
        (λ waits e c' left' s' w' r l.
          transfer_loop-Ends fuel n t q c' left' s' w' r (later q (nanoseconds w) _ fuel k l))
        (transfer_once-IsTaken s c left h)

  at_once :
      (fuel : ℕ) (num_frames timeout q : ℤ) (c : Cursor) (left : ℤ) (s : Stream) (w : W)
      → IsReady s
      → ltb_ℤ (pos 0) timeout ≡ false
      → Ends (transfer_loop outside sleep (suc fuel) num_frames timeout q c left s w)
  unfolding transfer_loop Ends
  at_once fuel n t q c left s w r h =
      after_step-Ends (transfer_loop outside sleep fuel n t q) n t q w _ (λ waits. cc (waits, h))
        (transfer_once-IsTaken s c left r)

  from_start :
      (fuel : ℕ) (n timeout : ℤ) (c : Cursor) (s : Stream) (w : W)
      → IsReady s
      → pos_part timeout ≤ fuel
      → let q = if ltb_ℤ (pos 0) timeout then nanoseconds w +ℤ timeout else pos 0 in
        Ends (transfer_loop outside sleep (suc fuel) n timeout q c n s w)
  from_start fuel n timeout c s w h k = elim (Bool-cases (ltb_ℤ (pos 0) timeout)) [
    | inl waits ↦ rw waits (
        transfer_loop-Ends fuel n timeout (nanoseconds w +ℤ timeout) c n s w h
          (in_time (nanoseconds w) timeout fuel k waits))
    | inr never ↦ at_once fuel n timeout _ c n s w h never
  ]

  begins :
      (early : Option (Result ⊎ ℤ)) (buffer : List ℕ) (s : Stream) (w : W)
      (loop : Option (Transferred outside sleep))
      → Ends loop
      → Ends (elim early [ some a ↦ some (a, buffer, s, w) | none ↦ loop ])
  unfolding Ends
  begins none buffer s w loop h = h
  begins (some a) buffer s w loop h = (_, refl)

  -- If a positive sleep takes the time asked for at least, and the stream has a FIFO and bursts of a
  -- nanosecond at least, and still does after a sleep, a transfer returns: with as much fuel as its
  -- timeout has nanoseconds, and one more. It never waits for frames that do not come.
  pub transfer_returns :
      (fuel : ℕ) (read_buffer write_buffer : Option (List ℕ)) (num_frames timeout : ℤ) (s : Stream)
      (w : W)
      → IsReady s
      → pos_part timeout ≤ fuel
      → (t : Transferred outside sleep) × (transfer outside sleep
            (suc fuel)
            read_buffer
            write_buffer
            num_frames
            timeout
            s
            w
          ≡ some t)
  unfolding transfer Ends
  transfer_returns fuel read_buffer write_buffer n timeout s w h k =
      begins (check_arguments s read_buffer write_buffer n timeout) _ s w _
        (from_start fuel n timeout _ s w h k)
