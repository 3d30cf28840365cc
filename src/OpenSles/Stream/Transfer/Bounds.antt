-- ===== src/OpenSles/Stream/Transfer/Bounds.antt =====
-- How many frames a transfer may report, and the sizes that the FIFO and its threshold may have.
use android_audio_samples.Prelude.{
  ℕ, zero, suc, ◌^◌, ◌≡◌, refl, arith, List, Bool, true, false, not, ◌&&◌, Bool-cases, Option-cases,
  Option, none, some, ◌⊎◌, inl, inr, ℤ, pos, negsuc, ◌-ℤ◌, ◌≤ℤ◌, ◌<ℤ◌, ltb_ℤ, eqb_ℤ, if◌then◌else◌,
  if-elim, Returned, blocks, returns, i32, wrap32,
}
use android_audio_samples.Definitions.{Result}
use android_audio_samples.StreamBase.{is_input}
use android_audio_samples.Fifo
use android_audio_samples.Fifo.{FifoBuffer, get_full_frames_available}
use android_audio_samples.Fifo.Amount.{write-le, read-le}
use android_audio_samples.OpenSles.Stream.{Outside, Stream}
use android_audio_samples.OpenSles.Stream.Transfer.{
  Cursor, is_given, Transferred, advance, answer, check_arguments, frames_to_write, transfer,
  transfer_loop, transfer_once, after_step,
}

-- An answer that is no error is a number of frames from 0 to the number asked for.
pub IsBounded : ℤ → Result ⊎ ℤ → Type 0
IsBounded n (inl e) = true ≡ true
IsBounded n (inr k) = (pos 0 ≤ℤ k) × (k ≤ℤ n)

abbrev InRange : ℤ → Type 0
InRange left = (pos 0 ≤ℤ left) × (left <ℤ pos (2 ^ 31))

frames_to_write-InRange :
    (s : Stream) (f : FifoBuffer) (left : ℤ)
    → InRange left
    → InRange (frames_to_write s f left) × (frames_to_write s f left ≤ℤ left)
unfolding frames_to_write
frames_to_write-InRange s f left h =
    clamped (wrap32 (s.base.buffer_size_in_frames -ℤ i32 (get_full_frames_available f))) left h
  where
    clamped :
        (empty left : ℤ)
        → InRange left
        → let fitting = if ltb_ℤ empty left then empty else left in
          let frames = if ltb_ℤ fitting (pos 0) then pos 0 else fitting in
          InRange frames × (frames ≤ℤ left)
    clamped empty left h = ground arith

write-InRange :
    (f : FifoBuffer) (b : List ℕ) (m left : ℤ)
    → InRange m
    → m ≤ℤ left
    → (Fifo.write f b m).0 ≤ℤ left
write-InRange f b (pos n) left h k = let l = write-le f b n (omega arith) in omega arith
write-InRange f b (negsuc n) left h k = absurd (omega arith)

read-InRange :
    (f : FifoBuffer) (b : List ℕ) (left : ℤ) → InRange left → (Fifo.read f b left).0 ≤ℤ left
read-InRange f b (pos n) h = read-le f b n (omega arith)
read-InRange f b (negsuc n) h = absurd (omega arith)

-- What is left after one step.
lessens :
    (left r : ℤ)
    → pos 0 ≤ℤ left
    → r ≤ℤ left
    → ltb_ℤ (pos 0) r ≡ true
    → (pos 0 ≤ℤ (left -ℤ r)) × ((left -ℤ r) ≤ℤ left)
unfolding ◌-ℤ◌
lessens left r h k p = ground arith

abbrev Lessens : ℤ → ℤ → Type 0
Lessens left left' = (pos 0 ≤ℤ left') × (left' ≤ℤ left)

either_le : (c : Bool) (a b left : ℤ) → a ≤ℤ left → b ≤ℤ left → (if c then a else b) ≤ℤ left
either_le true a b left h k = h
either_le false a b left h k = k

-- What is left after a step, unless there is no FIFO.
StepLessens : ℤ → Option (ℤ × ℤ × Cursor × Stream) → Type 0
StepLessens left none = true ≡ true
StepLessens left (some step) = Lessens left step.1

transfer_once-Lessens :
    (s : Stream) (c : Cursor) (left : ℤ) → InRange left → StepLessens left (transfer_once s c left)
unfolding transfer_once frames_to_write ◌-ℤ◌ advance StepLessens
transfer_once-Lessens s c left h = elim (Option-cases s.fifo_buffer) [
  | inl e ↦ rw e refl
  | inr (f, e) ↦
      let written = (Fifo.write f c.ahead (frames_to_write s f left)).0 in
      let result = if is_input s.base then (Fifo.read f c.ahead left).0 else written in
      let (range, below) = frames_to_write-InRange s f left h in
      let small : result ≤ℤ left =
        either_le (is_input s.base) _ _ left (read-InRange f c.ahead left h)
          (write-InRange f c.ahead (frames_to_write s f left) left range below) in
      elim (Bool-cases (ltb_ℤ (pos 0) result)) [
        | inl p ↦ rw (e, p) (lessens left result (ground arith) small p)
        | inr p ↦ rw (e, p) (ground arith)
      ]
]

difference : (n left : ℤ) → pos 0 ≤ℤ left → left ≤ℤ n → (pos 0 ≤ℤ (n -ℤ left)) × ((n -ℤ left) ≤ℤ n)
unfolding ◌-ℤ◌
difference n left h k = ground arith

answer-IsBounded : (n left r : ℤ) → pos 0 ≤ℤ left → left ≤ℤ n → IsBounded n (answer n left r)
unfolding answer IsBounded
answer-IsBounded n left r h k = elim (Bool-cases (ltb_ℤ r (pos 0))) [
  | inl e ↦ rw e refl
  | inr e ↦ rw e (difference n left h k)
]

-- An early answer is bounded; without one the number of frames is positive.
IsChecked : ℤ → Option (Result ⊎ ℤ) → Type 0
IsChecked n none = pos 0 ≤ℤ n
IsChecked n (some a) = IsBounded n a

refused :
    (n : ℤ) (c : Bool) (e : Result) (rest : Option (Result ⊎ ℤ))
    → IsChecked n rest
    → IsChecked n (if c then some (inl e) else rest)
unfolding IsChecked IsBounded
refused n true e rest h = refl
refused n false e rest h = h

counted :
    (n timeout : ℤ)
    → IsChecked n (
        if ltb_ℤ n (pos 0)
        then some (inl Result.error_out_of_range)
        else if eqb_ℤ n (pos 0)
        then some (inr n)
        else if ltb_ℤ timeout (pos 0)
        then some (inl Result.error_out_of_range)
        else none)
unfolding IsChecked IsBounded
counted n timeout = elim (Bool-cases (ltb_ℤ n (pos 0))) [
  | inl e ↦ rw e refl
  | inr e ↦ elim (Bool-cases (eqb_ℤ n (pos 0))) [
    | inl z ↦ rw (e, z) (ground arith)
    | inr z ↦ elim (Bool-cases (ltb_ℤ timeout (pos 0))) [
      | inl t ↦ rw (e, z, t) refl
      | inr t ↦ rw (e, z, t) (ground arith)
    ]
  ]
]

check_arguments-IsChecked :
    (s : Stream) (r w : Option (List ℕ)) (n timeout : ℤ)
    → IsChecked n (check_arguments s r w n timeout)
unfolding check_arguments
check_arguments-IsChecked s r w n timeout =
    refused n (is_given r && is_given w) Result.error_internal _ (
      refused n (is_input s.base && not (is_given r)) Result.error_null _ (
        refused n (not (is_input s.base) && not (is_given w)) Result.error_null _
          (counted n timeout)))

module _ (outside : Outside) (sleep : ℤ → Stream → outside.W → Stream × outside.W) where
  open outside use {W}

  Fits : ℤ → Option (Transferred outside sleep) → Type 0
  Fits n = Returned (λ (t : Transferred outside sleep). IsBounded n t.0)

  after_step-Fits :
      (next : Cursor → ℤ → Stream → W → Option (Transferred outside sleep)) (n timeout q : ℤ)
      (w : W) (left : ℤ) (step : Option (ℤ × ℤ × Cursor × Stream))
      → left ≤ℤ n
      → ((c : Cursor) (left' : ℤ) (s : Stream) (w' : W)
          → pos 0 ≤ℤ left'
          → left' ≤ℤ n
          → Fits n (next c left' s w'))
      → StepLessens left step
      → Fits n (after_step outside sleep next n timeout q w step)
  unfolding Fits StepLessens
  after_step-Fits next n timeout q w left none k rest g = blocks
  after_step-Fits next n timeout q w left (some (result, left', c', s')) k rest (low, high) =
      let ended = returns (answer-IsBounded n left' result low (omega arith)) in
      if-elim (Fits n) _ (if-elim (Fits n) _ (rest c' left' _ _ low (omega arith)) ended) ended

  transfer_loop-Fits :
      (fuel : ℕ) (n timeout q : ℤ) (c : Cursor) (left : ℤ) (s : Stream) (w : W)
      → n <ℤ pos (2 ^ 31)
      → pos 0 ≤ℤ left
      → left ≤ℤ n
      → Fits n (transfer_loop outside sleep fuel n timeout q c left s w)
  unfolding transfer_loop Fits
  transfer_loop-Fits zero n timeout q c left s w h k l = blocks
  transfer_loop-Fits (suc fuel) n timeout q c left s w h k l =
      after_step-Fits (transfer_loop outside sleep fuel n timeout q) n timeout q w left _ l
        (λ c' left' s' w' low high. transfer_loop-Fits fuel n timeout q c' left' s' w' h low high)
        (transfer_once-Lessens s c left (omega arith))

  answered :
      (n : ℤ) (early : Option (Result ⊎ ℤ)) (buffer : List ℕ) (s : Stream) (w : W)
      (loop : Option (Transferred outside sleep))
      → IsChecked n early
      → (pos 0 ≤ℤ n → Fits n loop)
      → Fits n (elim early [ some a ↦ some (a, buffer, s, w) | none ↦ loop ])
  unfolding IsChecked Fits
  answered n none buffer s w loop h k = k h
  answered n (some a) buffer s w loop h k = returns h

  -- A transfer of an `int32_t` number of frames that returns, whatever happens while it sleeps, returns an
  -- error or a number of frames that is not negative and not larger than the number asked for.
  pub transfer-IsBounded :
      (fuel : ℕ) (read_buffer write_buffer : Option (List ℕ)) (num_frames timeout : ℤ) (s : Stream)
      (w : W)
      → num_frames <ℤ pos (2 ^ 31)
      → Returned
          (λ (t : Transferred outside sleep). IsBounded num_frames t.0)
          (transfer outside sleep fuel read_buffer write_buffer num_frames timeout s w)
  unfolding transfer Fits
  transfer-IsBounded fuel read_buffer write_buffer n timeout s w h =
      answered n (check_arguments s read_buffer write_buffer n timeout) _ s w _
        (check_arguments-IsChecked s read_buffer write_buffer n timeout)
        (λ p. transfer_loop-Fits fuel n timeout _ _ n s w h p (omega arith))
