-- ===== src/MonotonicCounter/Laws.antt =====
-- The counter never goes back, and follows a 32-bit counter through its wrap.
use android_audio_samples.Prelude.{
  ℕ, ◌+◌, ◌-◌, ◌*◌, ◌/◌, ◌^◌, ◌≤◌, ◌<◌, ◌≡◌, ◌∙◌, ap, lt→ltb, arith, wrapped_sum, round_up-le,
  round_up-lt, ℤ, pos, ◌≤ℤ◌, ◌<ℤ◌, negsuc, pos_part, if_cases, ltb_ℤ, wrap64, wrap64_pos,
  wrap64_small, ◌+ℤ◌, ◌-ℤ◌, +ℤ_parts, wrap32, List, [], ◌∷◌,
}
use android_audio_samples.MonotonicCounter.{
  MonotonicCounter, get, quotient, times, increment, update32, reset32, round_up64,
}

-- One call of a method that a client may make between two looks at the counter.
pub data Call : Type 0 where
  advance : ℤ → Call
  follow : ℤ → Call
  restart : Call

unfoldable pub apply : Call → MonotonicCounter → MonotonicCounter
apply (advance delta) c = increment delta c
apply (follow counter32) c = update32 counter32 c
apply restart c = reset32 c

unfoldable pub apply_all : List Call → MonotonicCounter → MonotonicCounter
apply_all [] c = c
apply_all (m ∷ ms) c = apply_all ms (apply m c)

-- how far a call may take the counter
abbrev pub most : Call → ℕ
most (advance delta) = pos_part delta
most (follow counter32) = 2 ^ 31 - 1
most restart = 0

unfoldable pub most_all : List Call → ℕ
most_all [] = 0
most_all (m ∷ ms) = most m + most_all ms

wrap32-lt : (z : ℤ) → wrap32 z <ℤ pos (2 ^ 31)
unfolding wrap32
wrap32-lt z = ground arith

-- a counter that does not leave the width of an `int64_t`
abbrev Fits : ℤ → ℕ → Type 0
Fits c n = (negsuc (2 ^ 63 - 1) ≤ℤ c) × ((c +ℤ pos n) <ℤ pos (2 ^ 63))

-- from one counter to the next, by at most `n`
abbrev Rises : ℤ → ℕ → ℤ → Type 0
Rises c n c' = (c ≤ℤ c') × (c' ≤ℤ (c +ℤ pos n))

add-Rises :
    (c delta : ℤ) (n : ℕ)
    → Fits c n
    → pos 0 <ℤ delta
    → delta ≤ℤ pos n
    → Rises c n (wrap64 (c +ℤ delta))
add-Rises c delta n (low, high) h k =
    rw
      (wrap64_small (c +ℤ delta) (omega (arith, low, h, +ℤ_parts c delta))
        (omega (arith, high, k, +ℤ_parts c delta, +ℤ_parts c (pos n))))
      (omega (arith, h, +ℤ_parts c delta), omega (arith, k, +ℤ_parts c delta, +ℤ_parts c (pos n)))

stay-Rises : (c : ℤ) (n : ℕ) → Rises c n c
stay-Rises c n = (omega arith, omega (arith, +ℤ_parts c (pos n)))

apply-Rises :
    (m : Call) (c : MonotonicCounter)
    → Fits c.counter64 (most m)
    → Rises c.counter64 (most m) (apply m c).counter64
unfolding apply increment update32 reset32
apply-Rises (advance delta) c h =
    if_cases (λ (d : MonotonicCounter). Rises c.counter64 (pos_part delta) d.counter64)
      (ltb_ℤ (pos 0) delta)
      (λ e. add-Rises c.counter64 delta (pos_part delta) h (ground arith) (ground arith))
      (λ e. stay-Rises c.counter64 (pos_part delta))
apply-Rises (follow counter32) c h =
    let delta = wrap32 (counter32 -ℤ c.counter32) in
    if_cases (λ (d : MonotonicCounter). Rises c.counter64 (2 ^ 31 - 1) d.counter64)
      (ltb_ℤ (pos 0) delta)
      (λ e.
        add-Rises c.counter64 delta (2 ^ 31 - 1) h (ground arith)
          (omega (arith, wrap32-lt (counter32 -ℤ c.counter32))))
      (λ e. stay-Rises c.counter64 (2 ^ 31 - 1))
apply-Rises restart c h = stay-Rises c.counter64 0

-- As long as the positive arguments of `increment`, and 2 ^ 31 - 1 for each `update32`, do not take an
-- `int64_t` counter to 2 ^ 63, no sequence of `increment`, `update32` and `reset32`, with whatever arguments,
-- decreases the counter, nor raises it by more than that.
pub counter_monotone :
    (ms : List Call) (c : MonotonicCounter)
    → negsuc (2 ^ 63 - 1) ≤ℤ get c
    → (get c +ℤ pos (most_all ms)) <ℤ pos (2 ^ 63)
    → (get c ≤ℤ get (apply_all ms c)) × (get (apply_all ms c) ≤ℤ (get c +ℤ pos (most_all ms)))
unfolding apply_all most_all get
counter_monotone [] c low high = stay-Rises c.counter64 0
counter_monotone (m ∷ ms) c low high =
    let z = c.counter64 in
    let whole = +ℤ_parts z (pos (most m + most_all ms)) in
    let part = +ℤ_parts z (pos (most m)) in
    let (up, near) = apply-Rises m c (low, omega (arith, whole, part, high)) in
    let rest = +ℤ_parts (apply m c).counter64 (pos (most_all ms)) in
    let (above, below) =
      counter_monotone ms (apply m c) (omega (arith, low, up))
        (omega (arith, near, part, rest, whole, high)) in
    (omega (arith, up, above), omega (arith, near, below, part, rest, whole))

-- a count as the 32-bit counter shows it
abbrev pub shown : ℕ → ℤ
shown t = wrap32 (pos t)

-- the wrapped difference of two shown counts
shown_difference : (t d : ℕ) → d < 2 ^ 31 → wrap32 (shown (t + d) -ℤ shown t) ≡ pos d
unfolding wrap32 ◌-ℤ◌
shown_difference t d h = ground arith

-- If the counter stands at `t` and has last seen what a 32-bit counter shows of `t`, then after
-- `update32` with what it shows of `t + d`, with d < 2 ^ 31 and t + d < 2 ^ 63, it stands at `t + d` and has seen that.
pub update32_tracks :
    (t d : ℕ)
    → d < 2 ^ 31
    → t + d < 2 ^ 63
    → update32 (shown (t + d)) (record { counter64 = pos t; counter32 = shown t })
      ≡ record { counter64 = pos (t + d); counter32 = shown (t + d) }
unfolding update32 ◌+ℤ◌
update32_tracks t d h k = ground (arith, shown_difference t d, wrap64_pos (t + d) k)

-- `roundUp64` by a positive period takes a counter that is not negative to the least multiple of the
-- period that is not below it, if that leaves room for a period below 2 ^ 63.
pub round_up64_lem :
    (n period : ℕ) (c : MonotonicCounter)
    → 0 < period
    → n + period < 2 ^ 63
    → get c ≡ pos n
    → (m : ℕ) × (get (round_up64 (pos period) c) ≡ pos (m * period))
      × (n ≤ m * period)
      × (m * period < n + period)
unfolding round_up64 get
round_up64_lem n period c p l e = (
  (n + period - 1) / period,
  rw (lt→ltb 0 (period + 0) (omega arith)) (
      ap (λ z. wrap64 (times (quotient (wrap64 (wrap64 (z +ℤ pos period) -ℤ pos 1)) period) period))
        e
      ∙ (ap (λ z. wrap64 (times (quotient z period) period))
            (wrapped_sum wrap64 n period p (λ m h. wrap64_pos m (omega (arith, l))))
          ∙ wrap64_pos ((n + period - 1) / period * period)
              (omega (arith, l, round_up-lt n period p)))),
  round_up-le n period p,
  round_up-lt n period p,
)
