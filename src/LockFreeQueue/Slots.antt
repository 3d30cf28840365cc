-- ===== src/LockFreeQueue/Slots.antt =====
-- Places in the buffer of the lock-free queue, and its counters.
use android_audio_samples.Prelude.{
  ℕ, zero, suc, ◌+◌, ◌-◌, ◌%◌, ◌^◌, ◌≤◌, ◌<◌, ◌≡◌, ◌≢◌, refl, ap, arith, List, [], ◌∷◌, length,
  get_or, false, ltb, u32, inl, inr,
}
use android_audio_samples.Fifo.Circular.{step_mod}
use android_audio_samples.LockFreeQueue.{set_item}

module _ {A : Type 0} where
  pub length-set_item : (i : ℕ) (x : A) (ys : List A) → length (set_item i x ys) ≡ length ys
  length-set_item i x [] = refl
  length-set_item zero x (y ∷ ys) = refl
  length-set_item (suc i) x (y ∷ ys) = ap suc (length-set_item i x ys)

  pub get_or-set_item :
      (i : ℕ) (x d : A) (ys : List A) → i < length ys → get_or (set_item i x ys) i d ≡ x
  get_or-set_item i x d [] h = absurd (omega arith)
  get_or-set_item zero x d (y ∷ ys) h = refl
  get_or-set_item (suc i) x d (y ∷ ys) h = get_or-set_item i x d ys (omega arith)

  pub get_or-set_item_other :
      (i j : ℕ) (x d : A) (ys : List A) → i ≢ j → get_or (set_item i x ys) j d ≡ get_or ys j d
  get_or-set_item_other i j x d [] h = refl
  get_or-set_item_other zero zero x d (y ∷ ys) h = absurd (h refl)
  get_or-set_item_other zero (suc j) x d (y ∷ ys) h = refl
  get_or-set_item_other (suc i) zero x d (y ∷ ys) h = refl
  get_or-set_item_other (suc i) (suc j) x d (y ∷ ys) h =
      get_or-set_item_other i j x d ys (λ e. h (ap suc e))

-- Two places less than a turn apart are different.
pub apart : (b t l : ℕ) → 0 < l → 0 < t → t < l → (b + t) % l ≢ b % l
apart b t l h p q e = elim (step_mod b t l h (omega arith)) [
  | inl (a, c) ↦ absurd (omega (arith, c, e))
  | inr (a, c) ↦ absurd (omega (arith, a, c, e))
]

pub difference : (r l : ℕ) → l < 2 ^ 32 → u32 ((r + l) % 2 ^ 32 + 2 ^ 32 - r % 2 ^ 32) ≡ l
difference r l h = omega arith

pub not_below : (a b : ℕ) → ltb a b ≡ false → b ≤ a
not_below a b h = ground (arith, h)

pub zero_left : (n : ℕ) → n - n ≡ 0
zero_left n = omega arith

pub next : (r : ℕ) → u32 (r % 2 ^ 32 + 1) ≡ (r + 1) % 2 ^ 32
next r = omega arith
