-- ===== src/Prelude/Rounding.antt =====
-- Rounding up to a multiple.
use Prim.Native.Nat.{ℕ, ◌+◌, ◌-◌, ◌*◌, ◌/◌, ◌≤◌, ◌<◌}
use mathlib.Core.Path.{◌≡◌, ap, ◌∙◌}
use native.Mathlib.Nat.{div-add-mod', mod-lt}
use native.Mathlib.Omega.{arith}
use android_audio_samples.Prelude.Int.{ℤ, pos, ◌+ℤ◌, ◌-ℤ◌}

pub round_up-le : (w b : ℕ) → 0 < b → w ≤ ((w + b - 1) / b) * b
round_up-le w b h = omega (arith, div-add-mod' (w + b - 1) b, mod-lt (w + b - 1) h)

pub round_up-lt : (w b : ℕ) → 0 < b → ((w + b - 1) / b) * b < w + b
round_up-lt w b h = omega (arith, div-add-mod' (w + b - 1) b, mod-lt (w + b - 1) h)

-- The sum that is rounded, computed in a width that it fits into.
pub wrapped_sum :
    (wrap : ℤ → ℤ) (w b : ℕ)
    → 0 < b
    → ((n : ℕ) → n ≤ w + b → wrap (pos n) ≡ pos n)
    → wrap (wrap (pos w +ℤ pos b) -ℤ pos 1) ≡ pos (w + b - 1)
unfolding ◌+ℤ◌ ◌-ℤ◌
wrapped_sum wrap w b h fits =
    let sum : (pos w +ℤ pos b) ≡ pos (w + b) = ground arith in
    let less : (pos (w + b) -ℤ pos 1) ≡ pos (w + b - 1) = ground arith in
    ap (λ z. wrap (wrap z -ℤ pos 1)) sum
    ∙ (ap (λ z. wrap (z -ℤ pos 1)) (fits (w + b) (omega arith))
        ∙ (ap wrap less ∙ fits (w + b - 1) (omega arith)))
