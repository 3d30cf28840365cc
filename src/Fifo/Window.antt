-- ===== src/Fifo/Window.antt =====
-- The bytes that a circular storage holds between two positions of the stream. A position counts
-- all bytes since the start; it falls on the storage index that is its remainder.
use android_audio_samples.Prelude.{
  ℕ, zero, suc, ◌+◌, ◌%◌, ◌≤◌, ◌<◌, ◌≡◌, refl, ◌∙◌, ap, ap₂, arith, List, [], ◌∷◌, ◌++◌, length,
  get_or, take-drop-cons, sym,
}
use android_audio_samples.Fifo.{slice}

abbrev pub window : List ℕ → ℕ → ℕ → List ℕ
window s b zero = []
window s b (suc n) = get_or s (b % length s) 0 ∷ window s (b + 1) n

pub length-window : (s : List ℕ) (b n : ℕ) → length (window s b n) ≡ n
length-window s b zero = refl
length-window s b (suc n) = ap suc (length-window s (b + 1) n)

pub window-append :
    (s : List ℕ) (b m n c k : ℕ)
    → b + m ≡ c
    → m + n ≡ k
    → window s b k ≡ window s b m ++ window s c n
window-append s b zero n c k eb ek = ap₂ (λ x y. window s x y) (omega arith) (omega arith)
window-append s b (suc m) n c zero eb ek = absurd (omega arith)
window-append s b (suc m) n c (suc k) eb ek =
    ap (λ l. get_or s (b % length s) 0 ∷ l)
      (window-append s (b + 1) m n c k (omega arith) (omega arith))

-- A window whose bytes are those of a part of a list is that part.
pub window-slice :
    (s : List ℕ) (b n : ℕ) (source : List ℕ) (from : ℕ)
    → from + n ≤ length source
    → ((j : ℕ) → j < n → get_or s ((b + j) % length s) 0 ≡ get_or source (from + j) 0)
    → window s b n ≡ slice source from n
unfolding slice
window-slice s b zero source from h e = refl
window-slice s b (suc n) source from h e =
    ap₂ (λ (x : ℕ) l. x ∷ l) head
      (window-slice s (b + 1) n source (from + 1) (omega arith) (λ j l. step j l))
    ∙ sym (take-drop-cons from n source 0 (omega arith))
  where
    head : get_or s (b % length s) 0 ≡ get_or source from 0
    head =
        ap (λ k. get_or s (k % length s) 0) (omega arith)
        ∙ (e 0 (omega arith) ∙ ap (λ k. get_or source k 0) (omega arith))

    step : (j : ℕ) → j < n → get_or s ((b + 1 + j) % length s) 0 ≡ get_or source (from + 1 + j) 0
    step j l =
        ap (λ k. get_or s (k % length s) 0) (omega arith)
        ∙ (e (suc j) (omega arith) ∙ ap (λ k. get_or source k 0) (omega arith))

-- A window is unchanged where the bytes at its positions are.
pub window_ext :
    (s s' : List ℕ) (b n : ℕ)
    → length s ≡ length s'
    → ((j : ℕ) → j < n → get_or s ((b + j) % length s) 0 ≡ get_or s' ((b + j) % length s) 0)
    → window s b n ≡ window s' b n
window_ext s s' b zero el e = refl
window_ext s s' b (suc n) el e =
    ap₂ (λ (x : ℕ) l. x ∷ l) head (window_ext s s' (b + 1) n el (λ j l. step j l))
  where
    head : get_or s (b % length s) 0 ≡ get_or s' (b % length s') 0
    head =
        ap (λ k. get_or s (k % length s) 0) (omega arith)
        ∙ (e 0 (omega arith) ∙ ap₂ (λ k (m : ℕ). get_or s' (k % m) 0) (omega arith) el)

    step :
        (j : ℕ) → j < n → get_or s ((b + 1 + j) % length s) 0 ≡ get_or s' ((b + 1 + j) % length s) 0
    step j l =
        ap (λ k. get_or s (k % length s) 0) (omega arith)
        ∙ (e (suc j) (omega arith) ∙ ap (λ k. get_or s' (k % length s) 0) (omega arith))
