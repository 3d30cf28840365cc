-- ===== src/Flowgraph/Channels.antt =====
-- Which sample goes where.
use native.Mathlib.Nat.{mod-eq_of_lt, add-mod_right}
use android_audio_samples.Prelude.{
  ℕ, zero, suc, ◌+◌, ◌%◌, ◌≤◌, ◌<◌, ◌≡◌, refl, sym, ap, ◌∙◌, arith, List, [], ◌∷◌, ◌++◌, get_or,
  drop, length, replicate, ◌==◌, if◌then◌else◌, Bool-cases, inl, inr,
}
use android_audio_samples.Flowgraph.{mono_to_multi, multi_to_mono, convert_frame}

module _ {A : Type 0} (outside : A) where
  drop-replicate : (n : ℕ) (a : A) (xs : List A) → drop n (replicate n a ++ xs) ≡ xs
  drop-replicate zero a xs = refl
  drop-replicate (suc n) a xs = drop-replicate n a xs

  first_of : (n : ℕ) (a : A) (xs : List A) → 0 < n → get_or (replicate n a ++ xs) 0 outside ≡ a
  first_of zero a xs h = absurd (omega arith)
  first_of (suc n) a xs h = refl

  -- Spreading a mono buffer over any positive number of channels, and taking the first channel of that,
  -- gives the frames of the mono buffer back.
  pub multi_to_mono-mono_to_multi :
      (channels frames : ℕ) (input : List A)
      → 0 < channels
      → length input ≡ frames
      → multi_to_mono outside channels frames (mono_to_multi outside channels frames input) ≡ input
  unfolding multi_to_mono mono_to_multi
  multi_to_mono-mono_to_multi channels zero [] h e = refl
  multi_to_mono-mono_to_multi channels zero (x ∷ xs) h e = absurd (omega arith)
  multi_to_mono-mono_to_multi channels (suc n) [] h e = absurd (omega arith)
  multi_to_mono-mono_to_multi channels (suc n) (x ∷ xs) h e =
      rw
        (
          first_of channels x (mono_to_multi outside channels n xs) h,
          drop-replicate channels x (mono_to_multi outside channels n xs),
        )
        (ap (λ l. x ∷ l) (multi_to_mono-mono_to_multi channels n xs h (omega arith)))

  next_channel : ℕ → ℕ → ℕ
  next_channel inputs c = if c == inputs then 0 else c + 1

  next_channel-le : (inputs c : ℕ) → c ≤ inputs → next_channel inputs c ≤ inputs
  next_channel-le inputs c h = unfold next_channel in ground arith

  -- the step is one further round a circle of `inputs + 1` places
  next_channel-mod :
      (inputs c k : ℕ)
      → c ≤ inputs
      → (next_channel inputs c + k) % (inputs + 1) ≡ (c + suc k) % (inputs + 1)
  unfolding next_channel
  next_channel-mod inputs c k h = elim (Bool-cases (c == inputs)) [
    | inl e ↦
        let start : 0 + k ≡ k = omega arith in
        let round : k + (inputs + 1) ≡ c + suc k = grind arith in
        rw (e, start) (rw (sym round) (sym (add-mod_right k (inputs + 1))))
    | inr e ↦ rw (e) (ap (λ i. i % (inputs + 1)) (omega arith))
  ]

  -- With `c` the input channel the loop starts from, output channel `k` of a frame is sample `(c + k) %
  -- (inputs + 1)` counted from the start of the input frame: the loop goes round `inputs + 1` samples.
  pub convert_frame-get :
      (inputs outputs c k : ℕ) (input : List A)
      → c ≤ inputs
      → k < outputs
      → get_or (convert_frame outside inputs outputs c input) k outside
        ≡ get_or input ((c + k) % (inputs + 1)) outside
  unfolding convert_frame next_channel
  convert_frame-get inputs zero c k input h l = absurd (omega arith)
  convert_frame-get inputs (suc n) c zero input h l =
      ap (λ i. get_or input i outside)
        (sym (mod-eq_of_lt (omega arith)) ∙ ap (λ i. i % (inputs + 1)) (omega arith))
  convert_frame-get inputs (suc n) c (suc k) input h l =
      convert_frame-get inputs n (next_channel inputs c) k input (next_channel-le inputs c h)
        (omega arith)
      ∙ ap (λ i. get_or input i outside) (next_channel-mod inputs c k h)
