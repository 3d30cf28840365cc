-- ===== src/Resampler/Delay.antt =====
-- The delay line: each frame is stored twice, so that a read never wraps.
use android_audio_samples.Prelude.{
  ℕ, zero, suc, ◌+◌, ◌-◌, ◌*◌, ◌≤◌, ◌<◌, ◌==◌, ◌≡◌, refl, sym, ap, ◌∙◌, arith, List, [], ◌∷◌, ◌++◌,
  append-nil, length, length-drop, length-replicate, replicate, take, drop, take-take,
  take-append_more, drop-append_less, drop_all, ◌⊎◌, inl, inr, if◌then◌else◌,
}
use android_audio_samples.Resampler.{
  MultiChannelResampler, IntegerRatio, set_frame, write_frame, new_resampler,
}

module _ {A : Type 0} where
  length-set_frame : (i : ℕ) (f : A) (y : List A) → length (set_frame i f y) ≡ length y
  length-set_frame i f [] = refl
  length-set_frame zero f (a ∷ y) = refl
  length-set_frame (suc i) f (a ∷ y) = ap suc (length-set_frame i f y)

  set_frame-left :
      (i : ℕ) (f : A) (y z : List A) → i < length y → set_frame i f (y ++ z) ≡ set_frame i f y ++ z
  set_frame-left i f [] z h = absurd (omega arith)
  set_frame-left zero f (a ∷ y) z h = refl
  set_frame-left (suc i) f (a ∷ y) z h = ap (λ l. a ∷ l) (set_frame-left i f y z (omega arith))

  set_frame-right :
      (i k : ℕ) (f : A) (y z : List A)
      → k ≡ i + length y
      → set_frame k f (y ++ z) ≡ y ++ set_frame i f z
  set_frame-right i k f [] z e = ap (λ j. set_frame j f z) (omega (arith, e))
  set_frame-right i zero f (a ∷ y) z e = absurd (omega (arith, e))
  set_frame-right i (suc k) f (a ∷ y) z e =
      ap (λ l. a ∷ l) (set_frame-right i k f y z (omega (arith, e)))

  take-set_frame : (i : ℕ) (f : A) (y : List A) → take i (set_frame i f y) ≡ take i y
  take-set_frame zero f y = refl
  take-set_frame (suc i) f [] = refl
  take-set_frame (suc i) f (a ∷ y) = ap (λ l. a ∷ l) (take-set_frame i f y)

  drop-set_frame :
      (i : ℕ) (f : A) (y : List A) → i < length y → drop i (set_frame i f y) ≡ f ∷ drop (suc i) y
  drop-set_frame i f [] h = absurd (omega arith)
  drop-set_frame zero f (a ∷ y) h = refl
  drop-set_frame (suc i) f (a ∷ y) h = drop-set_frame i f y (omega arith)

  -- The frames in the storage, and what a read looks at.
  pub record IsDelayLine (m : MultiChannelResampler A) : Type 0 where
    pub half : List A
    pub long : length half ≡ m.num_taps
    pub twice : m.x ≡ half ++ half
    pub inside : m.cursor < m.num_taps

  abbrev pub window : MultiChannelResampler A → List A
  window m = take m.num_taps (drop m.cursor m.x)

  -- A window of the doubled list is a rotation.
  rotation :
      (n c : ℕ) (y : List A)
      → length y ≡ n
      → c ≤ n
      → take n (drop c (y ++ y)) ≡ drop c y ++ take c y
  rotation n c y e h =
      ap (take n) (drop-append_less c y y (omega (arith, e)))
      ∙ take-append_more c n (drop c y) y (omega (arith, length-drop c y, e))

  doubled :
      (n i : ℕ) (f : A) (y : List A)
      → length y ≡ n
      → i < n
      → set_frame (i + n) f (set_frame i f (y ++ y)) ≡ set_frame i f y ++ set_frame i f y
  doubled n i f y e h =
      ap (set_frame (i + n) f) (set_frame-left i f y y (omega (arith, e)))
      ∙ set_frame-right i (i + n) f (set_frame i f y) y (omega (arith, length-set_frame i f y, e))

  -- Writing one place before the start of the rotation `c` shifts it.
  shifted :
      (n i c : ℕ) (f : A) (y : List A)
      → length y ≡ n
      → i < n
      → (c ≡ suc i) ⊎ ((c ≡ 0) × (suc i ≡ n))
      → drop i (set_frame i f y) ++ take i (set_frame i f y)
        ≡ f ∷ take (n - 1) (drop c y ++ take c y)
  shifted n i c f y e h k =
      ap (λ l. l ++ take i (set_frame i f y)) (drop-set_frame i f y (omega (arith, e)))
      ∙ (ap (λ l. f ∷ (drop (suc i) y ++ l)) (take-set_frame i f y) ∙ ap (λ l. f ∷ l) (go k))
    where
      go :
          (c ≡ suc i) ⊎ ((c ≡ 0) × (suc i ≡ n))
          → drop (suc i) y ++ take i y ≡ take (n - 1) (drop c y ++ take c y)
      go (inl at) = rw at (
          sym (
            take-append_more i (n - 1) (drop (suc i) y) (take (suc i) y)
              (omega (arith, length-drop (suc i) y, e))
            ∙ ap (λ l. drop (suc i) y ++ l) (take-take i (suc i) y (omega arith))))
      go (inr (at, last)) = rw at (
          ap (λ l. l ++ take i y) (drop_all (suc i) y (omega (arith, e, last)))
          ∙ (ap (λ j. take j y) (omega (arith, last)) ∙ ap (take (n - 1)) (sym (append-nil y))))

  -- For a delay line, `writeFrame` shifts what a read looks at: the new frame comes first, then the others in
  -- their order, but for the oldest; and the storage is a delay line again.
  pub write_frame-window :
      (f : A) (m : MultiChannelResampler A)
      → IsDelayLine m
      → (window (write_frame f m) ≡ f ∷ take (m.num_taps - 1) (window m))
        × IsDelayLine (write_frame f m)
  unfolding write_frame
  write_frame-window f m d =
      let i = if m.cursor == 0 then m.num_taps - 1 else m.cursor - 1 in
      let n = m.num_taps in
      let h : i < n = ground (arith, d.inside) in
      let k : (m.cursor ≡ suc i) ⊎ ((m.cursor ≡ 0) × (suc i ≡ n)) = ground (arith, d.inside) in
      let y = set_frame i f d.half in
      let e : length y ≡ n = length-set_frame i f d.half ∙ d.long in
      let two =
        ap (λ l. set_frame (i + n) f (set_frame i f l)) d.twice ∙ doubled n i f d.half d.long h in
      (
        ap (λ l. take n (drop i l)) two
            ∙ (rotation n i y e (omega (arith, h))
                ∙ (shifted n i m.cursor f d.half d.long h k
                    ∙ ap (λ l. f ∷ take (n - 1) l)
                        (sym (
                          ap (λ l. take n (drop m.cursor l)) d.twice
                          ∙ rotation n m.cursor d.half d.long (omega (arith, d.inside)))))),
        record { half = y; long = e; twice = two; inside = h },
      )

  replicate-append :
      (k m j : ℕ) (a : A) → j ≡ k + m → replicate j a ≡ replicate k a ++ replicate m a
  replicate-append zero m j a e = ap (λ i. replicate i a) (omega (arith, e))
  replicate-append (suc k) m zero a e = absurd (omega (arith, e))
  replicate-append (suc k) m (suc j) a e =
      ap (λ l. a ∷ l) (replicate-append k m j a (omega (arith, e)))

  -- A resampler just made is a delay line.
  new_resampler-IsDelayLine :
      (n : ℕ) (ratio : IntegerRatio) (silence : A)
      → 0 < n
      → IsDelayLine (new_resampler n ratio silence)
  unfolding new_resampler
  new_resampler-IsDelayLine n ratio silence h = record {
    half = replicate n silence;
    long = length-replicate n silence;
    twice = replicate-append n n (n * 2) silence (omega arith);
    inside = h;
  }
