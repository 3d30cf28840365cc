-- ===== src/Prelude/Lists.antt =====
-- Lists measured and indexed by native numbers, under the library's names.
use mathlib.Core.Bool.{Bool, true, false}
use mathlib.Core.Option.{Option, none, some}
use Prim.Native.Nat.{ℕ, zero, suc, ◌+◌, ◌-◌, ◌≤◌, ◌<◌, min}
use mathlib.Core.Path.{◌≡◌, refl, ap, ◌∙◌}
use mathlib.Core.List.{List, [], ◌∷◌, ◌++◌}
use native.Mathlib.Omega.{arith}

module _ {ℓ} {A : Type ℓ} where
  abbrev pub length : List A → ℕ
  length [] = 0
  length (x ∷ xs) = suc (length xs)

  abbrev pub get_or : List A → ℕ → A → A
  get_or [] i d = d
  get_or (x ∷ xs) zero d = x
  get_or (x ∷ xs) (suc i) d = get_or xs i d

  abbrev pub take : ℕ → List A → List A
  take zero xs = []
  take (suc n) [] = []
  take (suc n) (x ∷ xs) = x ∷ take n xs

  abbrev pub drop : ℕ → List A → List A
  drop zero xs = xs
  drop (suc n) [] = []
  drop (suc n) (x ∷ xs) = drop n xs

  abbrev pub replicate : ℕ → A → List A
  replicate zero a = []
  replicate (suc n) a = a ∷ replicate n a

  pub length-append : (xs ys : List A) → length (xs ++ ys) ≡ length xs + length ys
  length-append [] ys = omega arith
  length-append (x ∷ xs) ys = omega (arith, length-append xs ys)

  pub length-take : (n : ℕ) (xs : List A) → length (take n xs) ≡ min n (length xs)
  length-take zero xs = omega arith
  length-take (suc n) [] = omega arith
  length-take (suc n) (x ∷ xs) = omega (arith, length-take n xs)

  pub length-drop : (n : ℕ) (xs : List A) → length (drop n xs) ≡ length xs - n
  length-drop zero xs = omega arith
  length-drop (suc n) [] = omega arith
  length-drop (suc n) (x ∷ xs) = omega (arith, length-drop n xs)

  pub length-replicate : (n : ℕ) (a : A) → length (replicate n a) ≡ n
  length-replicate zero a = refl
  length-replicate (suc n) a = ap suc (length-replicate n a)

module _ {ℓ} {A : Type ℓ} where
  pub take-append-drop : (n : ℕ) (xs : List A) → take n xs ++ drop n xs ≡ xs
  take-append-drop zero xs = refl
  take-append-drop (suc n) [] = refl
  take-append-drop (suc n) (x ∷ xs) = ap (λ l. x ∷ l) (take-append-drop n xs)

  pub take_all : (n : ℕ) (xs : List A) → length xs ≤ n → take n xs ≡ xs
  take_all zero [] h = refl
  take_all zero (x ∷ xs) h = elim h [ ]
  take_all (suc n) [] h = refl
  take_all (suc n) (x ∷ xs) h = ap (λ l. x ∷ l) (take_all n xs (omega arith))

  pub take-append : (xs ys : List A) → take (length xs) (xs ++ ys) ≡ xs
  take-append [] ys = refl
  take-append (x ∷ xs) ys = ap (λ l. x ∷ l) (take-append xs ys)

  pub drop-append : (xs ys : List A) → drop (length xs) (xs ++ ys) ≡ ys
  drop-append [] ys = refl
  drop-append (x ∷ xs) ys = drop-append xs ys

  pub drop-nil : (n : ℕ) → drop {A = A} n [] ≡ []
  drop-nil zero = refl
  drop-nil (suc n) = refl

  pub drop-drop : (m n k : ℕ) (xs : List A) → m + n ≡ k → drop n (drop m xs) ≡ drop k xs
  drop-drop zero n k xs e = ap (λ j. drop j xs) (omega arith)
  drop-drop (suc m) n zero xs e = absurd (omega arith)
  drop-drop (suc m) n (suc k) [] e = drop-nil n
  drop-drop (suc m) n (suc k) (x ∷ xs) e = drop-drop m n k xs (omega arith)

  pub drop_all : (n : ℕ) (xs : List A) → length xs ≤ n → drop n xs ≡ []
  drop_all zero [] h = refl
  drop_all zero (x ∷ xs) h = elim h [ ]
  drop_all (suc n) [] h = refl
  drop_all (suc n) (x ∷ xs) h = drop_all n xs (omega arith)

  pub get_or-take : (i n : ℕ) (xs : List A) (d : A) → i < n → get_or (take n xs) i d ≡ get_or xs i d
  get_or-take i zero xs d h = elim h [ ]
  get_or-take i (suc n) [] d h = refl
  get_or-take zero (suc n) (x ∷ xs) d h = refl
  get_or-take (suc i) (suc n) (x ∷ xs) d h = get_or-take i n xs d (omega arith)

  pub get_or-nil : (i : ℕ) (d : A) → get_or [] i d ≡ d
  get_or-nil i d = refl

  pub get_or-drop_zero : (n : ℕ) (xs : List A) (d : A) → get_or (drop n xs) 0 d ≡ get_or xs n d
  get_or-drop_zero zero [] d = refl
  get_or-drop_zero zero (x ∷ xs) d = refl
  get_or-drop_zero (suc n) [] d = refl
  get_or-drop_zero (suc n) (x ∷ xs) d = get_or-drop_zero n xs d

  pub get_or-append_left :
      (xs ys : List A) (i : ℕ) (d : A) → i < length xs → get_or (xs ++ ys) i d ≡ get_or xs i d
  get_or-append_left [] ys i d h = elim h [ ]
  get_or-append_left (x ∷ xs) ys zero d h = refl
  get_or-append_left (x ∷ xs) ys (suc i) d h = get_or-append_left xs ys i d (omega arith)

  pub get_or-append_right :
      (xs ys : List A) (i : ℕ) (d : A)
      → length xs ≤ i
      → get_or (xs ++ ys) i d ≡ get_or ys (i - length xs) d
  get_or-append_right [] ys i d h = ap (λ k. get_or ys k d) (omega arith)
  get_or-append_right (x ∷ xs) ys zero d h = elim h [ ]
  get_or-append_right (x ∷ xs) ys (suc i) d h =
      get_or-append_right xs ys i d (omega arith) ∙ ap (λ k. get_or ys k d) (omega arith)

  pub get_or-drop :
      (n i k : ℕ) (xs : List A) (d : A) → n + i ≡ k → get_or (drop n xs) i d ≡ get_or xs k d
  get_or-drop zero i k xs d e = ap (λ j. get_or xs j d) (omega arith)
  get_or-drop (suc n) i k [] d e = refl
  get_or-drop (suc n) i zero (x ∷ xs) d e = absurd (omega arith)
  get_or-drop (suc n) i (suc k) (x ∷ xs) d e = get_or-drop n i k xs d (omega arith)

  -- the head of a part of a list
  pub take-drop-cons :
      (i n : ℕ) (xs : List A) (d : A)
      → i < length xs
      → take (suc n) (drop i xs) ≡ get_or xs i d ∷ take n (drop (i + 1) xs)
  take-drop-cons i n [] d h = elim h [ ]
  take-drop-cons zero n (x ∷ xs) d h = refl
  take-drop-cons (suc i) n (x ∷ xs) d h =
      let e : suc (i + 1) ≡ suc i + 1 = omega arith in
      take-drop-cons i n xs d (omega arith)
      ∙ ap (λ (k : ℕ). get_or xs i d ∷ take n (drop k (x ∷ xs))) e

  pub take-take : (n v : ℕ) (xs : List A) → n ≤ v → take n (take v xs) ≡ take n xs
  take-take zero v xs h = refl
  take-take (suc n) zero xs h = absurd (omega arith)
  take-take (suc n) (suc v) [] h = refl
  take-take (suc n) (suc v) (x ∷ xs) h = ap (λ l. x ∷ l) (take-take n v xs (omega arith))

  pub take-append_more :
      (k n : ℕ) (xs ys : List A) → n ≡ length xs + k → take n (xs ++ ys) ≡ xs ++ take k ys
  take-append_more k n [] ys e = ap (λ j. take j ys) (omega (arith, e))
  take-append_more k zero (x ∷ xs) ys e = absurd (omega (arith, e))
  take-append_more k (suc n) (x ∷ xs) ys e =
      ap (λ l. x ∷ l) (take-append_more k n xs ys (omega (arith, e)))

  pub drop-append_less :
      (n : ℕ) (xs ys : List A) → n ≤ length xs → drop n (xs ++ ys) ≡ drop n xs ++ ys
  drop-append_less zero xs ys h = refl
  drop-append_less (suc n) [] ys h = absurd (omega arith)
  drop-append_less (suc n) (x ∷ xs) ys h = drop-append_less n xs ys (omega arith)

-- The first element of a list that passes a test.
unfoldable pub first_with {ℓ} : {A : Type ℓ} → (A → Bool) → List A → Option A
first_with p [] = none
first_with p (x ∷ xs) = elim (p x) [ true ↦ some x | false ↦ first_with p xs ]

pub cc_of_some {ℓ} : {A : Type ℓ} {x y : A} → some x ≡ some y → x ≡ y
cc_of_some h = cc
