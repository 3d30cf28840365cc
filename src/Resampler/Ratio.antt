-- ===== src/Resampler/Ratio.antt =====
-- Reducing a ratio by the primes of the table.
use native.Mathlib.Nat.{
  dvd_of_mod-eq-zero, dvd-mul_right_of_dvd, div-add-mod', mul_assoc, mul-lt-mul_of_pos_left,
  mod-eq-zero_of_dvd, mod-eq_of_lt,
}
use android_audio_samples.Prelude.{
  ℕ, zero, suc, ◌*◌, ◌/◌, ◌%◌, ◌≤◌, ◌<◌, ◌==◌, ◌≡◌, refl, sym, ap, ◌∙◌, arith, List, [], ◌∷◌, Bool,
  true, false, ◌&&◌, ◌||◌, Bool-cases, ltb, ltb→lt, leb, Option, none, some, if_cases, inl, inr,
}
use android_audio_samples.Resampler.{IntegerRatio, primes, reduce_by, reduce_from, reduce}

-- The ratio of `r` with a common factor taken out.
pub record Reduces (r r' : IntegerRatio) : Type 0 where
  pub factor : ℕ
  pub numerator : r.numerator ≡ r'.numerator * factor
  pub denominator : r.denominator ≡ r'.denominator * factor

abbrev pub Positive : IntegerRatio → Type 0
Positive r = (0 < r.numerator) × (0 < r.denominator)

Reduces-refl : (r : IntegerRatio) → Reduces r r
Reduces-refl r = record { factor = 1; numerator = omega arith; denominator = omega arith }

Reduces-trans : (r s t : IntegerRatio) → Reduces r s → Reduces s t → Reduces r t
Reduces-trans r s t a b = record {
  factor = b.factor * a.factor;
  numerator =
      a.numerator ∙ (ap (λ n. n * a.factor) b.numerator ∙ mul_assoc t.numerator b.factor a.factor);
  denominator =
      a.denominator
      ∙ (ap (λ n. n * a.factor) b.denominator ∙ mul_assoc t.denominator b.factor a.factor);
}

-- whether a prime divides both
abbrev pub Common : ℕ → IntegerRatio → Type 0
Common prime r = (r.numerator % prime ≡ 0) × (r.denominator % prime ≡ 0)

mod_mul : (n g p : ℕ) → n % p ≡ 0 → n * g % p ≡ 0
mod_mul n g p h = mod-eq-zero_of_dvd p (dvd-mul_right_of_dvd p (dvd_of_mod-eq-zero p h) g)

-- A prime that divides both after a reduction divided both before it.
Common-Reduces : (p : ℕ) (r r' : IntegerRatio) → Reduces r r' → Common p r' → Common p r
Common-Reduces p r r' e (a, b) = (
  ap (λ n. n % p) e.numerator ∙ mod_mul r'.numerator e.factor p a,
  ap (λ n. n % p) e.denominator ∙ mod_mul r'.denominator e.factor p b,
)

halves : (n p : ℕ) → 0 < p → (n / p) * p ≡ n → n % p ≡ 0
halves n p h e = omega (arith, div-add-mod' n p)

-- What a call of the inner loop leads to.
record Ends (p : ℕ) (r : IntegerRatio) (t : Option IntegerRatio) : Type 0 where
  result : IntegerRatio
  returned : t ≡ some result
  reduced : Reduces r result
  positive : (0 < result.numerator) × (0 < result.denominator)
  clear : ¬ (Common p result)
  smaller : result.numerator ≤ r.numerator

divided : (n p top : ℕ) → 2 ≤ p → 0 < n → top * p ≡ n → top < n
divided n p zero h k e = k
divided n p (suc top) h k e =
    let more : suc top * 1 < suc top * p =
      mul-lt-mul_of_pos_left {m = 1} {n = p} {k = suc top} h (omega arith) in
    omega (arith, more, e)

at_least_one : (n p : ℕ) → 0 < n → (n / p) * p ≡ n → 1 ≤ n / p
at_least_one n p h e = go (n / p) e
  where
    go : (top : ℕ) → top * p ≡ n → 1 ≤ top
    go zero f = absurd (omega (arith, f))
    go (suc top) f = omega arith

whole : (n p : ℕ) → n % p ≡ 0 → (n / p) * p ≡ n
whole n p h = omega (arith, div-add-mod' n p)

-- The test of the inner loop.
abbrev divides_both : ℕ → IntegerRatio → Bool
divides_both p r =
    leb 1 (r.numerator / p)
    && leb 1 (r.denominator / p)
    && r.numerator / p * p == r.numerator
    && r.denominator / p * p == r.denominator

divides_both-true : (p : ℕ) (r : IntegerRatio) → Positive r → Common p r → divides_both p r ≡ true
divides_both-true p r (h, k) (a, b) =
    let e = whole r.numerator p a in
    let f = whole r.denominator p b in
    let l = at_least_one r.numerator p h e in
    let m = at_least_one r.denominator p k f in ground (arith, e, f, l, m)

clash : {b : Bool} → b ≡ true → b ≡ false → ⊥
clash h k = ground (arith, h, k)

reduce_by-Ends :
    (fuel p : ℕ) (r : IntegerRatio)
    → 2 ≤ p
    → Positive r
    → r.numerator < fuel
    → Ends p r (reduce_by fuel p r)
unfolding reduce_by
reduce_by-Ends zero p r h k l = absurd (omega arith)
reduce_by-Ends (suc fuel) p r h k l = elim (Bool-cases (divides_both p r)) [
  | inr e ↦ record {
    result = r;
    returned = rw e refl;
    reduced = Reduces-refl r;
    positive = k;
    clear = λ c. clash (divides_both-true p r k c) e;
    smaller = omega arith;
  }
  | inl e ↦
      let top = r.numerator / p in
      let bottom = r.denominator / p in
      let half : IntegerRatio = record { numerator = top; denominator = bottom } in
      let a : top * p ≡ r.numerator = ground arith in
      let b : bottom * p ≡ r.denominator = ground arith in
      let c : (0 < top) × (0 < bottom) = ground arith in
      let rest =
        reduce_by-Ends fuel p half h c (omega (arith, divided r.numerator p top h k.0 a)) in
      record {
        result = rest.result;
        returned = rw e rest.returned;
        reduced =
            Reduces-trans r half rest.result
              (record { factor = p; numerator = sym a; denominator = sym b }) rest.reduced;
        positive = rest.positive;
        clear = rest.clear;
        smaller = omega (arith, rest.smaller, divided r.numerator p top h k.0 a);
      }
]

-- No number of the list divides both.
pub Clear : List ℕ → IntegerRatio → Type 0
Clear [] r = Unit {0}
Clear (p ∷ ps) r = (¬ (Common p r)) × Clear ps r

-- The numbers ascend, from `low` on.
ascending : ℕ → List ℕ → Bool
ascending low [] = true
ascending low (p ∷ ps) = leb low p && ascending p ps

not_divided : (n q : ℕ) → 0 < n → n < q → ¬ (n % q ≡ 0)
not_divided n q h l e = absurd (omega (arith, sym (mod-eq_of_lt l) ∙ e))

not-Common :
    (low q : ℕ) (r : IntegerRatio)
    → Positive r
    → (ltb r.numerator low || ltb r.denominator low) ≡ true
    → low ≤ q
    → ¬ (Common q r)
not-Common low q r (h, k) l m (a, b) = elim (Bool-cases (ltb r.numerator low)) [
  | inl e ↦ not_divided r.numerator q h (omega (arith, ltb→lt r.numerator low e)) a
  | inr e ↦ not_divided r.denominator q k (omega (arith, ltb→lt r.denominator low (ground arith))) b
]

Clear-small :
    (ps : List ℕ) (low : ℕ) (r : IntegerRatio)
    → ascending low ps ≡ true
    → Positive r
    → (ltb r.numerator low || ltb r.denominator low) ≡ true
    → Clear ps r
unfolding Clear ascending
Clear-small [] low r a h l = tt
Clear-small (p ∷ ps) low r a h l =
    (not-Common low p r h l (ground arith), Clear-small ps p r (ground arith) h (ground arith))

-- What the outer loop leads to.
record EndsAll (ps : List ℕ) (r : IntegerRatio) (t : Option IntegerRatio) : Type 0 where
  result : IntegerRatio
  returned : t ≡ some result
  reduced : Reduces r result
  positive : (0 < result.numerator) × (0 < result.denominator)
  clear : Clear ps result

after_prime :
    (p : ℕ) (ps : List ℕ) (fuel : ℕ) (r : IntegerRatio) (t : Option IntegerRatio)
    → ((r' : IntegerRatio)
        → Positive r'
        → r'.numerator < fuel
        → EndsAll ps r' (reduce_from ps fuel r'))
    → r.numerator < fuel
    → Ends p r t
    → EndsAll (p ∷ ps) r (elim t [ none ↦ none | some r' ↦ reduce_from ps fuel r' ])
unfolding Clear
after_prime p ps fuel r t rest l e =
    let d = rest e.result e.positive (omega (arith, e.smaller)) in
    record {
      result = d.result;
      returned = rw e.returned d.returned;
      reduced = Reduces-trans r e.result d.result e.reduced d.reduced;
      positive = d.positive;
      clear = (λ c. e.clear (Common-Reduces p e.result d.result d.reduced c), d.clear);
    }

reduce_from-EndsAll :
    (ps : List ℕ) (low fuel : ℕ) (r : IntegerRatio)
    → 2 ≤ low
    → ascending low ps ≡ true
    → Positive r
    → r.numerator < fuel
    → EndsAll ps r (reduce_from ps fuel r)
unfolding reduce_from ascending Clear
reduce_from-EndsAll [] low fuel r t a h l = record {
  result = r;
  returned = refl;
  reduced = Reduces-refl r;
  positive = h;
  clear = tt;
}
reduce_from-EndsAll (p ∷ ps) low fuel r t a h l =
    if_cases (EndsAll (p ∷ ps) r) (ltb r.numerator p || ltb r.denominator p)
      (λ small. record {
        result = r;
        returned = refl;
        reduced = Reduces-refl r;
        positive = h;
        clear = Clear-small (p ∷ ps) p r (ground arith) h small;
      })
      (λ big.
        after_prime p ps fuel r (reduce_by fuel p r)
          (λ r' h' l'. reduce_from-EndsAll ps p fuel r' (ground arith) (ground arith) h' l') l
          (reduce_by-Ends fuel p r (ground arith) h l))

-- `reduce` ends for two positive numbers, with more fuel than the numerator: it divides both by one number,
-- leaves them positive, and no prime of the table divides both of them any more.
pub reduce_lem :
    (fuel : ℕ) (r : IntegerRatio)
    → 0 < r.numerator
    → 0 < r.denominator
    → r.numerator < fuel
    → (r' : IntegerRatio) × (reduce fuel r ≡ some r') × Reduces r r' × Positive r' × Clear primes r'
unfolding reduce ascending
reduce_lem fuel r h k l =
    let d = reduce_from-EndsAll primes 2 fuel r (omega arith) refl (h, k) l in
    (d.result, d.returned, d.reduced, d.positive, d.clear)
