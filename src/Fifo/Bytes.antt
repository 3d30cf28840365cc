-- ===== src/Fifo/Bytes.antt =====
-- What `memcpy` does to a byte array, byte by byte.
use android_audio_samples.Prelude.{
  ℕ, ◌+◌, ◌-◌, ◌≤◌, ◌<◌, ◌≡◌, ◌∙◌, ap, arith, List, ◌++◌, length, take, drop, get_or, length-take,
  length-drop, length-append, get_or-append_left, get_or-append_right, get_or-take, get_or-drop,
  drop-append, take-append, drop-drop, append_assoc, sym, refl, ◌⊎◌, inl, inr,
}
use android_audio_samples.Fifo.{memcpy, slice}

module _ (destination : List ℕ) (at : ℕ) (bytes : List ℕ)
    (fits : at + length bytes ≤ length destination) where
  length-take_at : length (take at destination) ≡ at
  length-take_at = omega (arith, length-take at destination)

  pub length-memcpy : length (memcpy destination at bytes) ≡ length destination
  unfolding memcpy
  length-memcpy = omega (
    arith,
    length-append (take at destination) (bytes ++ drop (at + length bytes) destination),
    length-append bytes (drop (at + length bytes) destination),
    length-take_at,
    length-drop (at + length bytes) destination,
  )

  pub memcpy_before :
      (i : ℕ) → i < at → get_or (memcpy destination at bytes) i 0 ≡ get_or destination i 0
  unfolding memcpy
  memcpy_before i h =
      get_or-append_left (take at destination) _ i 0 (omega (arith, length-take_at))
      ∙ get_or-take i at destination 0 h

  memcpy_from :
      (i : ℕ)
      → at ≤ i
      → get_or (memcpy destination at bytes) i 0
        ≡ get_or (bytes ++ drop (at + length bytes) destination) (i - at) 0
  unfolding memcpy
  memcpy_from i h =
      get_or-append_right (take at destination) _ i 0 (omega (arith, length-take_at))
      ∙ ap (λ k. get_or (bytes ++ drop (at + length bytes) destination) (i - k) 0) length-take_at

  pub memcpy_inside :
      (i : ℕ)
      → at ≤ i
      → i < at + length bytes
      → get_or (memcpy destination at bytes) i 0 ≡ get_or bytes (i - at) 0
  memcpy_inside i h l = memcpy_from i h ∙ get_or-append_left bytes _ (i - at) 0 (omega arith)

  pub memcpy_after :
      (i : ℕ)
      → at + length bytes ≤ i
      → get_or (memcpy destination at bytes) i 0 ≡ get_or destination i 0
  memcpy_after i h =
      memcpy_from i (omega arith)
      ∙ (get_or-append_right bytes _ (i - at) 0 (omega arith)
          ∙ get_or-drop (at + length bytes) (i - at - length bytes) i destination 0 (omega arith))

-- Two copies end to end are one copy.
pub memcpy-memcpy :
    (destination first second : List ℕ)
    → memcpy (memcpy destination 0 first) (length first) second
      ≡ memcpy destination 0 (first ++ second)
unfolding memcpy
memcpy-memcpy destination first second =
    ap (λ l. l ++ (second ++ drop (length first + length second) (memcpy destination 0 first)))
      (take-append first (drop (0 + length first) destination))
    ∙ (ap (λ l. first ++ (second ++ l)) rest ∙ sym (append_assoc first second _))
  where
    rest :
        drop (length first + length second) (first ++ drop (0 + length first) destination)
        ≡ drop (0 + length (first ++ second)) destination
    rest =
        sym (
          drop-drop (length first) (length second) _ (first ++ drop (0 + length first) destination)
            refl)
        ∙ (ap (drop (length second)) (drop-append first (drop (0 + length first) destination))
            ∙ drop-drop (0 + length first) (length second) (0 + length (first ++ second))
                destination (omega (arith, length-append first second)))

pub length-slice :
    (source : List ℕ) (from n : ℕ) → from + n ≤ length source → length (slice source from n) ≡ n
unfolding slice
length-slice source from n h =
    omega (arith, length-take n (drop from source), length-drop from source)

pub get_or-slice :
    (source : List ℕ) (from n i : ℕ)
    → i < n
    → get_or (slice source from n) i 0 ≡ get_or source (from + i) 0
unfolding slice
get_or-slice source from n i h =
    get_or-take i n (drop from source) 0 h ∙ get_or-drop from i (from + i) source 0 (omega arith)

-- What a copied part of `source` leaves at each index of the destination.
module _ (destination : List ℕ) (at : ℕ) (source : List ℕ) (from n : ℕ)
    (fits : at + n ≤ length destination) (enough : from + n ≤ length source) where
  n_bytes : length (slice source from n) ≡ n
  n_bytes = length-slice source from n enough

  pub length-memcpy-slice :
      length (memcpy destination at (slice source from n)) ≡ length destination
  length-memcpy-slice = length-memcpy destination at (slice source from n) (omega (arith, n_bytes))

  pub copied :
      (i j : ℕ)
      → at + j ≡ i
      → j < n
      → get_or (memcpy destination at (slice source from n)) i 0 ≡ get_or source (from + j) 0
  copied i j e h =
      memcpy_inside destination at (slice source from n) (omega (arith, n_bytes)) i (omega arith)
        (omega (arith, n_bytes))
      ∙ (ap (λ k. get_or (slice source from n) k 0) (omega arith) ∙ get_or-slice source from n j h)

  pub kept :
      (i : ℕ)
      → (i < at) ⊎ (at + n ≤ i)
      → get_or (memcpy destination at (slice source from n)) i 0 ≡ get_or destination i 0
  kept i (inl h) = memcpy_before destination at (slice source from n) (omega (arith, n_bytes)) i h
  kept i (inr h) =
      memcpy_after destination at (slice source from n) (omega (arith, n_bytes)) i
        (omega (arith, n_bytes))
