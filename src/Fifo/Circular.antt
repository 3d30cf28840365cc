-- ===== src/Fifo/Circular.antt =====
-- The two-part copies of `read` and `write`, in bytes, against the window of the stream.
use native.Mathlib.Nat.{mod-eq_of_lt, mod-eq-sub-mod, mod-add-mod}
use android_audio_samples.Prelude.{
  ℕ, ◌+◌, ◌-◌, ◌%◌, ◌≤◌, ◌<◌, ◌≡◌, ◌⊎◌, inl, inr, refl, ◌∙◌, ap, ap₂, sym, arith, dec_lt, List,
  ◌++◌, length, get_or, ltb, if◌then◌else◌, Bool-cases, ltb→lt,
}
use android_audio_samples.Fifo.{memcpy, slice}
use android_audio_samples.Fifo.Bytes.{
  memcpy-memcpy, length-slice, length-memcpy-slice, copied, kept,
}
use android_audio_samples.Fifo.Window.{window, window-append, window-slice}

-- `k` bytes from index `i` of the storage `s` to the start of a buffer, going round the end
unfoldable pub get_bytes : List ℕ → ℕ → ℕ → List ℕ → List ℕ
get_bytes s i k buffer =
    if ltb (length s) (i + k)
    then memcpy (memcpy buffer 0 (slice s i (length s - i))) (length s - i)
        (slice s 0 (k - (length s - i)))
    else memcpy buffer 0 (slice s i k)

-- the first `k` bytes of a source to index `i` of the storage `s`, going round the end
unfoldable pub put_bytes : List ℕ → ℕ → ℕ → List ℕ → List ℕ
put_bytes s i k source =
    if ltb (length s) (i + k)
    then memcpy (memcpy s i (slice source 0 (length s - i))) 0
        (slice source (length s - i) (k - (length s - i)))
    else memcpy s i (slice source 0 k)

-- `t` steps on from position `b` in a circle of `l`
pub step_mod :
    (b t l : ℕ)
    → 0 < l
    → t ≤ l
    → ((b % l + t < l) × ((b + t) % l ≡ b % l + t))
      ⊎ ((l ≤ b % l + t) × ((b + t) % l ≡ b % l + t - l))
step_mod b t l p h = elim (dec_lt (b % l + t) l) [
  | yes q ↦ inl (q, sym (mod-add-mod b l t) ∙ mod-eq_of_lt q)
  | no q ↦ inr (
    omega arith,
    sym (mod-add-mod b l t)
        ∙ (mod-eq-sub-mod {n = b % l + t} {m = l} (omega arith)
            ∙ mod-eq_of_lt {n = b % l + t - l} {m = l} (omega arith)),
  )
]

-- the index that `j` steps from position `b` reach, before and after the end of the storage
step_before : (b j k l : ℕ) → 0 < l → j < k → b % l + k ≤ l → (b + j) % l ≡ b % l + j
step_before b j k l p h q = ground (arith, step_mod b j l)

step_after : (b j l c : ℕ) → 0 < l → b + (l - b % l) ≡ c → j < b % l → (c + j) % l ≡ 0 + j
step_after b j l c p e h =
    let e' : c + j ≡ b + (l - b % l + j) = omega arith in
    ap (λ n. n % l) e' ∙ ground (arith, step_mod b (l - b % l + j) l)

window_straight :
    (s : List ℕ) (b k : ℕ)
    → 0 < length s
    → b % length s + k ≤ length s
    → window s b k ≡ slice s (b % length s) k
window_straight s b k p q =
    window-slice s b k s (b % length s) q
      (λ j l. ap (λ n. get_or s n 0) (step_before b j k (length s) p l q))

window_wrapped :
    (s : List ℕ) (b k : ℕ)
    → 0 < length s
    → k ≤ length s
    → length s < b % length s + k
    → window s b k
      ≡ slice s (b % length s) (length s - b % length s)
        ++ slice s 0 (k - (length s - b % length s))
window_wrapped s b k p h q =
    window-append s b (length s - b % length s) (k - (length s - b % length s)) _ k refl
      (omega arith)
    ∙ ap₂ ◌++◌ (window_straight s b (length s - b % length s) p (omega arith)) (
        window-slice s _ (k - (length s - b % length s)) s 0 (omega arith)
          (λ j l. ap (λ n. get_or s n 0) (step_after b j (length s) _ p refl (omega arith))))

-- Reading round the end gives the window at the position that the index stands for.
pub get_bytes_lem :
    (s : List ℕ) (b k : ℕ) (buffer : List ℕ)
    → 0 < length s
    → k ≤ length s
    → get_bytes s (b % length s) k buffer ≡ memcpy buffer 0 (window s b k)
unfolding get_bytes
get_bytes_lem s b k buffer p h = elim (Bool-cases (ltb (length s) (b % length s + k))) [
  | inl two ↦ rw two (
      ap
        (λ n.
          memcpy (memcpy buffer 0 (slice s (b % length s) (length s - b % length s))) n
            (slice s 0 (k - (length s - b % length s))))
        (sym (length-slice s (b % length s) (length s - b % length s) (omega arith)))
      ∙ (memcpy-memcpy buffer (slice s (b % length s) (length s - b % length s)) _
          ∙ ap (memcpy buffer 0) (sym (window_wrapped s b k p h (ltb→lt _ _ two)))))
  | inr one ↦ rw one (ap (memcpy buffer 0) (sym (window_straight s b k p (ground arith))))
]

module _ (s : List ℕ) (w k : ℕ) (source : List ℕ) (nonempty : 0 < length s) (room : k ≤ length s)
    (enough : k ≤ length source) where
  abbrev first_part : List ℕ
  first_part = memcpy s (w % length s) (slice source 0 (length s - w % length s))

  module _ (wraps : length s < w % length s + k) where
    length-first_part : length first_part ≡ length s
    length-first_part =
        length-memcpy-slice s (w % length s) source 0 (length s - w % length s) (omega arith)
          (omega arith)

    abbrev second_fits : 0 + (k - (length s - w % length s)) ≤ length first_part
    second_fits = omega (arith, length-first_part)

    abbrev second_has : length s - w % length s + (k - (length s - w % length s)) ≤ length source
    second_has = omega arith

  -- Copying in keeps the storage's size.
  pub length-put_bytes : length (put_bytes s (w % length s) k source) ≡ length s
  unfolding put_bytes
  length-put_bytes = elim (Bool-cases (ltb (length s) (w % length s + k))) [
    | inl two ↦ rw two (
        length-memcpy-slice first_part 0 source (length s - w % length s)
          (k - (length s - w % length s)) (second_fits (ltb→lt _ _ two))
          (second_has (ltb→lt _ _ two))
        ∙ length-first_part (ltb→lt _ _ two))
    | inr one ↦
        rw one (length-memcpy-slice s (w % length s) source 0 k (ground arith) (omega arith))
  ]

  -- the bytes written are those of the source
  pub put_bytes_new :
      (t : ℕ)
      → t < k
      → get_or (put_bytes s (w % length s) k source) ((w + t) % length s) 0 ≡ get_or source t 0
  unfolding put_bytes
  put_bytes_new t h = elim (Bool-cases (ltb (length s) (w % length s + k))) [
    | inl two ↦ rw two (elim (dec_lt t (length s - w % length s)) [
      | yes early ↦
          kept first_part 0 source (length s - w % length s) (k - (length s - w % length s))
            (second_fits (ltb→lt _ _ two)) (second_has (ltb→lt _ _ two)) ((w + t) % length s)
            (inr (ground (arith, ltb→lt _ _ two, step_mod w t (length s))))
          ∙ copied s (w % length s) source 0 (length s - w % length s) (omega arith)
              (omega (arith, ltb→lt _ _ two)) ((w + t) % length s) t
              (ground (arith, step_mod w t (length s))) early
          ∙ ap (λ n. get_or source n 0) (omega arith)
      | no late ↦
          copied first_part 0 source (length s - w % length s) (k - (length s - w % length s))
            (second_fits (ltb→lt _ _ two)) (second_has (ltb→lt _ _ two)) ((w + t) % length s)
            (t - (length s - w % length s)) (ground (arith, step_mod w t (length s))) (omega arith)
          ∙ ap (λ n. get_or source n 0) (omega arith)
    ])
    | inr one ↦ rw one (
        copied s (w % length s) source 0 k (ground arith) (omega arith) ((w + t) % length s) t
          (ground (arith, step_mod w t (length s))) h
        ∙ ap (λ n. get_or source n 0) (omega arith))
  ]

  -- `u` bytes before the position written, the storage is as it was
  pub put_bytes_old :
      (r u : ℕ)
      → (r + u) % length s ≡ w % length s
      → 0 < u
      → u + k ≤ length s
      → get_or (put_bytes s (w % length s) k source) (r % length s) 0 ≡ get_or s (r % length s) 0
  unfolding put_bytes
  put_bytes_old r u e p h = elim (Bool-cases (ltb (length s) (w % length s + k))) [
    | inl two ↦ rw two (
        kept first_part 0 source (length s - w % length s) (k - (length s - w % length s))
          (second_fits (ltb→lt _ _ two)) (second_has (ltb→lt _ _ two)) (r % length s)
          (inr (ground (arith, ltb→lt _ _ two, step_mod r u (length s))))
        ∙ kept s (w % length s) source 0 (length s - w % length s) (omega arith)
            (omega (arith, ltb→lt _ _ two)) (r % length s)
            (ground (arith, step_mod r u (length s))))
    | inr one ↦ rw one (
        kept s (w % length s) source 0 k (ground arith) (omega arith) (r % length s)
          (ground (arith, step_mod r u (length s))))
  ]
