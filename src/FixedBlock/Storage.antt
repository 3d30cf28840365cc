-- ===== src/FixedBlock/Storage.antt =====
-- Bytes added to the storage of an adapter come after those that it holds.
use android_audio_samples.Prelude.{
  ℕ, ◌+◌, ◌-◌, ◌≤◌, ◌<◌, ◌≡◌, refl, sym, ap, ◌∙◌, subst, min, arith, List, [], ◌++◌, append_assoc,
  length, length-append, length-take, length-replicate, length-drop, take-append, take-append-drop,
  take, drop,
}
use android_audio_samples.Fifo.{memcpy}
use android_audio_samples.FixedBlock.{FixedBlockAdapter, open_adapter, write_to_storage}

pub record IsValid (a : FixedBlockAdapter) : Type 0 where
  pub positive : 0 < a.size
  pub inside : a.position ≤ a.size
  pub whole : length a.storage ≡ a.size

-- the bytes that wait for their block to be filled
abbrev pub stored : FixedBlockAdapter → List ℕ
stored a = take a.position a.storage

memcpy_front :
    (destination bytes : List ℕ) (at : ℕ)
    → at ≤ length destination
    → take (at + length bytes) (memcpy destination at bytes) ≡ take at destination ++ bytes
unfolding memcpy
memcpy_front destination bytes at h =
    let front : List ℕ = take at destination ++ bytes in
    let behind : List ℕ = drop (at + length bytes) destination in
    let long : length front ≡ at + length bytes =
      omega (arith, length-append (take at destination) bytes, length-take at destination) in
    subst (λ (m : ℕ). take m (take at destination ++ (bytes ++ behind)) ≡ front) long
      (ap (take (length front)) (sym (append_assoc (take at destination) bytes behind))
        ∙ take-append front behind)

length-memcpy_inside :
    (destination bytes : List ℕ) (at : ℕ)
    → at + length bytes ≤ length destination
    → length (memcpy destination at bytes) ≡ length destination
unfolding memcpy
length-memcpy_inside destination bytes at h = omega (
  arith,
  length-append (take at destination) (bytes ++ drop (at + length bytes) destination),
  length-append bytes (drop (at + length bytes) destination),
  length-take at destination,
  length-drop (at + length bytes) destination,
)

module _ (b : List ℕ) (a : FixedBlockAdapter) (v : IsValid a) where
  abbrev pub fits : ℕ
  fits = min (length b) (a.size - a.position)

  length-fits : length (take fits b) ≡ fits
  length-fits = omega (arith, length-take fits b)

  pub write_to_storage-IsValid : IsValid (write_to_storage b a)
  unfolding write_to_storage
  write_to_storage-IsValid = record {
    positive = v.positive;
    inside = omega (arith, v.inside);
    whole =
        length-memcpy_inside a.storage (take fits b) a.position
          (omega (arith, length-fits, v.whole, v.inside))
        ∙ v.whole;
  }

  pub position-write_to_storage : (write_to_storage b a).position ≡ a.position + fits
  unfolding write_to_storage
  position-write_to_storage = refl

  pub size-write_to_storage : (write_to_storage b a).size ≡ a.size
  unfolding write_to_storage
  size-write_to_storage = refl

  pub stored-write_to_storage : stored (write_to_storage b a) ≡ stored a ++ take fits b
  unfolding write_to_storage
  stored-write_to_storage =
      subst
        (λ (m : ℕ).
          take (a.position + m) (memcpy a.storage a.position (take fits b))
          ≡ stored a ++ take fits b)
        length-fits
        (memcpy_front a.storage (take fits b) a.position (omega (arith, v.whole, v.inside)))

  pub stored-joined :
      stored (write_to_storage b a) ++ drop ((write_to_storage b a).position - a.position) b
      ≡ stored a ++ b
  stored-joined =
      let k = (write_to_storage b a).position - a.position in
      let e : k ≡ fits = omega (arith, position-write_to_storage) in
      ap (λ l. l ++ drop k b) stored-write_to_storage
      ∙ (append_assoc (stored a) (take fits b) (drop k b)
          ∙ ap (λ l. stored a ++ l) (ap (λ m. take fits b ++ drop m b) e ∙ take-append-drop fits b))

-- An adapter just opened is valid and holds nothing.
open_adapter-IsValid : (n : ℕ) → 0 < n → IsValid (open_adapter n) × (stored (open_adapter n) ≡ [])
unfolding open_adapter
open_adapter-IsValid n h =
    (record { positive = h; inside = omega arith; whole = length-replicate n 0 }, refl)
