-- ===== src/Fifo/Convert.antt =====
-- The invariant of a FIFO, and that under it no index, byte count or sum of `read` and `write` wraps.
use native.Mathlib.Nat.{
  mod-add-div', add-mul-mod_self_right, mod-eq_of_lt, mod-lt, mul-le-mul_right,
  mul-lt-mul_of_pos_right,
}
use android_audio_samples.Prelude.{
  ℕ, ◌+◌, ◌-◌, ◌*◌, ◌/◌, ◌%◌, ◌^◌, ◌≤◌, ◌<◌, ◌≡◌, ◌∙◌, ap, arith, length, ltb, i32, pos, pos_part,
  dec_lt, lt→ltb, sym,
}
use android_audio_samples.Fifo.{
  FifoBuffer, convert_frames_to_bytes, offset_of, get_full_frames_available,
  get_empty_frames_available,
}

-- The counters are those of a FIFO that has not passed 2 ^ 64 frames.
pub record IsValid (f : FifoBuffer) : Type 0 where
  pub some_frames : 0 < f.total_frames
  pub some_bytes : 0 < f.bytes_per_frame
  pub fits : f.total_frames * f.bytes_per_frame < 2 ^ 31
  pub small : f.total_frames ≤ (2 ^ 32 - 1) / 4
  pub whole : length f.storage ≡ f.total_frames * f.bytes_per_frame
  pub ordered : f.read_counter ≤ f.write_counter
  pub bounded : f.write_counter ≤ f.read_counter + f.total_frames
  pub counted : f.write_counter < 2 ^ 64

module _ {f : FifoBuffer} (v : IsValid f) where
  pub full_lem : get_full_frames_available f ≡ f.write_counter - f.read_counter
  unfolding get_full_frames_available
  full_lem = ground arith

  pub empty_lem : get_empty_frames_available f ≡ f.total_frames - (f.write_counter - f.read_counter)
  unfolding get_empty_frames_available
  empty_lem = ground (arith, full_lem)

  pub whole_pos : 0 < length f.storage
  whole_pos = omega (arith, v.whole, mul-lt-mul_of_pos_right v.some_frames v.some_bytes)

  pub scaled_le : (n : ℕ) → n ≤ f.total_frames → n * f.bytes_per_frame ≤ length f.storage
  scaled_le n h = omega (arith, v.whole, mul-le-mul_right f.bytes_per_frame h)

  scaled-le :
      (n : ℕ) → n ≤ f.total_frames → n * f.bytes_per_frame ≤ f.total_frames * f.bytes_per_frame
  scaled-le n h = grind arith

  pub convert_lem :
      (n : ℕ) → n ≤ f.total_frames → convert_frames_to_bytes f (i32 n) ≡ pos (n * f.bytes_per_frame)
  unfolding convert_frames_to_bytes i32
  convert_lem n h = ground (arith, scaled-le n h)

  pub offset_lem : (n : ℕ) → n ≤ f.total_frames → offset_of f n ≡ n * f.bytes_per_frame
  unfolding offset_of
  offset_lem n h = ap pos_part (convert_lem n h)

-- A number of frames goes round the end exactly when its bytes do.
pub ltb_scale : (c x y b : ℕ) → 0 < b → ltb (c * b) (x * b + y * b) ≡ ltb c (x + y)
ltb_scale c x y b h = elim (dec_lt c (x + y)) [
  | yes p ↦ lt→ltb _ _ (omega (arith, mul-lt-mul_of_pos_right p h)) ∙ sym (lt→ltb _ _ p)
  | no p ↦ ground (arith, mul-le-mul_right {m = x + y} {n = c} b)
]

-- The byte index of a frame is that of its byte position.
pub mod_scale : (r c b : ℕ) → 0 < c → 0 < b → (r * b) % (c * b) ≡ r % c * b
mod_scale r c b p h =
    let e : r * b ≡ r % c * b + r / c * (c * b) =
      omega (arith, ap (λ (t : ℕ). t * b) (mod-add-div' r c)) in
    ap (λ t. t % (c * b)) e
    ∙ (add-mul-mod_self_right (r % c * b) (r / c) (c * b)
        ∙ mod-eq_of_lt (mul-lt-mul_of_pos_right (mod-lt r p) h))

pub sub_scale : (i c b : ℕ) → i ≤ c → (c - i) * b ≡ c * b - i * b
sub_scale i c b h = let e : c ≡ i + (c - i) = omega arith in omega (arith, ap (λ (t : ℕ). t * b) e)

pub split_scale : (i j c b : ℕ) → i + j ≡ c → i * b + j * b ≡ c * b
split_scale i j c b e = omega (arith, ap (λ (t : ℕ). t * b) e)
