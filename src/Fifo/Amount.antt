-- ===== src/Fifo/Amount.antt =====
-- How many frames a read or a write of the FIFO may move.
use android_audio_samples.Prelude.{
  ℕ, ◌^◌, ◌≤◌, ◌<◌, min, arith, List, Bool-cases, inl, inr, pos, ◌≤ℤ◌, ltb_ℤ, u32, to_u32, i32,
  i32_small,
}
use android_audio_samples.Fifo.{
  FifoBuffer, read, write, read_parts, write_parts, get_read_index, get_write_index,
  get_full_frames_available, get_empty_frames_available,
}

moved : (n e : ℕ) → n < 2 ^ 31 → i32 (min (u32 n) e) ≤ℤ pos n
moved n e h =
    let small : min (u32 n) e ≤ n = ground arith in
    rw (i32_small (min (u32 n) e) (omega arith)) (omega arith)

-- Neither moves more frames than it was asked for.
pub write-le : (f : FifoBuffer) (b : List ℕ) (n : ℕ) → n < 2 ^ 31 → (write f b (pos n)).0 ≤ℤ pos n
unfolding write
write-le f b n h =
    let frames = min (to_u32 (pos n)) (get_empty_frames_available f) in
    elim (Bool-cases (ltb_ℤ (pos 0) (pos n))) [
      | inr e ↦ rw e (omega arith)
      | inl e ↦ elim (Bool-cases (write_parts f b (get_write_index f) frames).0) [
        | inl c ↦ rw (e, c) (moved n (get_empty_frames_available f) h)
        | inr c ↦ rw (e, c) (omega arith)
      ]
    ]

pub read-le : (f : FifoBuffer) (b : List ℕ) (n : ℕ) → n < 2 ^ 31 → (read f b (pos n)).0 ≤ℤ pos n
unfolding read
read-le f b n h =
    let frames = min (to_u32 (pos n)) (get_full_frames_available f) in
    elim (Bool-cases (ltb_ℤ (pos 0) (pos n))) [
      | inr e ↦ rw e (omega arith)
      | inl e ↦ elim (Bool-cases (read_parts f b (get_read_index f) frames).0) [
        | inl c ↦ rw (e, c) (moved n (get_full_frames_available f) h)
        | inr c ↦ rw (e, c) (omega arith)
      ]
    ]
