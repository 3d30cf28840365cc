-- ===== src/Fifo/Parts.antt =====
-- `read` and `write` as copies of byte ranges, then against the queue.
use android_audio_samples.Prelude.{
  ℕ, ◌+◌, ◌-◌, ◌*◌, ◌^◌, ◌≤◌, ◌<◌, ◌≡◌, ◌∙◌, ap, arith, List, length, ltb, u32, i32, Bool-cases,
  true, inl, inr,
}
use android_audio_samples.Fifo.{
  FifoBuffer, offset_of, read_parts, write_parts, copy_frames, memcpy, slice,
}
use android_audio_samples.Fifo.Convert.{IsValid, convert_lem, offset_lem, ltb_scale, sub_scale}
use android_audio_samples.Fifo.Circular.{get_bytes, put_bytes}

module _ {f : FifoBuffer} (v : IsValid f) where
  -- one guarded copy of a frame count that the FIFO can hold
  pub copy_frames_lem :
      (destination : List ℕ) (at : ℕ) (source : List ℕ) (from n : ℕ)
      → n ≤ f.total_frames
      → copy_frames f destination at source from (i32 n)
        ≡ (true, memcpy destination at (slice source from (n * f.bytes_per_frame)))
  unfolding copy_frames
  copy_frames_lem destination at source from n h = rw (convert_lem v n h) (ground arith)

  -- the frames before the end of the storage, and those after it
  pub frames_to_end :
      (i : ℕ) → i < f.total_frames → u32 (f.total_frames + 2 ^ 32 - i) ≡ f.total_frames - i
  frames_to_end i h = omega (arith, v.small)

  pub frames_after_end :
      (i k : ℕ)
      → i < f.total_frames
      → f.total_frames < i + k
      → k ≤ f.total_frames
      → u32 (k + 2 ^ 32 - (f.total_frames - i)) ≡ k - (f.total_frames - i)
  frames_after_end i k h l m = omega (arith, v.small)

  pub bytes_to_end :
      (i : ℕ)
      → i < f.total_frames
      → (f.total_frames - i) * f.bytes_per_frame ≡ length f.storage - i * f.bytes_per_frame
  bytes_to_end i h =
      omega (arith, v.whole, sub_scale i f.total_frames f.bytes_per_frame (omega arith))

  pub bytes_after_end :
      (i k : ℕ)
      → i < f.total_frames
      → f.total_frames < i + k
      → (k - (f.total_frames - i)) * f.bytes_per_frame
        ≡ k * f.bytes_per_frame - (length f.storage - i * f.bytes_per_frame)
  bytes_after_end i k h l =
      omega
        (arith, bytes_to_end i h, sub_scale (f.total_frames - i) k f.bytes_per_frame (omega arith))

  -- the test of the code and that of `get_bytes` and `put_bytes`
  pub wraps_same :
      (i k : ℕ)
      → i < f.total_frames
      → k ≤ f.total_frames
      → ltb (length f.storage) (i * f.bytes_per_frame + k * f.bytes_per_frame)
        ≡ ltb f.total_frames (u32 (i + k))
  wraps_same i k hi hk =
      ap (λ n. ltb n (i * f.bytes_per_frame + k * f.bytes_per_frame)) v.whole
      ∙ (ltb_scale f.total_frames i k f.bytes_per_frame v.some_bytes
          ∙ ap (ltb f.total_frames) (omega (arith, v.small)))

  pub read_parts_lem :
      (buffer : List ℕ) (i k : ℕ)
      → i < f.total_frames
      → k ≤ f.total_frames
      → read_parts f buffer i k
        ≡ (true, get_bytes f.storage (i * f.bytes_per_frame) (k * f.bytes_per_frame) buffer)
  unfolding read_parts get_bytes
  read_parts_lem buffer i k hi hk = elim (Bool-cases (ltb f.total_frames (u32 (i + k)))) [
    | inl two ↦
        let l : f.total_frames < i + k = ground (arith, v.small) in
        rw (wraps_same i k hi hk, two, frames_to_end i hi, frames_after_end i k hi l hk)
          (rw
            (copy_frames_lem buffer 0 f.storage (offset_of f i) (f.total_frames - i) (omega arith))
            (rw (
              copy_frames_lem
                  (memcpy buffer 0
                    (slice f.storage (offset_of f i) ((f.total_frames - i) * f.bytes_per_frame)))
                  (offset_of f (f.total_frames - i)) f.storage 0 (k - (f.total_frames - i))
                  (omega arith),
              offset_lem v i (omega arith),
              offset_lem v (f.total_frames - i) (omega arith),
              bytes_to_end i hi,
              bytes_after_end i k hi l,
            )))
    | inr one ↦
        rw (wraps_same i k hi hk, one, offset_lem v i (omega arith))
          (copy_frames_lem buffer 0 f.storage (i * f.bytes_per_frame) k hk)
  ]

  pub write_parts_lem :
      (buffer : List ℕ) (i k : ℕ)
      → i < f.total_frames
      → k ≤ f.total_frames
      → write_parts f buffer i k
        ≡ (true, put_bytes f.storage (i * f.bytes_per_frame) (k * f.bytes_per_frame) buffer)
  unfolding write_parts put_bytes
  write_parts_lem buffer i k hi hk = elim (Bool-cases (ltb f.total_frames (u32 (i + k)))) [
    | inl two ↦
        let l : f.total_frames < i + k = ground (arith, v.small) in
        rw (wraps_same i k hi hk, two, frames_to_end i hi, frames_after_end i k hi l hk)
          (rw
            (copy_frames_lem f.storage (offset_of f i) buffer 0 (f.total_frames - i) (omega arith))
            (rw (
              copy_frames_lem
                  (memcpy f.storage (offset_of f i)
                    (slice buffer 0 ((f.total_frames - i) * f.bytes_per_frame)))
                  0 buffer (offset_of f (f.total_frames - i)) (k - (f.total_frames - i))
                  (omega arith),
              offset_lem v i (omega arith),
              offset_lem v (f.total_frames - i) (omega arith),
              bytes_to_end i hi,
              bytes_after_end i k hi l,
            )))
    | inr one ↦
        rw (wraps_same i k hi hk, one, offset_lem v i (omega arith))
          (copy_frames_lem f.storage (i * f.bytes_per_frame) buffer 0 k hk)
  ]
