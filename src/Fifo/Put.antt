-- ===== src/Fifo/Put.antt =====
-- `write` of a valid FIFO appends to the queue of the frames that it holds.
use native.Mathlib.Nat.{mod-lt}
use android_audio_samples.Prelude.{
  ℕ, ◌+◌, ◌-◌, ◌*◌, ◌%◌, ◌^◌, ◌≤◌, ◌<◌, ◌≡◌, refl, ◌∙◌, ap, ap₂, sym, arith, List, ◌++◌, length,
  u32, i32_small, pos, true, take, min, get_or,
}
use android_audio_samples.Fifo.{FifoBuffer, get_empty_frames_available, write_parts, slice, write}
use android_audio_samples.Fifo.Queue
use android_audio_samples.Fifo.Queue.{Queue}
use android_audio_samples.Fifo.Convert.{
  IsValid, empty_lem, mod_scale, whole_pos, scaled_le, split_scale,
}
use android_audio_samples.Fifo.Parts.{write_parts_lem}
use android_audio_samples.Fifo.Circular.{put_bytes, length-put_bytes, put_bytes_new, put_bytes_old}
use android_audio_samples.Fifo.Window.{window, window-append, window-slice, window_ext}
use android_audio_samples.Fifo.Refine.{contents}

slice-zero : (source : List ℕ) (n : ℕ) → slice source 0 n ≡ take n source
unfolding slice
slice-zero source n = refl

-- the frames that a call for `n` takes
abbrev pub writable : FifoBuffer → ℕ → ℕ
writable f n = min n (f.total_frames - (f.write_counter - f.read_counter))

-- the storage after `k` frames are copied in at the write counter
abbrev pub stored : FifoBuffer → ℕ → List ℕ → List ℕ
stored f k buffer =
    put_bytes f.storage (f.write_counter * f.bytes_per_frame % length f.storage)
      (k * f.bytes_per_frame) buffer

module _ {f : FifoBuffer} (v : IsValid f) where
  write_copies :
      (buffer : List ℕ) (n : ℕ)
      → n < 2 ^ 31
      → write_parts f buffer
          (u32 (f.write_counter % f.total_frames))
          (min (u32 n) (get_empty_frames_available f))
        ≡ (true, stored f (writable f n) buffer)
  write_copies buffer n h =
      let i : u32 (f.write_counter % f.total_frames) ≡ f.write_counter % f.total_frames =
        omega (arith, mod-lt f.write_counter v.some_frames) in
      let k : min (u32 n) (get_empty_frames_available f) ≡ writable f n =
        omega (arith, empty_lem v) in
      ap₂ (write_parts f buffer) i k
      ∙ (write_parts_lem v buffer (f.write_counter % f.total_frames) (writable f n)
            (mod-lt f.write_counter v.some_frames) (omega arith)
          ∙ ap (λ j. (true, put_bytes f.storage j (writable f n * f.bytes_per_frame) buffer))
              (sym (
                  mod_scale f.write_counter f.total_frames f.bytes_per_frame v.some_frames
                    v.some_bytes)
                ∙ ap (λ l. f.write_counter * f.bytes_per_frame % l) (sym v.whole)))

  pub write_lem :
      (buffer : List ℕ) (n : ℕ)
      → 0 < n
      → n < 2 ^ 31
      → f.write_counter + writable f n < 2 ^ 64
      → write f buffer (pos n) ≡ (
        pos (writable f n),
        record f {
          storage = stored f (writable f n) buffer;
          write_counter = f.write_counter + writable f n;
        },
      )
  unfolding write
  write_lem buffer n p h c =
      ground (arith, write_copies buffer n h, empty_lem v, i32_small (writable f n))

  module _ (buffer : List ℕ) (k : ℕ) (room : f.write_counter - f.read_counter + k ≤ f.total_frames)
      (enough : k * f.bytes_per_frame ≤ length buffer) where
    length-stored : length (stored f k buffer) ≡ length f.storage
    length-stored =
        length-put_bytes f.storage (f.write_counter * f.bytes_per_frame) (k * f.bytes_per_frame)
          buffer (whole_pos v) (scaled_le v k (omega arith)) enough

    -- the frames that were there
    stored_old :
        window
          (stored f k buffer)
          (f.read_counter * f.bytes_per_frame)
          ((f.write_counter - f.read_counter) * f.bytes_per_frame)
        ≡ window f.storage
            (f.read_counter * f.bytes_per_frame)
            ((f.write_counter - f.read_counter) * f.bytes_per_frame)
    stored_old = sym (
        window_ext f.storage (stored f k buffer) _ _ (sym length-stored) (λ j l. sym (
          put_bytes_old f.storage (f.write_counter * f.bytes_per_frame) (k * f.bytes_per_frame)
            buffer (whole_pos v) (scaled_le v k (omega arith)) enough
            (f.read_counter * f.bytes_per_frame + j)
            ((f.write_counter - f.read_counter) * f.bytes_per_frame - j)
            (ap (λ n. n % length f.storage) (omega (arith, before))) (omega arith)
            (omega (arith, scaled_le v (f.write_counter - f.read_counter + k) room, after)))))
      where
        before :
            f.read_counter * f.bytes_per_frame
              + (f.write_counter - f.read_counter) * f.bytes_per_frame
            ≡ f.write_counter * f.bytes_per_frame
        before = split_scale f.read_counter _ _ f.bytes_per_frame (omega (arith, v.ordered))

        after :
            (f.write_counter - f.read_counter) * f.bytes_per_frame + k * f.bytes_per_frame
            ≡ (f.write_counter - f.read_counter + k) * f.bytes_per_frame
        after = split_scale (f.write_counter - f.read_counter) k _ f.bytes_per_frame refl

    -- the frames that came in
    stored_new :
        window (stored f k buffer) (f.write_counter * f.bytes_per_frame) (k * f.bytes_per_frame)
        ≡ slice buffer 0 (k * f.bytes_per_frame)
    stored_new = window-slice (stored f k buffer) _ _ buffer 0 (omega (arith, enough)) (λ j l.
        ap (λ n. get_or (stored f k buffer) ((f.write_counter * f.bytes_per_frame + j) % n) 0)
          length-stored
        ∙ (put_bytes_new f.storage (f.write_counter * f.bytes_per_frame) (k * f.bytes_per_frame)
              buffer (whole_pos v) (scaled_le v k (omega arith)) enough j l
            ∙ ap (λ n. get_or buffer n 0) (omega arith)))

-- `write` of `n` frames, n > 0, from a buffer that holds the frames that fit, while the write counter
-- stays below 2 ^ 64, returns as many frames as the queue takes, and leaves a valid FIFO that holds
-- the queue with their bytes appended.
pub write_refines :
    {f : FifoBuffer} (buffer : List ℕ) (n : ℕ)
    → IsValid f
    → 0 < n
    → n < 2 ^ 31
    → writable f n * f.bytes_per_frame ≤ length buffer
    → f.write_counter + writable f n < 2 ^ 64
    → let (m, f') = write f buffer (pos n) in
      let (k, q) = Queue.write f.total_frames f.bytes_per_frame (contents f) buffer n in
      (m ≡ pos k) × (contents f' ≡ q) × IsValid f'
write_refines {f} buffer n v p h e c = rw (write_lem v buffer n p h c) (
  refl,
  ap₂ (λ (m : ℕ) l. record { frames = m; bytes = l }) (omega (arith, v.ordered)) joined,
  ground (arith, length-stored v buffer (writable f n) room e),
)
  where
    room : f.write_counter - f.read_counter + writable f n ≤ f.total_frames
    room = omega (arith, v.ordered, v.bounded)

    grown :
        f.write_counter - f.read_counter + writable f n
        ≡ f.write_counter + writable f n - f.read_counter
    grown = omega (arith, v.ordered)

    joined :
        window
          (stored f (writable f n) buffer)
          (f.read_counter * f.bytes_per_frame)
          ((f.write_counter + writable f n - f.read_counter) * f.bytes_per_frame)
        ≡ (contents f).bytes ++ take (writable f n * f.bytes_per_frame) buffer
    joined =
        window-append (stored f (writable f n) buffer) _ _ _ _ _
          (split_scale f.read_counter _ _ f.bytes_per_frame (omega (arith, v.ordered)))
          (split_scale (f.write_counter - f.read_counter) (writable f n) _ f.bytes_per_frame grown)
        ∙ ap₂ ◌++◌ (stored_old v buffer (writable f n) room e)
            (stored_new v buffer (writable f n) room e ∙ slice-zero buffer _)
