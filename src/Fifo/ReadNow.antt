-- ===== src/Fifo/ReadNow.antt =====
-- `readNow`: what is there, then silence; and the constructors.
use native.Mathlib.Nat.{mul-le-mul_right}
use android_audio_samples.Prelude.{
  ℕ, zero, suc, lt→ltb, ◌+◌, ◌-◌, ◌*◌, ◌/◌, ◌^◌, ◌≤◌, ◌<◌, ◌≡◌, refl, ◌∙◌, ap, sym, arith, List,
  ◌++◌, append-nil, length, take, replicate, u32, ltb, if◌then◌else◌, pos, ◌-ℤ◌, u64, i32, wrap32,
  length-take, pos_part,
}
use android_audio_samples.Fifo.{FifoBuffer, convert_frames_to_bytes, memcpy, read_now, new_fifo}
use android_audio_samples.Fifo.Bytes.{memcpy-memcpy}
use android_audio_samples.Fifo.Queue
use android_audio_samples.Fifo.Queue.{Queue}
use android_audio_samples.Fifo.Convert.{IsValid}
use android_audio_samples.Fifo.Refine.{contents, readable, queue_bytes, read_lem, read_refines}
use android_audio_samples.Fifo.Window.{window, length-window}

convert_small :
    (f : FifoBuffer) (n : ℕ)
    → n < 2 ^ 31
    → n * f.bytes_per_frame < 2 ^ 31
    → convert_frames_to_bytes f (pos n) ≡ pos (n * f.bytes_per_frame)
unfolding convert_frames_to_bytes i32
convert_small f n h l = ground arith

module _ {f : FifoBuffer} (buffer : List ℕ) (n : ℕ) (v : IsValid f) (p : 0 < n) (h : n < 2 ^ 31)
    (bytes_fit : n * f.bytes_per_frame < 2 ^ 31) where
  abbrev k : ℕ
  k = readable v n

  abbrev q_bytes : List ℕ
  q_bytes = window f.storage (f.read_counter * f.bytes_per_frame) (k * f.bytes_per_frame)

  scaled_part : (m : ℕ) → m ≤ n → m * f.bytes_per_frame < 2 ^ 31
  scaled_part m l = omega (arith, mul-le-mul_right {m = m} {n = n} f.bytes_per_frame l)

  left_lem : wrap32 (pos n -ℤ pos k) ≡ pos (n - k)
  unfolding ◌-ℤ◌ wrap32
  left_lem = ground arith

  silence_lem :
      (m : ℕ)
      → (if ltb 0 (m + 0)
          then memcpy
              (memcpy buffer 0 q_bytes)
              (k * f.bytes_per_frame)
              (replicate (m * f.bytes_per_frame) 0)
          else memcpy buffer 0 q_bytes)
        ≡ memcpy buffer 0 (q_bytes ++ replicate (m * f.bytes_per_frame) 0)
  silence_lem zero =
      let none_left : 0 ≡ zero * f.bytes_per_frame = omega arith in
      ap (memcpy buffer 0) (sym (append-nil q_bytes) ∙ ap (λ j. q_bytes ++ replicate j 0) none_left)
  silence_lem (suc m) = rw (lt→ltb 0 (suc m + 0) (omega arith)) (
      ap (λ j. memcpy (memcpy buffer 0 q_bytes) j (replicate (suc m * f.bytes_per_frame) 0))
        (sym (length-window f.storage (f.read_counter * f.bytes_per_frame) (k * f.bytes_per_frame)))
      ∙ memcpy-memcpy buffer q_bytes (replicate (suc m * f.bytes_per_frame) 0))

  read_now_lem : read_now f buffer (pos n) ≡ (
    pos k,
    memcpy buffer 0 (q_bytes ++ replicate ((n - k) * f.bytes_per_frame) 0),
    record f {
      read_counter = f.read_counter + k;
      frames_read_count = u64 (f.frames_read_count + k);
      frames_underrun_count = u64 (f.frames_underrun_count + (n - k));
    },
  )
  unfolding read_now
  read_now_lem =
      rw
        (
          read_lem v buffer n p h,
          left_lem,
          convert_small f k (omega arith) (scaled_part k (omega arith)),
          convert_small f (n - k) (omega arith) (scaled_part (n - k) (omega arith)),
        )
        (ground (arith, silence_lem (n - k)))

-- `readNow` of `n` frames, n > 0, whose bytes an `int32_t` can count, returns and puts down what `read`
-- does, sets the bytes of the missing frames to 0, adds the frames got and the frames missing to the
-- two counts, and leaves a valid FIFO that holds the queue that is left.
pub read_now_refines :
    {f : FifoBuffer} (buffer : List ℕ) (n : ℕ)
    → IsValid f
    → 0 < n
    → n < 2 ^ 31
    → n * f.bytes_per_frame < 2 ^ 31
    → let (m, buffer', f') = read_now f buffer (pos n) in
      let (k, bytes, q) = Queue.read f.bytes_per_frame (contents f) n in
      (m ≡ pos k)
      × (buffer' ≡ memcpy buffer 0 (bytes ++ replicate ((n - k) * f.bytes_per_frame) 0))
      × (f'.frames_read_count ≡ u64 (f.frames_read_count + k))
      × (f'.frames_underrun_count ≡ u64 (f.frames_underrun_count + (n - k)))
      × (contents f' ≡ q)
      × IsValid f'
read_now_refines {f} buffer n v p h l =
    let queue = rw (read_lem v buffer n p h) at (read_refines buffer n v p h) in
    rw (read_now_lem buffer n v p h l) (
      refl,
      ap (λ bytes. memcpy buffer 0 (bytes ++ replicate ((n - readable v n) * f.bytes_per_frame) 0))
          (sym (queue_bytes v n)),
      refl,
      refl,
      queue.2,
      ground arith,
    )

-- A FIFO made for a positive number of frames of a positive size, within the limit that the
-- constructor asserts and an `int32_t` number of bytes, is valid and empty.
pub new_fifo-IsValid :
    (bytes_per_frame capacity : ℕ) (heap : List ℕ)
    → 0 < bytes_per_frame
    → 0 < capacity
    → capacity ≤ (2 ^ 32 - 1) / 4
    → capacity * bytes_per_frame < 2 ^ 31
    → capacity * bytes_per_frame ≤ length heap
    → IsValid (new_fifo bytes_per_frame capacity heap)
      × (contents (new_fifo bytes_per_frame capacity heap) ≡ Queue.empty)
unfolding new_fifo i32
new_fifo-IsValid bytes_per_frame capacity heap hb hc small fits enough =
    let bytes : pos_part (i32 (u32 (bytes_per_frame * capacity))) ≡ capacity * bytes_per_frame =
      ground arith in
    let whole : length (new_fifo bytes_per_frame capacity heap).storage
        ≡ capacity * bytes_per_frame =
      ap (λ j. length (take j heap)) bytes
      ∙ omega (arith, length-take (capacity * bytes_per_frame) heap) in
    let nothing : 0 * bytes_per_frame ≡ 0 = omega arith in
    (
      record {
        some_frames = hc;
        some_bytes = hb;
        fits = fits;
        small = small;
        whole = whole;
        ordered = omega arith;
        bounded = omega arith;
        counted = omega arith;
      },
      ap
          (λ j. record {
            frames = 0;
            bytes = window (new_fifo bytes_per_frame capacity heap).storage (0 * bytes_per_frame) j;
          })
          nothing,
    )
