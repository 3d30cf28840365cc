-- ===== src/Fifo/Refine.antt =====
-- A valid FIFO behaves as the queue of the frames that it holds.
use native.Mathlib.Nat.{mod-lt}
use android_audio_samples.Prelude.{
  ℕ, ◌+◌, ◌-◌, ◌*◌, ◌%◌, ◌^◌, ◌≤◌, ◌<◌, ◌≡◌, refl, ◌∙◌, ap, ap₂, sym, arith, List, ◌++◌, u32,
  i32_small, pos, true, take, drop, min, drop-append, take-append,
}
use android_audio_samples.Fifo.{FifoBuffer, get_full_frames_available, read_parts, memcpy, read}
use android_audio_samples.Fifo.Queue
use android_audio_samples.Fifo.Queue.{Queue}
use android_audio_samples.Fifo.Convert.{
  IsValid, full_lem, mod_scale, whole_pos, scaled_le, split_scale,
}
use android_audio_samples.Fifo.Parts.{read_parts_lem}
use android_audio_samples.Fifo.Circular.{get_bytes, get_bytes_lem}
use android_audio_samples.Fifo.Window.{window, window-append, length-window}

-- the frames from the read counter up to the write counter
abbrev pub contents : FifoBuffer → Queue
contents f = record {
  frames = f.write_counter - f.read_counter;
  bytes =
      window f.storage (f.read_counter * f.bytes_per_frame)
        ((f.write_counter - f.read_counter) * f.bytes_per_frame);
}

-- the two parts of a window
window-take :
    (s : List ℕ) (b m n c k : ℕ) → b + m ≡ c → m + n ≡ k → take m (window s b k) ≡ window s b m
window-take s b m n c k eb ek =
    ap (take m) (window-append s b m n c k eb ek)
    ∙ (ap (λ j. take j (window s b m ++ window s c n)) (sym (length-window s b m))
        ∙ take-append (window s b m) (window s c n))

window-drop :
    (s : List ℕ) (b m n c k : ℕ) → b + m ≡ c → m + n ≡ k → drop m (window s b k) ≡ window s c n
window-drop s b m n c k eb ek =
    ap (drop m) (window-append s b m n c k eb ek)
    ∙ (ap (λ j. drop j (window s b m ++ window s c n)) (sym (length-window s b m))
        ∙ drop-append (window s b m) (window s c n))

module _ {f : FifoBuffer} (v : IsValid f) where
  abbrev pub b : ℕ
  b = f.bytes_per_frame

  get_bytes_read :
      (buffer : List ℕ) (k : ℕ)
      → k ≤ f.total_frames
      → get_bytes f.storage (f.read_counter % f.total_frames * b) (k * b) buffer
        ≡ memcpy buffer 0 (window f.storage (f.read_counter * b) (k * b))
  get_bytes_read buffer k h =
      ap (λ i. get_bytes f.storage i (k * b) buffer)
        (sym (mod_scale f.read_counter f.total_frames b v.some_frames v.some_bytes)
          ∙ ap (λ l. f.read_counter * b % l) (sym v.whole))
      ∙ get_bytes_lem f.storage (f.read_counter * b) (k * b) buffer (whole_pos v) (scaled_le v k h)

  -- the frames that a call for `n` moves
  abbrev pub readable : ℕ → ℕ
  readable n = min n (f.write_counter - f.read_counter)

  abbrev writable : ℕ → ℕ
  writable n = min n (f.total_frames - (f.write_counter - f.read_counter))

  read_copies :
      (buffer : List ℕ) (n : ℕ)
      → n < 2 ^ 31
      → read_parts f buffer
          (u32 (f.read_counter % f.total_frames))
          (min (u32 n) (get_full_frames_available f))
        ≡ (true, memcpy buffer 0 (window f.storage (f.read_counter * b) (readable n * b)))
  read_copies buffer n h =
      let i : u32 (f.read_counter % f.total_frames) ≡ f.read_counter % f.total_frames =
        omega (arith, mod-lt f.read_counter v.some_frames) in
      let k : min (u32 n) (get_full_frames_available f) ≡ readable n = omega (arith, full_lem v) in
      ap₂ (read_parts f buffer) i k
      ∙ (read_parts_lem v buffer (f.read_counter % f.total_frames) (readable n)
            (mod-lt f.read_counter v.some_frames) (omega (arith, v.bounded))
          ∙ ap (λ l. (true, l)) (get_bytes_read buffer (readable n) (omega (arith, v.bounded))))

  pub read_lem :
      (buffer : List ℕ) (n : ℕ)
      → 0 < n
      → n < 2 ^ 31
      → read f buffer (pos n) ≡ (
        pos (readable n),
        memcpy buffer 0 (window f.storage (f.read_counter * b) (readable n * b)),
        record f { read_counter = f.read_counter + readable n },
      )
  unfolding read
  read_lem buffer n p h = ground (arith, read_copies buffer n h, full_lem v, i32_small (readable n))

  -- the bytes that the queue gives up, in the storage
  pub queue_bytes :
      (n : ℕ)
      → (Queue.read b (contents f) n).1 ≡ window f.storage (f.read_counter * b) (readable n * b)
  queue_bytes n =
      window-take f.storage _ _ _ _ _ (split_scale f.read_counter (readable n) _ b refl)
        (split_scale (readable n) (f.write_counter - f.read_counter - readable n) _ b (omega arith))

-- `read` of `n` frames, n > 0, returns as many frames as the queue gives up, puts their bytes at the
-- start of the caller's buffer, leaves the rest of that buffer, and leaves a valid FIFO that holds the
-- queue that is left.
pub read_refines :
    {f : FifoBuffer} (buffer : List ℕ) (n : ℕ)
    → IsValid f
    → 0 < n
    → n < 2 ^ 31
    → let (m, buffer', f') = read f buffer (pos n) in
      let (k, bytes, q) = Queue.read f.bytes_per_frame (contents f) n in
      (m ≡ pos k) × (buffer' ≡ memcpy buffer 0 bytes) × (contents f' ≡ q) × IsValid f'
read_refines {f} buffer n v p h = rw (read_lem v buffer n p h) (
  refl,
  ap (memcpy buffer 0) (sym (window-take f.storage _ _ _ _ _ at split)),
  ap₂ (λ (m : ℕ) l. record { frames = m; bytes = l }) (omega arith)
      (ap
          (λ (m : ℕ).
            window f.storage ((f.read_counter + k) * f.bytes_per_frame) (m * f.bytes_per_frame))
          left
        ∙ sym (window-drop f.storage _ _ _ _ _ at split)),
  ground arith,
)
  where
    k : ℕ
    k = min n (f.write_counter - f.read_counter)

    at :
        f.read_counter * f.bytes_per_frame + k * f.bytes_per_frame
        ≡ (f.read_counter + k) * f.bytes_per_frame
    at = omega arith

    left : f.write_counter - (f.read_counter + k) ≡ f.write_counter - f.read_counter - k
    left = omega arith

    split :
        k * f.bytes_per_frame + (f.write_counter - f.read_counter - k) * f.bytes_per_frame
        ≡ (f.write_counter - f.read_counter) * f.bytes_per_frame
    split = split_scale k _ _ f.bytes_per_frame (omega arith)
