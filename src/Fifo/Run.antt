-- ===== src/Fifo/Run.antt =====
-- Any sequence of calls of `read` and `write` by one thread.
use android_audio_samples.Prelude.{
  ℕ, ◌+◌, ◌*◌, ◌^◌, ◌≤◌, ◌<◌, ◌≡◌, refl, ◌∙◌, ap, ap₂, sym, subst, arith, List, [], ◌∷◌, length, ℤ,
  pos,
}
use native.Mathlib.Nat.{mul-le-mul_right}
use android_audio_samples.Fifo.{FifoBuffer, memcpy, read, write}
use android_audio_samples.Fifo.Queue
use android_audio_samples.Fifo.Queue.{Queue}
use android_audio_samples.Fifo.Convert.{IsValid}
use android_audio_samples.Fifo.Refine.{contents, read_refines, read_lem}
use android_audio_samples.Fifo.Put.{writable, write_refines, write_lem}

-- A call with the caller's buffer and the number of frames asked for.
pub data Call : Type 0 where
  put : List ℕ → ℕ → Call
  get : List ℕ → ℕ → Call

-- What the caller sees of a call: the number returned, and its buffer afterwards.
abbrev pub Reply : Type 0
Reply = ℤ × List ℕ

unfoldable pub run : FifoBuffer → List Call → List Reply
run f [] = []
run f (put buffer n ∷ calls) = let (m, f') = write f buffer (pos n) in (m, buffer) ∷ run f' calls
run f (get buffer n ∷ calls) =
    let (m, buffer', f') = read f buffer (pos n) in (m, buffer') ∷ run f' calls

-- the same calls on a queue of at most `capacity` frames of `size` bytes
unfoldable pub run_queue : ℕ → ℕ → Queue → List Call → List Reply
run_queue capacity size q [] = []
run_queue capacity size q (put buffer n ∷ calls) =
    let (k, q') = Queue.write capacity size q buffer n in
    (pos k, buffer) ∷ run_queue capacity size q' calls
run_queue capacity size q (get buffer n ∷ calls) =
    let (k, bytes, q') = Queue.read size q n in
    (pos k, memcpy buffer 0 bytes) ∷ run_queue capacity size q' calls

-- Each call asks for a positive `int32_t` number of frames, each written buffer holds the frames
-- offered, and the frames offered, counted on from `w`, stay below 2 ^ 64.
abbrev pub AreFair : ℕ → ℕ → List Call → Type 0
AreFair size w [] = Unit
AreFair size w (put buffer n ∷ calls) =
    (0 < n)
    × (n < 2 ^ 31)
    × (n * size ≤ length buffer)
    × (w + n < 2 ^ 64)
    × AreFair size (w + n) calls
AreFair size w (get buffer n ∷ calls) = (0 < n) × (n < 2 ^ 31) × AreFair size w calls

record Same (f f' : FifoBuffer) (w : ℕ) : Type 0 where
  total : f'.total_frames ≡ f.total_frames
  size : f'.bytes_per_frame ≡ f.bytes_per_frame
  below : f'.write_counter ≤ w

module _ {f : FifoBuffer} (buffer : List ℕ) (n : ℕ) (v : IsValid f) (p : 0 < n)
    (h : n < 2 ^ 31) where
  read-Same : (w : ℕ) → f.write_counter ≤ w → Same f (read f buffer (pos n)).2 w
  read-Same w l = rw (read_lem v buffer n p h) (record { total = refl; size = refl; below = l })

  write-Same : (w : ℕ) → f.write_counter + n ≤ w → w < 2 ^ 64 → Same f (write f buffer (pos n)).1 w
  write-Same w l c =
      rw (write_lem v buffer n p h (omega arith))
        (record { total = refl; size = refl; below = omega arith })

  enough : n * f.bytes_per_frame ≤ length buffer → writable f n * f.bytes_per_frame ≤ length buffer
  enough e =
      omega (arith, mul-le-mul_right {m = writable f n} {n = n} f.bytes_per_frame (omega arith))

-- No sequence of reads and writes tells a valid FIFO from the bounded queue of the frames that it
-- holds, if each asks for a positive `int32_t` number of frames, each written buffer holds the frames
-- offered, and the frames offered, counted on from the write counter, stay below 2 ^ 64.
pub run_refines :
    (calls : List Call) {f : FifoBuffer} (w : ℕ)
    → IsValid f
    → f.write_counter ≤ w
    → AreFair f.bytes_per_frame w calls
    → run f calls ≡ run_queue f.total_frames f.bytes_per_frame (contents f) calls
unfolding run run_queue
run_refines [] w v h fair = refl
run_refines (put buffer n ∷ calls) {f} w v h (p, l, e, c, fair) =
    let done = write_refines buffer n v p l (enough buffer n v p l e) (omega arith) in
    let same = write-Same buffer n v p l (w + n) (omega arith) c in
    let ih =
      run_refines calls (w + n) done.2 same.below
        (subst (λ s. AreFair s (w + n) calls) (sym same.size) fair) in
    ap₂ (λ (r : Reply) rs. r ∷ rs) (ap (λ m. (m, buffer)) done.0)
      (ih ∙ λ i. run_queue (same.total i) (same.size i) (done.1 i) calls)
run_refines (get buffer n ∷ calls) {f} w v h (p, l, fair) =
    let done = read_refines buffer n v p l in
    let same = read-Same buffer n v p l w h in
    let ih =
      run_refines calls w done.3 same.below (subst (λ s. AreFair s w calls) (sym same.size) fair) in
    ap₂ (λ (r : Reply) rs. r ∷ rs) (λ i. (done.0 i, done.1 i))
      (ih ∙ λ i. run_queue (same.total i) (same.size i) (done.2 i) calls)
