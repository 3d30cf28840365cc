-- ===== src/OpenSles/Stream/Transfer/Sizes.antt =====
-- The capacity of the FIFO, and the threshold that the application may set.
use native.Mathlib.Nat.{mul-le-mul_left, mul_comm}
use android_audio_samples.Prelude.{
  ℕ, ◌+◌, ◌-◌, ◌*◌, ◌/◌, ◌≤◌, ◌<◌, ◌≡◌, refl, arith, round_up-le, round_up-lt, ◌^◌, wrap32,
  wrap32_pos, wrapped_sum, false, Bool-cases, ltb, ltb→lt, some, ◌⊎◌, inl, inr, ℤ, pos, ◌≤ℤ◌, ◌<ℤ◌,
  ltb_ℤ, eqb_ℤ, if◌then◌else◌,
}
use android_audio_samples.Fifo.{FifoBuffer}
use android_audio_samples.OpenSles.Stream.{Stream}
use android_audio_samples.OpenSles.Stream.Transfer.{
  fifo_capacity, is_shut, set_buffer_size_in_frames,
}

more_than : (k b w : ℕ) → b * 4 < w → w ≤ k * b → 4 ≤ k
more_than k b w h l = elim (Bool-cases (ltb k 4)) [
  | inr e ↦ ground arith
  | inl e ↦
      let few : k < 4 = ltb→lt k 4 e in
      absurd (omega (arith, mul-le-mul_left {m = k} {n = 4} b (omega arith), mul_comm k b))
]

larger : ℕ → ℕ
larger a = if ltb_ℤ (pos 1536) (pos a) then a else 1536

larger-le : (a : ℕ) → a ≤ larger a
unfolding larger
larger-le a = ground arith

larger_pos : (a : ℕ) → (if ltb_ℤ (pos 1536) (pos a) then pos a else pos 1536) ≡ pos (larger a)
unfolding larger
larger_pos a = ground arith

larger-fits : (a b : ℕ) → b * 16 < 2 ^ 31 → a + b < 2 ^ 31 → larger a + b < 2 ^ 31
unfolding larger
larger-fits a b h k = ground arith

-- For a positive burst, and a capacity asked for that is not negative, of sizes for which nothing
-- overflows, the capacity of the FIFO is a whole number of bursts, of at least four, and no less than was
-- asked for.
pub fifo_capacity_lem :
    (s : Stream) (b a : ℕ)
    → s.frames_per_burst ≡ pos b
    → s.base.buffer_capacity_in_frames ≡ pos a
    → 0 < b
    → b * 16 < 2 ^ 31
    → a + b < 2 ^ 31
    → (k : ℕ) × (fifo_capacity s ≡ pos (b * k)) × (4 ≤ k) × (a ≤ b * k)
unfolding fifo_capacity
fifo_capacity_lem s b a eb ea h few_bursts short = elim (Bool-cases (eqb_ℤ (pos a) (pos 0))) [
  | inl e ↦ (16, rw (eb, ea, e) (wrap32_pos (b * 16) few_bursts), omega arith, ground arith)
  | inr e ↦ elim (Bool-cases (ltb_ℤ (pos (b * 4)) (pos a))) [
    | inr l ↦ (4, rw (eb, ea, e, least, l) refl, omega arith, ground arith)
    | inl l ↦
        let k = (larger a + b - 1) / b in
        let big : larger a ≤ k * b = round_up-le (larger a) b h in
        let enough : a ≤ k * b = omega (arith, larger-le a) in
        let fits : larger a + b < 2 ^ 31 = larger-fits a b few_bursts short in
        (
          k,
          rw
              (
                eb,
                ea,
                e,
                least,
                l,
                larger_pos a,
                wrapped_sum wrap32 (larger a) b h (λ n l. wrap32_pos n (omega (arith, fits))),
              )
              (wrap32_pos (b * k) (omega (arith, fits, round_up-lt (larger a) b h, mul_comm k b))),
          more_than k b a (ground arith) enough,
          omega (arith, mul_comm k b),
        )
  ]
]
  where
    least : wrap32 (pos (b * 4)) ≡ pos (b * 4)
    least = wrap32_pos (b * 4) (omega arith)

-- With a burst that fits into the FIFO, an open stream takes any size, cut to the burst and the
-- capacity: the one asked for, unless that is below the burst or above the capacity.
pub set_buffer_size_in_frames_lem :
    (s : Stream) (f : FifoBuffer) (requested : ℤ)
    → s.fifo_buffer ≡ some f
    → is_shut s.state ≡ false
    → s.frames_per_burst ≤ℤ pos f.total_frames
    → let (answer, s') = set_buffer_size_in_frames requested s in
      (size : ℤ) × (answer ≡ inr size)
      × (s'.base.buffer_size_in_frames ≡ size)
      × (s.frames_per_burst ≤ℤ size)
      × (size ≤ℤ pos f.total_frames)
      × ((size ≡ requested) ⊎ (requested <ℤ s.frames_per_burst) ⊎ (pos f.total_frames <ℤ requested))
unfolding set_buffer_size_in_frames
set_buffer_size_in_frames_lem s f requested e o h =
    let capacity = pos f.total_frames in
    let burst = s.frames_per_burst in
    elim (Bool-cases (ltb_ℤ capacity requested)) [
      | inl a ↦ (capacity, rw (e, o, a) refl, rw (e, o, a) refl, h, ground arith, ground arith)
      | inr a ↦ elim (Bool-cases (ltb_ℤ requested burst)) [
        | inl b ↦ (burst, rw (e, o, a, b) refl, rw (e, o, a, b) refl, ground arith, h, ground arith)
        | inr b ↦ (
          requested,
          rw (e, o, a, b) refl,
          rw (e, o, a, b) refl,
          ground arith,
          ground arith,
          inl refl,
        )
      ]
    ]
