-- ===== src/Fifo/Queue.antt =====
-- What a FIFO promises: the frames written and not yet read, oldest first, as a list of bytes.
use android_audio_samples.Prelude.{ℕ, ◌+◌, ◌-◌, ◌*◌, min, List, [], ◌++◌, take, drop}

pub record Queue : Type 0 where
  pub frames : ℕ
  pub bytes : List ℕ

abbrev pub empty : Queue
empty = record { frames = 0; bytes = [] }

-- Takes what fits of `n` offered frames of `size` bytes, and says how many.
abbrev pub write : ℕ → ℕ → Queue → List ℕ → ℕ → ℕ × Queue
write capacity size q source n =
    let k = min n (capacity - q.frames) in
    (k, record { frames = q.frames + k; bytes = q.bytes ++ take (k * size) source })

-- Gives up at most `n` frames: their number, their bytes, and the queue that is left.
abbrev pub read : ℕ → Queue → ℕ → ℕ × List ℕ × Queue
read size q n =
    let k = min n q.frames in
    (k, take (k * size) q.bytes, record { frames = q.frames - k; bytes = drop (k * size) q.bytes })
