-- ===== src/LockFreeQueue.antt =====
-- The queue of the rhythm game, for one reader and one writer:
-- samples/RhythmGame/src/main/cpp/utils/LockFreeQueue.h, with the default `uint32_t` for the
-- counters. The reader and the writer take their calls one after another.
mod Slots
mod Calls
mod Refine
mod Tests
use android_audio_samples.Prelude.{
  ℕ, zero, suc, ◌+◌, ◌-◌, ◌%◌, ◌^◌, ◌==◌, List, [], ◌∷◌, get_or, Bool, true, false, u32,
  if◌then◌else◌,
}

pub record LockFreeQueue (A : Type 0) : Type 0 where
  pub buffer : List A
  pub write_counter : ℕ
  pub read_counter : ℕ

-- `n & (CAPACITY - 1)`: the capacity is a power of two.
abbrev pub mask : ℕ → ℕ → ℕ
mask capacity n = n % capacity

abbrev pub set_item : {A : Type 0} → ℕ → A → List A → List A
set_item i x [] = []
set_item zero x (y ∷ ys) = x ∷ ys
set_item (suc i) x (y ∷ ys) = y ∷ set_item i x ys

module _ {A : Type 0} (capacity : ℕ) where
  -- The difference of two `uint32_t`.
  unfoldable pub size : LockFreeQueue A → ℕ
  size q = u32 (q.write_counter + 2 ^ 32 - q.read_counter)

  unfoldable pub is_empty : LockFreeQueue A → Bool
  is_empty q = q.read_counter == q.write_counter

  unfoldable pub is_full : LockFreeQueue A → Bool
  is_full q = size q == capacity

  -- With the variable `val` before and after the call. The index is inside of the buffer.
  unfoldable pub pop : A → LockFreeQueue A → Bool × A × LockFreeQueue A
  pop val q = if is_empty q then (false, val, q) else (
    true,
    get_or q.buffer (mask capacity q.read_counter) val,
    record q { read_counter = u32 (q.read_counter + 1) },
  )

  unfoldable pub push : A → LockFreeQueue A → Bool × LockFreeQueue A
  push item q = if is_full q then (false, q) else (
    true,
    record q {
      buffer = set_item (mask capacity q.write_counter) item q.buffer;
      write_counter = u32 (q.write_counter + 1);
    },
  )

  unfoldable pub peek : A → LockFreeQueue A → Bool × A
  peek item q =
      if is_empty q
      then (false, item)
      else (true, get_or q.buffer (mask capacity q.read_counter) item)
