-- ===== src/LockFreeQueue/Calls.antt =====
-- Sequences of calls of the lock-free queue, and the same calls on a list.
use android_audio_samples.Prelude.{
  ℕ, List, [], ◌∷◌, ◌++◌, length, Bool, true, false, ltb, if◌then◌else◌,
}
use android_audio_samples.LockFreeQueue.{LockFreeQueue, size, pop, push, peek}

-- A call, and what the caller sees of it; the variable of a `pop` or `peek` has a value before.
pub data Call (A : Type 0) : Type 0 where
  append : A → Call A
  remove look : A → Call A
  measure : Call A

pub data Seen (A : Type 0) : Type 0 where
  accepted : Bool → Seen A
  found : Bool → A → Seen A
  measured : ℕ → Seen A

module _ {A : Type 0} (capacity : ℕ) where
  unfoldable pub perform : Call A → LockFreeQueue A → Seen A × LockFreeQueue A
  perform (append x) q = let (done, q') = push capacity x q in (Seen.accepted done, q')
  perform (remove v) q = let (done, x, q') = pop capacity v q in (Seen.found done x, q')
  perform (look v) q = let (done, x) = peek capacity v q in (Seen.found done x, q)
  perform measure q = (Seen.measured (size capacity q), q)

  -- The same calls on a list of at most `capacity` items.
  unfoldable pub perform_list : Call A → List A → Seen A × List A
  perform_list (append x) items =
      if ltb (length items) capacity
      then (Seen.accepted true, items ++ x ∷ [])
      else (Seen.accepted false, items)
  perform_list (remove v) [] = (Seen.found false v, [])
  perform_list (remove v) (x ∷ items) = (Seen.found true x, items)
  perform_list (look v) [] = (Seen.found false v, [])
  perform_list (look v) (x ∷ items) = (Seen.found true x, x ∷ items)
  perform_list measure items = (Seen.measured (length items), items)

  unfoldable pub run : List (Call A) → LockFreeQueue A → List (Seen A)
  run [] q = []
  run (c ∷ cs) q = let (seen, q') = perform c q in seen ∷ run cs q'

  unfoldable pub run_list : List (Call A) → List A → List (Seen A)
  run_list [] items = []
  run_list (c ∷ cs) items = let (seen, items') = perform_list c items in seen ∷ run_list cs items'
