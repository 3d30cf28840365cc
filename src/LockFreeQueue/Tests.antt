-- ===== src/LockFreeQueue/Tests.antt =====
-- A queue of four places that holds two items, just before its counters wrap.
use native.Mathlib.Nat.{dvd-mul_right}
use android_audio_samples.Prelude.{
  ◌≡◌, refl, arith, ℕ, zero, suc, ◌+◌, ◌-◌, ◌%◌, ◌^◌, ◌<◌, List, [], ◌∷◌, get_or, true, false,
}
use android_audio_samples.LockFreeQueue.{LockFreeQueue}
use android_audio_samples.LockFreeQueue.Calls.{
  Call, append, remove, look, measure, Seen, run, run_list, perform_list,
}
use android_audio_samples.LockFreeQueue.Refine.{Holds, run_agrees}

abbrev wrapping : LockFreeQueue ℕ
wrapping = record { buffer = 20 ∷ 0 ∷ 0 ∷ 10 ∷ []; write_counter = 1; read_counter = 2 ^ 32 - 1 }

wrapping_places :
    (i d : ℕ) → i < 2 → get_or wrapping.buffer ((2 ^ 32 - 1 + i) % 4) d ≡ get_or (10 ∷ 20 ∷ []) i d
wrapping_places zero d h = refl
wrapping_places (suc zero) d h = refl
wrapping_places (suc (suc i)) d h = absurd (omega arith)

wrapping-Holds : Holds 4 (10 ∷ 20 ∷ []) wrapping
wrapping-Holds = record {
  passed = 2 ^ 32 - 1;
  reads = refl;
  writes = refl;
  long = refl;
  fits = omega arith;
  places = wrapping_places;
}

abbrev calls : List (Call ℕ)
calls = append 30 ∷ append 40 ∷ append 50 ∷ remove 0 ∷ look 0 ∷ measure ∷ remove 0 ∷ []

run_agrees_example : run 4 calls wrapping ≡ run_list 4 calls (10 ∷ 20 ∷ [])
run_agrees_example =
    run_agrees 4 (omega arith) (omega arith) (dvd-mul_right 4 (2 ^ 30)) calls (10 ∷ 20 ∷ [])
      wrapping wrapping-Holds

-- The third item does not fit.
calls_seen :
    run_list 4 calls (10 ∷ 20 ∷ [])
    ≡ Seen.accepted true
      ∷ Seen.accepted true
      ∷ Seen.accepted false
      ∷ Seen.found true 10
      ∷ Seen.found true 20
      ∷ Seen.measured 3
      ∷ Seen.found true 20
      ∷ []
unfolding run_list perform_list
calls_seen = refl
