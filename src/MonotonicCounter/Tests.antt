-- ===== src/MonotonicCounter/Tests.antt =====
-- The laws of the counter at concrete inputs.
use android_audio_samples.Prelude.{
  ℕ, ◌+◌, ◌*◌, ◌^◌, ◌-◌, ◌≤◌, ◌<◌, ◌≡◌, refl, arith, pos, negsuc, ◌≤ℤ◌, ◌+ℤ◌, List, [], ◌∷◌,
}
use android_audio_samples.MonotonicCounter.{
  MonotonicCounter, new_counter, get, update32, round_up64,
}
use android_audio_samples.MonotonicCounter.Laws.{
  Call, advance, follow, restart, apply_all, most_all, shown, counter_monotone, update32_tracks,
  round_up64_lem,
}

abbrev calls : List Call
calls = follow (pos 7) ∷ advance (negsuc 3) ∷ restart ∷ follow (pos 2) ∷ []

counter_monotone_example :
    (get new_counter ≤ℤ get (apply_all calls new_counter))
    × (get (apply_all calls new_counter) ≤ℤ (get new_counter +ℤ pos (most_all calls)))
unfolding get new_counter ◌+ℤ◌ most_all
counter_monotone_example = counter_monotone calls new_counter (omega arith) (omega arith)

-- across the wrap of the 32-bit counter
update32_tracks_example :
    update32
      (shown (2 ^ 31 - 1 + 5))
      (record { counter64 = pos (2 ^ 31 - 1); counter32 = shown (2 ^ 31 - 1) })
    ≡ record { counter64 = pos (2 ^ 31 - 1 + 5); counter32 = shown (2 ^ 31 - 1 + 5) }
update32_tracks_example = update32_tracks (2 ^ 31 - 1) 5 (omega arith) (omega arith)

abbrev ten : MonotonicCounter
ten = record { counter64 = pos 10; counter32 = pos 0 }

round_up64_burst :
    (m : ℕ) × (get (round_up64 (pos 8) ten) ≡ pos (m * 8)) × (10 ≤ m * 8) × (m * 8 < 10 + 8)
unfolding get
round_up64_burst = round_up64_lem 10 8 ten (omega arith) (omega arith) refl
