-- ===== src/OpenSles/Stream/Transfer/Tests.antt =====
-- An output stream without a callback, in mono with two bytes a frame, which holds two of its
-- eight frames.
use android_audio_samples.Prelude.{
  ℕ, ◌+◌, ◌*◌, ◌≤◌, ◌≡◌, refl, arith, List, [], ◌∷◌, none, some, ◌⊎◌, inr, ℤ, pos, pos_part, ◌+ℤ◌,
  ◌≤ℤ◌, ◌<ℤ◌, Returned,
}
use android_audio_samples.OpenSles.Stream.Example.{clock, fifo, stream, sleep}
use android_audio_samples.OpenSles.Stream.Transfer.{
  Transferred, transfer, transfer_loop, transfer_once, check_arguments, fifo_capacity,
  set_buffer_size_in_frames, burst_nanos,
}
use android_audio_samples.OpenSles.Stream.Transfer.Laws.{IsSteady, IsReady, transfer_returns}
use android_audio_samples.OpenSles.Stream.Transfer.Bounds.{IsBounded, transfer-IsBounded}
use android_audio_samples.OpenSles.Stream.Transfer.Sizes.{
  fifo_capacity_lem, set_buffer_size_in_frames_lem,
}

sleep_passes : (n : ℤ) (w : ℕ) → pos 1 ≤ℤ n → (pos w +ℤ n) ≤ℤ pos (w + pos_part n)
unfolding ◌+ℤ◌
sleep_passes n w h = ground arith

stream-IsSteady : IsSteady stream
unfolding burst_nanos
stream-IsSteady = omega arith

stream-IsReady : IsReady stream
stream-IsReady = record { steady = stream-IsSteady; fifo = fifo; given = refl }

-- With a data callback there is no FIFO, and a transfer meets the null pointer.
no_fifo :
    transfer clock sleep 10 none
      (some (21 ∷ 22 ∷ []))
      (pos 1)
      (pos 0)
      (record stream { fifo_buffer = none })
      7
    ≡ none
unfolding transfer transfer_loop transfer_once check_arguments
no_fifo = refl

abbrev bytes : List ℕ
bytes = 21 ∷ 22 ∷ 23 ∷ 24 ∷ []

transfer_returns_example :
    (t : Transferred clock sleep) × (transfer clock sleep 5001 none
        (some bytes)
        (pos 2)
        (pos 5000)
        stream
        7
      ≡ some t)
transfer_returns_example =
    transfer_returns clock sleep (λ n s w h. sleep_passes n w h) (λ n s w h. h) 5000 none
      (some bytes) (pos 2) (pos 5000) stream 7 stream-IsReady (omega arith)

transfer-IsBounded_example :
    Returned
      (λ (t : Transferred clock sleep). IsBounded (pos 2) t.0)
      (transfer clock sleep 3 none (some bytes) (pos 2) (pos 0) stream 7)
transfer-IsBounded_example =
    transfer-IsBounded clock sleep 3 none (some bytes) (pos 2) (pos 0) stream 7 (omega arith)

fifo_capacity_lem_example : (k : ℕ) × (fifo_capacity stream ≡ pos (2 * k)) × (4 ≤ k) × (8 ≤ 2 * k)
fifo_capacity_lem_example =
    fifo_capacity_lem stream 2 8 refl refl (omega arith) (omega arith) (omega arith)

set_buffer_size_clipped :
    let (answer, s') = set_buffer_size_in_frames (pos 100) stream in
    (size : ℤ) × (answer ≡ inr size)
    × (s'.base.buffer_size_in_frames ≡ size)
    × (pos 2 ≤ℤ size)
    × (size ≤ℤ pos 8)
    × ((size ≡ pos 100) ⊎ (pos 100 <ℤ pos 2) ⊎ (pos 8 <ℤ pos 100))
set_buffer_size_clipped =
    set_buffer_size_in_frames_lem stream fifo (pos 100) refl refl (omega arith)
