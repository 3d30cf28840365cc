-- ===== src/Flowgraph/Pull/Tests.antt =====
-- A sink 0 that is fed by node 1 twice, where node 1 and node 2 feed each other.
use android_audio_samples.Prelude.{
  ◌≡◌, refl, arith, ℕ, zero, suc, ◌+◌, ◌≤◌, ◌<◌, ◌==◌, List, [], ◌∷◌, true, some, none, Option, ℤ,
  pos, negsuc, if◌then◌else◌,
}
use android_audio_samples.Flowgraph.Pull.{Graph, GraphState, pull_sink}
use android_audio_samples.Flowgraph.Pull.Once.{IsInside, pull_sink_lem}

abbrev edges : ℕ → List (Option ℕ)
edges zero = some 1 ∷ none ∷ some 1 ∷ []
edges (suc zero) = some 2 ∷ []
edges (suc (suc n)) = some 1 ∷ []

-- `W` says how often each node was processed.
abbrev cyclic : Graph
cyclic = record {
  W = ℕ → ℕ;
  inputs = edges;
  automatic = λ i. true;
  on_process = λ i frames w. (frames, λ j. w j + (if i == j then 1 else 0));
}

abbrev fresh : GraphState cyclic
fresh = record {
  memory = λ j. record { last_call_count = negsuc 0; last_frame_count = pos 0 };
  world = λ j. 0;
}

edges-IsInside : (i : ℕ) → i < 3 → IsInside 3 (edges i)
unfolding IsInside
edges-IsInside zero h = (omega arith, (omega arith, omega arith))
edges-IsInside (suc zero) h = (omega arith, omega arith)
edges-IsInside (suc (suc n)) h = (omega arith, omega arith)

pull_sink_lem_example :
    (k : ℤ) × (t : GraphState cyclic) × (pull_sink cyclic 4 0 (pos 192) fresh ≡ some (k, t))
    × ((j : ℕ) → t.world j ≤ 0 + 1)
pull_sink_lem_example =
    pull_sink_lem cyclic 3 (λ w j. w j) (λ i j frames w. refl) edges-IsInside 0 (pos 192) fresh
      (omega arith)
