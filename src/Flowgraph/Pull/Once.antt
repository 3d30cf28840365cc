-- ===== src/Flowgraph/Pull/Once.antt =====
-- A pull ends, also in a cyclic graph, and processes each node once at most.
use android_audio_samples.Prelude.{
  ℕ, zero, suc, ◌+◌, ◌≤◌, ◌<◌, ◌==◌, ◌≡◌, refl, sym, ap, ◌∙◌, arith, List, [], ◌∷◌, Bool-cases,
  Option, none, some, ℤ, pos, ◌+ℤ◌, ltb_ℤ, inl, inr, if◌then◌else◌, if_cases,
}
use android_audio_samples.Flowgraph.Pull.{
  Graph, GraphState, remember, at_most_a_buffer, pull_ports, process_node, pull_data, pull_sink,
}

-- Every connected port leads to one of the first `n` nodes.
unfoldable pub IsInside : ℕ → List (Option ℕ) → Type 0
IsInside n [] = 0 ≤ n
IsInside n (none ∷ ports) = IsInside n ports
IsInside n (some j ∷ ports) = (j < n) × IsInside n ports

module _ (graph : Graph) (n : ℕ) (call : ℤ) where
  open graph use {W, inputs, automatic, on_process}

  abbrev is_stale : GraphState graph → ℕ → ℕ
  is_stale s j = if ltb_ℤ (s.memory j).last_call_count call then 1 else 0

  -- how many of the first `k` nodes were not reached yet
  stale : ℕ → GraphState graph → ℕ
  stale zero s = 0
  stale (suc k) s = stale k s + is_stale s k

  stale-le : (k : ℕ) (s : GraphState graph) → stale k s ≤ k
  unfolding stale
  stale-le zero s = omega arith
  stale-le (suc k) s = ground (arith, stale-le k s)

  abbrev marked : ℕ → GraphState graph → GraphState graph
  marked i s = remember graph i (record (s.memory i) { last_call_count = call }) s

  stale-above : (k i : ℕ) (s : GraphState graph) → k ≤ i → stale k (marked i s) ≡ stale k s
  unfolding stale
  stale-above zero i s h = refl
  stale-above (suc k) i s h = ground (arith, stale-above k i s (omega arith))

  stale-marked :
      (k i : ℕ) (s : GraphState graph)
      → i < k
      → is_stale s i ≡ 1
      → suc (stale k (marked i s)) ≡ stale k s
  unfolding stale
  stale-marked zero i s h e = absurd (omega arith)
  stale-marked (suc k) i s h e = elim (Bool-cases (i == k)) [
    | inl same ↦
        let eq : i ≡ k = ground (arith, same) in
        let before : is_stale s k ≡ 1 = ap (is_stale s) (sym eq) ∙ e in
        let after : is_stale (marked i s) k ≡ 0 = ground (arith, same) in
        omega (arith, stale-above k i s (omega (arith, eq)), before, after)
    | inr other ↦ ground (arith, stale-marked k i s (ground (arith, h, other)) e, other)
  ]

  stale-same :
      (k : ℕ) (s t : GraphState graph)
      → ((j : ℕ) → is_stale t j ≡ is_stale s j)
      → stale k t ≡ stale k s
  unfolding stale
  stale-same zero s t h = refl
  stale-same (suc k) s t h = omega (arith, stale-same k s t h, h k)

  module _ (count : W → ℕ → ℕ)
      (counts : (i j : ℕ) (frames : ℤ) (w : W)
        → count (on_process i frames w).1 j ≡ count w j + (if i == j then 1 else 0)) where
    -- how often a node was processed, and whether it still may be
    abbrev budget : GraphState graph → ℕ → ℕ
    budget s j = count s.world j + is_stale s j

    record Pulls (s : GraphState graph) (t : Option (ℤ × GraphState graph)) : Type 0 where
      frames : ℤ
      state : GraphState graph
      returned : t ≡ some (frames, state)
      fewer : stale n state ≤ stale n s
      once : (j : ℕ) → budget state j ≤ budget s j

    nothing : (frames : ℤ) (s : GraphState graph) → Pulls s (some (frames, s))
    nothing frames s = record {
      frames = frames;
      state = s;
      returned = refl;
      fewer = omega arith;
      once = λ j. omega arith;
    }

    after :
        (s t : GraphState graph) (r : Option (ℤ × GraphState graph))
        → stale n t ≤ stale n s
        → ((j : ℕ) → budget t j ≤ budget s j)
        → Pulls t r
        → Pulls s r
    after s t r h k d = record {
      frames = d.frames;
      state = d.state;
      returned = d.returned;
      fewer = omega (arith, h, d.fewer);
      once = λ j. omega (arith, k j, d.once j);
    }

    module _ (bound : ℕ) (pull : ℕ → ℤ → GraphState graph → Option (ℤ × GraphState graph))
        (pulls : (j : ℕ) (frames : ℤ) (s : GraphState graph)
          → j < n
          → stale n s < bound
          → Pulls s (pull j frames s)) where
      then_ports :
          (ports : List (Option ℕ)) (s : GraphState graph) (r : Option (ℤ × GraphState graph))
          → Pulls s r
          → ((frames : ℤ) (t : GraphState graph)
              → stale n t ≤ stale n s
              → Pulls t (pull_ports graph pull ports frames t))
          → Pulls s
              (elim r [ none ↦ none | some (frames, t) ↦ pull_ports graph pull ports frames t ])
      then_ports ports s r d k = rw d.returned (
          after s d.state (pull_ports graph pull ports d.frames d.state) d.fewer d.once
            (k d.frames d.state d.fewer))

      pull_ports-Pulls :
          (ports : List (Option ℕ)) (frames : ℤ) (s : GraphState graph)
          → IsInside n ports
          → stale n s < bound
          → Pulls s (pull_ports graph pull ports frames s)
      unfolding pull_ports IsInside
      pull_ports-Pulls [] frames s h l = nothing frames s
      pull_ports-Pulls (none ∷ ports) frames s h l =
          pull_ports-Pulls ports (at_most_a_buffer graph frames) s h l
      pull_ports-Pulls (some j ∷ ports) frames s (i, h) l =
          then_ports ports s (pull j (at_most_a_buffer graph frames) s)
            (pulls j (at_most_a_buffer graph frames) s i l)
            (λ f t e. pull_ports-Pulls ports f t h (omega (arith, e, l)))

    finished :
        (i : ℕ) (s : GraphState graph) (r : Option (ℤ × GraphState graph))
        → is_stale s i ≡ 1
        → suc (stale n (marked i s)) ≡ stale n s
        → Pulls (marked i s) r
        → Pulls s
            (elim r [ none ↦ none | some (frames, t) ↦ some (process_node graph i call frames t) ])
    unfolding process_node
    finished i s r e f d = rw d.returned (record {
      frames = (process_node graph i call d.frames d.state).0;
      state = (process_node graph i call d.frames d.state).1;
      returned = refl;
      fewer = omega (
        arith,
        d.fewer,
        f,
        stale-same n d.state (process_node graph i call d.frames d.state).1 (λ j. same j),
      );
      once = λ j. once_more j;
    })
      where
        same :
            (j : ℕ) → is_stale (process_node graph i call d.frames d.state).1 j ≡ is_stale d.state j
        same j = elim (Bool-cases (i == j)) [
          | inl h ↦ let eq : i ≡ j = ground (arith, h) in rw h (ap (is_stale d.state) eq)
          | inr h ↦ rw h refl
        ]

        counted :
            (j : ℕ)
            → count (process_node graph i call d.frames d.state).1.world j
              ≤ count d.state.world j + (if i == j then 1 else 0)
        counted j =
            if_cases (λ w. count w j ≤ count d.state.world j + (if i == j then 1 else 0))
              (ltb_ℤ (pos 0) d.frames) (λ h. omega (arith, counts i j d.frames d.state.world))
              (λ h. omega arith)

        was : (j : ℕ) → is_stale (marked i s) j + (if i == j then 1 else 0) ≡ is_stale s j
        was j = elim (Bool-cases (i == j)) [
          | inl h ↦
              let eq : i ≡ j = ground (arith, h) in
              let before : is_stale s j ≡ 1 = ap (is_stale s) (sym eq) ∙ e in
              ground (arith, h, before)
          | inr h ↦ ground (arith, h)
        ]

        once_more : (j : ℕ) → budget (process_node graph i call d.frames d.state).1 j ≤ budget s j
        once_more j = omega (arith, same j, counted j, was j, d.once j)

    -- `pull_data` reaches a node that is stale, or remembers.
    pull_data-Pulls :
        ((i : ℕ) → i < n → IsInside n (inputs i))
        → (fuel i : ℕ) (frames : ℤ) (s : GraphState graph) → i < n
        → stale n s < fuel
        → Pulls s (pull_data graph fuel call i frames s)
    unfolding pull_data
    pull_data-Pulls inside zero i frames s h l = absurd (omega arith)
    pull_data-Pulls inside (suc fuel) i frames s h l =
        if_cases (Pulls s) (ltb_ℤ (s.memory i).last_call_count call)
          (λ e.
            let fresh : is_stale s i ≡ 1 = rw e refl in
            let f = stale-marked n i s h fresh in
            finished i s _ fresh f (
              if_cases (Pulls (marked i s)) (automatic i)
                (λ a.
                  pull_ports-Pulls fuel (pull_data graph fuel call)
                    (λ j k t. pull_data-Pulls inside fuel j k t) (inputs i) frames (marked i s)
                    (inside i h) (omega (arith, f, l)))
                (λ a. nothing frames (marked i s))))
          (λ e. nothing _ s)

-- In a graph where no `onProcess` pulls, as the one of the sample rate converter does, pulling from a
-- sink among `n` nodes that are connected with each other only, in cycles or not, ends within `n` + 1
-- steps of depth, and processes each node at most once: so says any count that `onProcess` of a node
-- raises by one for that node, and for no other.
pub pull_sink_lem :
    (graph : Graph) (n : ℕ) (count : graph.W → ℕ → ℕ)
    → ((i j : ℕ) (frames : ℤ) (w : graph.W)
        → count (graph.on_process i frames w).1 j ≡ count w j + (if i == j then 1 else 0))
    → ((i : ℕ) → i < n → IsInside n (graph.inputs i))
    → (i : ℕ) (frames : ℤ) (s : GraphState graph) → i < n
    → (k : ℤ) × (t : GraphState graph) × (pull_sink graph (suc n) i frames s ≡ some (k, t))
      × ((j : ℕ) → count t.world j ≤ count s.world j + 1)
unfolding pull_sink
pull_sink_lem graph n count counts inside i frames s h =
    let call = (s.memory i).last_call_count +ℤ pos 1 in
    let d =
      pull_data-Pulls graph n call count counts inside (suc n) i frames s h
        (omega (arith, stale-le graph n call n s)) in
    (d.frames, d.state, d.returned, λ j. ground (arith, d.once j))
