-- ===== src/Flowgraph/Pull.antt =====
-- How data are pulled through a graph: `pullData` of src/flowgraph/FlowGraphNode.cpp, over nodes that are
-- named by numbers. What a node does with the data is a parameter, and so is who is connected with whom;
-- cycles are possible. A node that pulls its inputs from its own `onProcess` is left out.
mod Once
mod Tests
use android_audio_samples.Prelude.{
  ℕ, zero, suc, ◌==◌, List, [], ◌∷◌, Bool, true, false, Option, none, some, ℤ, pos, ◌+ℤ◌, ltb_ℤ,
  if◌then◌else◌,
}

-- `mLastCallCount` and `mLastFrameCount`
pub record Memory : Type 0 where
  pub last_call_count : ℤ
  pub last_frame_count : ℤ

-- The input ports of a node, each with the node of the output port that it is connected to, if any;
-- `mDataPulledAutomatically`; and `onProcess`, with `W` the state of all nodes and buffers.
pub record Graph : Type 1 where
  pub W : Type 0
  pub inputs : ℕ → List (Option ℕ)
  pub automatic : ℕ → Bool
  pub on_process : ℕ → ℤ → W → ℤ × W

module _ (graph : Graph) where
  open graph use {W, inputs, automatic, on_process}

  pub record GraphState : Type 0 where
    pub memory : ℕ → Memory
    pub world : W

  abbrev pub remember : ℕ → Memory → GraphState → GraphState
  remember i m s = record s { memory = λ j. if i == j then m else s.memory j }

  -- The frames of a buffer: `kDefaultBufferSize`.
  abbrev pub at_most_a_buffer : ℤ → ℤ
  at_most_a_buffer n = if ltb_ℤ (pos 8) n then pos 8 else n

  -- The input ports from the first on, with the number of frames that came so far; `pull` is `pullData` of
  -- the node behind a port.
  unfoldable pub pull_ports :
      (ℕ → ℤ → GraphState → Option (ℤ × GraphState))
      → List (Option ℕ)
      → ℤ
      → GraphState
      → Option (ℤ × GraphState)
  pull_ports pull [] frames s = some (frames, s)
  pull_ports pull (none ∷ ports) frames s = pull_ports pull ports (at_most_a_buffer frames) s
  pull_ports pull (some j ∷ ports) frames s = elim (pull j (at_most_a_buffer frames) s) [
    | none ↦ none
    | some (frames', s') ↦ pull_ports pull ports frames' s'
  ]

  -- `onProcess`, and its result remembered
  unfoldable pub process_node : ℕ → ℤ → ℤ → GraphState → ℤ × GraphState
  process_node i call frames s =
      let (processed, w') = on_process i frames s.world in
      let count = if ltb_ℤ (pos 0) frames then processed else frames in
      let s' = record s { world = if ltb_ℤ (pos 0) frames then w' else s.world } in
      (
        count,
        remember i
            (record { last_call_count = (s.memory i).last_call_count; last_frame_count = count })
            s',
      )

  -- `pullData` of the node `i`; `none` where the fuel is spent, a unit for each node on the way.
  unfoldable pub pull_data : ℕ → ℤ → ℕ → ℤ → GraphState → Option (ℤ × GraphState)
  pull_data zero call i frames s = none
  pull_data (suc fuel) call i frames s =
      let m = s.memory i in
      let marked = remember i (record m { last_call_count = call }) s in
      let pulled =
        if automatic i
        then pull_ports (pull_data fuel call) (inputs i) frames marked
        else some (frames, marked) in
      if ltb_ℤ m.last_call_count call
      then elim pulled [ none ↦ none | some (frames', s') ↦ some (process_node i call frames' s') ]
      else some (m.last_frame_count, s)

  -- `FlowGraphSink::pullData`
  unfoldable pub pull_sink : ℕ → ℕ → ℤ → GraphState → Option (ℤ × GraphState)
  pull_sink fuel i frames s = pull_data fuel ((s.memory i).last_call_count +ℤ pos 1) i frames s
