-- ===== src/DataConversion/Chain.antt =====
-- The chain joins the source to the sink.
use android_audio_samples.Prelude.{
  ◌≡◌, refl, sym, subst, Option-cases, arith, ◌⊎◌, inl, inr, List, [], ◌∷◌, ◌++◌, true, false,
  Bool-cases, some, none, ℤ, pos, ltb_ℤ, eqb_ℤ, not, Bool, ap, ◌∙◌, ◌&&◌, ◌||◌, if◌then◌else◌,
}
use android_audio_samples.Definitions.{Result}
use android_audio_samples.StreamBase.{is_input, is_unspecified, is_data_callback_specified}
use android_audio_samples.DataConversion.{
  StreamInfo, SampleFormat, sample_format, Quality, Node, first_node, reduce_channels,
  middle_channels, convert_rate, expand_channels, configure, uses_caller,
}

-- What flows between two nodes: samples of so many channels at a rate.
pub record Flow : Type 0 where
  pub channels : ℤ
  pub rate : ℤ

-- A node turns one flow into another; the ends of a chain have a format.
pub data Connects : Flow → Node → Flow → Type 0 where
  multi_to_mono :
      (f : Flow)
      → Connects f (Node.multi_to_mono_converter f.channels) (record f { channels = pos 1 })
  channel_count :
      (f : Flow) (outputs : ℤ)
      → Connects f
          (Node.channel_count_converter f.channels outputs)
          (record f { channels = outputs })
  sample_rate :
      (f : Flow) (rate : ℤ) (q : Quality)
      → Connects f (Node.sample_rate_converter f.channels f.rate rate q) (record f { rate = rate })
  mono_to_multi :
      (f : Flow) (outputs : ℤ)
      → f.channels ≡ pos 1
      → Connects f (Node.mono_to_multi_converter outputs) (record f { channels = outputs })

pub data Runs : Flow → List Node → Flow → Type 0 where
  done : (f : Flow) → Runs f [] f
  step :
      (f g h : Flow) (n : Node) (ns : List Node) → Connects f n g → Runs g ns h → Runs f (n ∷ ns) h

Runs-append : (f g h : Flow) (ms ns : List Node) → Runs f ms g → Runs g ns h → Runs f (ms ++ ns) h
Runs-append f g h [] ns (done _) r = r
Runs-append f g h (m ∷ ms) ns (step _ k _ _ _ c r) s =
    step f k h m (ms ++ ns) c (Runs-append k g h ms ns r s)

equal : (a b : ℤ) → eqb_ℤ a b ≡ true → a ≡ b
equal a b h = ground arith

neither : (a b : ℤ) → ltb_ℤ a b ≡ false → ltb_ℤ b a ≡ false → a ≡ b
neither a b h k = ground arith

module _ (source_stream sink_stream : StreamInfo) where
  abbrev pub source_flow : Flow
  source_flow = record {
    channels = source_stream.settings.channel_count;
    rate = source_stream.settings.sample_rate;
  }

  abbrev pub sink_flow : Flow
  sink_flow = record {
    channels = sink_stream.settings.channel_count;
    rate = sink_stream.settings.sample_rate;
  }

  middle_flow : ℤ → Flow
  middle_flow rate = record { channels = middle_channels source_stream sink_stream; rate = rate }

  one : (f : Flow) (n : Node) (g : Flow) → Connects f n g → Runs f (n ∷ []) g
  one f n g c = step f g g n [] c (done g)

  reduce_channels-Runs :
      Runs source_flow (reduce_channels source_stream sink_stream) (middle_flow source_flow.rate)
  unfolding reduce_channels middle_channels middle_flow
  reduce_channels-Runs = elim (Bool-cases (ltb_ℤ sink_flow.channels source_flow.channels)) [
    | inl fewer ↦ elim (Bool-cases (eqb_ℤ sink_flow.channels (pos 1))) [
      | inl mono ↦
          rw (fewer, mono)
            (subst
              (λ c.
                Runs source_flow (Node.multi_to_mono_converter source_flow.channels ∷ [])
                  (record { channels = c; rate = source_flow.rate }))
              (sym (equal _ (pos 1) mono)) (one _ _ _ (multi_to_mono source_flow)))
      | inr multi ↦ rw (fewer, multi) (one _ _ _ (channel_count source_flow sink_flow.channels))
    ]
    | inr enough ↦ rw enough (done source_flow)
  ]

  convert_rate-Runs :
      Runs
        (middle_flow source_flow.rate)
        (convert_rate source_stream sink_stream)
        (middle_flow sink_flow.rate)
  unfolding convert_rate middle_flow
  convert_rate-Runs = elim (Bool-cases (eqb_ℤ source_flow.rate sink_flow.rate)) [
    | inl same ↦ rw same (
        subst (λ r. Runs (middle_flow source_flow.rate) [] (middle_flow r))
          (equal source_flow.rate sink_flow.rate same) (done _))
    | inr differ ↦ rw differ (one _ _ _ (sample_rate _ sink_flow.rate _))
  ]

  expand_channels-Runs :
      Runs (middle_flow sink_flow.rate) (expand_channels source_stream sink_stream) sink_flow
  unfolding expand_channels middle_channels middle_flow
  expand_channels-Runs = elim (Bool-cases (ltb_ℤ source_flow.channels sink_flow.channels)) [
    | inl more ↦
        let not_fewer : ltb_ℤ sink_flow.channels source_flow.channels ≡ false = ground arith in
        elim (Bool-cases (eqb_ℤ source_flow.channels (pos 1))) [
          | inl mono ↦
              rw (more, not_fewer, mono)
                (one _ _ _ (mono_to_multi _ sink_flow.channels (equal _ (pos 1) mono)))
          | inr multi ↦ rw (more, not_fewer, multi) (one _ _ _ (channel_count _ sink_flow.channels))
        ]
    | inr enough ↦ elim (Bool-cases (ltb_ℤ sink_flow.channels source_flow.channels)) [
      | inl fewer ↦ rw (enough, fewer) (done _)
      | inr not_fewer ↦
          rw (enough, not_fewer)
            (subst
              (λ c.
                Runs (record { channels = source_flow.channels; rate = sink_flow.rate }) []
                  (record { channels = c; rate = sink_flow.rate }))
              (neither source_flow.channels sink_flow.channels enough not_fewer) (done _))
    ]
  ]

  abbrev pub inner_nodes : List Node
  inner_nodes =
      reduce_channels source_stream sink_stream
      ++ (convert_rate source_stream sink_stream ++ expand_channels source_stream sink_stream)

  inner_nodes-Runs : Runs source_flow inner_nodes sink_flow
  inner_nodes-Runs =
      Runs-append _ _ _ _ _ reduce_channels-Runs
        (Runs-append _ _ _ _ _ convert_rate-Runs expand_channels-Runs)

-- The node at the head of a chain, for a stream of a format that the nodes handle: it calls back for its
-- data if exactly one of the stream's input direction and its data callback is there, and else reads from
-- a buffer that it is given.
pub IsSource : StreamInfo → SampleFormat → Node → Type 0
IsSource s f (Node.source_caller g channels frames) =
    (g ≡ f)
    × (channels ≡ s.settings.channel_count)
    × (frames ≡ (
        if is_unspecified s.settings.frames_per_callback
        then s.frames_per_burst
        else s.settings.frames_per_callback))
    × (is_data_callback_specified s.settings ≡ not (is_input s.settings))
IsSource s f (Node.source g channels) =
    (g ≡ f)
    × (channels ≡ s.settings.channel_count)
    × (is_data_callback_specified s.settings ≡ is_input s.settings)
IsSource s f _ = true ≡ false

heads :
    (called input : Bool) (s : StreamInfo) (f : SampleFormat)
    → called ≡ is_data_callback_specified s.settings
    → input ≡ is_input s.settings
    → IsSource s f (
        if (called && not input) || (not called && input)
        then Node.source_caller f s.settings.channel_count (
            if is_unspecified s.settings.frames_per_callback
            then s.frames_per_burst
            else s.settings.frames_per_callback)
        else Node.source f s.settings.channel_count)
unfolding IsSource
heads true true s f e k = (refl, refl, sym e ∙ k)
heads true false s f e k = (refl, refl, refl, sym e ∙ ap not k)
heads false true s f e k = (refl, refl, refl, sym e ∙ ap not k)
heads false false s f e k = (refl, refl, sym e ∙ k)

first_node-IsSource :
    (source_stream sink_stream : StreamInfo) (f : SampleFormat)
    → IsSource source_stream f (first_node source_stream sink_stream f)
unfolding first_node uses_caller
first_node-IsSource s t f = heads _ _ s f refl refl

-- Between streams whose formats the nodes handle, `configure` succeeds with a chain that starts at a
-- source of the source's format and channels, which calls back for its data, a callback's frames at a
-- time, or a burst's where no size is given, for an output with a data callback or an input without one, and
-- reads from a buffer for the others; that ends at a sink of the sink's format and channels; and that in
-- between turns the source's channels and rate into the sink's, each node taking what the one before it
-- gives. Between any others it answers `ErrorIllegalArgument`.
pub configure-Runs :
    (source_stream sink_stream : StreamInfo)
    → ((f : SampleFormat) × (g : SampleFormat) × (first : Node) × (inner : List Node)
        × (sample_format source_stream.settings.format ≡ some f)
        × (sample_format sink_stream.settings.format ≡ some g)
        × ((configure source_stream sink_stream).0 ≡ Result.ok)
        × ((configure source_stream sink_stream).1.nodes
            ≡ first ∷ (inner ++ (Node.sink g sink_stream.settings.channel_count ∷ [])))
        × IsSource source_stream f first
        × Runs (source_flow source_stream sink_stream) inner (sink_flow source_stream sink_stream))
      ⊎ (((sample_format source_stream.settings.format ≡ none)
            ⊎ (sample_format sink_stream.settings.format ≡ none))
          × ((configure source_stream sink_stream).0 ≡ Result.error_illegal_argument))
unfolding configure
configure-Runs source_stream sink_stream =
    elim (Option-cases (sample_format source_stream.settings.format)) [
      | inl e ↦ inr (inl e, rw (e, configure) refl)
      | inr (f, ef) ↦ elim (Option-cases (sample_format sink_stream.settings.format)) [
        | inl e ↦ inr (inr e, rw (ef, e, configure) refl)
        | inr (g, eg) ↦ inl (
          f,
          g,
          first_node source_stream sink_stream f,
          inner_nodes source_stream sink_stream,
          ef,
          eg,
          rw (ef, eg, configure) refl,
          rw (ef, eg, configure) refl,
          first_node-IsSource source_stream sink_stream f,
          inner_nodes-Runs source_stream sink_stream,
        )
      ]
    ]
