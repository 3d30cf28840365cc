-- ===== src/OpenSles/Engine.antt =====
-- The two shared objects behind all streams of OpenSL ES, each with a count of its users:
-- src/opensles/EngineOpenSLES.cpp and src/opensles/OutputMixerOpenSLES.cpp.
-- A mutex is a flag. A thread that locks a `std::mutex` that it holds never goes on: `none`.
pub mod Laws
mod Tests
use android_audio_samples.Prelude.{
  Bool, true, false, ◌&&◌, not, Option, some, none, ℤ, pos, ◌+ℤ◌, ◌-ℤ◌, eqb_ℤ, if◌then◌else◌,
}

-- The calls of OpenSL ES. `W` is the state of that library; the flag is `SL_RESULT_SUCCESS`.
pub record Library : Type 1 where
  pub W : Type 0
  pub create : W → Bool × W
  pub realize : W → Bool × W
  pub get_interface : W → Bool × W
  pub destroy : W → W

-- `mOpenCount`, whether `mEngineObject` and `mEngineInterface` are set, and `mLock`.
pub record EngineOpenSles : Type 0 where
  pub open_count : ℤ
  pub engine_object : Bool
  pub engine_interface : Bool
  pub locked : Bool

-- `mOpenCount`, whether `mOutputMixObject` is set, and `mLock`.
pub record OutputMixerOpenSl : Type 0 where
  pub open_count : ℤ
  pub output_mix_object : Bool
  pub locked : Bool

module _ (library : Library) where
  open library use {W, create, realize, get_interface, destroy}

  pub close_engine : EngineOpenSles → W → Option (EngineOpenSles × W)
  close_engine e w =
      let counted = record e { open_count = e.open_count -ℤ pos 1 } in
      let emptied = record counted { engine_object = false; engine_interface = false } in
      if e.locked
      then none
      else if eqb_ℤ counted.open_count (pos 0) && e.engine_object
      then some (emptied, destroy w)
      else some (counted, w)

  -- the label `error` of `open`, which still holds the mutex
  pub engine_error : EngineOpenSles → W → Option (Bool × EngineOpenSles × W)
  engine_error e w = elim (close_engine e w) [
    | none ↦ none
    | some (e', w') ↦ some (false, record e' { locked = false }, w')
  ]

  -- the body of `open` for the first user
  unfoldable pub start_engine : EngineOpenSles → W → Option (Bool × EngineOpenSles × W)
  start_engine e w =
      let (created, w1) = create w in
      let (realized, w2) = realize w1 in
      let (found, w3) = get_interface w2 in
      let e1 = record e { engine_object = true } in
      if not created
      then engine_error e w1
      else if not realized
      then engine_error e1 w2
      else if not found
      then engine_error e1 w3
      else some (true, record e1 { engine_interface = true; locked = false }, w3)

  unfoldable pub open_engine : EngineOpenSles → W → Option (Bool × EngineOpenSles × W)
  open_engine e w =
      let held = record e { locked = true; open_count = e.open_count +ℤ pos 1 } in
      if e.locked
      then none
      else if eqb_ℤ e.open_count (pos 0)
      then start_engine held w
      else some (true, record held { locked = false }, w)

  pub close_mixer : OutputMixerOpenSl → W → Option (OutputMixerOpenSl × W)
  close_mixer m w =
      let counted = record m { open_count = m.open_count -ℤ pos 1 } in
      if m.locked
      then none
      else if eqb_ℤ counted.open_count (pos 0) && m.output_mix_object
      then some (record counted { output_mix_object = false }, destroy w)
      else some (counted, w)

  pub mixer_error : OutputMixerOpenSl → W → Option (Bool × OutputMixerOpenSl × W)
  mixer_error m w = elim (close_mixer m w) [
    | none ↦ none
    | some (m', w') ↦ some (false, record m' { locked = false }, w')
  ]

  -- `create` is here the engine's `CreateOutputMix`
  unfoldable pub start_mixer : OutputMixerOpenSl → W → Option (Bool × OutputMixerOpenSl × W)
  start_mixer m w =
      let (created, w1) = create w in
      let (realized, w2) = realize w1 in
      let m1 = record m { output_mix_object = true } in
      if not created
      then mixer_error m w1
      else if not realized
      then mixer_error m1 w2
      else some (true, record m1 { locked = false }, w2)

  unfoldable pub open_mixer : OutputMixerOpenSl → W → Option (Bool × OutputMixerOpenSl × W)
  open_mixer m w =
      let held = record m { locked = true; open_count = m.open_count +ℤ pos 1 } in
      if m.locked
      then none
      else if eqb_ℤ m.open_count (pos 0)
      then start_mixer held w
      else some (true, record held { locked = false }, w)
