-- ===== src/OpenSles/Engine/Laws.antt =====
-- The count of users decides whether the shared object exists, and a failed creation never returns.
use android_audio_samples.Prelude.{
  Bool, false, ◌&&◌, some, pos, ◌-ℤ◌, ltb_ℤ, eqb_ℤ, ◌≤ℤ◌, ◌<ℤ◌, ◌≡◌, refl, arith, inl, inr,
  Bool-cases, if◌then◌else◌,
}
use android_audio_samples.OpenSles.Engine.{Library, EngineOpenSles, close_engine, OutputMixerOpenSl}

-- The engine has an object and its interface exactly while it has users; no thread holds the mutex.
abbrev pub IsCounted : EngineOpenSles → Type 0
IsCounted e =
    (pos 0 ≤ℤ e.open_count)
    × (e.engine_object ≡ ltb_ℤ (pos 0) e.open_count)
    × (e.engine_interface ≡ ltb_ℤ (pos 0) e.open_count)
    × (e.locked ≡ false)

-- The same of the output mix.
abbrev pub IsMixed : OutputMixerOpenSl → Type 0
IsMixed m =
    (pos 0 ≤ℤ m.open_count)
    × (m.output_mix_object ≡ ltb_ℤ (pos 0) m.open_count)
    × (m.locked ≡ false)

module _ (library : Library) where
  open library use {W, create, realize, get_interface, destroy}

  -- whether the three calls that make the engine succeed
  abbrev pub engine_starts : W → Bool
  engine_starts w =
      (create w).0 && (realize (create w).1).0 && (get_interface (realize (create w).1).1).0

  -- Closing the engine, which has users, leaves one user less, and destroys the object exactly when
  -- the last user goes.
  pub close_engine_lem :
      (e : EngineOpenSles) (w : W)
      → IsCounted e
      → pos 0 <ℤ e.open_count
      → (e' : EngineOpenSles) × (w' : W) × (close_engine library e w ≡ some (e', w'))
        × (e'.open_count ≡ e.open_count -ℤ pos 1)
        × IsCounted e'
        × (w' ≡ (if eqb_ℤ e.open_count (pos 1) then destroy w else w))
  unfolding close_engine ◌-ℤ◌
  close_engine_lem e w c h = elim (Bool-cases (eqb_ℤ e.open_count (pos 1))) [
    | inl last ↦ (
      record {
        open_count = e.open_count -ℤ pos 1;
        engine_object = false;
        engine_interface = false;
        locked = false;
      },
      destroy w,
      ground arith,
      refl,
      ground arith,
      ground arith,
    )
    | inr others ↦ (
      record e { open_count = e.open_count -ℤ pos 1 },
      w,
      ground arith,
      refl,
      ground arith,
      ground arith,
    )
  ]

  abbrev pub mixer_starts : W → Bool
  mixer_starts w = (create w).0 && (realize (create w).1).0
