-- ===== src/OpenSles/Engine/Tests.antt =====
-- The engine over a library that counts its calls and whose fourth call fails.
use android_audio_samples.Prelude.{◌≡◌, refl, arith, ℕ, suc, ltb, true, false, some, pos, ◌-ℤ◌}
use android_audio_samples.OpenSles.Engine.{Library, EngineOpenSles, close_engine, OutputMixerOpenSl}
use android_audio_samples.OpenSles.Engine.Laws.{IsCounted, close_engine_lem}

abbrev four_calls : Library
four_calls = record {
  W = ℕ;
  create = λ w. (ltb w 4, suc w);
  realize = λ w. (ltb w 4, suc w);
  get_interface = λ w. (ltb w 4, suc w);
  destroy = λ w. 0;
}

abbrev fresh : EngineOpenSles
fresh = record {
  open_count = pos 0;
  engine_object = false;
  engine_interface = false;
  locked = false;
}

abbrev running : EngineOpenSles
running = record {
  open_count = pos 1;
  engine_object = true;
  engine_interface = true;
  locked = false;
}

abbrev no_mix : OutputMixerOpenSl
no_mix = record { open_count = pos 0; output_mix_object = false; locked = false }

close_engine_last :
    (e' : EngineOpenSles) × (w' : ℕ) × (close_engine four_calls running 3 ≡ some (e', w'))
    × (e'.open_count ≡ pos 1 -ℤ pos 1)
    × IsCounted e'
    × (w' ≡ 0)
close_engine_last =
    close_engine_lem four_calls running 3 (omega arith, refl, refl, refl) (omega arith)
