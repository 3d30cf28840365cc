-- ===== src/OpenSles/Stream/Opening/Tests.antt =====
-- The opening of a stereo output on a device where everything works, and on one without a player.
use android_audio_samples.Prelude.{
  ◌≡◌, refl, arith, ℕ, ◌+◌, ◌*◌, ◌/◌, ◌≤◌, ◌<◌, [], some, true, false, Bool, pos, ◌⊎◌,
  if◌then◌else◌, ◌+ℤ◌, ◌-ℤ◌, wrap32,
}
use android_audio_samples.Definitions.{Result, AudioFormat, audio_format_code}
use android_audio_samples.StreamBase.{default_base, Platform, same_format}
use android_audio_samples.OpenSles.Engine.{open_engine, start_engine, open_mixer, start_mixer}
use android_audio_samples.OpenSles.Stream.{Stream}
use android_audio_samples.OpenSles.Stream.Formats.{SlPerformance}
use android_audio_samples.OpenSles.Stream.Configuring.{
  DefaultStreamValues, OpenSlEs, new_stream, default_burst,
}
use android_audio_samples.OpenSles.Stream.Configuring.Sizes.{is_slow, default_burst_lem}
use android_audio_samples.OpenSles.Stream.Opening.{
  System, open_sles, with_engine, with_mixer, finish_open, set_up, default_format, default_values,
}

-- `W` counts the calls, and `works` says whether a player is created.
abbrev device : Bool → OpenSlEs
device works = record {
  W = ℕ;
  create_engine = λ w. (true, w + 1);
  realize_engine = λ w. (true, w + 1);
  get_engine = λ w. (true, w + 1);
  destroy_engine = λ w. w + 1;
  create_output_mix = λ w. (true, w + 1);
  realize_output_mix = λ w. (true, w + 1);
  destroy_output_mix = λ w. w + 1;
  create_object = λ f w. (works, w + 1);
  get_configuration = λ w. (true, w + 1);
  set_performance = λ m w. (true, w + 1);
  set_stream_type = λ t w. (true, w + 1);
  set_recording_preset = λ r w. (true, w + 1);
  get_performance = λ w. (true, SlPerformance.latency, w + 1);
  realize_object = λ w. (true, w + 1);
  get_control = λ w. (true, w + 1);
  get_queue = λ w. (true, w + 1);
  register_callback = λ w. (true, w + 1);
}

abbrev nougat : Platform
nougat = record { sdk_version = 25; aaudio_supported = false; workarounds_enabled = true }

abbrev defaults : DefaultStreamValues
defaults = record { sample_rate = pos 48000; frames_per_burst = pos 192; channel_count = pos 2 }

abbrev fresh : Stream
fresh = new_stream default_base

abbrev unused : (works : Bool) → System nougat defaults (device works)
unused works = record {
  engine = record {
    open_count = pos 0;
    engine_object = false;
    engine_interface = false;
    locked = false;
  };
  mixer = record { open_count = pos 0; output_mix_object = false; locked = false };
  outside = 0;
}

default_burst_lem_example :
    (k : ℕ) × (default_burst nougat defaults default_base (pos 48000) ≡ pos (192 * k))
    × (1 ≤ k)
    × ((if is_slow nougat default_base then 48000 * 20 / 1000 else 0) ≤ 192 * k)
    × ((k ≡ 1) ⊎ ((is_slow nougat default_base ≡ true) × (192 * k < 48000 * 20 / 1000 + 192)))
default_burst_lem_example =
    default_burst_lem nougat defaults default_base 48000 192 refl (omega arith) (omega arith)
      (omega arith)

-- 960 frames are five bursts.
burst_of_20_milliseconds : default_burst nougat defaults default_base (pos 48000) ≡ pos 960
unfolding default_burst wrap32 ◌+ℤ◌ ◌-ℤ◌
burst_of_20_milliseconds = refl

-- Without a player the engine and the mix keep a user.
player_refused :
    open_sles nougat defaults (device false) [] fresh (unused false)
    ≡ some (
      Result.error_internal,
      new_stream (record default_base {
        format = AudioFormat.float;
        sample_rate = pos 48000;
        channel_count = pos 2;
      }),
      record {
        engine = record {
          open_count = pos 1;
          engine_object = true;
          engine_interface = true;
          locked = false;
        };
        mixer = record { open_count = pos 1; output_mix_object = true; locked = false };
        outside = 6;
      },
    )
unfolding open_sles new_stream with_engine with_mixer finish_open set_up open_engine start_engine
    open_mixer start_mixer default_format default_values same_format audio_format_code ◌+ℤ◌
player_refused = refl
