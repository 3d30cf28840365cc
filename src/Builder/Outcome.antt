-- ===== src/Builder/Outcome.antt =====
-- What `openStream` leaves where the caller asked for the stream.
use android_audio_samples.Prelude.{
  ◌≡◌, ◌≢◌, refl, arith, Bool, true, false, ◌||◌, ◌&&◌, if◌then◌else◌, Option, some, none, ℤ, eqb_ℤ,
}
use android_audio_samples.Definitions.{Result, AudioFormat}
use android_audio_samples.StreamBase.{
  AudioStreamBase, Platform, Backend, is_valid_config, is_compatible, same_format, is_unspecified,
}
use android_audio_samples.Quirks.{DeviceQuirks}
use android_audio_samples.DataConversion.{StreamInfo}
use android_audio_samples.Builder.{
  Policy, System, AudioStream, Slot, untouched, null, stream, info_of, fill_in, filter_info, Reply,
}

-- What is left at `streamPP`, with the result: a stream that can stand in for the one asked for, and
-- `OK`; null, and an error; or what was there before, if the settings are not valid.
pub Outcome : AudioStreamBase → Result → Slot → Type 0
Outcome b r (stream s) = (r ≡ Result.ok) × (is_compatible b (info_of s).settings ≡ true)
Outcome b r null = r ≢ Result.ok
Outcome b r untouched = (r ≢ Result.ok) × (r ≡ is_valid_config b)

kept :
    {A : Type 0} (same : A → A → Bool) (u : Bool) (x y : A)
    → same x x ≡ true
    → (u || same x (if u then y else x)) ≡ true
kept same true x y h = refl
kept same false x y h = h

all_four : {a b c d : Bool} → a ≡ true → b ≡ true → c ≡ true → d ≡ true → (a && b && c && d) ≡ true
all_four ha hb hc hd = ground arith

eqb_ℤ-refl : (n : ℤ) → eqb_ℤ n n ≡ true
eqb_ℤ-refl n = ground arith

same_format_refl : (f : AudioFormat) → same_format f f ≡ true
unfolding same_format
same_format_refl f = ground arith

-- The parent is compatible with the request, whatever the child is.
pub fill_in-compatible :
    (b : AudioStreamBase) (s : StreamInfo)
    → is_compatible b (filter_info (fill_in b s.settings) s).settings ≡ true
unfolding is_compatible filter_info fill_in
fill_in-compatible b s =
    all_four
      (kept eqb_ℤ (is_unspecified b.sample_rate) b.sample_rate s.settings.sample_rate
        (eqb_ℤ-refl b.sample_rate))
      (kept same_format (same_format b.format AudioFormat.unspecified) b.format s.settings.format
        (same_format_refl b.format))
      (kept eqb_ℤ (is_unspecified b.frames_per_callback) b.frames_per_callback
        s.settings.frames_per_callback (eqb_ℤ-refl b.frames_per_callback))
      (kept eqb_ℤ (is_unspecified b.channel_count) b.channel_count s.settings.channel_count
        (eqb_ℤ-refl b.channel_count))

module _ (system : System) (p : Platform) (q : DeviceQuirks) where
  open system use {W, open_backend}

  module _
      (honours : (kind : Backend) (b : AudioStreamBase) (mmap : Policy) (w : W)
        → (open_backend kind b mmap w).0 ≡ Result.ok
        → is_compatible b (open_backend kind b mmap w).1.settings ≡ true) where
    -- a parent that is made beforehand can stand in for the stream asked for
    abbrev Stands : AudioStreamBase → Option AudioStream → Type 0
    Stands b none = true ≡ true
    Stands b (some s) = is_compatible b (info_of s).settings ≡ true

    abbrev Ends : AudioStreamBase → Reply system p q → Type 0
    Ends b r = Outcome b r.0 r.1
