-- ===== src/Resampler.antt =====
-- The integer part of the resampler: src/flowgraph/resampler/IntegerRatio.cpp, the phase and the delay line
-- of src/flowgraph/resampler/MultiChannelResampler.h and MultiChannelResampler.cpp, and the node
-- src/flowgraph/SampleRateConverter.cpp. Frames are of any type: what computes with samples is a parameter.
mod Ratio
mod Delay
mod Converter
mod Tests
use android_audio_samples.Prelude.{
  ℕ, zero, suc, ◌-◌, ◌*◌, ◌/◌, ◌+◌, ◌==◌, List, [], ◌∷◌, replicate, Bool, true, false, ◌&&◌, ◌||◌,
  ltb, leb, Option, none, some, ℤ, pos, ◌+ℤ◌, ◌-ℤ◌, ltb_ℤ, if◌then◌else◌,
}
use android_audio_samples.DataConversion.{Quality}

-- Sample rates are not negative.
pub record IntegerRatio : Type 0 where
  pub numerator : ℕ
  pub denominator : ℕ

-- `kPrimes`
abbrev pub primes : List ℕ
primes =
    2 ∷ 3 ∷ 5 ∷ 7 ∷ 11 ∷ 13 ∷ 17 ∷ 19 ∷ 23 ∷ 29 ∷ 31 ∷ 37 ∷ 41 ∷ 43 ∷ 47 ∷ 53 ∷ 59 ∷ 61 ∷ 67 ∷ 71
    ∷ 73 ∷ 79 ∷ 83 ∷ 89 ∷ 97 ∷ 101 ∷ 103 ∷ 107 ∷ 109 ∷ 113 ∷ 127 ∷ 131 ∷ 137 ∷ 139 ∷ 149 ∷ 151 ∷ 157
    ∷ 163 ∷ 167 ∷ 173 ∷ 179 ∷ 181 ∷ 191 ∷ 193 ∷ 197 ∷ 199 ∷ []

-- The inner loop of `reduce`; `none` where the fuel is spent.
pub reduce_by : ℕ → ℕ → IntegerRatio → Option IntegerRatio
reduce_by zero prime r = none
reduce_by (suc fuel) prime r =
    let top = r.numerator / prime in
    let bottom = r.denominator / prime in
    let rest = reduce_by fuel prime (record { numerator = top; denominator = bottom }) in
    if leb 1 top && leb 1 bottom && top * prime == r.numerator && bottom * prime == r.denominator
    then rest
    else some r

-- The outer loop, over the primes that are left.
pub reduce_from : List ℕ → ℕ → IntegerRatio → Option IntegerRatio
reduce_from [] fuel r = some r
reduce_from (prime ∷ more) fuel r =
    if ltb r.numerator prime || ltb r.denominator prime
    then some r
    else elim (reduce_by fuel prime r) [ none ↦ none | some r' ↦ reduce_from more fuel r' ]

pub reduce : ℕ → IntegerRatio → Option IntegerRatio
reduce fuel r = reduce_from primes fuel r

-- `numTaps` is the number of frames that a read looks at; `x` is twice as long.
pub record MultiChannelResampler (A : Type 0) : Type 0 where
  pub num_taps : ℕ
  pub cursor : ℕ
  pub x : List A
  pub integer_phase : ℤ
  pub numerator : ℕ
  pub denominator : ℕ

module _ {A : Type 0} where
  -- The constructor, with the reduced ratio and the frame of zeros.
  pub new_resampler : ℕ → IntegerRatio → A → MultiChannelResampler A
  new_resampler num_taps ratio silence = record {
    num_taps = num_taps;
    cursor = 0;
    x = replicate (num_taps * 2) silence;
    integer_phase = pos ratio.denominator;
    numerator = ratio.numerator;
    denominator = ratio.denominator;
  }

  unfoldable pub is_write_needed : MultiChannelResampler A → Bool
  is_write_needed m = if ltb_ℤ m.integer_phase (pos m.denominator) then false else true

  abbrev pub set_frame : ℕ → A → List A → List A
  set_frame i f [] = []
  set_frame zero f (y ∷ ys) = f ∷ ys
  set_frame (suc i) f (y ∷ ys) = y ∷ set_frame i f ys

  -- `writeFrame`: the frame is stored twice, one delay line apart.
  unfoldable pub write_frame : A → MultiChannelResampler A → MultiChannelResampler A
  write_frame f m =
      let at = if m.cursor == 0 then m.num_taps - 1 else m.cursor - 1 in
      record m { cursor = at; x = set_frame (at + m.num_taps) f (set_frame at f m.x) }

  unfoldable pub advance_write : MultiChannelResampler A → MultiChannelResampler A
  advance_write m = record m { integer_phase = m.integer_phase -ℤ pos m.denominator }

  unfoldable pub advance_read : MultiChannelResampler A → MultiChannelResampler A
  advance_read m = record m { integer_phase = m.integer_phase +ℤ pos m.numerator }

  unfoldable pub write_next_frame : A → MultiChannelResampler A → MultiChannelResampler A
  write_next_frame f m = advance_write (write_frame f m)

-- the class that `build` makes
pub data ResamplerClass : Type 0 where
  linear polyphase_mono polyphase_stereo polyphase sinc_stereo sinc : ResamplerClass

-- `Builder::build`; `kMaxCoefficients` is 8192. `none` where the fuel of `reduce` is spent.
pub build_resampler : ℕ → ℕ → ℕ → IntegerRatio → Option ResamplerClass
build_resampler fuel num_taps channel_count rates =
    let chosen : IntegerRatio → ResamplerClass = λ ratio.
      if leb (num_taps * ratio.denominator) 8192
      then if channel_count == 1
        then ResamplerClass.polyphase_mono
        else if channel_count == 2
        then ResamplerClass.polyphase_stereo
        else ResamplerClass.polyphase
      else if channel_count == 2
      then ResamplerClass.sinc_stereo
      else ResamplerClass.sinc in
    if num_taps == 2
    then some ResamplerClass.linear
    else elim (reduce fuel rates) [ none ↦ none | some ratio ↦ some (chosen ratio) ]

-- The taps that `MultiChannelResampler::make` chooses.
pub taps_of : Quality → ℕ
taps_of Quality.fastest = 2
taps_of Quality.low = 4
taps_of Quality.medium = 8
taps_of Quality.high = 16
taps_of Quality.best = 32

pub make_resampler : ℕ → ℕ → IntegerRatio → Quality → Option ResamplerClass
make_resampler fuel channel_count rates quality =
    build_resampler fuel (taps_of quality) channel_count rates
