-- ===== src/Audio/Process.antt =====
-- The processing of one block of samples in audioCaptureTask (src/esp32_rtsp_mic_birdnetgo.ino):
-- filter, gain, clipping, AGC, peak meter and the colour of the LED. i2sShiftBits is 0, so that a
-- captured sample is taken as it is. The note about clipping on the serial port is left out.
pub mod Laws
use birdnetgo_m5stack_atom_e.Prelude.{
  ℕ, suc, ◌+◌, Bool, true, false, ◌&&◌, ◌||◌, not, List, [], ◌∷◌, length, ltb, if◌then◌else◌, ◌==◌,
}
use birdnetgo_m5stack_atom_e.Prelude.Int.{ℤ, pos}
use birdnetgo_m5stack_atom_e.Prelude.Words.{add32}
use birdnetgo_m5stack_atom_e.Prelude.Float.{Float, ◌⊞◌, ◌⊟◌, ◌⊠◌, ◌⊘◌, ◌≺◌}
use birdnetgo_m5stack_atom_e.Audio.Filter.{Biquad, Highpass, process}

-- The settings that the task reads.
pub record Config {ℓ} (F : Type ℓ) : Type ℓ where
  pub sample_rate : ℕ
  pub gain : F
  pub highpass : Bool
  pub cutoff_hz : ℕ
  pub agc : Bool
  pub led_mode : ℕ

-- The variables of the loop over the samples.
pub record Block {ℓ} (F : Type ℓ) : Type ℓ where
  pub filter : Biquad F
  pub clipped : Bool
  pub peak : F
  pub sum_squares : F

-- The variables of the meter.
pub record Meter : Type 0 where
  pub last_peak : ℕ  -- uint16_t
  pub clipped_last : Bool
  pub clip_count : ℕ  -- uint32_t
  pub peak_hold : ℕ  -- uint16_t
  pub hold_until_ms : ℕ

pub record Colour : Type 0 where
  pub red : ℕ
  pub green : ℕ
  pub blue : ℕ

module _ {ℓ} {F : Type ℓ} ⦃f : Float F⦄ where
  abbrev pub full_scale : F
  full_scale = f.literal 32767 0

  abbrev pub lowest : F
  lowest = f.neg (f.literal 32768 0)

  -- Copy the shared filter if the task's copy was made for other settings.
  unfoldable pub refresh_filter : Config F → Highpass F → Highpass F → Highpass F
  refresh_filter c shared local =
      if c.highpass
        && (not (local.config_rate == c.sample_rate) || not (local.config_cutoff == c.cutoff_hz))
      then record { hpf = shared.hpf; config_rate = c.sample_rate; config_cutoff = c.cutoff_hz }
      else local

  unfoldable pub effective_gain : Config F → F → F
  effective_gain c multiplier = if c.agc then c.gain ⊠ multiplier else c.gain

  -- Clamp to the range of an int16_t, and convert.
  unfoldable pub to_sample : F → ℤ
  to_sample x =
      let upper = if full_scale ≺ x then full_scale else x in
      f.to_i16 (if upper ≺ lowest then lowest else upper)

  -- One round of the loop: the variables after it, and the output sample.
  unfoldable pub process_sample : Bool → F → Block F → ℤ → Block F × ℤ
  unfolding process to_sample
  process_sample highpass gain b captured =
      let sample = f.of_int captured in
      let (filter', filtered) = process b.filter sample in
      let amplified = (if highpass then filtered else sample) ⊠ gain in
      let size = f.fabsf amplified in
      (
        record {
          filter = if highpass then filter' else b.filter;
          clipped = if full_scale ≺ size then true else b.clipped;
          peak = if b.peak ≺ size then size else b.peak;
          sum_squares = b.sum_squares ⊞ amplified ⊠ amplified;
        },
        to_sample amplified,
      )

  unfoldable pub process_samples : Bool → F → Block F → List ℤ → Block F × List ℤ
  process_samples highpass gain b [] = (b, [])
  process_samples highpass gain b (captured ∷ rest) =
      let (b1, sample) = process_sample highpass gain b captured in
      let (b2, samples) = process_samples highpass gain b1 rest in (b2, sample ∷ samples)

  -- The multiplier, kept from 0.1 to 10.
  unfoldable pub clamp_multiplier : F → F
  clamp_multiplier m =
      let low = if m ≺ f.literal 1 1 then f.literal 1 1 else m in
      if f.literal 10 0 ≺ low then f.literal 10 0 else low

  -- AGC after a block, with the number of samples.
  unfoldable pub adjust_multiplier : F → F → ℕ → F
  unfolding clamp_multiplier
  adjust_multiplier multiplier sum_squares samples =
      let rms = f.sqrtf (sum_squares ⊘ f.of_int (pos samples)) ⊘ full_scale in
      let ratio = f.literal 15 2 ⊘ rms in
      let rate = if ratio ≺ f.literal 1 0 then f.literal 5 2 else f.literal 1 3 in
      if f.literal 1 3 ≺ rms
      then clamp_multiplier (multiplier ⊞ (ratio ⊟ f.literal 1 0) ⊠ rate ⊠ multiplier)
      else multiplier

  unfoldable pub update_multiplier : Config F → F → F → ℕ → F
  unfolding adjust_multiplier
  update_multiplier c multiplier sum_squares samples =
      if c.agc && ltb 0 samples
      then adjust_multiplier multiplier sum_squares samples
      else multiplier

  -- The peak that the meter and the LED see.
  unfoldable pub clamp_peak : F → F
  clamp_peak peak = if full_scale ≺ peak then full_scale else peak

  unfoldable pub level_colour : F → Bool → Colour
  level_colour peak clipped =
      let pct = peak ⊘ full_scale in
      if clipped
      then record { red = 255; green = 0; blue = 0 }
      else if f.literal 7 1 ≺ pct
      then record { red = 255; green = 165; blue = 0 }
      else if f.literal 3 1 ≺ pct
      then record { red = 0; green = 255; blue = 0 }
      else if f.literal 5 2 ≺ pct
      then record { red = 0; green = 64; blue = 0 }
      else record { red = 32; green = 0; blue = 32 }

  unfoldable pub led_colour : ℕ → F → Bool → Colour
  unfolding level_colour
  led_colour mode peak clipped =
      if mode == 2
      then level_colour peak clipped
      else if mode == 1
      then record { red = 0; green = 128; blue = 0 }
      else record { red = 0; green = 0; blue = 0 }

-- Hold a higher peak for three seconds.
unfoldable pub hold_peak : ℕ → Meter → Meter
hold_peak now_ms m =
    if ltb m.peak_hold m.last_peak
    then record m { peak_hold = m.last_peak; hold_until_ms = add32 now_ms 3000 }
    else if ltb 0 m.peak_hold && ltb m.hold_until_ms now_ms
    then record m { peak_hold = 0 }
    else m

unfoldable pub update_meter : ℕ → Meter → ℕ → Bool → Meter
unfolding hold_peak
update_meter now_ms m last clipped = hold_peak now_ms (record m {
  last_peak = last;
  clipped_last = clipped;
  clip_count = if clipped then add32 m.clip_count 1 else m.clip_count;
})
