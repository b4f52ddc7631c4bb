-- ===== src/Audio/Process/Laws.antt =====
-- What one block of samples does to the filter, the output and the AGC
-- (src/esp32_rtsp_mic_birdnetgo.ino, audioCaptureTask).
use birdnetgo_m5stack_atom_e.Prelude.{ℕ, ◌≡◌, true, false, arith, if◌then◌else◌}
use birdnetgo_m5stack_atom_e.Prelude.Int.{pos, negsuc, leb_int}
use birdnetgo_m5stack_atom_e.Prelude.Float.{Float, ◌⊞◌, ◌⊟◌, ◌⊠◌, ◌⊘◌, ◌≺◌}
use birdnetgo_m5stack_atom_e.Audio.Filter.{Highpass, update_highpass_coeffs}
use birdnetgo_m5stack_atom_e.Audio.Process.{
  Config, full_scale, lowest, refresh_filter, to_sample, clamp_multiplier, adjust_multiplier,
  update_multiplier,
}

-- What the program relies on of the machine's floats.
pub record IsFloat {ℓ} (F : Type ℓ) ⦃f : Float F⦄ : Type ℓ where
  pub below_irrefl : (x : F) → (x ≺ x) ≡ false
  pub full_scale_number : f.is_nan (full_scale {F = F}) ≡ false
  pub lowest_number : f.is_nan (lowest {F = F}) ≡ false
  pub lowest_lower : (full_scale {F = F} ≺ lowest) ≡ false
  pub ten_higher : (f.literal 10 0 ≺ f.literal 1 1) ≡ false
  pub to_i16_range :
      (x : F)
      → f.is_nan x ≡ false
      → (full_scale {F = F} ≺ x) ≡ false
      → (x ≺ lowest) ≡ false
      → (leb_int (negsuc 32767) (f.to_i16 x) ≡ true) × (leb_int (f.to_i16 x) (pos 32767) ≡ true)

module _ {ℓ} {F : Type ℓ} ⦃f : Float F⦄ where
  -- Where the filter is off when it is set up and when the task copies it, switching it on sets up the
  -- shared filter, but leaves the task's copy as it was.
  pub enabling_ignored :
      (c : Config F) (h : Highpass F)
      → c.highpass ≡ true
      → let off = update_highpass_coeffs false c.sample_rate c.cutoff_hz h in
        let on = update_highpass_coeffs true c.sample_rate c.cutoff_hz off in
        refresh_filter c on off ≡ off
  unfolding update_highpass_coeffs refresh_filter
  enabling_ignored c h on = ground arith

module _ {ℓ} {F : Type ℓ} ⦃f : Float F⦄ (laws : IsFloat F) where
  -- Whatever number the filter and the gain make of a sample, infinite ones included, the output is in
  -- the range of 16 bits.
  pub to_sample-InRange :
      (x : F)
      → f.is_nan x ≡ false
      → (leb_int (negsuc 32767) (to_sample x) ≡ true) × (leb_int (to_sample x) (pos 32767) ≡ true)
  unfolding to_sample
  to_sample-InRange x number =
      let upper : F = if full_scale ≺ x then full_scale else x in
      let clamped : F = if upper ≺ lowest then lowest else upper in
      laws.to_i16_range clamped (ground (arith, laws.full_scale_number, laws.lowest_number))
        (ground (arith, laws.below_irrefl full_scale, laws.lowest_lower))
        (ground (arith, laws.below_irrefl lowest))

  -- The multiplier is neither below 0.1 nor above 10.
  pub record IsBounded (m : F) : Type 0 where
    pub not_low : (m ≺ f.literal 1 1) ≡ false
    pub not_high : (f.literal 10 0 ≺ m) ≡ false

  clamp_multiplier-IsBounded : (m : F) → IsBounded (clamp_multiplier m)
  unfolding clamp_multiplier
  clamp_multiplier-IsBounded m = ground (
    arith,
    laws.below_irrefl (f.literal 1 1),
    laws.below_irrefl (f.literal 10 0),
    laws.ten_higher,
  )

  -- A multiplier in its bounds stays there over a block, whatever the block's sum of squares and
  -- length.
  pub update_multiplier-IsBounded :
      (c : Config F) (m sum_squares : F) (samples : ℕ)
      → IsBounded m
      → IsBounded (update_multiplier c m sum_squares samples)
  unfolding update_multiplier adjust_multiplier
  update_multiplier-IsBounded c m sum_squares samples v =
      let ratio = f.literal 15 2 ⊘ (f.sqrtf (sum_squares ⊘ f.of_int (pos samples)) ⊘ full_scale) in
      let rate = if ratio ≺ f.literal 1 0 then f.literal 5 2 else f.literal 1 3 in
      ground (arith, clamp_multiplier-IsBounded (m ⊞ (ratio ⊟ f.literal 1 0) ⊠ rate ⊠ m))
