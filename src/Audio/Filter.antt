-- ===== src/Audio/Filter.antt =====
-- Biquad and updateHighpassCoeffs (src/esp32_rtsp_mic_birdnetgo.ino).
use birdnetgo_m5stack_atom_e.Prelude.{ℕ, Bool, not, if◌then◌else◌}
use birdnetgo_m5stack_atom_e.Prelude.Int.{pos}
use birdnetgo_m5stack_atom_e.Prelude.Float.{Float, ◌⊞◌, ◌⊟◌, ◌⊠◌, ◌⊘◌, ◌≺◌}

pub record Biquad {ℓ} (F : Type ℓ) : Type ℓ where
  pub b0 : F
  pub b1 : F
  pub b2 : F
  pub a1 : F
  pub a2 : F
  pub x1 : F
  pub x2 : F
  pub y1 : F
  pub y2 : F

pub record Highpass {ℓ} (F : Type ℓ) : Type ℓ where
  pub hpf : Biquad F
  pub config_rate : ℕ
  pub config_cutoff : ℕ

module _ {ℓ} {F : Type ℓ} ⦃f : Float F⦄ where
  -- Biquad::process: the filter after the sample, and the filtered sample.
  unfoldable pub process : Biquad F → F → Biquad F × F
  process q x =
      let y = q.b0 ⊠ x ⊞ q.b1 ⊠ q.x1 ⊞ q.b2 ⊠ q.x2 ⊟ q.a1 ⊠ q.y1 ⊟ q.a2 ⊠ q.y2 in
      (record q { x1 = x; x2 = q.x1; y1 = y; y2 = q.y1 }, y)

  -- Biquad::reset
  unfoldable pub reset : Biquad F → Biquad F
  reset q =
      let zero_float = f.literal 0 0 in
      record q { x1 = zero_float; x2 = zero_float; y1 = zero_float; y2 = zero_float }

  -- The cutoff, held between 10 Hz and 0.45 of the sample rate.
  unfoldable pub clamp_cutoff : F → F → F
  clamp_cutoff fs fc =
      let low = if fc ≺ f.literal 10 0 then f.literal 10 0 else fc in
      if fs ⊠ f.literal 45 2 ≺ low then fs ⊠ f.literal 45 2 else low

  -- The coefficients of a 2nd-order Butterworth high-pass filter.
  unfoldable pub design : Biquad F → F → F → Biquad F
  design q fs fc =
      let one = f.literal 1 0 in
      let two = f.literal 2 0 in
      let w0 = two ⊠ f.literal 314159265358979323846 20 ⊠ (fc ⊘ fs) in
      let cosw0 = f.cosf w0 in
      let sinw0 = f.sinf w0 in
      let alpha = sinw0 ⊘ (two ⊠ f.literal 70710678 8) in
      let b0 = (one ⊞ cosw0) ⊠ f.literal 5 1 in
      let a0 = one ⊞ alpha in
      record q {
        b0 = b0 ⊘ a0;
        b1 = f.neg (one ⊞ cosw0) ⊘ a0;
        b2 = b0 ⊘ a0;
        a1 = (f.neg two ⊠ cosw0) ⊘ a0;
        a2 = (one ⊟ alpha) ⊘ a0;
      }

  unfoldable pub update_highpass_coeffs : Bool → ℕ → ℕ → Highpass F → Highpass F
  unfolding reset clamp_cutoff design
  update_highpass_coeffs enabled rate cutoff h =
      if not enabled
      then record { hpf = reset h.hpf; config_rate = rate; config_cutoff = cutoff }
      else let fs = f.of_int (pos rate) in
        let fc = clamp_cutoff fs (f.of_int (pos cutoff)) in
        record { hpf = reset (design h.hpf fs fc); config_rate = rate; config_cutoff = f.to_u16 fc }
