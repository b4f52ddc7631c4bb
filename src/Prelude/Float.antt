-- ===== src/Prelude/Float.antt =====
-- Floats: the machine's arithmetic is a parameter, as an instance argument.
use Prim.Native.Nat.{ℕ}
use mathlib.Core.Bool.{Bool}
use birdnetgo_m5stack_atom_e.Prelude.Int.{ℤ}

pub record Float {ℓ} (F : Type ℓ) : Type ℓ where
  pub add : F → F → F
  pub sub : F → F → F
  pub mul : F → F → F
  pub div : F → F → F
  pub fabsf : F → F
  pub sqrtf : F → F
  pub sinf : F → F
  pub cosf : F → F
  pub below : F → F → Bool  -- `x < y`
  pub is_nan : F → Bool
  pub of_int : ℤ → F
  pub neg : F → F
  pub to_i16 : F → ℤ  -- the conversions to the integer types
  pub to_u16 : F → ℕ
  pub literal : ℕ → ℕ → F  -- `literal n k` is n / 10 ^ k

infixl 40 ◌⊞◌
abbrev pub ◌⊞◌ {ℓ} : {F : Type ℓ} ⦃f : Float F⦄ → F → F → F
◌⊞◌ ⦃f⦄ = f.add

infixl 40 ◌⊟◌
abbrev pub ◌⊟◌ {ℓ} : {F : Type ℓ} ⦃f : Float F⦄ → F → F → F
◌⊟◌ ⦃f⦄ = f.sub

infixl 45 ◌⊠◌
abbrev pub ◌⊠◌ {ℓ} : {F : Type ℓ} ⦃f : Float F⦄ → F → F → F
◌⊠◌ ⦃f⦄ = f.mul

infixl 45 ◌⊘◌
abbrev pub ◌⊘◌ {ℓ} : {F : Type ℓ} ⦃f : Float F⦄ → F → F → F
◌⊘◌ ⦃f⦄ = f.div

infix 30 ◌≺◌
abbrev pub ◌≺◌ {ℓ} : {F : Type ℓ} ⦃f : Float F⦄ → F → F → Bool
◌≺◌ ⦃f⦄ = f.below
