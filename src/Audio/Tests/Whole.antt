-- ===== src/Audio/Tests/Whole.antt =====
-- Whole numbers in place of floats, for the runs.
use birdnetgo_m5stack_atom_e.Prelude.{
  ℕ, ◌+◌, ◌-◌, ◌*◌, ◌/◌, ◌%◌, ◌^◌, refl, Bool, false, arith, leb, ltb, if◌then◌else◌,
}
use birdnetgo_m5stack_atom_e.Prelude.Int.{ℤ, pos, negsuc, pos_part, neg_part, ltb_int}
use birdnetgo_m5stack_atom_e.Prelude.Words.{u16_mod}
use birdnetgo_m5stack_atom_e.Prelude.Float.{Float}
use birdnetgo_m5stack_atom_e.Audio.Process.Laws.{IsFloat}

abbrev minus : ℕ → ℕ → ℤ
minus a b = if leb b a then pos (a - b) else negsuc (b - a - 1)

abbrev size : ℤ → ℕ
size a = pos_part a + neg_part a

abbrev is_negative : ℤ → Bool
is_negative a = ltb 0 (neg_part a)

abbrev times : ℤ → ℤ → ℤ
times a b =
    minus (pos_part a * pos_part b + neg_part a * neg_part b)
      (pos_part a * neg_part b + neg_part a * pos_part b)

instance abbrev pub whole : Float ℤ
whole = record {
  add = λ a b. minus (pos_part a + pos_part b) (neg_part a + neg_part b);
  sub = λ a b. minus (pos_part a + neg_part b) (neg_part a + pos_part b);
  mul = times;
  div = λ a b.
      minus (if is_negative a then 0 else size a / size b)
        (if is_negative a then size a / size b else 0);
  fabsf = λ a. pos (size a);
  sqrtf = λ a. a;
  sinf = λ a. pos 0;
  cosf = λ a. pos 1;
  below = ltb_int;
  is_nan = λ a. false;
  of_int = λ a. a;
  neg = λ a. minus (neg_part a) (pos_part a);
  to_i16 = λ a. a;
  to_u16 = λ a. pos_part a % u16_mod;
  literal = λ n k. pos (n / 10 ^ k);
}

pub whole-IsFloat : IsFloat ℤ
whole-IsFloat = record {
  below_irrefl = λ x. ground arith;
  full_scale_number = refl;
  lowest_number = refl;
  lowest_lower = refl;
  ten_higher = refl;
  to_i16_range = λ x number high low. ground arith;
}
