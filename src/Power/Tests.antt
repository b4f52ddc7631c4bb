-- ===== src/Power/Tests.antt =====
-- A request between two levels.
use birdnetgo_m5stack_atom_e.Prelude.{◌≡◌, refl}
use birdnetgo_m5stack_atom_e.Power.{dbm_5, halves, pick_level}

at_3_dbm : pick_level (halves 6) ≡ dbm_5
unfolding pick_level
at_3_dbm = refl
