-- ===== src/Audio/Tests/Memory.antt =====
-- Runs of the audio task's buffers, and their laws there.
use birdnetgo_m5stack_atom_e.Prelude.{◌≡◌, refl, true, false, some, [], ◌∷◌, inl, inr, arith}
use birdnetgo_m5stack_atom_e.Prelude.Int.{pos}
use birdnetgo_m5stack_atom_e.Prelude.Text.{text}
use birdnetgo_m5stack_atom_e.Settings.{default_settings, save_settings}
use birdnetgo_m5stack_atom_e.Settings.Interface.{Arduino, names, find_key, same_text, to_u16}
use birdnetgo_m5stack_atom_e.Audio.Buffers.{
  Memory, requests, resets, starts, reads, ends, stops, accesses, access, end_pipeline, read_block,
  start_pipeline, forget_task, without,
}
use birdnetgo_m5stack_atom_e.Audio.Buffers.Laws.{IsSound, accesses-IsSound, growing_overruns}

-- Every number is read as 8192.
abbrev longest : Arduino
longest = record { to_int = λ s. pos 8192; to_float = λ s. pos 0; round = λ z. z }

abbrev idle : Memory
idle = record {
  device = record {
    settings = default_settings;
    flash = save_settings default_settings;
    effects = [];
  };
  handle = false;
  tasks = [];
  overrun = false;
}

abbrev capturing : Memory
capturing = record idle { handle = true; tasks = 2048 ∷ [] }

idle-IsSound : IsSound idle
idle-IsSound = record { fits = tt; inside = refl }

accesses-IsSound_example : IsSound (
    accesses
      (requests longest (text "buffer") (some (text "8192"))
        ∷ starts true true true
        ∷ reads 0 30000
        ∷ requests longest (text "gain") (some (text "1"))
        ∷ reads 0 30000
        ∷ stops
        ∷ starts true true true
        ∷ reads 1 30000
        ∷ ends 1
        ∷ ends 0
        ∷ resets
        ∷ [])
      idle)
unfolding find_key names same_text access end_pipeline read_block start_pipeline forget_task without
accesses-IsSound_example =
    accesses-IsSound _ idle
      (inr refl, (tt, (tt, (inl (cc), (tt, (tt, (tt, (tt, (tt, (tt, (refl, tt)))))))))))
      idle-IsSound

growing_overruns_example :
    (accesses
      (requests longest (text "buffer") (some (text "8192")) ∷ reads 0 16384 ∷ [])
      capturing).overrun
    ≡ true
unfolding to_u16
growing_overruns_example =
    growing_overruns longest (text "8192") capturing 2048 16384 8192 [] refl refl refl (omega arith)
      (omega arith)
