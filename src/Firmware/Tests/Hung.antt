-- ===== src/Firmware/Tests/Hung.antt =====
-- A PLAY for which no task can be created, and an hour of rounds behind it.
use birdnetgo_m5stack_atom_e.Prelude.{◌≡◌, refl, true, false, some, [], ◌∷◌}
use birdnetgo_m5stack_atom_e.Prelude.Int.{pos}
use birdnetgo_m5stack_atom_e.Prelude.Text.{text}
use birdnetgo_m5stack_atom_e.Thermal.{measured, valid_temperature}
use birdnetgo_m5stack_atom_e.Thermal.Boot.{no_link}
use birdnetgo_m5stack_atom_e.Settings.{default_settings}
use birdnetgo_m5stack_atom_e.Rtsp.Command.{play, method_of, starts_with}
use birdnetgo_m5stack_atom_e.Firmware.{Firmware, Outside, link}
use birdnetgo_m5stack_atom_e.Firmware.Loop.{handle_request}
use birdnetgo_m5stack_atom_e.Firmware.Hung.{IsCalm, IsUnattended, rounds, play_without_task}
use birdnetgo_m5stack_atom_e.Firmware.Tests.{playing, thermal, hot}

abbrev pub waiting : Firmware
waiting = record playing { thermal = record thermal { link = record no_link { connected = true } } }

abbrev pub cool : Outside
cool = record hot {
  rtsp_env = record hot.rtsp_env { created = false };
  reading = measured (pos 40000);
}

abbrev hour_later : Outside
hour_later = record cool { now_ms = 3700000 }

cool-IsCalm : IsCalm 80 cool
unfolding valid_temperature
cool-IsCalm = record { online = refl; cool = refl }

hour_later-IsCalm : IsCalm 80 hour_later
unfolding valid_temperature
hour_later-IsCalm = record { online = refl; cool = refl }

pub waiting-IsUnattended : IsUnattended 80 (link waiting) waiting
unfolding default_settings
waiting-IsUnattended = record {
  same_link = refl;
  enabled = refl;
  manual = refl;
  unscheduled = refl;
  no_reboot = refl;
  same_limit = refl;
}

pub is_play : method_of (text "PLAY *") ≡ play
unfolding method_of starts_with
is_play = refl

play_without_task_example :
    let l =
      link (rounds (cool ∷ hour_later ∷ []) (handle_request cool waiting (some (text "PLAY *")))) in
    (l.is_streaming ≡ true) × (l.task_handle ≡ false) × (l.connected ≡ true)
play_without_task_example =
    play_without_task 80 cool waiting (text "PLAY *") (cool ∷ hour_later ∷ []) is_play refl refl
      waiting-IsUnattended (cool-IsCalm, (hour_later-IsCalm, tt))
