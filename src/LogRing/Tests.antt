-- ===== src/LogRing/Tests.antt =====
-- The log of a device without a clock at concrete lines.
use birdnetgo_m5stack_atom_e.Prelude.{
  ◌+◌, ◌/◌, ◌%◌, ◌≡◌, refl, List, [], ◌∷◌, ◌++◌, arith, ltb, if◌then◌else◌, map, replicate,
}
use birdnetgo_m5stack_atom_e.Prelude.Text.{text}
use birdnetgo_m5stack_atom_e.LogRing.{log_cap, empty}
use birdnetgo_m5stack_atom_e.LogRing.Order.{last_lines}
use birdnetgo_m5stack_atom_e.LogRing.Print.{
  Clock, Printf, IsPrintf, Entry, pushed, printed, uptime_stamp, log_timestamp, log_entries,
  join_lines, http_logs, whole_line, http_logs_lem,
}

abbrev printf : Printf
printf = record {
  clock_text = λ n. text "[12:00:00] ";
  two_digits = λ n.
      (if ltb n 100 then [] else (n / 1000 + 48) ∷ (n / 100 % 10 + 48) ∷ [])
      ++ (n / 10 % 10 + 48) ∷ (n % 10 + 48) ∷ [];
}

printf-IsPrintf : IsPrintf printf
printf-IsPrintf = record { short = λ n lt. ground arith; hours = λ n lt. ground arith }

-- A minute before the millisecond counter wraps.
abbrev late : Clock
late = record { epoch = 0; now_ms = 4294907296; boot_ms = 0 }

late_timestamp : log_timestamp printf late ≡ text "[1193:01:47] "
unfolding log_timestamp uptime_stamp
late_timestamp = refl

-- 81 lines: the first is forgotten.
abbrev entries : List Entry
entries =
    pushed (text "UI set: gain=2")
    ∷ printed late (text "I2S restarted")
    ∷ replicate 79 (pushed (text "UI action: reboot"))

http_logs_lem_example :
    http_logs (log_entries printf (empty []) entries)
    ≡ join_lines (last_lines log_cap (map (whole_line printf) entries))
http_logs_lem_example = http_logs_lem printf entries printf-IsPrintf
