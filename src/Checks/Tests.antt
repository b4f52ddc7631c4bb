-- ===== src/Checks/Tests.antt =====
-- The laws of the performance check at concrete measurements.
use birdnetgo_m5stack_atom_e.Prelude.{◌≤◌, ◌<◌, ◌≡◌, refl, true, false, arith}
use birdnetgo_m5stack_atom_e.Prelude.Words.{sub32}
use birdnetgo_m5stack_atom_e.Checks.Performance.{
  Perf, Env, cooling_down, packet_rate, note_rate, judge_rate, measure_rate,
}
use birdnetgo_m5stack_atom_e.Checks.Performance.Laws.{measure_rate-restarts, long_stream_low}

abbrev env : Env
env = record {
  now_ms = 900000;
  free_heap = 100000;
  min_acceptable = 8;
  auto_recovery = true;
  created = true;
  core1 = λ l. l;
  exit = λ l. l;
}

-- Five packets in 400 seconds, after two low measurements.
abbrev slow : Perf
slow = record {
  min_free_heap = 100000;
  max_packet_rate = 16;
  min_packet_rate = 0;
  packets_sent = 5;
  last_stats_reset = 500000;
  last_i2s_reset = 0;
  low_count = 2;
}

measure_rate-restarts_example :
    (true ≡ true)
    × (2 ≤ 2)
    × (packet_rate 5 (sub32 900000 500000) < 8)
    × (cooling_down env slow ≡ false)
    × ((measure_rate env slow).0.low_count ≡ 0)
    × ((measure_rate env slow).0.last_i2s_reset ≡ 900000)
unfolding measure_rate judge_rate packet_rate note_rate
measure_rate-restarts_example = measure_rate-restarts env slow (omega arith) refl

-- A stream of 600000 seconds with a good rate of packets.
abbrev long : Perf
long = record slow { packets_sent = 9600000; last_stats_reset = 0 }

abbrev late : Env
late = record env { now_ms = 600000000 }

long_stream_low_example :
    let (p, restarts) = measure_rate late long in
    (packet_rate long.packets_sent (sub32 late.now_ms long.last_stats_reset) < late.min_acceptable)
    × (restarts ≡ true)
    × (p.low_count ≡ 0)
long_stream_low_example = long_stream_low late long (omega arith) refl (omega arith) refl
