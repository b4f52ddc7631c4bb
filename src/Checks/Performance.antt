-- ===== src/Checks/Performance.antt =====
-- checkPerformance (src/esp32_rtsp_mic_birdnetgo.ino), with the part of restartI2S that resets its
-- statistics. Log lines are left out.
pub mod Laws
use birdnetgo_m5stack_atom_e.Prelude.{
  ℕ, ◌+◌, ◌-◌, ◌*◌, ◌/◌, ◌%◌, Bool, true, false, ◌&&◌, ltb, leb, if◌then◌else◌,
}
use birdnetgo_m5stack_atom_e.Prelude.Words.{u8_mod, u32_mod, sub32}
use birdnetgo_m5stack_atom_e.Stream.Control.{Link, restart_i2s}

pub record Perf : Type 0 where
  pub min_free_heap : ℕ  -- uint32_t
  pub max_packet_rate : ℕ  -- uint32_t
  pub min_packet_rate : ℕ  -- uint32_t
  pub packets_sent : ℕ  -- unsigned long
  pub last_stats_reset : ℕ  -- unsigned long
  pub last_i2s_reset : ℕ  -- unsigned long
  pub low_count : ℕ  -- uint8_t

pub record Env : Type 0 where
  pub now_ms : ℕ
  pub free_heap : ℕ
  pub min_acceptable : ℕ  -- minAcceptableRate
  pub auto_recovery : Bool
  pub created : Bool
  pub core1 : Link → Link
  pub exit : Link → Link

-- `(audioPacketsSent * 1000) / runtime`
unfoldable pub packet_rate : ℕ → ℕ → ℕ
packet_rate packets runtime = packets * 1000 % u32_mod / runtime

unfoldable pub note_heap : ℕ → Perf → Perf
note_heap heap p = record p {
  min_free_heap = if ltb heap p.min_free_heap then heap else p.min_free_heap;
}

unfoldable pub note_rate : ℕ → Perf → Perf
note_rate rate p = record p {
  max_packet_rate = if ltb p.max_packet_rate rate then rate else p.max_packet_rate;
  min_packet_rate = if ltb rate p.min_packet_rate then rate else p.min_packet_rate;
}

-- The restart of the driver, and what is reset before and after it.
unfoldable pub recover : Env → Perf → Perf
recover env p = record p {
  low_count = 0;
  max_packet_rate = 0;
  min_packet_rate = u32_mod - 1;
  packets_sent = 0;
  last_stats_reset = env.now_ms;
  last_i2s_reset = env.now_ms;
}

-- The flag tells that the driver is restarted.
unfoldable pub judge_rate : Env → ℕ → Perf → Perf × Bool
unfolding recover
judge_rate env rate p =
    let low = record p { low_count = (p.low_count + 1) % u8_mod } in
    if ltb rate env.min_acceptable
    then (if leb 3 low.low_count && env.auto_recovery
        then (recover env low, true)
        else (low, false))
    else (record p { low_count = 0 }, false)

abbrev pub cooling_down : Env → Perf → Bool
cooling_down env p = ltb 0 p.last_i2s_reset && ltb (sub32 env.now_ms p.last_i2s_reset) 120000

unfoldable pub measure_rate : Env → Perf → Perf × Bool
measure_rate env p =
    let runtime = sub32 env.now_ms p.last_stats_reset in
    let rate = packet_rate p.packets_sent runtime in
    if cooling_down env p then (p, false) else judge_rate env rate (note_rate rate p)

unfoldable pub check_performance : Env → Link → Perf → Link × Perf
check_performance env link p =
    let noted = note_heap env.free_heap p in
    let judged = measure_rate env noted in
    if link.is_streaming && ltb 30000 (sub32 env.now_ms p.last_stats_reset)
    then (if judged.1 then restart_i2s env.core1 env.exit env.created link else link, judged.0)
    else (link, noted)
