-- ===== src/Checks/Performance/Laws.antt =====
-- When checkPerformance (src/esp32_rtsp_mic_birdnetgo.ino) restarts the driver.
use native.Mathlib.Nat.{div-lt_iff_lt-mul}
use birdnetgo_m5stack_atom_e.Prelude.{
  ◌+◌, if◌then◌else◌, ℕ, zero, suc, ◌*◌, ◌<◌, ◌≤◌, ◌≡◌, true, false, arith, leb,
}
use birdnetgo_m5stack_atom_e.Prelude.Words.{u32_mod, sub32}
use birdnetgo_m5stack_atom_e.Checks.Performance.{
  Perf, Env, cooling_down, packet_rate, note_rate, recover, judge_rate, measure_rate,
}

-- With fewer than 255 low measurements in a row before: the driver is restarted only with the recovery
-- on, with the cooldown of two minutes since the last restart over, and at the third low measurement in
-- a row or a later one. Then the count starts anew and the cooldown is measured from now.
pub measure_rate-restarts :
    (env : Env) (p : Perf)
    → p.low_count < 255
    → (measure_rate env p).1 ≡ true
    → (env.auto_recovery ≡ true)
      × (2 ≤ p.low_count)
      × (packet_rate p.packets_sent (sub32 env.now_ms p.last_stats_reset) < env.min_acceptable)
      × (cooling_down env p ≡ false)
      × ((measure_rate env p).0.low_count ≡ 0)
      × ((measure_rate env p).0.last_i2s_reset ≡ env.now_ms)
unfolding measure_rate judge_rate note_rate recover
measure_rate-restarts env p small e = ground arith

packet_rate-low :
    (packets runtime wanted : ℕ) → u32_mod ≤ wanted * runtime → packet_rate packets runtime < wanted
unfolding packet_rate
packet_rate-low packets zero wanted long = absurd (omega arith)
packet_rate-low packets (suc r) wanted long =
    (div-lt_iff_lt-mul {k = suc r} (omega arith)).1 (omega arith)

-- The product of the packets and 1000 wraps in 32 bits. Once a stream has run for 2 ^ 32 ms divided by
-- the wanted rate, a measurement outside the cooldown is below the wanted rate, however many packets
-- have been sent, and with the recovery on and a count of failures below 255 it is counted and the
-- driver left alone, or, as the third failure in a row, restarts the driver and clears the count.
pub long_stream_low :
    (env : Env) (p : Perf)
    → u32_mod ≤ env.min_acceptable * sub32 env.now_ms p.last_stats_reset
    → cooling_down env p ≡ false
    → p.low_count < 255
    → env.auto_recovery ≡ true
    → let (p', restarts) = measure_rate env p in
      (packet_rate p.packets_sent (sub32 env.now_ms p.last_stats_reset) < env.min_acceptable)
      × (restarts ≡ leb 2 p.low_count)
      × (p'.low_count ≡ (if leb 2 p.low_count then 0 else p.low_count + 1))
unfolding measure_rate judge_rate note_rate recover
long_stream_low env p long cold small on =
    let runtime = sub32 env.now_ms p.last_stats_reset in
    ground (arith, packet_rate-low p.packets_sent runtime env.min_acceptable long)
