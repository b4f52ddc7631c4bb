-- ===== src/Firmware/Reset/Appointment.antt =====
-- The appointment of a reboot over the rounds of the loop (src/esp32_rtsp_mic_birdnetgo.ino:
-- scheduleReboot, the end of loop).
use birdnetgo_m5stack_atom_e.Prelude.{
  ℕ, ◌+◌, ◌^◌, ◌≤◌, ◌<◌, ◌≡◌, refl, ◌∙◌, Bool, true, false, Bool-cases, Option, none, some, List,
  [], ◌∷◌, inl, inr, arith,
}
use birdnetgo_m5stack_atom_e.Settings.Interface.{
  Effect, restarts_i2s, updates_highpass, applies_tx, resets_agc, logs, sets_cpu, protects, limits,
  calls,
}
use birdnetgo_m5stack_atom_e.Checks.Reboot.{schedule_reboot, reboot_due, scheduled_reset_due}
use birdnetgo_m5stack_atom_e.Firmware.{Firmware, Outside}
use birdnetgo_m5stack_atom_e.Firmware.Web.{
  Request, no_request, set, clears_latch, starts_server, stops_server, resets_i2s, reboots,
  factory_resets, restart_driver, apply_effect, apply_effects, serve_request,
}
use birdnetgo_m5stack_atom_e.Firmware.Loop.{
  tick_step, temperature_step, memory_step, performance_step, wifi_step, idle_step, accept_client,
  handle_request, negotiate, server_step, reboot_step, rest_of_loop, checks, loop,
}

-- Whether a request asks for a reboot or a factory reset.
abbrev pub asks_reboot : Request → Bool
asks_reboot reboots = true
asks_reboot factory_resets = true
asks_reboot _ = false

-- Rounds of the loop that ask for no reboot and do not restart the device.
pub data Rounds : Firmware → Firmware → Type 0 where
  done : {fw : Firmware} → Rounds fw fw
  round :
      {fw last : Firmware} (out : Outside) (req : Request)
      → asks_reboot req ≡ false
      → (loop out req fw).restarting ≡ false
      → Rounds (loop out req fw) last
      → Rounds fw last

apply_effect-reboot :
    (out : Outside) (e : Effect) (fw : Firmware) → (apply_effect out e fw).reboot ≡ fw.reboot
unfolding apply_effect restart_driver
apply_effect-reboot out e fw = elim e as (λ k. (apply_effect out k fw).reboot ≡ fw.reboot) [
  | restarts_i2s ↦ refl
  | updates_highpass ↦ refl
  | applies_tx ↦ refl
  | resets_agc ↦ refl
  | logs t ↦ refl
  | sets_cpu n ↦ refl
  | protects on ↦ refl
  | limits n ↦ refl
  | calls c ↦ refl
]

apply_effects-reboot :
    (out : Outside) (es : List Effect) (fw : Firmware)
    → (apply_effects out es fw).reboot ≡ fw.reboot
unfolding apply_effects
apply_effects-reboot out [] fw = refl
apply_effects-reboot out (e ∷ es) fw =
    apply_effects-reboot out es (apply_effect out e fw) ∙ apply_effect-reboot out e fw

serve_request-reboot :
    (out : Outside) (req : Request) (fw : Firmware)
    → asks_reboot req ≡ false
    → (serve_request out req fw).reboot ≡ fw.reboot
unfolding serve_request restart_driver
serve_request-reboot out no_request fw h = refl
serve_request-reboot out (set key value) fw h = apply_effects-reboot out _ _
serve_request-reboot out clears_latch fw h = refl
serve_request-reboot out starts_server fw h = refl
serve_request-reboot out stops_server fw h = refl
serve_request-reboot out resets_i2s fw h = refl
serve_request-reboot out reboots fw h = ground (arith, h)
serve_request-reboot out factory_resets fw h = ground (arith, h)

temperature_step-reboot :
    (out : Outside) (fw : Firmware) → (temperature_step out fw).reboot ≡ fw.reboot
unfolding temperature_step
temperature_step-reboot out fw = ground arith

memory_step-reboot : (out : Outside) (fw : Firmware) → (memory_step out fw).reboot ≡ fw.reboot
unfolding memory_step
memory_step-reboot out fw = ground arith

performance_step-reboot :
    (out : Outside) (fw : Firmware) → (performance_step out fw).reboot ≡ fw.reboot
unfolding performance_step
performance_step-reboot out fw = ground arith

wifi_step-reboot : (out : Outside) (fw : Firmware) → (wifi_step out fw).reboot ≡ fw.reboot
unfolding wifi_step
wifi_step-reboot out fw = ground arith

pub checks-reboot :
    (out : Outside) (req : Request) (fw : Firmware)
    → (checks out req fw).reboot ≡ (serve_request out req (tick_step out fw)).reboot
unfolding checks
checks-reboot out req fw =
    wifi_step-reboot out _
    ∙ performance_step-reboot out _
    ∙ memory_step-reboot out _
    ∙ temperature_step-reboot out _

pub idle_step-reboot : (out : Outside) (fw : Firmware) → (idle_step out fw).reboot ≡ fw.reboot
unfolding idle_step
idle_step-reboot out fw = ground arith

handle_request-reboot :
    (out : Outside) (fw : Firmware) (o : Option _) → (handle_request out fw o).reboot ≡ fw.reboot
unfolding handle_request
handle_request-reboot out fw none = refl
handle_request-reboot out fw (some r) = refl

accept_client-reboot : (out : Outside) (fw : Firmware) → (accept_client out fw).reboot ≡ fw.reboot
unfolding accept_client
accept_client-reboot out fw = ground arith

negotiate-reboot : (out : Outside) (fw : Firmware) → (negotiate out fw).reboot ≡ fw.reboot
unfolding negotiate
negotiate-reboot out fw = handle_request-reboot out _ _

pub server_step-reboot : (out : Outside) (fw : Firmware) → (server_step out fw).reboot ≡ fw.reboot
unfolding server_step
server_step-reboot out fw =
    ground (arith, negotiate-reboot out (accept_client out fw), accept_client-reboot out fw)

rest_of_loop-reboot :
    (out : Outside) (fw : Firmware)
    → (rest_of_loop out fw).restarting ≡ false
    → (rest_of_loop out fw).reboot ≡ fw.reboot
unfolding rest_of_loop reboot_step
rest_of_loop-reboot out fw on =
    let same = server_step-reboot out (idle_step out fw) ∙ idle_step-reboot out fw in
    let served = server_step out (idle_step out fw) in
    elim (Bool-cases (reboot_due out.now_ms served.reboot)) [
      | inl e ↦ ground (arith, on, e)
      | inr e ↦ rw e same
    ]

-- In a round that does not restart the device only the request changes the appointment.
pub loop-reboot :
    (out : Outside) (req : Request) (fw : Firmware)
    → (loop out req fw).restarting ≡ false
    → (loop out req fw).reboot ≡ (serve_request out req (tick_step out fw)).reboot
unfolding loop
loop-reboot out req fw on =
    let checked = checks out req fw in
    elim (Bool-cases (
      scheduled_reset_due out.now_ms out.boot_ms checked.device.settings.scheduled_reset
        checked.device.settings.reset_hours)) [
          | inl e ↦ ground (arith, on, e)
          | inr e ↦
              let on' : (rest_of_loop out checked).restarting ≡ false = ground (arith, on, e) in
              rw e (rest_of_loop-reboot out checked on' ∙ checks-reboot out req fw)
        ]

-- A round's start keeps it.
pub tick-reboot :
    (out : Outside) (req : Request) (fw : Firmware)
    → asks_reboot req ≡ false
    → (serve_request out req (tick_step out fw)).reboot ≡ fw.reboot
unfolding tick_step
tick-reboot out req fw h = serve_request-reboot out req _ h

pub Rounds-reboot : {fw last : Firmware} → Rounds fw last → last.reboot ≡ fw.reboot
Rounds-reboot done = refl
Rounds-reboot (round {fw} out req h on rest) =
    Rounds-reboot rest ∙ loop-reboot out req fw on ∙ tick-reboot out req fw h

pub schedule_reboot-due :
    (asked now_ms : ℕ) (factory : Bool)
    → asked + 600 ≤ now_ms
    → now_ms < 2 ^ 32
    → reboot_due now_ms (schedule_reboot asked factory 600) ≡ true
unfolding reboot_due schedule_reboot
schedule_reboot-due asked now_ms factory late small = ground arith
