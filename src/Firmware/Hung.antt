-- ===== src/Firmware/Hung.antt =====
-- A stream without a task on Core 1: PLAY when xTaskCreatePinnedToCore fails, and the rounds of the
-- main loop behind it (src/esp32_rtsp_mic_birdnetgo.ino: startAudioCaptureTask, loop).
use birdnetgo_m5stack_atom_e.Prelude.{
  ℕ, ◌≡◌, refl, ap, ◌∙◌, sym, subst, Bool, true, false, Option, none, some, List, [], ◌∷◌, arith,
  All,
}
use birdnetgo_m5stack_atom_e.Prelude.Int.{ℤ, leb_int}
use birdnetgo_m5stack_atom_e.Prelude.Text.{Text}
use birdnetgo_m5stack_atom_e.Stream.Control.{Link, hand_over, start_audio_task}
use birdnetgo_m5stack_atom_e.Thermal.{
  Thermal, Env, degrees, valid_temperature, sensor_lost, sensor_read, protect, on_reading,
  check_temperature,
}
use birdnetgo_m5stack_atom_e.Settings.Interface.{Device}
use birdnetgo_m5stack_atom_e.Rtsp.Command.{play, method_of, obey, handle_rtsp_command}
use birdnetgo_m5stack_atom_e.Checks.Performance.{judge_rate, measure_rate, check_performance}
use birdnetgo_m5stack_atom_e.Checks.Wifi.{check_wifi_health}
use birdnetgo_m5stack_atom_e.Checks.Reboot.{Reboot, reboot_due, scheduled_reset_due}
use birdnetgo_m5stack_atom_e.Firmware.{Firmware, link, Outside}
use birdnetgo_m5stack_atom_e.Firmware.Web.{no_request, serve_request}
use birdnetgo_m5stack_atom_e.Firmware.Loop.{
  tick_step, temperature_step, memory_step, performance_step, wifi_step, idle_step, server_step,
  reboot_step, rest_of_loop, checks, loop, handle_request,
}

-- WiFi is up, and a valid reading is below the limit.
abbrev pub Cool : ℕ → Option ℤ → Type 0
Cool limit none = Unit {0}
Cool limit (some t) = leb_int (degrees limit) t ≡ false

pub record IsCalm (limit : ℕ) (out : Outside) : Type 0 where
  pub online : out.wifi_connected ≡ true
  pub cool : Cool limit (valid_temperature out.reading)

-- No automatic recovery, no scheduled reset and no reboot.
pub record IsUnattended (limit : ℕ) (l : Link) (fw : Firmware) : Type 0 where
  pub same_link : link fw ≡ l
  pub enabled : fw.thermal.server_enabled ≡ true
  pub manual : fw.device.settings.auto_recovery ≡ false
  pub unscheduled : fw.device.settings.scheduled_reset ≡ false
  pub no_reboot : fw.reboot.reboot_at ≡ 0
  pub same_limit : fw.thermal.shutdown_c ≡ limit

-- The other variables do not matter.
pub same_parts-IsUnattended :
    {limit : ℕ} {l : Link} {fw fw' : Firmware}
    → IsUnattended limit l fw
    → fw'.thermal ≡ fw.thermal
    → fw'.device ≡ fw.device
    → fw'.reboot ≡ fw.reboot
    → IsUnattended limit l fw'
same_parts-IsUnattended v d s r = record {
  same_link = ap (λ (x : Thermal). x.link) d ∙ v.same_link;
  enabled = ap (λ (x : Thermal). x.server_enabled) d ∙ v.enabled;
  manual = ap (λ (x : Device). x.settings.auto_recovery) s ∙ v.manual;
  unscheduled = ap (λ (x : Device). x.settings.scheduled_reset) s ∙ v.unscheduled;
  no_reboot = ap (λ (x : Reboot). x.reboot_at) r ∙ v.no_reboot;
  same_limit = ap (λ (x : Thermal). x.shutdown_c) d ∙ v.same_limit;
}

pub rounds : List Outside → Firmware → Firmware
rounds [] fw = fw
rounds (out ∷ outs) fw = rounds outs (loop out no_request fw)

-- What a reading below the limit leaves alone.
record IsSame (d d' : Thermal) : Type 0 where
  same_link : d'.link ≡ d.link
  same_server : d'.server_enabled ≡ d.server_enabled
  same_limit : d'.shutdown_c ≡ d.shutdown_c

on_reading-IsSame :
    (env : Env) (d : Thermal) (o : Option ℤ) → Cool d.shutdown_c o → IsSame d (on_reading env d o)
unfolding on_reading sensor_lost sensor_read protect
on_reading-IsSame env d none c = ground arith
on_reading-IsSame env d (some t) c = ground arith

module _ (limit : ℕ) (l : Link) where
  temperature_step-IsUnattended :
      (out : Outside) (fw : Firmware)
      → IsCalm limit out
      → IsUnattended limit l fw
      → IsUnattended limit l (temperature_step out fw)
  unfolding temperature_step check_temperature
  temperature_step-IsUnattended out fw c v =
      let cool =
        subst (λ (n : ℕ). Cool n (valid_temperature out.reading)) (sym v.same_limit) c.cool in
      ground
        (arith, on_reading-IsSame out.thermal_env fw.thermal (valid_temperature out.reading) cool)

  memory_step-IsUnattended :
      (out : Outside) (fw : Firmware)
      → IsUnattended limit l fw
      → IsUnattended limit l (memory_step out fw)
  unfolding memory_step
  memory_step-IsUnattended out fw v = ground arith

  performance_step-IsUnattended :
      (out : Outside) (fw : Firmware)
      → IsUnattended limit l fw
      → IsUnattended limit l (performance_step out fw)
  unfolding performance_step check_performance measure_rate judge_rate
  performance_step-IsUnattended out fw v = ground arith

  wifi_step-IsUnattended :
      (out : Outside) (fw : Firmware)
      → IsCalm limit out
      → IsUnattended limit l fw
      → IsUnattended limit l (wifi_step out fw)
  unfolding wifi_step check_wifi_health
  wifi_step-IsUnattended out fw c v = ground arith

  -- Behind the checks of a round without a request.
  pub checks-IsUnattended :
      (out : Outside) (fw : Firmware)
      → IsCalm limit out
      → IsUnattended limit l fw
      → IsUnattended limit l (checks out no_request fw)
  unfolding checks tick_step serve_request
  checks-IsUnattended out fw c v =
      let ticked : IsUnattended limit l (tick_step out fw) =
        same_parts-IsUnattended v refl refl refl in
      wifi_step-IsUnattended out _ c (
        performance_step-IsUnattended out _
          (memory_step-IsUnattended out _ (temperature_step-IsUnattended out _ c ticked)))

module _ (limit : ℕ) (l : Link) (streams : l.is_streaming ≡ true) where
  rest_of_loop-IsUnattended :
      (out : Outside) (fw : Firmware)
      → IsUnattended limit l fw
      → IsUnattended limit l (rest_of_loop out fw)
  unfolding rest_of_loop idle_step server_step reboot_step reboot_due
  rest_of_loop-IsUnattended out fw v = ground arith

  loop-IsUnattended :
      (out : Outside) (fw : Firmware)
      → IsCalm limit out
      → IsUnattended limit l fw
      → IsUnattended limit l (loop out no_request fw)
  unfolding loop scheduled_reset_due
  loop-IsUnattended out fw c v =
      let checked = checks-IsUnattended limit l out fw c v in
      simp checked.unscheduled (rest_of_loop-IsUnattended out _ checked)

  rounds-IsUnattended :
      (outs : List Outside) (fw : Firmware)
      → All (IsCalm limit) outs
      → IsUnattended limit l fw
      → IsUnattended limit l (rounds outs fw)
  unfolding rounds
  rounds-IsUnattended [] fw c v = v
  rounds-IsUnattended (out ∷ outs) fw c v =
      rounds-IsUnattended outs (loop out no_request fw) c.1 (loop-IsUnattended out fw c.0 v)

handle_play :
    (limit : ℕ) (out : Outside) (fw : Firmware) (request : Text)
    → method_of request ≡ play
    → IsUnattended limit (link fw) fw
    → IsUnattended limit
        (hand_over out.rtsp_env.created (link fw))
        (handle_request out fw (some request))
unfolding handle_request handle_rtsp_command obey
handle_play limit out fw request is_play v = rw is_play (record {
  same_link = refl;
  enabled = v.enabled;
  manual = v.manual;
  unscheduled = v.unscheduled;
  no_reboot = v.no_reboot;
  same_limit = v.same_limit;
})

hand_over-failed :
    (l : Link)
    → l.task_handle ≡ false
    → let l' = hand_over false l in
      (l'.is_streaming ≡ true) × (l'.task_handle ≡ false) × (l'.connected ≡ l.connected)
unfolding hand_over start_audio_task
hand_over-failed l none_there = ground arith

-- When no task can be created for a PLAY and none is there, the stream that the client was promised
-- has no task, and stays so with its connection as it is over any rounds of the loop without
-- requests, with WiFi up and no valid reading at or above the limit, with the automatic recovery and
-- the scheduled reset off and no reboot requested: neither the idle timeout nor the loop's server
-- branch ends it.
pub play_without_task :
    (limit : ℕ) (out : Outside) (fw : Firmware) (request : Text) (outs : List Outside)
    → method_of request ≡ play
    → out.rtsp_env.created ≡ false
    → (link fw).task_handle ≡ false
    → IsUnattended limit (link fw) fw
    → All (IsCalm limit) outs
    → let l = link (rounds outs (handle_request out fw (some request))) in
      (l.is_streaming ≡ true) × (l.task_handle ≡ false) × (l.connected ≡ (link fw).connected)
play_without_task limit out fw request outs is_play failed none_there v calm =
    let promised = hand_over-failed (link fw) none_there in
    let played : IsUnattended limit (hand_over false (link fw))
        (handle_request out fw (some request)) =
      subst
        (λ (b : Bool).
          IsUnattended limit (hand_over b (link fw)) (handle_request out fw (some request)))
        failed (handle_play limit out fw request is_play v) in
    let kept =
      rounds-IsUnattended limit (hand_over false (link fw)) promised.0 outs
        (handle_request out fw (some request)) calm played in
    rw kept.same_link promised
