-- ===== src/Firmware/Web/Actions.antt =====
-- The handlers of the web server that change the state (src/WebUI.cpp: webui_begin, httpSet and the
-- actions), by their paths, with the answer and the log lines of each. The lines that the functions
-- they call print are left out.
use birdnetgo_m5stack_atom_e.Prelude.{
  ◌≡◌, ◌≢◌, ◌-◌, ◌∙◌, ◌⊎◌, inl, refl, subst, Bool, true, false, ◌&&◌, Option, none, some, List, [],
  ◌∷◌, arith, if◌then◌else◌,
}
use birdnetgo_m5stack_atom_e.Prelude.Text.{Text, text}
use birdnetgo_m5stack_atom_e.Thermal.{
  persist_note, save_thermal, start_listening, thermal_clear, server_start, server_stop,
}
use birdnetgo_m5stack_atom_e.Thermal.Safety.{stop_if_streaming-stopped}
use birdnetgo_m5stack_atom_e.Settings.Interface.{
  Effect, restarts_i2s, updates_highpass, applies_tx, resets_agc, logs, sets_cpu, protects, limits,
  calls, same_text,
}
use birdnetgo_m5stack_atom_e.Settings.Interface.Keys.{http_set}
use birdnetgo_m5stack_atom_e.Stream.Control.{restart_i2s}
use birdnetgo_m5stack_atom_e.Prelude.Words.{u32_mod}
use birdnetgo_m5stack_atom_e.Checks.Reboot.{schedule_reboot}
use birdnetgo_m5stack_atom_e.Firmware.{Firmware, link, Outside}
use birdnetgo_m5stack_atom_e.Firmware.Web.{
  Request, no_request, set, clears_latch, starts_server, stops_server, resets_i2s, reboots,
  factory_resets, restart_driver, apply_effect, apply_effects, serve_request,
}

-- A request, or the ship-ready reset, whose task calls libraries only.
pub data Action : Type 0 where
  asks : Request → Action
  ships : Action

pub record Answer : Type 0 where
  pub firmware : Firmware
  pub lines : List Text  -- pushed to the log
  pub reply : Text
  pub creates_task : Bool  -- shipReadyResetTask

-- `arguments` are the key and the value of a request to httpSet.
unfoldable pub find_action : Bool → Text → Text × Option Text → Option Action
unfolding same_text
find_action is_post path arguments =
    if same_text path (text "/api/thermal/clear") && is_post
    then some (asks clears_latch)
    else if same_text path (text "/api/action/server_start")
    then some (asks starts_server)
    else if same_text path (text "/api/action/server_stop")
    then some (asks stops_server)
    else if same_text path (text "/api/action/reset_i2s")
    then some (asks resets_i2s)
    else if same_text path (text "/api/action/ship_ready_reset")
    then some ships
    else if same_text path (text "/api/action/reboot")
    then some (asks reboots)
    else if same_text path (text "/api/action/factory_reset")
    then some (asks factory_resets)
    else if same_text path (text "/api/set")
    then some (asks (set arguments.0 arguments.1))
    else none

abbrev pub ok_reply : Text
ok_reply = text "{\"ok\":true}"

abbrev logged : List Effect → List Text
logged [] = []
logged (logs line ∷ es) = line ∷ logged es
logged (_ ∷ es) = logged es

-- The handler does what is asked, with these lines.
abbrev serve : Outside → Request → List Text → Firmware → Answer
serve out r lines fw = record {
  firmware = serve_request out r fw;
  lines = lines;
  reply = ok_reply;
  creates_task = false;
}

abbrev refuse : Firmware → List Text → Text → Answer
refuse fw lines reply = record { firmware = fw; lines = lines; reply = reply; creates_task = false }

unfoldable pub http_thermal_clear : Outside → Firmware → Answer
http_thermal_clear out fw =
    if fw.thermal.latched
    then serve out clears_latch (text "UI action: thermal_latch_clear" ∷ []) fw
    else refuse fw [] (text "{\"ok\":false}")

unfoldable pub http_action_server_start : Outside → Firmware → Answer
http_action_server_start out fw =
    if fw.thermal.latched
    then refuse fw (text "Server start blocked: thermal protection latched" ∷ [])
        (text "{\"ok\":false,\"error\":\"thermal_latched\"}")
    else serve out starts_server (text "UI action: server_start" ∷ []) fw

unfoldable pub http_action_server_stop : Outside → Firmware → Answer
http_action_server_stop out fw = serve out stops_server (text "UI action: server_stop" ∷ []) fw

unfoldable pub http_action_reset_i2s : Outside → Firmware → Answer
http_action_reset_i2s out fw = serve out resets_i2s (text "UI action: reset_i2s" ∷ []) fw

unfoldable pub act : Outside → Action → Firmware → Answer
act out (asks clears_latch) fw = http_thermal_clear out fw
act out (asks starts_server) fw = http_action_server_start out fw
act out (asks stops_server) fw = http_action_server_stop out fw
act out (asks resets_i2s) fw = http_action_reset_i2s out fw
act out (asks reboots) fw = serve out reboots (text "UI action: reboot" ∷ []) fw
act out (asks factory_resets) fw =
    serve out factory_resets (text "UI action: factory_reset" ∷ []) fw
act out (asks (set key value)) fw =
    serve out (set key value) (logged (serve_request out (set key value) fw).device.effects) fw
act out (asks no_request) fw = serve out no_request [] fw
act out ships fw = record {
  firmware = fw;
  lines = text "UI action: ship_ready_reset" ∷ [];
  reply = ok_reply;
  creates_task = true;
}

unfoldable pub perform : Outside → Option Action → Firmware → Option Answer
perform out none fw = none
perform out (some a) fw = some (act out a fw)

-- `none` for a path of a page, or of nothing.
unfoldable pub serve_path : Outside → Bool → Text → Text × Option Text → Firmware → Option Answer
serve_path out is_post path arguments fw = perform out (find_action is_post path arguments) fw

-- What an action that is answered with "ok" has brought about.
abbrev pub Done : Outside → Action → Firmware → Answer → Type 0
Done out (asks clears_latch) before answer =
    let fw = answer.firmware in
    (fw.thermal.latched ≡ false)
    × (fw.thermal.flash_note.latched ≡ false)
    × (fw.thermal.server_enabled ≡ true)
Done out (asks starts_server) before answer =
    let fw = answer.firmware in (fw.thermal.latched ≡ false) × (fw.thermal.server_enabled ≡ true)
Done out (asks stops_server) before answer =
    let fw = answer.firmware in
    (fw.thermal.server_enabled ≡ false) × (fw.thermal.link.is_streaming ≡ false)
Done out (asks reboots) before answer =
    answer.firmware.reboot ≡ schedule_reboot out.now_ms false 600
Done out (asks factory_resets) before answer =
    answer.firmware.reboot ≡ schedule_reboot out.now_ms true 600
Done out (asks resets_i2s) before answer =
    let fw = answer.firmware in
    (link fw ≡ restart_i2s out.thermal_env.core1 out.thermal_env.exit out.created (link before))
    × (fw.perf.max_packet_rate ≡ 0)
    × (fw.perf.min_packet_rate ≡ u32_mod - 1)
Done out (asks (set key value)) before answer =
    answer.firmware.device ≡ http_set out.arduino (record before.device { effects = [] }) key value
Done out (asks no_request) before answer = answer.firmware ≡ before
Done out ships before answer = (answer.firmware ≡ before) × (answer.creates_task ≡ true)

-- The latch refuses a start, and its absence a clearing.
abbrev pub Blocked : Action → Firmware → Type 0
Blocked (asks clears_latch) fw = fw.thermal.latched ≡ false
Blocked (asks starts_server) fw = fw.thermal.latched ≡ true
Blocked _ fw = ⊥

abbrev pub Outcome : Outside → Action → Firmware → Answer → Type 0
Outcome out a fw answer =
    ((answer.reply ≡ ok_reply) × Done out a fw answer)
    ⊎ ((answer.reply ≢ ok_reply) × (answer.firmware ≡ fw) × Blocked a fw)

apply_effect-device :
    (out : Outside) (e : Effect) (fw : Firmware) → (apply_effect out e fw).device ≡ fw.device
unfolding apply_effect restart_driver
apply_effect-device out restarts_i2s fw = refl
apply_effect-device out applies_tx fw = refl
apply_effect-device out (calls c) fw = refl
apply_effect-device out (protects on) fw = refl
apply_effect-device out (limits n) fw = refl
apply_effect-device out updates_highpass fw = refl
apply_effect-device out resets_agc fw = refl
apply_effect-device out (logs line) fw = refl
apply_effect-device out (sets_cpu mhz) fw = refl

apply_effects-device :
    (out : Outside) (es : List Effect) (fw : Firmware)
    → (apply_effects out es fw).device ≡ fw.device
unfolding apply_effects
apply_effects-device out [] fw = refl
apply_effects-device out (e ∷ es) fw =
    apply_effects-device out es (apply_effect out e fw) ∙ apply_effect-device out e fw

act_lem : (out : Outside) (a : Action) (fw : Firmware) → Outcome out a fw (act out a fw)
unfolding act restart_driver save_thermal http_thermal_clear http_action_server_start
    http_action_server_stop http_action_reset_i2s serve_request thermal_clear server_start
    server_stop persist_note start_listening
act_lem out (asks clears_latch) fw = ground arith
act_lem out (asks starts_server) fw = ground arith
act_lem out (asks stops_server) fw =
    inl (refl, (refl, stop_if_streaming-stopped out.thermal_env fw.thermal.link))
act_lem out (asks resets_i2s) fw = inl (refl, (refl, refl, refl))
act_lem out (asks reboots) fw = inl (refl, refl)
act_lem out (asks factory_resets) fw = inl (refl, refl)
act_lem out (asks (set key value)) fw = inl (refl, apply_effects-device out _ _)
act_lem out (asks no_request) fw = inl (refl, refl)
act_lem out ships fw = inl (refl, (refl, refl))

perform_lem :
    (out : Outside) (o : Option Action) (fw : Firmware) (answer : Answer)
    → perform out o fw ≡ some answer
    → (a : Action) × (o ≡ some a) × Outcome out a fw answer
unfolding perform
perform_lem out none fw answer e = ground (arith, e)
perform_lem out (some a) fw answer e =
    let same : act out a fw ≡ answer = ground (arith, e) in
    (a, refl, subst (Outcome out a fw) same (act_lem out a fw))

-- A request to a path of an action is either answered with "ok" and has done what it was for, or
-- refused because of the latch, answered with something else, and changes nothing. What it was for: no
-- latch and the server enabled; the server disabled and no stream; the I2S driver restarted and the
-- packet rates reset; the reboot or factory reset scheduled; the ship-ready task created; for a
-- setting, which is always answered with "ok", the device as httpSet leaves it.
pub serve_path_lem :
    (out : Outside) (is_post : Bool) (path : Text) (arguments : Text × Option Text) (fw : Firmware)
    (answer : Answer)
    → serve_path out is_post path arguments fw ≡ some answer
    → (a : Action) × (find_action is_post path arguments ≡ some a) × Outcome out a fw answer
unfolding serve_path
serve_path_lem out is_post path arguments fw answer e =
    perform_lem out (find_action is_post path arguments) fw answer e
