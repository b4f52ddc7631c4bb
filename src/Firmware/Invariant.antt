-- ===== src/Firmware/Invariant.antt =====
-- What holds of all components of Core 0 together, and that the requests of the web interface
-- (src/WebUI.cpp) keep it.
use birdnetgo_m5stack_atom_e.Prelude.{
  ◌<◌, ◌≡◌, refl, sym, subst, Bool, true, false, List, [], ◌∷◌, arith, length, if◌then◌else◌,
}
use birdnetgo_m5stack_atom_e.Prelude.Text.{Text}
use birdnetgo_m5stack_atom_e.Stream.Control.{
  Link, stop_audio_task, restart_i2s, halt_for_restart, resume,
}
use birdnetgo_m5stack_atom_e.Stream.Control.Laws.{IsPassive}
use birdnetgo_m5stack_atom_e.WireGuard.Calls.{Call, call}
use birdnetgo_m5stack_atom_e.WireGuard.Invariant.{IsWg, call-IsWg}
use birdnetgo_m5stack_atom_e.WireGuard.Storage.{IsStored, call-IsStored}
use birdnetgo_m5stack_atom_e.Thermal.{Thermal}
use birdnetgo_m5stack_atom_e.Thermal.Safety as ThermalSafety
use birdnetgo_m5stack_atom_e.Thermal.Safety.{
  IsSafe, event, reads, starts, stops, enforces, protects, limits, event-IsSafe,
}
use birdnetgo_m5stack_atom_e.Settings.{load_settings, save_settings}
use birdnetgo_m5stack_atom_e.Settings.Stored.{reloaded, load-save_settings}
use birdnetgo_m5stack_atom_e.Settings.Interface as Interface
use birdnetgo_m5stack_atom_e.Settings.Interface.{Device, Effect, restarts_i2s, applies_tx, calls}
use birdnetgo_m5stack_atom_e.Settings.Interface.Keys.{http_set}
use birdnetgo_m5stack_atom_e.Settings.Interface.Laws.{IsReloadable, http_set-IsReloadable}
use birdnetgo_m5stack_atom_e.Rtsp.Parse.{parse_buffer_size}
use birdnetgo_m5stack_atom_e.Firmware.{Firmware, link, set_link, Outside}
use birdnetgo_m5stack_atom_e.Firmware.Web.{
  Request, no_request, set, clears_latch, starts_server, stops_server, resets_i2s, reboots,
  factory_resets, restart_driver, apply_effect, apply_effects, serve_request,
}

pub record IsFirmware (fw : Firmware) : Type 0 where
  pub safe : IsSafe fw.thermal
  pub wg_ok : IsWg fw.wg
  pub kept : IsStored fw.wg
  pub device_ok : IsReloadable fw.device
  pub fits : length fw.parse_buffer < parse_buffer_size

-- What is asked of Core 1 while Core 0 waits for its task to exit.
abbrev pub Waits : Outside → Type 0
Waits out = IsPassive out.thermal_env.exit

-- The other variables do not matter.
pub same_parts :
    {fw fw' : Firmware}
    → IsFirmware fw
    → fw'.thermal ≡ fw.thermal
    → fw'.wg ≡ fw.wg
    → fw'.device ≡ fw.device
    → fw'.parse_buffer ≡ fw.parse_buffer
    → IsFirmware fw'
same_parts v d w s b = record {
  safe = subst IsSafe (sym d) v.safe;
  wg_ok = subst IsWg (sym w) v.wg_ok;
  kept = subst IsStored (sym w) v.kept;
  device_ok = subst IsReloadable (sym s) v.device_ok;
  fits = subst (λ (t : Text). length t < parse_buffer_size) (sym b) v.fits;
}

-- A change of the link that starts no stream while the latch is set.
pub link-IsSafe :
    (d : Thermal) (l : Link)
    → IsSafe d
    → (d.link.is_streaming ≡ false → l.is_streaming ≡ false)
    → IsSafe (record d { link = l })
link-IsSafe d l v quiet = record {
  listens = v.listens;
  latched_down = v.latched_down;
  latched_quiet = λ h. quiet (v.latched_quiet h);
  limit_low = v.limit_low;
  limit_high = v.limit_high;
  limit_step = v.limit_step;
  stored = v.stored;
  stored_protection = v.stored_protection;
  stored_limit = v.stored_limit;
}

-- While the server is enabled the latch is not set, so that any change of the link is safe.
pub enabled-IsSafe :
    (d : Thermal) (l : Link) → IsSafe d → d.server_enabled ≡ true → IsSafe (record d { link = l })
enabled-IsSafe d l v on = ground arith

restart_i2s-quiet :
    (core1 exit : Link → Link) (created : Bool) (l : Link)
    → IsPassive exit
    → l.is_streaming ≡ false
    → (restart_i2s core1 exit created l).is_streaming ≡ false
unfolding restart_i2s halt_for_restart resume stop_audio_task
restart_i2s-quiet core1 exit created l p off =
    ground (arith, p.stays_stopped (record l { stream = record l.stream { task_running = false } }))

pub set_link-IsFirmware :
    (fw : Firmware) (l : Link)
    → IsFirmware fw
    → ((link fw).is_streaming ≡ false → l.is_streaming ≡ false)
    → IsFirmware (set_link fw l)
set_link-IsFirmware fw l v quiet = record {
  safe = link-IsSafe fw.thermal l v.safe quiet;
  wg_ok = v.wg_ok;
  kept = v.kept;
  device_ok = v.device_ok;
  fits = v.fits;
}

pub event-IsFirmware :
    (e : ThermalSafety.Event) (fw : Firmware)
    → ThermalSafety.Exits e
    → IsFirmware fw
    → IsFirmware (record fw { thermal = event e fw.thermal })
event-IsFirmware e fw p v = record {
  safe = event-IsSafe e fw.thermal p v.safe;
  wg_ok = v.wg_ok;
  kept = v.kept;
  device_ok = v.device_ok;
  fits = v.fits;
}

pub call-IsFirmware :
    (c : Call) (fw : Firmware) → IsFirmware fw → IsFirmware (record fw { wg = call c fw.wg })
call-IsFirmware c fw v = record {
  safe = v.safe;
  wg_ok = call-IsWg c fw.wg v.wg_ok;
  kept = call-IsStored c fw.wg v.kept;
  device_ok = v.device_ok;
  fits = v.fits;
}

restart_driver-IsFirmware :
    (out : Outside) (fw : Firmware) → Waits out → IsFirmware fw → IsFirmware (restart_driver out fw)
unfolding restart_driver
restart_driver-IsFirmware out fw p v =
    let w =
      set_link-IsFirmware fw _ v
        (restart_i2s-quiet out.thermal_env.core1 out.thermal_env.exit out.created (link fw) p) in
    same_parts w refl refl refl refl

apply_effect-IsFirmware :
    (out : Outside) (e : Effect) (fw : Firmware)
    → Waits out
    → IsFirmware fw
    → IsFirmware (apply_effect out e fw)
unfolding apply_effect event
apply_effect-IsFirmware out restarts_i2s fw p v = restart_driver-IsFirmware out fw p v
apply_effect-IsFirmware out applies_tx fw p v = same_parts v refl refl refl refl
apply_effect-IsFirmware out (calls c) fw p v = call-IsFirmware c fw v
apply_effect-IsFirmware out (Interface.protects on) fw p v = event-IsFirmware (protects on) fw tt v
apply_effect-IsFirmware out (Interface.limits n) fw p v = event-IsFirmware (limits n) fw tt v
apply_effect-IsFirmware out Interface.updates_highpass fw p v = v
apply_effect-IsFirmware out Interface.resets_agc fw p v = v
apply_effect-IsFirmware out (Interface.logs line) fw p v = v
apply_effect-IsFirmware out (Interface.sets_cpu mhz) fw p v = v

apply_effects-IsFirmware :
    (out : Outside) (es : List Effect) (fw : Firmware)
    → Waits out
    → IsFirmware fw
    → IsFirmware (apply_effects out es fw)
unfolding apply_effects
apply_effects-IsFirmware out [] fw p v = v
apply_effects-IsFirmware out (e ∷ es) fw p v =
    apply_effects-IsFirmware out es (apply_effect out e fw) p (apply_effect-IsFirmware out e fw p v)

flash_choice :
    (saves : Bool) (d : Device)
    → IsReloadable d
    → load_settings (if saves then save_settings d.settings else d.flash) ≡ reloaded d.settings
flash_choice true d v = load-save_settings d.settings v.in_range
flash_choice false d v = v.stored

pub serve_request-IsFirmware :
    (out : Outside) (r : Request) (fw : Firmware)
    → Waits out
    → IsFirmware fw
    → IsFirmware (serve_request out r fw)
unfolding serve_request event
serve_request-IsFirmware out no_request fw p v = v
serve_request-IsFirmware out (set key value) fw p v =
    let changed = http_set out.arduino (record fw.device { effects = [] }) key value in
    apply_effects-IsFirmware out changed.effects (record fw { device = changed }) p
      (record {
        safe = v.safe;
        wg_ok = v.wg_ok;
        kept = v.kept;
        device_ok =
            http_set-IsReloadable out.arduino (record fw.device { effects = [] }) key value
              (record { in_range = v.device_ok.in_range; stored = v.device_ok.stored });
        fits = v.fits;
      })
serve_request-IsFirmware out clears_latch fw p v =
    let w = event-IsFirmware ThermalSafety.clears fw tt v in
    record {
      safe = w.safe;
      wg_ok = w.wg_ok;
      kept = w.kept;
      device_ok = record {
        in_range = v.device_ok.in_range;
        stored = flash_choice fw.thermal.latched fw.device v.device_ok;
      };
      fits = w.fits;
    }
serve_request-IsFirmware out starts_server fw p v = event-IsFirmware starts fw tt v
serve_request-IsFirmware out stops_server fw p v = event-IsFirmware (stops out.thermal_env) fw tt v
serve_request-IsFirmware out resets_i2s fw p v = restart_driver-IsFirmware out fw p v
serve_request-IsFirmware out reboots fw p v = same_parts v refl refl refl refl
serve_request-IsFirmware out factory_resets fw p v = same_parts v refl refl refl refl
