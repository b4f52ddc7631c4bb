-- ===== src/Firmware/Loop.antt =====
-- One round of the main loop (src/esp32_rtsp_mic_birdnetgo.ino, loop).
use birdnetgo_m5stack_atom_e.Prelude.{
  ◌*◌, ◌%◌, true, false, not, ◌&&◌, Option, none, some, [], ◌++◌, ltb, if◌then◌else◌,
}
use birdnetgo_m5stack_atom_e.Prelude.Text.{Text}
use birdnetgo_m5stack_atom_e.Prelude.Words.{u32_mod, add32, sub32}
use birdnetgo_m5stack_atom_e.WireGuard.Manager.{tick}
use birdnetgo_m5stack_atom_e.Thermal.{check_temperature, enforce_disabled}
use birdnetgo_m5stack_atom_e.Rtsp.Parse.{process_rtsp}
use birdnetgo_m5stack_atom_e.Rtsp.Command.{handle_rtsp_command}
use birdnetgo_m5stack_atom_e.Checks.Performance as Performance
use birdnetgo_m5stack_atom_e.Checks.Performance.{Perf, note_heap, check_performance}
use birdnetgo_m5stack_atom_e.Checks.Wifi.{check_wifi_health}
use birdnetgo_m5stack_atom_e.Checks.Reboot.{reboot_due, scheduled_reset_due}
use birdnetgo_m5stack_atom_e.Firmware.{Firmware, link, set_link, Outside, reset_to_defaults}
use birdnetgo_m5stack_atom_e.Firmware.Web.{Request, serve_request}

unfoldable pub tick_step : Outside → Firmware → Firmware
tick_step out fw = record fw { wg = tick out.wg_env fw.wg }

unfoldable pub temperature_step : Outside → Firmware → Firmware
temperature_step out fw =
    if ltb 60000 (sub32 out.now_ms fw.last_temp_check)
    then record fw {
      thermal = check_temperature out.thermal_env fw.thermal out.reading;
      last_temp_check = out.now_ms;
    }
    else fw

-- The smallest free heap, every ten minutes.
unfoldable pub memory_step : Outside → Firmware → Firmware
memory_step out fw =
    if ltb 600000 (sub32 out.now_ms fw.last_memory_check)
    then record fw { perf = note_heap out.free_heap fw.perf; last_memory_check = out.now_ms }
    else fw

abbrev pub performance_env : Outside → Firmware → Performance.Env
performance_env out fw = record {
  now_ms = out.now_ms;
  free_heap = out.free_heap;
  min_acceptable = fw.device.settings.min_rate;
  auto_recovery = fw.device.settings.auto_recovery;
  created = out.created;
  core1 = out.thermal_env.core1;
  exit = out.thermal_env.exit;
}

-- The packet counter and the time of its reset are shared with the RTP sender and PLAY.
abbrev pub performance_view : Firmware → Perf
performance_view fw = record fw.perf {
  packets_sent = fw.rtsp.rtp.packets_sent;
  last_stats_reset = fw.rtsp.last_stats_reset;
}

unfoldable pub performance_step : Outside → Firmware → Firmware
performance_step out fw =
    let (link', perf') =
      check_performance (performance_env out fw) (link fw) (performance_view fw) in
    if ltb (fw.device.settings.check_interval * 60000 % u32_mod)
      (sub32 out.now_ms fw.last_performance_check)
    then record (set_link fw link') {
      perf = perf';
      rtsp = record fw.rtsp {
        rtp = record fw.rtsp.rtp { packets_sent = perf'.packets_sent };
        last_stats_reset = perf'.last_stats_reset;
      };
      last_performance_check = out.now_ms;
    }
    else fw

unfoldable pub wifi_step : Outside → Firmware → Firmware
wifi_step out fw =
    let (link', radio') =
      check_wifi_health out.thermal_env.core1 out.thermal_env.exit out.wifi_connected
        fw.device.settings.tx_dbm (link fw) fw.radio in
    if ltb 30000 (sub32 out.now_ms fw.last_wifi_check)
    then record (set_link fw link') { radio = radio'; last_wifi_check = out.now_ms }
    else fw

-- Disconnect a client that connects but never streams.
unfoldable pub idle_step : Outside → Firmware → Firmware
idle_step out fw =
    if ((link fw).connected && not (link fw).is_streaming)
      && ltb 60000 (sub32 out.now_ms fw.rtsp.last_activity_ms)
    then record (set_link fw (record (link fw) { connected = false })) { parse_buffer = [] }
    else fw

unfoldable pub accept_client : Outside → Firmware → Firmware
accept_client out fw =
    if not (link fw).connected && out.accepts
    then record (set_link fw (record (link fw) { connected = true })) {
      parse_buffer = [];
      incoming = [];
      outgoing = [];
      rtsp = record fw.rtsp { last_activity_ms = out.now_ms };
      last_connect_ms = out.now_ms;
      connect_count = add32 fw.connect_count 1;
    }
    else fw

unfoldable pub handle_request : Outside → Firmware → Option Text → Firmware
handle_request out fw none = fw
handle_request out fw (some request) =
    let (handled, answer) =
      handle_rtsp_command out.rtsp_env (record fw.rtsp { link = link fw }) request in
    record (set_link fw handled.link) { rtsp = handled; outgoing = fw.outgoing ++ answer }

unfoldable pub negotiate : Outside → Firmware → Firmware
negotiate out fw =
    let parsed = process_rtsp (link fw).connected fw.parse_buffer (fw.incoming ++ out.arrived) in
    handle_request out (record fw { parse_buffer = parsed.buffer; incoming = parsed.pending })
      parsed.request

unfoldable pub server_step : Outside → Firmware → Firmware
server_step out fw =
    if fw.thermal.server_enabled
    then (if (link fw).is_streaming then fw else negotiate out (accept_client out fw))
    else record fw { thermal = enforce_disabled out.thermal_env fw.thermal }

unfoldable pub reboot_step : Outside → Firmware → Firmware
reboot_step out fw =
    if reboot_due out.now_ms fw.reboot
    then record (if fw.reboot.factory_reset then reset_to_defaults fw else fw) { restarting = true }
    else fw

-- The loop behind the scheduled reset, which does not return.
unfoldable pub rest_of_loop : Outside → Firmware → Firmware
rest_of_loop out fw = reboot_step out (server_step out (idle_step out fw))

unfoldable pub checks : Outside → Request → Firmware → Firmware
checks out request fw = wifi_step out (
    performance_step out
      (memory_step out (temperature_step out (serve_request out request (tick_step out fw)))))

unfoldable pub loop : Outside → Request → Firmware → Firmware
loop out request fw =
    let checked = checks out request fw in
    if scheduled_reset_due out.now_ms out.boot_ms checked.device.settings.scheduled_reset
      checked.device.settings.reset_hours
    then record checked { restarting = true }
    else rest_of_loop out checked
