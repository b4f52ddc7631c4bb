-- ===== src/Pages/Status/Device.antt =====
-- httpStatus and httpAudioStatus (src/WebUI.cpp), with profileName.
pub mod Laws
use birdnetgo_m5stack_atom_e.Prelude.{
  ℕ, ◌/◌, Bool, ◌&&◌, List, [], ◌∷◌, leb, ltb, ◌==◌, if◌then◌else◌,
}
use birdnetgo_m5stack_atom_e.Prelude.Int.{ℤ, pos}
use birdnetgo_m5stack_atom_e.Prelude.Text.{Text, text}
use birdnetgo_m5stack_atom_e.Prelude.Words.{sub32}
use birdnetgo_m5stack_atom_e.Prelude.Float.{Float, ◌⊠◌, ◌⊘◌}
use birdnetgo_m5stack_atom_e.Format.Json.{json_escape}
use birdnetgo_m5stack_atom_e.Format.Uptime.{format_uptime, format_since}
use birdnetgo_m5stack_atom_e.Power.{level_dbm}
use birdnetgo_m5stack_atom_e.Audio.Process.{Config, Meter, effective_gain}
use birdnetgo_m5stack_atom_e.Checks.Performance.{packet_rate}
use birdnetgo_m5stack_atom_e.Firmware.{Firmware, link}
use birdnetgo_m5stack_atom_e.Pages.{raw, quoted, escaped, Field, join}
use birdnetgo_m5stack_atom_e.Pages.Status.{Printer, field, bool_text}

-- What the page about the device reads of the outside.
pub record Network : Type 0 where
  pub now_ms : ℕ
  pub boot_ms : ℕ
  pub version : Text
  pub local_ip : Text
  pub remote_ip : Text  -- of the RTSP client
  pub rssi : ℤ
  pub free_heap : ℕ

-- `String(n)` of an int, and `String(x, digits)` of a float, here as in `Settings`.
pub record SignedPrinter : Type 0 where
  pub integer : ℤ → Text
  pub float_text : ℤ → ℕ → Text

unfoldable pub shown_rate : Network → Firmware → ℕ
shown_rate n fw =
    let runtime = sub32 n.now_ms fw.rtsp.last_stats_reset in
    if (link fw).is_streaming && ltb 1000 runtime
    then packet_rate fw.rtsp.rtp.packets_sent runtime
    else 0

-- What httpStatus shows.
unfoldable pub status_fields : Printer → SignedPrinter → Network → Firmware → List Field
status_fields p q n fw =
    field (text "ip") (quoted n.local_ip)
    ∷ field (text "wifi_rssi") (raw (q.integer n.rssi))
    ∷ field (text "wifi_tx_dbm") (raw (q.float_text (level_dbm fw.radio.level) 1))
    ∷ field (text "free_heap_kb") (raw (p.decimal (n.free_heap / 1024)))
    ∷ field (text "min_free_heap_kb") (raw (p.decimal (fw.perf.min_free_heap / 1024)))
    ∷ field (text "uptime") (quoted (format_uptime p.decimal (sub32 n.now_ms n.boot_ms / 1000)))
    ∷ field (text "rtsp_server_enabled") (raw (bool_text fw.thermal.server_enabled))
    ∷ field (text "client") (quoted (if (link fw).connected then n.remote_ip else []))
    ∷ field (text "streaming") (raw (bool_text (link fw).is_streaming))
    ∷ field (text "current_rate_pkt_s") (raw (p.decimal (shown_rate n fw)))
    ∷ field (text "last_rtsp_connect")
        (escaped (format_since p.decimal n.now_ms fw.last_connect_ms))
    ∷ field (text "last_stream_start")
        (escaped (format_since p.decimal n.now_ms fw.rtsp.last_play_ms))
    ∷ []

-- httpStatus
unfoldable pub status_page : Printer → SignedPrinter → Network → Firmware → Text
status_page p q n fw = join (
    text "{"
    ∷ text "\"fw_version\":\""
    ∷ n.version
    ∷ text "\","
    ∷ text "\"ip\":\""
    ∷ n.local_ip
    ∷ text "\","
    ∷ text "\"wifi_rssi\":"
    ∷ q.integer n.rssi
    ∷ text ","
    ∷ text "\"wifi_tx_dbm\":"
    ∷ q.float_text (level_dbm fw.radio.level) 1
    ∷ text ","
    ∷ text "\"free_heap_kb\":"
    ∷ p.decimal (n.free_heap / 1024)
    ∷ text ","
    ∷ text "\"min_free_heap_kb\":"
    ∷ p.decimal (fw.perf.min_free_heap / 1024)
    ∷ text ","
    ∷ text "\"uptime\":\""
    ∷ format_uptime p.decimal (sub32 n.now_ms n.boot_ms / 1000)
    ∷ text "\","
    ∷ text "\"rtsp_server_enabled\":"
    ∷ bool_text fw.thermal.server_enabled
    ∷ text ","
    ∷ text "\"client\":\""
    ∷ (if (link fw).connected then n.remote_ip else [])
    ∷ text "\","
    ∷ text "\"streaming\":"
    ∷ bool_text (link fw).is_streaming
    ∷ text ","
    ∷ text "\"current_rate_pkt_s\":"
    ∷ p.decimal (shown_rate n fw)
    ∷ text ","
    ∷ text "\"last_rtsp_connect\":\""
    ∷ json_escape (format_since p.decimal n.now_ms fw.last_connect_ms)
    ∷ text "\","
    ∷ text "\"last_stream_start\":\""
    ∷ json_escape (format_since p.decimal n.now_ms fw.rtsp.last_play_ms)
    ∷ text "\""
    ∷ text "}"
    ∷ [])

-- profileName
unfoldable pub profile_name : ℕ → Text
profile_name buf =
    if leb buf 256
    then text "Ultra-Low Latency (Higher CPU, May have dropouts)"
    else if leb buf 512
    then text "Balanced (Moderate CPU, Good stability)"
    else if leb buf 1024
    then text "Stable Streaming (Lower CPU, Excellent stability)"
    else text "High Stability (Lowest CPU, Maximum stability)"

unfoldable pub shown_peak : Meter → ℕ
shown_peak m = if ltb 0 m.peak_hold then m.peak_hold else m.last_peak

-- `String(x, digits)`, and log10f.
pub record FloatPrinter {ℓ} (F : Type ℓ) : Type ℓ where
  pub fixed : F → ℕ → Text
  pub log10f : F → F

module _ {ℓ} {F : Type ℓ} ⦃f : Float F⦄ where
  unfoldable pub latency_ms : Config F → ℕ → F
  latency_ms c size = (f.of_int (pos size) ⊘ f.of_int (pos c.sample_rate)) ⊠ f.literal 1000 0

  unfoldable pub peak_pct : ℕ → F
  peak_pct peak =
      if peak == 0
      then f.literal 0 0
      else (f.literal 100 0 ⊠ f.of_int (pos peak)) ⊘ f.literal 32767 0

  unfoldable pub peak_dbfs : FloatPrinter F → ℕ → F
  peak_dbfs q peak =
      if peak == 0
      then f.neg (f.literal 90 0)
      else f.literal 20 0 ⊠ q.log10f (f.of_int (pos peak) ⊘ f.literal 32767 0)

  -- What httpAudioStatus shows, with the block size and the multiplier of the AGC.
  unfoldable pub audio_fields : Printer → FloatPrinter F → Config F → ℕ → F → Meter → List Field
  audio_fields p q c size multiplier m =
      field (text "gain") (raw (q.fixed c.gain 2))
      ∷ field (text "buffer_size") (raw (p.decimal size))
      ∷ field (text "i2s_shift") (raw (p.decimal 0))
      ∷ field (text "latency_ms") (raw (q.fixed (latency_ms c size) 1))
      ∷ field (text "profile") (escaped (profile_name size))
      ∷ field (text "hp_enable") (raw (bool_text c.highpass))
      ∷ field (text "hp_cutoff_hz") (raw (p.decimal c.cutoff_hz))
      ∷ field (text "agc_enable") (raw (bool_text c.agc))
      ∷ field (text "agc_multiplier") (raw (q.fixed multiplier 2))
      ∷ field (text "effective_gain") (raw (q.fixed (effective_gain c multiplier) 2))
      ∷ field (text "peak_pct") (raw (q.fixed (peak_pct (shown_peak m)) 1))
      ∷ field (text "peak_dbfs") (raw (q.fixed (peak_dbfs q (shown_peak m)) 1))
      ∷ field (text "clip") (raw (bool_text m.clipped_last))
      ∷ field (text "clip_count") (raw (p.decimal m.clip_count))
      ∷ field (text "led_mode") (raw (p.decimal c.led_mode))
      ∷ []

  -- httpAudioStatus
  unfoldable pub audio_page : Printer → FloatPrinter F → Config F → ℕ → F → Meter → Text
  audio_page p q c size multiplier m = join (
      text "{"
      ∷ text "\"sample_rate\":"
      ∷ p.decimal c.sample_rate
      ∷ text ","
      ∷ text "\"gain\":"
      ∷ q.fixed c.gain 2
      ∷ text ","
      ∷ text "\"buffer_size\":"
      ∷ p.decimal size
      ∷ text ","
      ∷ text "\"i2s_shift\":"
      ∷ p.decimal 0
      ∷ text ","
      ∷ text "\"latency_ms\":"
      ∷ q.fixed (latency_ms c size) 1
      ∷ text ","
      ∷ text "\"profile\":\""
      ∷ json_escape (profile_name size)
      ∷ text "\","
      ∷ text "\"hp_enable\":"
      ∷ bool_text c.highpass
      ∷ text ","
      ∷ text "\"hp_cutoff_hz\":"
      ∷ p.decimal c.cutoff_hz
      ∷ text ","
      ∷ text "\"agc_enable\":"
      ∷ bool_text c.agc
      ∷ text ","
      ∷ text "\"agc_multiplier\":"
      ∷ q.fixed multiplier 2
      ∷ text ","
      ∷ text "\"effective_gain\":"
      ∷ q.fixed (effective_gain c multiplier) 2
      ∷ text ","
      ∷ text "\"peak_pct\":"
      ∷ q.fixed (peak_pct (shown_peak m)) 1
      ∷ text ","
      ∷ text "\"peak_dbfs\":"
      ∷ q.fixed (peak_dbfs q (shown_peak m)) 1
      ∷ text ","
      ∷ text "\"clip\":"
      ∷ bool_text m.clipped_last
      ∷ text ","
      ∷ text "\"clip_count\":"
      ∷ p.decimal m.clip_count
      ∷ text ","
      ∷ text "\"led_mode\":"
      ∷ p.decimal c.led_mode
      ∷ text "}"
      ∷ [])
