-- ===== src/Pages/Status/Device/Laws.antt =====
-- What a reader of JSON gets of the pages about the device and the audio (src/WebUI.cpp).
use birdnetgo_m5stack_atom_e.Prelude.{
  ℕ, ◌/◌, ◌≡◌, refl, Bool, true, false, some, List, [], ◌∷◌, map, All, leb, if◌then◌else◌,
}
use birdnetgo_m5stack_atom_e.Prelude.Int.{ℤ}
use birdnetgo_m5stack_atom_e.Prelude.Text.{Text, text}
use birdnetgo_m5stack_atom_e.Prelude.Words.{sub32}
use birdnetgo_m5stack_atom_e.Prelude.Float.{Float}
use birdnetgo_m5stack_atom_e.Power.{level_dbm}
use birdnetgo_m5stack_atom_e.Audio.Process.{Config, Meter, effective_gain}
use birdnetgo_m5stack_atom_e.Firmware.{Firmware, link}
use birdnetgo_m5stack_atom_e.Pages.{join}
use birdnetgo_m5stack_atom_e.Pages.Read.{IsBare, token, string, entry, read_object}
use birdnetgo_m5stack_atom_e.Pages.Fields.{◌&◌, no_more, page_reads}
use birdnetgo_m5stack_atom_e.Pages.Status.{Printer}
use birdnetgo_m5stack_atom_e.Pages.Status.Laws.{
  Numerals, IsPrinter, IsPlainText, literal-IsPlainText, number-IsField, flag-IsField, text-IsField,
  format_since-IsPlainText,
}
use birdnetgo_m5stack_atom_e.Pages.Status.Tunnel.{if_IsBare, quoted-IsField, format_uptime-IsBare}
use birdnetgo_m5stack_atom_e.Pages.Status.Device.{
  Network, SignedPrinter, shown_rate, status_fields, status_page, profile_name, shown_peak,
  FloatPrinter, latency_ms, peak_pct, peak_dbfs, audio_fields, audio_page,
}

profile_name-IsPlainText : (size : ℕ) → IsPlainText (profile_name size)
unfolding profile_name
profile_name-IsPlainText size = if_IsPlainText (leb size 256) _ _ (literal-IsPlainText _ refl) (
    if_IsPlainText (leb size 512) _ _ (literal-IsPlainText _ refl) (
      if_IsPlainText (leb size 1024) _ _ (literal-IsPlainText _ refl) (literal-IsPlainText _ refl)))
  where
    if_IsPlainText :
        (b : Bool) (s t : Text) → IsPlainText s → IsPlainText t → IsPlainText (if b then s else t)
    if_IsPlainText true s t h k = h
    if_IsPlainText false s t h k = k

-- Integers and floats are printed with digits, points and minus signs.
pub record IsSignedPrinter (q : SignedPrinter) : Type 0 where
  pub integers : (n : ℤ) → Numerals (q.integer n)
  pub floats : (x : ℤ) (digits : ℕ) → Numerals (q.float_text x digits)

-- The floats that the page about the audio shows.
abbrev pub shown_floats {ℓ} :
    {F : Type ℓ} ⦃f : Float F⦄ → FloatPrinter F → Config F → ℕ → F → Meter → List (F × ℕ)
shown_floats q c size multiplier m =
    (c.gain, 2)
    ∷ (latency_ms c size, 1)
    ∷ (multiplier, 2)
    ∷ (effective_gain c multiplier, 2)
    ∷ (peak_pct (shown_peak m), 1)
    ∷ (peak_dbfs q (shown_peak m), 1)
    ∷ []

module _ (p : Printer) (v : IsPrinter p) where
  -- A reader of JSON gets from the page about the device the names and values that it shows, in order
  -- and whole, where numbers are printed with digits, points and minus signs, and the version and the
  -- two addresses hold no quote, backslash or control character.
  pub status_page-reads :
      (q : SignedPrinter) (n : Network) (fw : Firmware)
      → IsSignedPrinter q
      → All IsBare n.version
      → All IsBare n.local_ip
      → All IsBare n.remote_ip
      → read_object (status_page p q n fw)
        ≡ some ((text "fw_version", string n.version) ∷ map entry (status_fields p q n fw))
  unfolding status_page status_fields join
  status_page-reads q n fw w version local remote =
      page_reads (quoted-IsField (text "fw_version") _ refl version) (
        quoted-IsField (text "ip") _ refl local
        & number-IsField p v (text "wifi_rssi") _ refl (w.integers n.rssi)
        & number-IsField p v (text "wifi_tx_dbm") _ refl (w.floats (level_dbm fw.radio.level) 1)
        & number-IsField p v (text "free_heap_kb") _ refl (v.decimals (n.free_heap / 1024))
        & number-IsField p v (text "min_free_heap_kb") _ refl
            (v.decimals (fw.perf.min_free_heap / 1024))
        & quoted-IsField (text "uptime") _ refl
            (format_uptime-IsBare p v (sub32 n.now_ms n.boot_ms / 1000))
        & flag-IsField p v (text "rtsp_server_enabled") fw.thermal.server_enabled refl
        & quoted-IsField (text "client") _ refl
            (if_IsBare (link fw).connected n.remote_ip [] remote tt)
        & flag-IsField p v (text "streaming") (link fw).is_streaming refl
        & number-IsField p v (text "current_rate_pkt_s") _ refl (v.decimals (shown_rate n fw))
        & text-IsField p v (text "last_rtsp_connect") _ refl
            (format_since-IsPlainText p v n.now_ms fw.last_connect_ms).chars
        & text-IsField p v (text "last_stream_start") _ refl
            (format_since-IsPlainText p v n.now_ms fw.rtsp.last_play_ms).chars
        & no_more)

  -- The same of the page about the audio, where its six floats are printed with digits, points and
  -- minus signs, as every finite float is.
  pub audio_page-reads {ℓ} :
      {F : Type ℓ} ⦃f : Float F⦄ (q : FloatPrinter F) (c : Config F) (size : ℕ) (multiplier : F)
      (m : Meter)
      → All (λ (x : F × ℕ). Numerals (q.fixed x.0 x.1)) (shown_floats q c size multiplier m)
      → read_object (audio_page p q c size multiplier m)
        ≡ some (
            (text "sample_rate", token (p.decimal c.sample_rate))
            ∷ map entry (audio_fields p q c size multiplier m))
  unfolding audio_page audio_fields join
  audio_page-reads q c size multiplier m w =
      page_reads (number-IsField p v (text "sample_rate") _ refl (v.decimals c.sample_rate)) (
        number-IsField p v (text "gain") _ refl w.0
        & number-IsField p v (text "buffer_size") _ refl (v.decimals size)
        & number-IsField p v (text "i2s_shift") _ refl (v.decimals 0)
        & number-IsField p v (text "latency_ms") _ refl w.1.0
        & text-IsField p v (text "profile") _ refl (profile_name-IsPlainText size).chars
        & flag-IsField p v (text "hp_enable") c.highpass refl
        & number-IsField p v (text "hp_cutoff_hz") _ refl (v.decimals c.cutoff_hz)
        & flag-IsField p v (text "agc_enable") c.agc refl
        & number-IsField p v (text "agc_multiplier") _ refl w.1.1.0
        & number-IsField p v (text "effective_gain") _ refl w.1.1.1.0
        & number-IsField p v (text "peak_pct") _ refl w.1.1.1.1.0
        & number-IsField p v (text "peak_dbfs") _ refl w.1.1.1.1.1.0
        & flag-IsField p v (text "clip") m.clipped_last refl
        & number-IsField p v (text "clip_count") _ refl (v.decimals m.clip_count)
        & number-IsField p v (text "led_mode") _ refl (v.decimals c.led_mode)
        & no_more)
