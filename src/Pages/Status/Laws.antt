-- ===== src/Pages/Status/Laws.antt =====
-- What a reader of JSON gets of the status pages (src/WebUI.cpp).
use birdnetgo_m5stack_atom_e.Prelude.{
  ℕ, ◌/◌, ◌≡◌, refl, inl, inr, Bool-cases, Bool, true, false, ◌&&◌, ◌||◌, not, some, [], ◌∷◌, ◌++◌,
  arith, map, leb, ltb, ◌==◌, All, if◌then◌else◌,
}
use birdnetgo_m5stack_atom_e.Prelude.Int.{ℤ, pos, ltb_int}
use birdnetgo_m5stack_atom_e.Prelude.Text.{Text, text}
use birdnetgo_m5stack_atom_e.Prelude.Words.{sub32}
use birdnetgo_m5stack_atom_e.Format.Json.{IsPlain, quote, backslash}
use birdnetgo_m5stack_atom_e.Format.Uptime.{split_uptime, format_uptime, format_since}
use birdnetgo_m5stack_atom_e.Settings.{Settings, recommended_min_rate}
use birdnetgo_m5stack_atom_e.Thermal.{
  Reason, no_reason, sensor_unavailable, sensor_restored, cleared_manually, shutdown_at, Thermal,
  degrees,
}
use birdnetgo_m5stack_atom_e.Pages.{join, raw, escaped}
use birdnetgo_m5stack_atom_e.Pages.Read.{token, IsTokenChar, IsBare, IsField, entry, read_object}
use birdnetgo_m5stack_atom_e.Pages.Fields.{◌&◌, no_more, page_reads}
use birdnetgo_m5stack_atom_e.Pages.Status.{
  Printer, perf_fields, perf_page, bool_text, reason_text, trip_since, manual_required,
  current_field, thermal_fields, thermal_page,
}

-- A digit, a point or a minus sign.
abbrev pub numeral : ℕ → Bool
numeral c = (leb b'0' c && leb c b'9') || (c == b'.' || c == b'-')

abbrev pub Numerals : Text → Type 0
Numerals t = All (λ c. numeral c ≡ true) t

-- Numbers are printed with digits, points and minus signs.
pub record IsPrinter (p : Printer) : Type 0 where
  pub decimals : (n : ℕ) → Numerals (p.decimal n)
  pub temperatures : (t : ℤ) (digits : ℕ) → Numerals (p.degrees_text t digits)
  pub ratios : (b unit digits : ℕ) → Numerals (p.ratio_text b unit digits)

numeral-IsTokenChar : (c : ℕ) → numeral c ≡ true → IsTokenChar c
numeral-IsTokenChar c h = ground arith

Numerals-IsTokenChar : (t : Text) → Numerals t → All IsTokenChar t
Numerals-IsTokenChar [] h = tt
Numerals-IsTokenChar (c ∷ t) h = (numeral-IsTokenChar c h.0, Numerals-IsTokenChar t h.1)

Numerals-IsPlain : (t : Text) → Numerals t → All IsPlain t
Numerals-IsPlain [] h = tt
Numerals-IsPlain (c ∷ t) h = (inl (ground (arith, h.0)), Numerals-IsPlain t h.1)

-- A text that jsonEscape makes readable.
pub record IsPlainText (t : Text) : Type 0 where
  pub chars : All IsPlain t

append_chars : (s t : Text) → All IsPlain s → All IsPlain t → All IsPlain (s ++ t)
append_chars [] t h k = k
append_chars (c ∷ s) t h k = (h.0, append_chars s t h.1 k)

pub append-IsPlainText : (s t : Text) → IsPlainText s → IsPlainText t → IsPlainText (s ++ t)
append-IsPlainText s t h k = record { chars = append_chars s t h.chars k.chars }

-- The texts of the source are bare.
abbrev bare : ℕ → Bool
bare c = leb 32 c && (not (c == quote) && not (c == backslash))

abbrev pub all_bare : Text → Bool
all_bare [] = true
all_bare (c ∷ t) = let rest = all_bare t in bare c && rest

pub all_bare-IsBare : (t : Text) → all_bare t ≡ true → All IsBare t
all_bare-IsBare [] h = tt
all_bare-IsBare (c ∷ t) h = (ground (arith, h), all_bare-IsBare t (ground (arith, h)))

bare_chars : (t : Text) → all_bare t ≡ true → All IsPlain t
bare_chars [] h = tt
bare_chars (c ∷ t) h = (inl (ground (arith, h)), bare_chars t (ground (arith, h)))

pub literal-IsPlainText : (t : Text) → all_bare t ≡ true → IsPlainText t
literal-IsPlainText t h = record { chars = bare_chars t h }

bool_text-IsTokenChar : (b : Bool) → All IsTokenChar (bool_text b)
unfolding bool_text
bool_text-IsTokenChar true = ground arith
bool_text-IsTokenChar false = ground arith

module _ (p : Printer) (v : IsPrinter p) where
  pub decimal-IsPlainText : (n : ℕ) → IsPlainText (p.decimal n)
  decimal-IsPlainText n = record { chars = Numerals-IsPlain _ (v.decimals n) }

  degrees-IsPlainText : (t : ℤ) (digits : ℕ) → IsPlainText (p.degrees_text t digits)
  degrees-IsPlainText t digits = record { chars = Numerals-IsPlain _ (v.temperatures t digits) }

  -- A part of an uptime.
  part-IsPlainText :
      (b : Bool) (n : ℕ) (t : Text)
      → all_bare t ≡ true
      → IsPlainText (if b then p.decimal n ++ t else [])
  part-IsPlainText true n t h =
      append-IsPlainText (p.decimal n) t (decimal-IsPlainText n) (literal-IsPlainText t h)
  part-IsPlainText false n t h = record { chars = tt }

  format_uptime-IsPlainText : (total : ℕ) → IsPlainText (format_uptime p.decimal total)
  unfolding format_uptime
  format_uptime-IsPlainText total =
      let u = split_uptime total in
      append-IsPlainText _ _ (part-IsPlainText (ltb 0 u.days) u.days (text "d ") refl) (
        append-IsPlainText _ _
          (part-IsPlainText (ltb 0 u.hours || ltb 0 u.days) u.hours (text "h ") refl)
          (append-IsPlainText _ _
            (part-IsPlainText ((ltb 0 u.minutes || ltb 0 u.hours) || ltb 0 u.days) u.minutes
              (text "m ") refl)
            (part-IsPlainText true u.seconds (text "s") refl)))

  pub format_since-IsPlainText :
      (now_ms event_ms : ℕ) → IsPlainText (format_since p.decimal now_ms event_ms)
  unfolding format_since
  format_since-IsPlainText now_ms event_ms = elim (Bool-cases (event_ms == 0)) [
    | inl e ↦ rw e (literal-IsPlainText (text "never") refl)
    | inr e ↦
        let total = sub32 now_ms event_ms / 1000 in
        rw e (
          append-IsPlainText (format_uptime p.decimal total) (text " ago")
            (format_uptime-IsPlainText total) (literal-IsPlainText (text " ago") refl))
  ]

  trip_since-IsPlainText : (now_ms : ℕ) (d : Thermal) → IsPlainText (trip_since p now_ms d)
  unfolding trip_since
  trip_since-IsPlainText now_ms d =
      elim (Bool-cases (ltb_int (pos 0) d.trip_temp && not (d.triggered_at == 0))) [
        | inl e ↦ rw e (format_since-IsPlainText now_ms d.triggered_at)
        | inr e ↦ rw e (record { chars = tt })
      ]

  tripped-IsPlainText :
      (t limit : ℤ)
      → IsPlainText (
          text "Thermal shutdown: "
          ++ (p.degrees_text t 1
              ++ (text " C reached (limit "
                  ++ (p.degrees_text limit 1 ++ text " C). Stream disabled; acknowledge in UI."))))
  tripped-IsPlainText t limit =
      let closing = text " C). Stream disabled; acknowledge in UI." in
      let second =
        append-IsPlainText _ closing (degrees-IsPlainText limit 1)
          (literal-IsPlainText closing refl) in
      let middle =
        append-IsPlainText _ _ (literal-IsPlainText (text " C reached (limit ") refl) second in
      append-IsPlainText _ _ (literal-IsPlainText (text "Thermal shutdown: ") refl)
        (append-IsPlainText _ _ (degrees-IsPlainText t 1) middle)

  reason_text-IsPlainText : (r : Reason) → IsPlainText (reason_text p r)
  unfolding reason_text
  reason_text-IsPlainText no_reason = record { chars = tt }
  reason_text-IsPlainText sensor_unavailable =
      literal-IsPlainText (reason_text p sensor_unavailable) refl
  reason_text-IsPlainText sensor_restored = literal-IsPlainText (reason_text p sensor_restored) refl
  reason_text-IsPlainText cleared_manually =
      literal-IsPlainText (reason_text p cleared_manually) refl
  reason_text-IsPlainText (shutdown_at t limit) = tripped-IsPlainText t (degrees limit)

  pub number-IsField :
      (name t : Text)
      → all_bare name ≡ true
      → Numerals t
      → IsField (record { name = name; value = raw t })
  number-IsField name t bare_name h = record {
    name_bare = all_bare-IsBare name bare_name;
    value_ok = Numerals-IsTokenChar t h;
  }

  pub flag-IsField :
      (name : Text) (b : Bool)
      → all_bare name ≡ true
      → IsField (record { name = name; value = raw (bool_text b) })
  flag-IsField name b bare_name = record {
    name_bare = all_bare-IsBare name bare_name;
    value_ok = bool_text-IsTokenChar b;
  }

  pub text-IsField :
      (name t : Text)
      → all_bare name ≡ true
      → All IsPlain t
      → IsField (record { name = name; value = escaped t })
  text-IsField name t bare_name h = record {
    name_bare = all_bare-IsBare name bare_name;
    value_ok = h;
  }

  current_field-IsField : (d : Thermal) → IsField (current_field p d)
  unfolding current_field
  current_field-IsField d = elim (Bool-cases d.last_valid) [
    | inl e ↦ rw e (number-IsField (text "current_c") _ refl (v.temperatures d.last_temperature 1))
    | inr e ↦
        rw e
          (record { name_bare = all_bare-IsBare (text "current_c") refl; value_ok = ground arith })
  ]

  -- A reader of JSON gets from the page about the temperature the names and values that it shows, in
  -- order and whole, where numbers are printed with digits, points and minus signs, and the stored
  -- timestamp has no control character but the newline.
  pub thermal_page-reads :
      (now_ms cpu_mhz : ℕ) (d : Thermal)
      → All IsPlain d.last_timestamp
      → read_object (thermal_page p now_ms cpu_mhz d)
        ≡ some (entry (current_field p d) ∷ map entry (thermal_fields p now_ms cpu_mhz d))
  unfolding thermal_page thermal_fields join current_field
  thermal_page-reads now_ms cpu_mhz d plain = page_reads (current_field-IsField d) (
      flag-IsField (text "current_valid") d.last_valid refl
      & number-IsField (text "max_c") _ refl (v.temperatures d.max_temperature 1)
      & number-IsField (text "cpu_mhz") _ refl (v.decimals cpu_mhz)
      & flag-IsField (text "protection_enabled") d.protection_enabled refl
      & number-IsField (text "shutdown_c") _ refl (v.temperatures (degrees d.shutdown_c) 0)
      & flag-IsField (text "latched") d.lockout_active refl
      & flag-IsField (text "latched_persist") d.latched refl
      & flag-IsField (text "sensor_fault") d.sensor_fault refl
      & number-IsField (text "last_trip_c") _ refl (v.temperatures d.trip_temp 1)
      & text-IsField (text "last_reason") _ refl (reason_text-IsPlainText d.last_reason).chars
      & text-IsField (text "last_trip_ts") _ refl plain
      & text-IsField (text "last_trip_since") _ refl (trip_since-IsPlainText now_ms d).chars
      & flag-IsField (text "manual_restart") (manual_required d) refl
      & no_more)

  -- The same of the page about the packet rate.
  pub perf_page-reads :
      (s : Settings)
      → read_object (perf_page p s)
        ≡ some (
            (text "restart_threshold_pkt_s", token (p.decimal s.min_rate))
            ∷ map entry (perf_fields p s))
  unfolding perf_page perf_fields join
  perf_page-reads s =
      page_reads (number-IsField (text "restart_threshold_pkt_s") _ refl (v.decimals s.min_rate)) (
        number-IsField (text "check_interval_min") _ refl (v.decimals s.check_interval)
        & flag-IsField (text "auto_recovery") s.auto_recovery refl
        & flag-IsField (text "auto_threshold") s.auto_threshold refl
        & number-IsField (text "recommended_min_rate") _ refl
            (v.decimals (recommended_min_rate s.sample_rate s.buffer_size))
        & flag-IsField (text "scheduled_reset") s.scheduled_reset refl
        & number-IsField (text "reset_hours") _ refl (v.decimals s.reset_hours)
        & no_more)
