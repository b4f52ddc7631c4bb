-- ===== src/Pages/Routes.antt =====
-- The JSON pages that webui_begin (src/WebUI.cpp) serves, by their paths, over the state of the whole
-- program. The web server, which compares the path of a request with each of these, is a library.
pub mod Laws
use birdnetgo_m5stack_atom_e.Prelude.{ℕ, Option, none, some, List, ◌∷◌, map, if◌then◌else◌}
use birdnetgo_m5stack_atom_e.Prelude.Text.{Text, text}
use birdnetgo_m5stack_atom_e.Prelude.Float.{Float}
use birdnetgo_m5stack_atom_e.Settings.Interface.{same_text}
use birdnetgo_m5stack_atom_e.Audio.Process.{Config, Meter}
use birdnetgo_m5stack_atom_e.Firmware.{Firmware}
use birdnetgo_m5stack_atom_e.Pages.{raw, quoted, Field}
use birdnetgo_m5stack_atom_e.Pages.Status.{
  Printer, Seen, field, bool_text, current_field, thermal_fields, thermal_page, perf_fields,
  perf_page, wg_fields, wg_page,
}
use birdnetgo_m5stack_atom_e.Pages.Status.Device.{
  Network, SignedPrinter, FloatPrinter, status_fields, status_page, audio_fields, audio_page,
}

pub data Page : Type 0 where
  device audio performance temperature tunnel : Page

unfoldable pub find_page : Text → Option Page
unfolding same_text
find_page path =
    if same_text path (text "/api/status")
    then some device
    else if same_text path (text "/api/audio_status")
    then some audio
    else if same_text path (text "/api/perf_status")
    then some performance
    else if same_text path (text "/api/thermal")
    then some temperature
    else if same_text path (text "/api/wg_status")
    then some tunnel
    else none

-- What the pages read: the state of Core 0, and of the audio on Core 1, and the outside.
pub record View (F : Type 0) : Type 0 where
  pub printer : Printer
  pub signed : SignedPrinter
  pub floats : FloatPrinter F
  pub network : Network
  pub seen : Seen
  pub firmware : Firmware
  pub config : Config F
  pub multiplier : F
  pub meter : Meter

module _ {F : Type 0} ⦃f : Float F⦄ where
  unfoldable pub page_text : Page → View F → Text
  page_text device v = status_page v.printer v.signed v.network v.firmware
  page_text audio v =
      audio_page v.printer v.floats v.config v.firmware.device.settings.buffer_size v.multiplier
        v.meter
  page_text performance v = perf_page v.printer v.firmware.device.settings
  page_text temperature v = thermal_page v.printer v.seen.now_ms v.seen.cpu_mhz v.firmware.thermal
  page_text tunnel v = wg_page v.printer v.seen v.firmware.wg

  unfoldable pub show : View F → Option Page → Option Text
  show v none = none
  show v (some page) = some (page_text page v)

  unfoldable pub answer : Text → View F → Option Text
  answer path v = show v (find_page path)

  -- What a page shows.
  unfoldable pub page_fields : Page → View F → List Field
  page_fields device v =
      field (text "fw_version") (quoted v.network.version)
      ∷ status_fields v.printer v.signed v.network v.firmware
  page_fields audio v =
      field (text "sample_rate") (raw (v.printer.decimal v.config.sample_rate))
      ∷ audio_fields v.printer v.floats v.config v.firmware.device.settings.buffer_size v.multiplier
          v.meter
  page_fields performance v =
      field (text "restart_threshold_pkt_s")
        (raw (v.printer.decimal v.firmware.device.settings.min_rate))
      ∷ perf_fields v.printer v.firmware.device.settings
  page_fields temperature v =
      current_field v.printer v.firmware.thermal
      ∷ thermal_fields v.printer v.seen.now_ms v.seen.cpu_mhz v.firmware.thermal
  page_fields tunnel v =
      field (text "enabled") (raw (bool_text v.firmware.wg.enabled))
      ∷ wg_fields v.printer v.seen v.firmware.wg
