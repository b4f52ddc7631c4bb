-- ===== src/Firmware/Tests/Shown.antt =====
-- The pages and the actions of a device that plays.
use birdnetgo_m5stack_atom_e.Prelude.{
  ◌+◌, ◌%◌, ◌≡◌, refl, true, false, none, some, [], ◌∷◌, arith, map,
}
use birdnetgo_m5stack_atom_e.Prelude.Int.{ℤ, pos, negsuc}
use birdnetgo_m5stack_atom_e.Prelude.Text.{text}
use birdnetgo_m5stack_atom_e.WireGuard.State.{boot}
use birdnetgo_m5stack_atom_e.WireGuard.Config.{load, stored}
use birdnetgo_m5stack_atom_e.Settings.Interface.{same_text}
use birdnetgo_m5stack_atom_e.Audio.Tests.Whole.{whole}
use birdnetgo_m5stack_atom_e.Pages.Read.{entry, read_object}
use birdnetgo_m5stack_atom_e.Pages.Status.Laws.{all_bare-IsBare}
use birdnetgo_m5stack_atom_e.Pages.Routes.{
  Page, device, View, find_page, page_text, show, answer, page_fields,
}
use birdnetgo_m5stack_atom_e.Pages.Routes.Laws.{IsReadable, answer-reads}
use birdnetgo_m5stack_atom_e.Firmware.Web.{clears_latch}
use birdnetgo_m5stack_atom_e.Firmware.Web.Actions.{
  Action, asks, Outcome, find_action, act, perform, serve_path, serve_path_lem,
}
use birdnetgo_m5stack_atom_e.Firmware.Tests.{playing, hot}

-- The last digit, and 42.5 for all else.
abbrev view : View ℤ
view = record {
  printer = record {
    decimal = λ n. (n % 10 + 48) ∷ [];
    degrees_text = λ t digits. text "42.5";
    ratio_text = λ b unit digits. text "1.5";
  };
  signed = record { integer = λ n. text "-61"; float_text = λ x digits. text "19.5" };
  floats = record { fixed = λ x digits. text "3.00"; log10f = λ x. x };
  network = record {
    now_ms = 90000;
    boot_ms = 0;
    version = text "2.4.0";
    local_ip = text "10.0.0.2";
    remote_ip = text "10.0.0.9";
    rssi = negsuc 60;
    free_heap = 120000;
  };
  seen = record {
    now_ms = 90000;
    local_ip = text "10.0.0.2";
    cpu_mhz = 160;
    handshake_ms = 0;
    rx_bytes = 0;
    tx_bytes = 0;
  };
  firmware = playing;
  config = record {
    sample_rate = 16000;
    gain = pos 3;
    highpass = true;
    cutoff_hz = 300;
    agc = false;
    led_mode = 1;
  };
  multiplier = pos 1;
  meter = record {
    last_peak = 900;
    clipped_last = false;
    clip_count = 0;
    peak_hold = 0;
    hold_until_ms = 0;
  };
}

view-IsReadable : IsReadable view
unfolding load boot stored
view-IsReadable = record {
  printer = record {
    decimals = λ n. ground arith;
    temperatures = λ t digits. ground arith;
    ratios = λ b unit digits. ground arith;
  };
  signed = record { integers = λ n. ground arith; floats = λ x digits. ground arith };
  floats = ground arith;
  version = all_bare-IsBare (text "2.4.0") refl;
  local_ip = all_bare-IsBare (text "10.0.0.2") refl;
  remote_ip = all_bare-IsBare (text "10.0.0.9") refl;
  lan_ip = all_bare-IsBare (text "10.0.0.2") refl;
  tunnel_address = tt;
  host = record { chars = tt };
  key = record { chars = tt };
  timestamp = tt;
}

status_answer : answer (text "/api/status") view ≡ some (page_text device view)
unfolding answer show find_page same_text
status_answer = refl

answer-reads_example :
    (page : Page) × (find_page (text "/api/status") ≡ some page)
    × (read_object (page_text device view) ≡ some (map entry (page_fields page view)))
answer-reads_example =
    answer-reads (text "/api/status") view (page_text device view) view-IsReadable status_answer

-- There is no latch to clear.
clear_answer :
    serve_path hot true (text "/api/thermal/clear") ([], none) playing
    ≡ some (act hot (asks clears_latch) playing)
unfolding serve_path perform find_action same_text
clear_answer = refl

serve_path_lem_example :
    (a : Action) × (find_action true (text "/api/thermal/clear") ([], none) ≡ some a)
    × Outcome hot a playing (act hot (asks clears_latch) playing)
serve_path_lem_example =
    serve_path_lem hot true (text "/api/thermal/clear") ([], none) playing
      (act hot (asks clears_latch) playing) clear_answer
