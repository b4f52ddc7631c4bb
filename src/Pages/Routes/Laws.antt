-- ===== src/Pages/Routes/Laws.antt =====
-- Every JSON page is read back (src/WebUI.cpp).
use birdnetgo_m5stack_atom_e.Prelude.{
  ℕ, ◌≡◌, refl, sym, ap, ◌∙◌, Option, none, some, map, All, arith,
}
use birdnetgo_m5stack_atom_e.Prelude.Text.{Text}
use birdnetgo_m5stack_atom_e.Prelude.Float.{Float}
use birdnetgo_m5stack_atom_e.Format.Json.{IsPlain}
use birdnetgo_m5stack_atom_e.Pages.Read.{IsBare, entry, read_object}
use birdnetgo_m5stack_atom_e.Pages.Status.Laws.{
  Numerals, IsPrinter, IsPlainText, thermal_page-reads, perf_page-reads,
}
use birdnetgo_m5stack_atom_e.Pages.Status.Tunnel.{wg_page-reads}
use birdnetgo_m5stack_atom_e.Pages.Status.Device.Laws.{
  IsSignedPrinter, shown_floats, status_page-reads, audio_page-reads,
}
use birdnetgo_m5stack_atom_e.Pages.Routes.{
  Page, device, audio, performance, temperature, tunnel, find_page, View, page_text, show, answer,
  page_fields,
}

-- Numbers are printed with digits, points and minus signs, as all finite ones are; the texts that go
-- into the pages as they are hold no quote, backslash or control character, and those that are
-- escaped no control character but the newline.
pub record IsReadable {F : Type 0} ⦃f : Float F⦄ (v : View F) : Type 0 where
  pub printer : IsPrinter v.printer
  pub signed : IsSignedPrinter v.signed
  pub floats :
      All
        (λ (x : F × ℕ). Numerals (v.floats.fixed x.0 x.1))
        (shown_floats v.floats v.config v.firmware.device.settings.buffer_size v.multiplier v.meter)
  pub version : All IsBare v.network.version
  pub local_ip : All IsBare v.network.local_ip
  pub remote_ip : All IsBare v.network.remote_ip
  pub lan_ip : All IsBare v.seen.local_ip
  pub tunnel_address : All IsBare v.firmware.wg.tunnel_address
  pub host : IsPlainText v.firmware.wg.endpoint_host
  pub key : IsPlainText v.firmware.wg.server_public_key
  pub timestamp : All IsPlain v.firmware.thermal.last_timestamp

module _ {F : Type 0} ⦃f : Float F⦄ where
  page_text-reads :
      (page : Page) (v : View F)
      → IsReadable v
      → read_object (page_text page v) ≡ some (map entry (page_fields page v))
  unfolding page_text page_fields
  page_text-reads device v h =
      status_page-reads v.printer h.printer v.signed v.network v.firmware h.signed h.version
        h.local_ip h.remote_ip
  page_text-reads audio v h =
      audio_page-reads v.printer h.printer v.floats v.config v.firmware.device.settings.buffer_size
        v.multiplier v.meter h.floats
  page_text-reads performance v h = perf_page-reads v.printer h.printer v.firmware.device.settings
  page_text-reads temperature v h =
      thermal_page-reads v.printer h.printer v.seen.now_ms v.seen.cpu_mhz v.firmware.thermal
        h.timestamp
  page_text-reads tunnel v h =
      wg_page-reads v.printer h.printer v.seen v.firmware.wg h.tunnel_address h.lan_ip h.host h.key

  show-reads :
      (o : Option Page) (v : View F) (body : Text)
      → IsReadable v
      → show v o ≡ some body
      → (page : Page) × (o ≡ some page) × (read_object body ≡ some (map entry (page_fields page v)))
  unfolding show
  show-reads none v body h e = ground (arith, e)
  show-reads (some page) v body h e =
      let same : page_text page v ≡ body = ground (arith, e) in
      (page, refl, ap read_object (sym same) ∙ page_text-reads page v h)

  -- Where numbers are printed with digits, points and minus signs, the texts that go into the pages as
  -- they are hold no quote, backslash or control character, and the escaped ones no control character
  -- but the newline: a reader of JSON gets from the answer to a path the names and values that the
  -- page at this path shows, in order and whole.
  pub answer-reads :
      (path : Text) (v : View F) (body : Text)
      → IsReadable v
      → answer path v ≡ some body
      → (page : Page) × (find_page path ≡ some page)
        × (read_object body ≡ some (map entry (page_fields page v)))
  unfolding answer
  answer-reads path v body h e = show-reads (find_page path) v body h e
