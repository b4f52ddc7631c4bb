-- ===== src/Pages/Status/Tunnel.antt =====
-- What a reader of JSON gets of the page about the tunnel (src/WebUI.cpp, httpWgStatus).
use birdnetgo_m5stack_atom_e.Prelude.{
  ℕ, zero, suc, ◌/◌, ◌≡◌, refl, Bool, true, false, Option, none, some, [], ◌∷◌, ◌++◌, ◌||◌, arith,
  map, take, ltb, All, if◌then◌else◌,
}
use birdnetgo_m5stack_atom_e.Prelude.Text.{Text, text, index_of}
use birdnetgo_m5stack_atom_e.Prelude.Words.{sub32}
use birdnetgo_m5stack_atom_e.Format.Uptime.{split_uptime, format_uptime}
use birdnetgo_m5stack_atom_e.WireGuard.State.{
  WgState, disabled, wait_time, wait_wifi, connecting, up, Wg,
}
use birdnetgo_m5stack_atom_e.Pages.{join, quoted}
use birdnetgo_m5stack_atom_e.Pages.Read.{token, IsBare, IsField, entry, read_object}
use birdnetgo_m5stack_atom_e.Pages.Fields.{◌&◌, no_more, page_reads}
use birdnetgo_m5stack_atom_e.Pages.Status.{
  Printer, bool_text, state_text, tunnel_ip, format_bytes, is_up, Seen, last_handshake, url,
  tunnel_url, wg_fields, wg_page,
}
use birdnetgo_m5stack_atom_e.Pages.Status.Laws.{
  IsPrinter, Numerals, numeral, all_bare, all_bare-IsBare, IsPlainText, append-IsPlainText,
  decimal-IsPlainText, literal-IsPlainText, number-IsField, flag-IsField, text-IsField,
}

append-IsBare : (s t : Text) → All IsBare s → All IsBare t → All IsBare (s ++ t)
append-IsBare [] t h k = k
append-IsBare (c ∷ s) t h k = (h.0, append-IsBare s t h.1 k)

take-IsBare : (n : ℕ) (t : Text) → All IsBare t → All IsBare (take n t)
take-IsBare zero [] h = tt
take-IsBare zero (c ∷ t) h = tt
take-IsBare (suc n) [] h = tt
take-IsBare (suc n) (c ∷ t) h = (h.0, take-IsBare n t h.1)

numeral-IsBare : (c : ℕ) → numeral c ≡ true → IsBare c
numeral-IsBare c h = ground arith

Numerals-IsBare : (t : Text) → Numerals t → All IsBare t
Numerals-IsBare [] h = tt
Numerals-IsBare (c ∷ t) h = (numeral-IsBare c h.0, Numerals-IsBare t h.1)

literal_after : (s t : Text) → Numerals s → all_bare t ≡ true → All IsBare (s ++ t)
literal_after s t h e = append-IsBare s t (Numerals-IsBare s h) (all_bare-IsBare t e)

state_text-IsBare : (s : WgState) → All IsBare (state_text s)
unfolding state_text
state_text-IsBare disabled = all_bare-IsBare (state_text disabled) refl
state_text-IsBare wait_time = all_bare-IsBare (state_text wait_time) refl
state_text-IsBare wait_wifi = all_bare-IsBare (state_text wait_wifi) refl
state_text-IsBare connecting = all_bare-IsBare (state_text connecting) refl
state_text-IsBare up = all_bare-IsBare (state_text up) refl

tunnel_ip-IsBare : (address : Text) → All IsBare address → All IsBare (tunnel_ip address)
unfolding tunnel_ip
tunnel_ip-IsBare address h = go (index_of b'/' address)
  where
    go :
        (o : Option ℕ)
        → All IsBare (elim o as (λ x. Text) [ none ↦ [] | some slash ↦ take slash address ])
    go none = tt
    go (some slash) = take-IsBare slash address h

url-IsBare : (ip : Text) → All IsBare ip → All IsBare (url ip)
unfolding url
url-IsBare ip h =
    append-IsBare (text "rtsp://") (ip ++ text ":8554/") (all_bare-IsBare (text "rtsp://") refl)
      (append-IsBare ip (text ":8554/") h (all_bare-IsBare (text ":8554/") refl))

pub if_IsBare :
    (b : Bool) (s t : Text) → All IsBare s → All IsBare t → All IsBare (if b then s else t)
if_IsBare true s t h k = h
if_IsBare false s t h k = k

module _ (p : Printer) (v : IsPrinter p) where
  format_bytes-IsBare : (b : ℕ) → All IsBare (format_bytes p b)
  unfolding format_bytes
  format_bytes-IsBare b =
      if_IsBare (ltb b 1024) _ _ (literal_after (p.decimal b) (text " B") (v.decimals b) refl) (
        if_IsBare (ltb b 1048576) _ _
          (literal_after (p.ratio_text b 1024 1) (text " KB") (v.ratios b 1024 1) refl)
          (if_IsBare (ltb b 1073741824) _ _
            (literal_after (p.ratio_text b 1048576 1) (text " MB") (v.ratios b 1048576 1) refl)
            (literal_after (p.ratio_text b 1073741824 2) (text " GB") (v.ratios b 1073741824 2)
              refl)))

  part-IsBare :
      (b : Bool) (n : ℕ) (t : Text)
      → all_bare t ≡ true
      → All IsBare (if b then p.decimal n ++ t else [])
  part-IsBare b n t e = if_IsBare b _ _ (literal_after (p.decimal n) t (v.decimals n) e) tt

  pub format_uptime-IsBare : (total : ℕ) → All IsBare (format_uptime p.decimal total)
  unfolding format_uptime
  format_uptime-IsBare total =
      let u = split_uptime total in
      append-IsBare _ _ (part-IsBare (ltb 0 u.days) u.days (text "d ") refl) (
        append-IsBare _ _ (part-IsBare (ltb 0 u.hours || ltb 0 u.days) u.hours (text "h ") refl) (
          append-IsBare _ _
            (part-IsBare ((ltb 0 u.minutes || ltb 0 u.hours) || ltb 0 u.days) u.minutes (text "m ")
              refl)
            (literal_after (p.decimal u.seconds) (text "s") (v.decimals u.seconds) refl)))

  last_handshake-IsBare : (e : Seen) → All IsBare (last_handshake p e)
  unfolding last_handshake
  last_handshake-IsBare e =
      let total = sub32 e.now_ms e.handshake_ms / 1000 in
      if_IsBare (ltb 0 e.handshake_ms) (format_uptime p.decimal total ++ text " ago") (text "never")
        (append-IsBare (format_uptime p.decimal total) (text " ago") (format_uptime-IsBare total)
          (all_bare-IsBare (text " ago") refl))
        (all_bare-IsBare (text "never") refl)

tunnel_url-IsBare : (w : Wg) → All IsBare w.tunnel_address → All IsBare (tunnel_url w)
unfolding tunnel_url
tunnel_url-IsBare w h = go (tunnel_ip w.tunnel_address) (tunnel_ip-IsBare w.tunnel_address h)
  where
    go :
        (ip : Text)
        → All IsBare ip
        → All IsBare (elim ip as (λ x. Text) [
          | [] ↦ []
          | c ∷ rest ↦ if is_up w.state then url (c ∷ rest) else []
        ])
    go [] k = tt
    go (c ∷ rest) k = if_IsBare (is_up w.state) _ _ (url-IsBare (c ∷ rest) k) tt

masked-IsBare :
    (key : Text) → All IsBare (elim key as (λ x. Text) [ [] ↦ [] | c ∷ rest ↦ text "********" ])
masked-IsBare [] = tt
masked-IsBare (c ∷ rest) = all_bare-IsBare (text "********") refl

pub quoted-IsField :
    (name t : Text)
    → all_bare name ≡ true
    → All IsBare t
    → IsField (record { name = name; value = quoted t })
quoted-IsField name t e h = record { name_bare = all_bare-IsBare name e; value_ok = h }

module _ (p : Printer) (v : IsPrinter p) where
  -- A reader of JSON gets from the page about the tunnel the names and values that it shows, in order
  -- and whole, where numbers are printed with digits, points and minus signs, the tunnel address and
  -- the device's address hold no quote, backslash or control character, and the host and the public
  -- key no control character but the newline.
  pub wg_page-reads :
      (e : Seen) (w : Wg)
      → All IsBare w.tunnel_address
      → All IsBare e.local_ip
      → IsPlainText w.endpoint_host
      → IsPlainText w.server_public_key
      → read_object (wg_page p e w)
        ≡ some ((text "enabled", token (bool_text w.enabled)) ∷ map entry (wg_fields p e w))
  unfolding wg_page wg_fields join
  wg_page-reads e w address ip host key =
      let port =
        append-IsPlainText (text ":") (p.decimal w.endpoint_port)
          (literal-IsPlainText (text ":") refl) (decimal-IsPlainText p v w.endpoint_port) in
      let endpoint =
        append-IsPlainText w.endpoint_host (b':' ∷ p.decimal w.endpoint_port) host port in
      page_reads (flag-IsField p v (text "enabled") w.enabled refl) (
        quoted-IsField (text "state") _ refl (state_text-IsBare w.state)
        & quoted-IsField (text "last_handshake") _ refl (last_handshake-IsBare p v e)
        & number-IsField p v (text "rx_bytes") _ refl (v.decimals e.rx_bytes)
        & number-IsField p v (text "tx_bytes") _ refl (v.decimals e.tx_bytes)
        & quoted-IsField (text "rx_pretty") _ refl (format_bytes-IsBare p v e.rx_bytes)
        & quoted-IsField (text "tx_pretty") _ refl (format_bytes-IsBare p v e.tx_bytes)
        & quoted-IsField (text "tunnel_ip") _ refl (tunnel_ip-IsBare w.tunnel_address address)
        & quoted-IsField (text "tunnel_addr") _ refl address
        & text-IsField p v (text "endpoint") _ refl endpoint.chars
        & number-IsField p v (text "keepalive") _ refl (v.decimals w.keepalive)
        & quoted-IsField (text "private_key") _ refl (masked-IsBare w.private_key)
        & text-IsField p v (text "server_public_key") _ refl key.chars
        & quoted-IsField (text "lan_url") _ refl (url-IsBare e.local_ip ip)
        & quoted-IsField (text "wg_url") _ refl (tunnel_url-IsBare w address)
        & no_more)
