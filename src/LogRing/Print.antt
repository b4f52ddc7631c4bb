-- ===== src/LogRing/Print.antt =====
-- logTimestamp and simplePrintln (src/esp32_rtsp_mic_birdnetgo.ino), which put lines of the program
-- into the log, and the text of httpLogs (src/WebUI.cpp). The serial port is left out.
use birdnetgo_m5stack_atom_e.Prelude.{
  ℕ, ◌/◌, ◌%◌, ◌≤◌, ◌<◌, ◌≡◌, refl, ap, List, [], ◌∷◌, ◌++◌, arith, ltb, if◌then◌else◌, length,
  take, take_all, map, length-append,
}
use birdnetgo_m5stack_atom_e.Prelude.Text.{Text, text}
use birdnetgo_m5stack_atom_e.Prelude.Words.{sub32}
use birdnetgo_m5stack_atom_e.LogRing.{LogRing, log_cap, empty, push_log, logs, push_all}
use birdnetgo_m5stack_atom_e.LogRing.Order.{last_lines, logs-last_lines}

pub record Clock : Type 0 where
  pub epoch : ℕ  -- time(&now)
  pub now_ms : ℕ
  pub boot_ms : ℕ

-- strftime of the local time with "[%H:%M:%S] ", and printf with "%02lu".
pub record Printf : Type 0 where
  pub clock_text : ℕ → Text
  pub two_digits : ℕ → Text

pub record IsPrintf (f : Printf) : Type 0 where
  pub short : (n : ℕ) → n < 100 → length (f.two_digits n) ≡ 2
  pub hours : (n : ℕ) → n < 10000 → length (f.two_digits n) ≤ 4

unfoldable pub uptime_stamp : Printf → ℕ → Text
uptime_stamp f s =
    text "["
    ++ (f.two_digits (s / 3600)
        ++ (text ":"
            ++ (f.two_digits (s % 3600 / 60)
                ++ (text ":" ++ (f.two_digits (s % 3600 % 60) ++ text "] ")))))

abbrev pub uptime_seconds : Clock → ℕ
uptime_seconds c = sub32 c.now_ms c.boot_ms / 1000

-- The buffer of snprintf has 16 bytes with the end of the string.
unfoldable pub log_timestamp : Printf → Clock → Text
log_timestamp f c =
    if ltb 100000 c.epoch then f.clock_text c.epoch else take 15 (uptime_stamp f (uptime_seconds c))

-- A call of webui_pushLog or of simplePrintln.
pub data Entry : Type 0 where
  pushed : Text → Entry
  printed : Clock → Text → Entry

unfoldable pub simple_println : Printf → Clock → Text → LogRing Text → LogRing Text
simple_println f c message r = push_log r (log_timestamp f c ++ message)

unfoldable pub log_entry : Printf → LogRing Text → Entry → LogRing Text
log_entry f r (pushed line) = push_log r line
log_entry f r (printed c message) = simple_println f c message r

pub log_entries : Printf → LogRing Text → List Entry → LogRing Text
log_entries f r [] = r
log_entries f r (e ∷ es) = log_entries f (log_entry f r e) es

unfoldable pub join_lines : List Text → Text
join_lines [] = []
join_lines (line ∷ lines) = line ++ (text "\n" ++ join_lines lines)

-- What httpLogs sends, where unwritten slots hold the empty String.
unfoldable pub http_logs : LogRing Text → Text
http_logs r = join_lines (logs [] r)

-- The line of an entry with its timestamp whole.
abbrev pub whole_line : Printf → Entry → Text
whole_line f (pushed line) = line
whole_line f (printed c message) =
    (if ltb 100000 c.epoch then f.clock_text c.epoch else uptime_stamp f (uptime_seconds c))
    ++ message

uptime_stamp-fits :
    (f : Printf) (c : Clock) → IsPrintf f → length (uptime_stamp f (uptime_seconds c)) ≤ 15
unfolding uptime_stamp
uptime_stamp-fits f c p =
    let s = uptime_seconds c in
    let hours = p.hours (s / 3600) (omega arith) in
    let minutes = p.short (s % 3600 / 60) (omega arith) in
    let seconds = p.short (s % 3600 % 60) (omega arith) in simp length-append (omega arith)

log_timestamp-whole :
    (f : Printf) (c : Clock) (message : Text)
    → IsPrintf f
    → log_timestamp f c ++ message ≡ whole_line f (printed c message)
unfolding log_timestamp
log_timestamp-whole f c message p = rw (take_all 15 _ (uptime_stamp-fits f c p)) refl

log_entries-push_all :
    (f : Printf) (es : List Entry) (r : LogRing Text)
    → IsPrintf f
    → log_entries f r es ≡ push_all r (map (whole_line f) es)
unfolding log_entries log_entry simple_println push_all
log_entries-push_all f [] r p = refl
log_entries-push_all f (pushed line ∷ es) r p = log_entries-push_all f es (push_log r line) p
log_entries-push_all f (printed c message ∷ es) r p =
    rw (log_timestamp-whole f c message p) (log_entries-push_all f es _ p)

-- The log page shows the lines of the last 80 calls of webui_pushLog and simplePrintln, oldest
-- first, each with a newline and those of simplePrintln behind a timestamp that is not cut, where
-- "%02lu" prints two digits below 100 and at most four below 10000.
pub http_logs_lem :
    (f : Printf) (es : List Entry)
    → IsPrintf f
    → http_logs (log_entries f (empty []) es)
      ≡ join_lines (last_lines log_cap (map (whole_line f) es))
unfolding http_logs
http_logs_lem f es p =
    rw (log_entries-push_all f es (empty []) p)
      (ap join_lines (logs-last_lines [] (map (whole_line f) es)))
