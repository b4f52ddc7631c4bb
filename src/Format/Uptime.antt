-- ===== src/Format/Uptime.antt =====
-- formatUptime and formatSince (src/esp32_rtsp_mic_birdnetgo.ino).
use birdnetgo_m5stack_atom_e.Prelude.{
  ℕ, ◌+◌, ◌*◌, ◌/◌, ◌%◌, ◌<◌, ◌≡◌, ◌||◌, ◌++◌, [], arith, ltb, ◌==◌, if◌then◌else◌,
}
use birdnetgo_m5stack_atom_e.Prelude.Text.{Text, text}
use birdnetgo_m5stack_atom_e.Prelude.Words.{sub32}

pub record Uptime : Type 0 where
  pub days : ℕ
  pub hours : ℕ
  pub minutes : ℕ
  pub seconds : ℕ

-- The successive `/` and `%=` on `seconds`.
unfoldable pub split_uptime : ℕ → Uptime
split_uptime total =
    let in_day = total % 86400 in
    let in_hour = in_day % 3600 in
    record {
      days = total / 86400;
      hours = in_day / 3600;
      minutes = in_hour / 60;
      seconds = in_hour % 60;
    }

-- The fields are in the ranges of a clock, and stand for the given number of seconds.
pub split_uptime_lem :
    (total : ℕ)
    → let u = split_uptime total in
      (u.days * 86400 + u.hours * 3600 + u.minutes * 60 + u.seconds ≡ total)
      × (u.hours < 24)
      × (u.minutes < 60)
      × (u.seconds < 60)
unfolding split_uptime
split_uptime_lem total = omega arith

module _ (decimal : ℕ → Text) where
  unfoldable pub format_uptime : ℕ → Text
  unfolding split_uptime
  format_uptime total =
      let u = split_uptime total in
      (if ltb 0 u.days then decimal u.days ++ text "d " else [])
      ++ ((if ltb 0 u.hours || ltb 0 u.days then decimal u.hours ++ text "h " else [])
          ++ ((if (ltb 0 u.minutes || ltb 0 u.hours) || ltb 0 u.days
                then decimal u.minutes ++ text "m "
                else [])
              ++ (decimal u.seconds ++ text "s")))

  unfoldable pub format_since : ℕ → ℕ → Text
  unfolding format_uptime
  format_since now_ms event_ms =
      if event_ms == 0
      then text "never"
      else format_uptime (sub32 now_ms event_ms / 1000) ++ text " ago"
