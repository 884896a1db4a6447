-- ===== src/Timewindow.antt =====
-- common/timewindow.py: the window of the day in which customers get messages, 08:00 to 22:00 in
-- Belgrade. `localtime`, `instant` and `plus_day` are the library's `astimezone`, the moment of a
-- local time, and `+ timedelta(days=1)` on the local clock.
pub mod Window
use javi.Prelude.{ℕ, ◌+◌, ◌*◌, Bool, ◌&&◌, ◌==◌, ltb, leb, if◌then◌else◌}
use javi.Env.{Env, LocalTime, minute}

abbrev pub window_start : ℕ
window_start = 8

abbrev pub window_end : ℕ
window_end = 22

abbrev pub rating_delay : ℕ
rating_delay = 30 * minute

-- `local.replace(hour=8, minute=0, second=0, microsecond=0)`
abbrev pub at_window_start : LocalTime → LocalTime
at_window_start t = record t { hour = window_start; minutes = 0; seconds = 0; microsecond = 0 }

-- A local time is before 08:00 when its hour is, and not before 22:00 when its hour is not.
unfoldable pub clamp_to_window : Env → ℕ → ℕ
clamp_to_window env dt =
    let local = env.localtime dt in
    if ltb local.hour window_start
    then env.instant (at_window_start local)
    else if leb window_end local.hour
    then env.instant (at_window_start (env.plus_day local))
    else dt

unfoldable pub rating_send_time : Env → ℕ → ℕ
unfolding clamp_to_window
rating_send_time env eta_at = clamp_to_window env (eta_at + rating_delay)

-- What a label shows: hour and minutes, or these after day and month.
pub data EtaLabel : Type 0 where
  today_at : (hour minutes : ℕ) → EtaLabel
  dated : (day_of_month month hour minutes : ℕ) → EtaLabel

unfoldable pub format_eta_label : Env → ℕ → ℕ → EtaLabel
format_eta_label env dt now =
    let local = env.localtime dt in
    let today = env.localtime now in
    if local.year == today.year
      && local.month == today.month
      && local.day_of_month == today.day_of_month
    then today_at local.hour local.minutes
    else dated local.day_of_month local.month local.hour local.minutes
