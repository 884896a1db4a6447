-- ===== src/Timewindow/Window.antt =====
-- Messages of the rating request go out inside the window.
use javi.Prelude.{ℕ, ◌≡◌, ◌≤◌, ◌<◌, ◌+◌, arith}
use javi.Env.{Env}
use javi.Timewindow.{
  clamp_to_window, rating_send_time, window_start, window_end, at_window_start, rating_delay,
}

-- 08:00 is on the clock of every day: no change of the clock skips or repeats it.
pub record KeepsWindowStart (env : Env) : Type 0 where
  pub same_day :
      (dt : ℕ)
      → let local = env.localtime dt in
        env.localtime (env.instant (at_window_start local)) ≡ at_window_start local
  pub next_day :
      (dt : ℕ)
      → let local = env.plus_day (env.localtime dt) in
        env.localtime (env.instant (at_window_start local)) ≡ at_window_start local

abbrev pub InWindow : Env → ℕ → Type 0
InWindow env dt = (window_start ≤ (env.localtime dt).hour) × ((env.localtime dt).hour < window_end)

pub clamp_to_window-InWindow :
    (env : Env) → KeepsWindowStart env → (dt : ℕ) → InWindow env (clamp_to_window env dt)
unfolding clamp_to_window
clamp_to_window-InWindow env keeps dt = ground (arith, keeps.same_day dt, keeps.next_day dt)

-- The rating request is sent inside the window of the day, where 08:00 is on every day's clock.
pub rating_send_time-InWindow :
    (env : Env) → KeepsWindowStart env → (eta_at : ℕ) → InWindow env (rating_send_time env eta_at)
unfolding rating_send_time
rating_send_time-InWindow env keeps eta_at =
    clamp_to_window-InWindow env keeps (eta_at + rating_delay)
