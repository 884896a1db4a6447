-- ===== src/Retention/Service.antt =====
-- deliveries/retention.py: the settings and the entry of the purge.
use javi.Prelude.{
  ℕ, zero, suc, ◌+◌, ◌-◌, ◌*◌, Bool, true, false, ltb, Option, none, some, if◌then◌else◌,
}
use javi.Env.{Env, Settings, second, day}
use javi.World.{World}
use javi.Runtime.{tick}
use javi.Retention.{PurgeResult, dry_run, real_run}

abbrev pub min_retention_days : ℕ
min_retention_days = 30

-- `ImproperlyConfigured`
pub data WrongSetting : Type 0 where
  short_retention no_batch : WrongSetting

unfoldable pub validate_retention_settings : Settings → Option WrongSetting
validate_retention_settings s =
    if ltb s.retention_days min_retention_days
    then some short_retention
    else if ltb s.purge_batch_size 1
    then some no_batch
    else none

-- `x or default`, where 0 is no size
abbrev pub size_or : Option ℕ → ℕ → ℕ
size_or none default = default
size_or (some zero) default = default
size_or (some (suc n)) default = suc n

module _ (env : Env) where
  abbrev pub retention_cutoff : ℕ → ℕ
  retention_cutoff now = now - env.settings.retention_days * day

  unfoldable pub moment_or_now : Option ℕ → World → ℕ × World
  moment_or_now none w = (env.clock w.calls, tick w)
  moment_or_now (some now) w = (now, w)

  -- `time_budget` in seconds; 0 is no budget.
  unfoldable pub deadline_of : Option ℕ → World → Option ℕ × World
  deadline_of none w = (none, w)
  deadline_of (some zero) w = (none, w)
  deadline_of (some (suc n)) w = (some (env.monotonic w.calls + suc n * second), tick w)

  -- With fuel for each of the loops. The rows do not change while the clock is read.
  unfoldable pub purge_recipient_pii :
      ℕ
      → (apply : Bool) (now batch_size time_budget : Option ℕ) → World
      → Option (PurgeResult × World)
  purge_recipient_pii fuel false now batch_size time_budget w =
      let (moment, w1) = moment_or_now now w in some (dry_run env (retention_cutoff moment) w1, w1)
  purge_recipient_pii fuel true now batch_size time_budget w =
      let (moment, w1) = moment_or_now now w in
      let (deadline, w2) = deadline_of time_budget w1 in
      real_run env fuel moment (size_or batch_size env.settings.purge_batch_size) deadline w2
