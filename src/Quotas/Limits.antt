-- ===== src/Quotas/Limits.antt =====
-- When `_check` of notifications/quotas.py lets a message pass.
use javi.Prelude.{ℕ, String, ◌≡◌, refl, ◌<◌, ◌≤◌, Bool, true, false, Option, some, arith, count}
use javi.Model.{Shop, SendKind}
use javi.Env.{Env}
use javi.World.{Db}
use javi.Exec.{
  Error, QuotaCode, ok, err, quota_exceeded, resend_limit, destination_not_allowed,
  recipient_daily_limit, daily_limit, monthly_limit, global_limit, value_error, does_not_exist,
}
use javi.Quotas.{
  ShopLimits, check_with, day_start, month_start, is_resend_of, is_to_phone, is_of_shop, is_since,
}

-- The rules of the module's own list, without their order: what must hold of the log before a
-- message, for each kind of limit.
pub record HasRoom (env : Env) (limits : ShopLimits) (shop : Shop) (phone : String)
    (kind : SendKind) (delivery : Option ℕ) (risky : Bool) (now : ℕ) (db : Db) : Type 0 where
  pub resends :
      (id : ℕ)
      → kind ≡ SendKind.resend
      → delivery ≡ some id
      → count (is_resend_of id) db.sends < env.settings.send_limit_resends_per_delivery
  pub destination : limits.trial ≡ true → risky ≡ false
  pub recipient :
      count (is_to_phone phone (day_start env now)) db.sends < env.settings.send_limit_recipient_day
  pub daily : count (is_of_shop shop.id (day_start env now)) db.sends < limits.per_day
  pub monthly : count (is_of_shop shop.id (month_start env now)) db.sends < limits.per_month
  pub global : count (is_since (day_start env now)) db.sends < env.settings.send_limit_global_day

module _ (env : Env) (limits : ShopLimits) (shop : Shop) (phone : String) (kind : SendKind)
    (delivery : Option ℕ) (risky : Bool) (now : ℕ) (db : Db) where
  pub HasRoom-of_ok :
      check_with env limits shop phone kind delivery risky now db ≡ ok tt
      → HasRoom env limits shop phone kind delivery risky now db
  unfolding check_with
  HasRoom-of_ok h = record {
    resends = λ id k d. ground arith;
    destination = λ t. ground arith;
    recipient = ground arith;
    daily = ground arith;
    monthly = ground arith;
    global = ground arith;
  }

-- The limit that a code names is really used up.
abbrev pub IsBroken :
    Env → ShopLimits → Shop → String → SendKind → Option ℕ → Bool → ℕ → Db → QuotaCode → Type 0
IsBroken env limits shop phone kind delivery risky now db resend_limit =
    (id : ℕ) × (kind ≡ SendKind.resend)
    × (delivery ≡ some id)
    × (env.settings.send_limit_resends_per_delivery ≤ count (is_resend_of id) db.sends)
IsBroken env limits shop phone kind delivery risky now db destination_not_allowed =
    (limits.trial ≡ true) × (risky ≡ true)
IsBroken env limits shop phone kind delivery risky now db recipient_daily_limit =
    env.settings.send_limit_recipient_day ≤ count (is_to_phone phone (day_start env now)) db.sends
IsBroken env limits shop phone kind delivery risky now db daily_limit =
    limits.per_day ≤ count (is_of_shop shop.id (day_start env now)) db.sends
IsBroken env limits shop phone kind delivery risky now db monthly_limit =
    limits.per_month ≤ count (is_of_shop shop.id (month_start env now)) db.sends
IsBroken env limits shop phone kind delivery risky now db global_limit =
    env.settings.send_limit_global_day ≤ count (is_since (day_start env now)) db.sends

-- The HTTP status that goes with a code.
abbrev pub http_status : QuotaCode → ℕ
http_status destination_not_allowed = 403
http_status global_limit = 503
http_status _ = 429

-- Whatever `_check` raises is a `QuotaExceeded`: its code names a limit that is used up, and its HTTP
-- status is the one of that code (403 for the destination, 503 for the service, 429 otherwise).
pub check_with-blames :
    (env : Env) (limits : ShopLimits) (shop : Shop) (phone : String) (kind : SendKind)
    (delivery : Option ℕ) (risky : Bool) (now : ℕ) (db : Db) (e : Error)
    → check_with env limits shop phone kind delivery risky now db ≡ err e
    → (code : QuotaCode) × (e ≡ quota_exceeded code (http_status code))
      × IsBroken env limits shop phone kind delivery risky now db code
unfolding check_with
check_with-blames env limits shop phone kind delivery risky now db (quota_exceeded code status) h =
    (code, ground arith, blame kind delivery code h)
  where
    blame :
        (kind : SendKind) (delivery : Option ℕ) (code : QuotaCode)
        → check_with env limits shop phone kind delivery risky now db
          ≡ err (quota_exceeded code status)
        → IsBroken env limits shop phone kind delivery risky now db code
    blame SendKind.resend (some id) resend_limit h = (id, refl, refl, ground arith)
    blame _ _ resend_limit h = absurd (ground arith)
    blame _ _ destination_not_allowed h = ground arith
    blame _ _ recipient_daily_limit h = ground arith
    blame _ _ daily_limit h = ground arith
    blame _ _ monthly_limit h = ground arith
    blame _ _ global_limit h = ground arith
check_with-blames env limits shop phone kind delivery risky now db value_error h = ground arith
check_with-blames env limits shop phone kind delivery risky now db does_not_exist h = ground arith
