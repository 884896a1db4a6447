-- ===== src/Quotas.antt =====
-- notifications/quotas.py: the limits that every message passes before the provider is called, and
-- the log of sends that they count.
pub mod Limits
pub mod Reserve
pub mod Quiet
pub mod Caps
use javi.Prelude.{
  ℕ, String, Bool, true, false, not, ◌&&◌, ◌||◌, Option, none, some, ◌∷◌, leb, ◌==◌, str_eq, first,
  count, if◌then◌else◌, get_or,
}
use javi.Model.{Shop, Delivery, OutboundSend, SendKind, is_resend}
use javi.Env.{Env, Settings}
use javi.World.{World, Db}
use javi.Exec.{
  Exec, Result, Error, ok, quota_exceeded, resend_limit, destination_not_allowed,
  recipient_daily_limit, daily_limit, monthly_limit, global_limit, raise_if, pure, lift, gets,
  modify, atomic, ◌>>=◌, ◌>>◌,
}
use javi.Runtime.{now_or}
use javi.Billing.{has_access}

pub record ShopLimits : Type 0 where
  pub per_day : ℕ
  pub per_month : ℕ
  pub trial : Bool
  pub unpaid : Bool

-- `shop_limits` once it is known whether billing restricts the shop.
unfoldable pub limits_of : Settings → Shop → Bool → ShopLimits
limits_of settings shop unpaid =
    let trial = not shop.sending_verified || unpaid in
    record {
      per_day =
          get_or shop.daily_send_limit
            (if trial then settings.send_limit_trial_day else settings.send_limit_shop_day);
      per_month =
          get_or shop.monthly_send_limit
            (if trial then settings.send_limit_trial_month else settings.send_limit_shop_month);
      trial = trial;
      unpaid = unpaid;
    }

abbrev pub refers_to : Option ℕ → ℕ → Bool
refers_to none id = false
refers_to (some i) id = i == id

-- The counts of the log that `_check` takes, `since` a moment.
abbrev pub is_resend_of : ℕ → OutboundSend → Bool
is_resend_of delivery s = refers_to s.delivery_id delivery && is_resend s.kind

abbrev pub is_to_phone : String → ℕ → OutboundSend → Bool
is_to_phone phone since s = str_eq s.phone phone && leb since s.created_at

abbrev pub is_of_shop : ℕ → ℕ → OutboundSend → Bool
is_of_shop shop since s = refers_to s.shop_id shop && leb since s.created_at

abbrev pub is_since : ℕ → OutboundSend → Bool
is_since since s = leb since s.created_at

abbrev pub resent_too_often : Settings → Db → SendKind → Option ℕ → Bool
resent_too_often settings db SendKind.resend (some id) =
    leb settings.send_limit_resends_per_delivery (count (is_resend_of id) db.sends)
resent_too_often settings db _ _ = false

-- `Shop.objects.select_for_update().filter(pk=shop.pk).first() or shop`
unfoldable pub locked_shop : Shop → World → Shop
locked_shop shop w = get_or (first (λ (s : Shop). s.id == shop.id) w.shops) shop

unfoldable pub create_send : OutboundSend → Exec OutboundSend
create_send row = do modify (λ w. record w { db = record w.db { sends = row ∷ w.sends } }); pure row

module _ (env : Env) where
  unfoldable pub day_start : ℕ → ℕ
  day_start now =
      env.instant
        (record (env.localtime now) { hour = 0; minutes = 0; seconds = 0; microsecond = 0 })

  unfoldable pub month_start : ℕ → ℕ
  month_start now = env.instant (record (env.localtime now) {
    day_of_month = 1;
    hour = 0;
    minutes = 0;
    seconds = 0;
    microsecond = 0;
  })

  unfoldable pub shop_limits : Shop → Exec ShopLimits
  shop_limits shop = do
    paid ← has_access env shop none
    pure (limits_of env.settings shop (not paid))

  -- `_check` once the limits of the shop are known.
  unfoldable pub check_with :
      ShopLimits → Shop → String → SendKind → Option ℕ → Bool → ℕ → Db → Result (Unit {0})
  check_with limits shop phone kind delivery risky now db =
      let day_start = day_start now in
      raise_if (resent_too_often env.settings db kind delivery) (quota_exceeded resend_limit 429) (
        raise_if (limits.trial && risky) (quota_exceeded destination_not_allowed 403) (
          raise_if
            (leb env.settings.send_limit_recipient_day
              (count (is_to_phone phone day_start) db.sends))
            (quota_exceeded recipient_daily_limit 429)
            (raise_if (leb limits.per_day (count (is_of_shop shop.id day_start) db.sends))
              (quota_exceeded daily_limit 429)
              (raise_if
                (leb limits.per_month (count (is_of_shop shop.id (month_start now)) db.sends))
                (quota_exceeded monthly_limit 429)
                (raise_if
                  (leb env.settings.send_limit_global_day (count (is_since day_start) db.sends))
                  (quota_exceeded global_limit 503) (ok tt))))))

  unfoldable pub check : Shop → String → SendKind → Option ℕ → Bool → ℕ → Exec (Unit {0})
  check shop phone kind delivery risky now = do
    limits ← shop_limits shop
    w ← gets (λ w. w)
    lift (check_with limits shop phone kind delivery risky now w.db)

  unfoldable pub reserve_send :
      Shop → String → SendKind → Option ℕ → Bool → Option ℕ → Exec OutboundSend
  reserve_send shop phone kind delivery risky now = do
    now ← now_or env now
    atomic do
      locked ← gets (locked_shop shop)
      check locked phone kind delivery risky now
      create_send (record {
        shop_id = some locked.id;
        delivery_id = delivery;
        phone = phone;
        kind = kind;
        created_at = now;
      })
