-- ===== src/Tests/Limits.antt =====
-- The limits at the sample shop, whose log is empty, and at one that may send nothing.
use javi.Prelude.{◌≡◌, refl, true, false, none, some, String, [], ◌∷◌, first, count}
use javi.Model.{Shop, SendKind, OutboundSend}
use javi.World.{World}
use javi.Exec.{ok, err, quota_exceeded, daily_limit, destination_not_allowed}
use javi.Billing.{has_access, enforced, subscription_of, access_at, trial_ends_at}
use javi.Quotas.{
  limits_of, check_with, shop_limits, check, locked_shop, create_send, reserve_send, day_start,
  month_start,
}
use javi.Quotas.Reserve.{IsReserved, send_row, reserve_send-ok}
use javi.Quotas.Caps.{IsCapped, reserve_send-IsCapped}
use javi.Tests.Sample.{env, shop, world, noon}

abbrev phone : String
phone = "+381601234567"

abbrev muted : Shop
muted = record shop { daily_send_limit = some 0 }

abbrev muted_world : World
muted_world = record world { db = record world.db { shops = muted ∷ [] } }

abbrev row : OutboundSend
row = send_row shop phone SendKind.on_the_way (some 7) noon

passes : (reserve_send env shop phone SendKind.on_the_way (some 7) false none world).0 ≡ ok row
unfolding reserve_send locked_shop create_send check check_with shop_limits limits_of has_access
    enforced subscription_of access_at trial_ends_at first count day_start month_start
passes = refl

refused :
    (reserve_send env muted phone SendKind.on_the_way (some 7) false none muted_world).0
    ≡ err (quota_exceeded daily_limit 429)
unfolding reserve_send locked_shop create_send check check_with shop_limits limits_of has_access
    enforced subscription_of access_at trial_ends_at first count day_start month_start
refused = refl

reserve_send-ok_example :
    IsReserved env shop phone SendKind.on_the_way
      (some 7)
      false
      world
      row
      (reserve_send env shop phone SendKind.on_the_way (some 7) false none world).1
reserve_send-ok_example =
    reserve_send-ok env shop phone SendKind.on_the_way (some 7) false none world row passes

reserve_send-IsCapped_example :
    IsCapped env (reserve_send env shop phone SendKind.on_the_way (some 7) false none world).1.sends
reserve_send-IsCapped_example =
    reserve_send-IsCapped env shop phone SendKind.on_the_way (some 7) false none world tt

risky_refused :
    check_with env
      (limits_of env.settings shop true)
      shop
      phone
      SendKind.on_the_way
      (some 7)
      true
      noon
      world.db
    ≡ err (quota_exceeded destination_not_allowed 403)
unfolding check_with limits_of
risky_refused = refl
