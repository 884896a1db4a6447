-- ===== src/Deliveries/Messages.antt =====
-- deliveries/services.py: the messages after the start: sent again, by another channel, and the
-- request for a rating. `none` is the source's `None`.
pub mod Resend
pub mod Once
pub mod Paired
pub mod Rating
use javi.Prelude.{
  ℕ, suc, ◌+◌, String, Bool, true, false, not, Option, none, some, List, [], ◌∷◌, ◌++◌, first, any,
  select, if◌then◌else◌, ltb, get_or,
}
use javi.Model.{
  Shop, Delivery, Notification, NotificationStatus, NotificationAttempt, Kind, SendKind,
}
use javi.Env.{Env, SendResult}
use javi.World.{World, Db}
use javi.Exec.{
  Exec, Result, Error, QuotaCode, quota_exceeded, value_error, does_not_exist, ok, err, pure, raise,
  gets, modify, ◌>>=◌, ◌>>◌,
}
use javi.Runtime.{timezone_now, uuid4, provider_send_by}
use javi.Webhooks.{token_of}
use javi.Quotas.{reserve_send}
use javi.Receipts.{is_opted_out}
use javi.Deliveries.{is_start_of, is_rating_of, write_delivery}
use javi.Deliveries.Start.{get_shop, create_notification}
use javi.Deliveries.Sending.{
  on_the_way_text, rating_request_text, send_and_record, write_notification, attempt_rows,
  is_attempt_of, untried_chain_paths, schedule_escalation_if_pending,
}
use javi.Model.{TrackingToken}

-- `PhoneResult` of common/phone.py
pub record PhoneResult : Type 0 where
  pub e164 : String
  pub is_risky : Bool

-- `_on_the_way_notification`
unfoldable pub on_the_way_notification : ℕ → Db → Option Notification
on_the_way_notification delivery db = first (is_start_of delivery) db.notifications

abbrev pub phone_or : Option PhoneResult → Delivery → PhoneResult
phone_or none d = record { e164 = d.recipient_phone; is_risky = d.phone_risk }
phone_or (some phone) d = phone

abbrev pub with_phone : PhoneResult → Delivery → Delivery
with_phone phone d = record d { recipient_phone = phone.e164; phone_risk = phone.is_risky }

-- The change of the number, when one is given.
unfoldable pub save_phone : Option PhoneResult → Delivery → Exec Delivery
save_phone none d = pure d
save_phone (some phone) d = do
  modify (write_delivery d.id (with_phone phone))
  pure (with_phone phone d)

unfoldable pub requeue : ℕ → ℕ → World → World
requeue notification logical =
    write_notification notification
      (λ n. record n { logical_message_id = logical; status = NotificationStatus.queued })

-- The last attempt number of a notification.
unfoldable pub last_attempt : List NotificationAttempt → ℕ
last_attempt [] = 0
last_attempt (a ∷ rest) =
    let later = last_attempt rest in if ltb later a.attempt_no then a.attempt_no else later

-- `_append_attempts`: the attempts of before stay.
unfoldable pub append_attempts : ℕ → SendResult → World → World
unfolding last_attempt
append_attempts notification result w = record w {
  db = record w.db {
    attempts =
        attempt_rows notification (last_attempt (select (is_attempt_of notification) w.attempts))
          result
        ++ w.attempts;
  };
}

is_settled : NotificationStatus → Bool
is_settled NotificationStatus.delivered = true
is_settled NotificationStatus.read = true
is_settled _ = false

-- `except QuotaExceeded`: any other error goes on.
pub unless_refused : {A : Type 0} → Result A × World → Result Bool × World
unless_refused (ok a, w) = (ok true, w)
unless_refused (err (quota_exceeded code http_status), w) = (ok false, w)
unless_refused (err value_error, w) = (err value_error, w)
unless_refused (err does_not_exist, w) = (err does_not_exist, w)

module _ (env : Env) where
  unfoldable pub resend_to :
      Option PhoneResult
      → Delivery
      → Option Notification
      → Option TrackingToken
      → Exec (Delivery × Option SendResult)
  resend_to new_phone delivery (some notification) (some t) = do
    shop ← get_shop delivery
    let phone = phone_or new_phone delivery
    _ ← reserve_send env shop phone.e164 SendKind.resend (some delivery.id) phone.is_risky none
    delivery' ← save_phone new_phone delivery
    logical ← uuid4 env
    modify (requeue notification.id logical)
    result ← send_and_record env notification.id delivery' (on_the_way_text shop delivery' t.token)
    pure (delivery', some result)
  resend_to _ delivery _ _ = pure (delivery, none)

  unfoldable pub resend_on_the_way :
      Delivery → Option PhoneResult → Exec (Delivery × Option SendResult)
  resend_on_the_way delivery new_phone = do
    notification ← gets (λ w. on_the_way_notification delivery.id w.db)
    token ← gets (λ w. token_of w.db delivery.id)
    resend_to new_phone delivery notification token

  unfoldable pub rating_reserved : Shop → Delivery → Exec Bool
  unfolding unless_refused
  rating_reserved shop delivery w = unless_refused (
      reserve_send env shop delivery.recipient_phone SendKind.rating_request (some delivery.id)
        delivery.phone_risk none w)

  unfoldable pub send_rating_to : Delivery → String → Exec (Option SendResult)
  send_rating_to delivery token = do
    shop ← get_shop delivery
    reserved ← rating_reserved shop delivery
    if not reserved then pure none else do
      notification ← create_notification env delivery.id Kind.rating_request
      result ← send_and_record env notification delivery (rating_request_text shop delivery token)
      pure (some result)

  unfoldable pub rating_by_token : Delivery → Option TrackingToken → Exec (Option SendResult)
  rating_by_token delivery none = pure none
  rating_by_token delivery (some t) = do
    opted_out ← gets (λ w. is_opted_out env delivery.recipient_phone w.db)
    if opted_out then pure none else send_rating_to delivery t.token

  unfoldable pub send_rating_request : Delivery → Exec (Option SendResult)
  send_rating_request delivery = do
    asked ← gets (λ w. any (is_rating_of delivery.id) w.notifications)
    if asked
        then pure none
        else do token ← gets (λ w. token_of w.db delivery.id); rating_by_token delivery token

  -- The winner of an escalation becomes the current channel.
  unfoldable pub escalated : Delivery → ℕ → SendResult → Exec Bool
  escalated delivery notification result = if not result.succeeded then pure false else do
    now ← timezone_now env
    modify (
        write_notification notification (λ n. record n {
          channel = result.channel;
          provider_message_id = get_or result.provider_message_id "";
          status = NotificationStatus.sent;
          sent_at = some now;
        }))
    schedule_escalation_if_pending env delivery.id notification
    pure true

  unfoldable pub escalate_by :
      Delivery → Notification → List String → Option TrackingToken → Exec Bool
  escalate_by delivery notification (path ∷ paths) (some t) = do
    shop ← get_shop delivery
    result ←
        provider_send_by env (path ∷ paths) delivery.recipient_phone
          (on_the_way_text shop delivery t.token)
    modify (append_attempts notification.id result)
    escalated delivery notification.id result
  escalate_by delivery notification _ _ = pure false

  unfoldable pub escalate_unsettled : Delivery → Option Notification → Exec Bool
  unfolding is_settled
  escalate_unsettled delivery none = pure false
  escalate_unsettled delivery (some n) = if is_settled n.status then pure false else do
    paths ← gets (λ w. untried_chain_paths env n.id w.db)
    token ← gets (λ w. token_of w.db delivery.id)
    escalate_by delivery n paths token

  unfoldable pub escalate_delivery : Delivery → Exec Bool
  escalate_delivery delivery =
      if not env.settings.fallback_escalation_enabled then pure false else do
        notification ← gets (λ w. on_the_way_notification delivery.id w.db)
        escalate_unsettled delivery notification
