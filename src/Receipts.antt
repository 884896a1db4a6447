-- ===== src/Receipts.antt =====
-- notifications/webhooks.py: delivery and seen receipts from Infobip move a notification's status,
-- and opt-outs are mirrored.
pub mod Progress
pub mod Handler
pub mod Optouts
use javi.Prelude.{
  ℕ, String, Bool, true, false, not, ◌||◌, Option, none, some, List, [], ◌∷◌, str_eq, ◌==◌, ltb,
  first, any, if◌then◌else◌, truthy,
}
use javi.Model.{
  Delivery, Notification, NotificationStatus, OptOut, queued, sent, delivered, read, failed,
}
use javi.Env.{Env}
use javi.World.{World, Db, Event, of_notification}
use javi.Exec.{Exec, pure, gets, modify, ◌>>=◌, ◌>>◌}
use javi.Runtime.{timezone_now}
use javi.Secrets.{Credentials, request_has_secret}
use javi.Webhooks.{emit_delivery_event}
use javi.Deliveries.{delivery_row}
use javi.Deliveries.Sending.{write_notification}

-- One element of `results`: `messageId`, `seen`, and the group name of its status.
pub record Receipt : Type 0 where
  pub message_id : String
  pub seen : Bool
  pub group : String

-- `_resolve_status`
unfoldable pub resolve_status : Receipt → Option NotificationStatus
resolve_status r =
    if r.seen
    then some read
    else if str_eq r.group "DELIVERED"
    then some delivered
    else if str_eq r.group "UNDELIVERABLE" || str_eq r.group "REJECTED" || str_eq r.group "EXPIRED"
    then some failed
    else none

-- `_ORDER.index`, where a status that is not in `_ORDER` counts as queued.
order_index : NotificationStatus → ℕ
order_index queued = 0
order_index sent = 1
order_index delivered = 2
order_index read = 3
order_index failed = 0

-- `_apply`: the new status of the notification, or nothing when it does not change.
unfoldable pub apply_status : NotificationStatus → NotificationStatus → Option NotificationStatus
unfolding order_index
apply_status queued failed = some failed
apply_status sent failed = some failed
apply_status delivered failed = none
apply_status read failed = none
apply_status failed failed = none
apply_status current new = if ltb (order_index current) (order_index new) then some new else none

-- `_NOTIF_EVENT`
unfoldable pub event_of : NotificationStatus → Option Event
event_of delivered = some Event.notification_delivered
event_of read = some Event.notification_read
event_of failed = some Event.notification_failed
event_of _ = none

module _ (env : Env) where
  unfoldable pub emit_found :
      Option Delivery → Option Event → NotificationStatus → String → Exec (Unit {0})
  emit_found (some d) (some event) status channel =
      emit_delivery_event env d event (of_notification status channel)
  emit_found _ _ status channel = pure tt

  -- `_emit_notification_event`
  unfoldable pub emit_notification_event : Notification → NotificationStatus → Exec (Unit {0})
  unfolding emit_found event_of
  emit_notification_event n status = do
    d ← gets (λ w. delivery_row n.delivery_id w.db)
    emit_found d (event_of status) status n.channel

  -- The write of `_apply` and the webhook that follows it, when the status changes.
  unfoldable pub store_status : Notification → Option NotificationStatus → Exec (Unit {0})
  store_status n none = pure tt
  store_status n (some status) = do
    modify (write_notification n.id (λ row. record row { status = status }))
    emit_notification_event n status

  unfoldable pub apply_found : Option Notification → Option NotificationStatus → Exec (Unit {0})
  apply_found (some n) (some new) = store_status n (apply_status n.status new)
  apply_found _ _ = pure tt

  -- The body of the loop of `infobip_reports`.
  unfoldable pub handle_receipt : Receipt → Exec (Unit {0})
  handle_receipt r = if not (truthy r.message_id) then pure tt else do
    found ← gets (λ w.
        first (λ (n : Notification). str_eq n.provider_message_id r.message_id) w.notifications)
    apply_found found (resolve_status r)

  unfoldable pub handle_receipts : List Receipt → Exec (Unit {0})
  handle_receipts [] = pure tt
  handle_receipts (r ∷ rest) = do handle_receipt r; handle_receipts rest

  -- The whole handler: its HTTP status. `none` is a body that is no JSON.
  unfoldable pub infobip_reports : String → Credentials → Option (List Receipt) → Exec ℕ
  infobip_reports secret request none =
      if not (request_has_secret request secret) then pure 403 else pure 400
  infobip_reports secret request (some results) =
      if not (request_has_secret request secret)
      then pure 403
      else do handle_receipts results; pure 200

  -- notifications/services.py
  unfoldable pub is_opted_out : String → Db → Bool
  is_opted_out phone db =
      if truthy phone then any (λ (o : OptOut). str_eq o.phone phone) db.opt_outs else false

  unfoldable pub opt_out : String → Exec (Unit {0})
  opt_out phone = if not (truthy phone) then pure tt else do
    known ← gets (λ w. any (λ (o : OptOut). str_eq o.phone phone) w.opt_outs)
    if known then pure tt else do
      now ← timezone_now env
      modify (λ w. record w {
        db = record w.db { opt_outs = record { phone = phone; created_at = now } ∷ w.opt_outs };
      })
