-- ===== src/Deliveries/Start.antt =====
-- `start_delivery` of deliveries/services.py in the three parts that other requests can come between:
-- before the lock, under the lock of the delivery's row (one transaction), and after the commit.
pub mod Wins
pub mod Commit
pub mod Races
pub mod Interleaving
pub mod Reach
use javi.Prelude.{
  ℕ, suc, ◌+◌, ◌*◌, String, Bool, true, false, Option, none, some, ◌∷◌, if◌then◌else◌,
}
use javi.Model.{
  Shop, Delivery, Status, EtaSource, TrackingToken, Notification, NotificationStatus, Kind,
  SendKind,
}
use javi.Env.{Env, SendResult, day}
use javi.World.{World, Db, Event, no_extra, send_rating}
use javi.Exec.{Exec, Error, does_not_exist, raise, pure, gets, modify, atomic, ◌>>=◌, ◌>>◌}
use javi.Runtime.{timezone_now, new_tracking_token, uuid4, enqueue}
use javi.Timewindow.{rating_send_time}
use javi.Webhooks.{shop_of, token_of, emit_delivery_event}
use javi.Quotas.{reserve_send}
use javi.Deliveries.{already_started, write_delivery, get_delivery}
use javi.Deliveries.Sending.{
  compute_eta, on_the_way_text, send_and_record, schedule_escalation_if_pending,
}

pub record StartResult : Type 0 where
  pub succeeded : Bool
  pub already : Bool
  pub needs_manual_eta : Bool
  pub sent : Bool
  pub eta_at : Option ℕ

abbrev pub already_result : Option ℕ → StartResult
already_result eta_at = record {
  succeeded = false;
  already = true;
  needs_manual_eta = false;
  sent = false;
  eta_at = eta_at;
}

abbrev pub manual_eta_result : StartResult
manual_eta_result = record {
  succeeded = false;
  already = false;
  needs_manual_eta = true;
  sent = false;
  eta_at = none;
}

abbrev pub started_result : Bool → ℕ → StartResult
started_result sent eta_at = record {
  succeeded = true;
  already = false;
  needs_manual_eta = false;
  sent = sent;
  eta_at = some eta_at;
}

-- `_sync_start_fields`
abbrev pub sync_start_fields : Delivery → Delivery → Delivery
sync_start_fields target source = record target {
  status = source.status;
  started_at = source.started_at;
  eta_at = source.eta_at;
  eta_source = source.eta_source;
}

abbrev pub with_start : ℕ → ℕ → EtaSource → Delivery → Delivery
with_start now eta_at eta_source d = record d {
  status = Status.on_the_way;
  started_at = some now;
  eta_at = some eta_at;
  eta_source = eta_source;
}

-- `delivery.shop`, which the foreign key guarantees
require_shop : Option Shop → Exec Shop
require_shop none = raise does_not_exist
require_shop (some shop) = pure shop

unfoldable pub get_shop : Delivery → Exec Shop
unfolding require_shop
get_shop delivery = do shop ← gets (λ w. shop_of w.db delivery); require_shop shop

-- A new notification, before it is sent.
abbrev pub queued_notification : ℕ → ℕ → Kind → ℕ → ℕ → Notification
queued_notification id delivery kind logical now = record {
  id = id;
  delivery_id = delivery;
  kind = kind;
  channel = "";
  provider_message_id = "";
  logical_message_id = logical;
  status = NotificationStatus.queued;
  sent_at = none;
  created_at = now;
}

-- What the check before the lock leads to.
pub data Checked : Type 0 where
  already : Checked
  needs_manual_eta : Checked
  ready : (eta_at : ℕ) (eta_source : EtaSource) → Checked

-- What the transaction leads to: another request was first, or this one has started the delivery (the
-- locked object keeps the shop that it has looked up).
pub data Committed : Type 0 where
  lost : (locked : Delivery) → Committed
  won : (locked : Delivery) (shop : Shop) (token : String) (notification : ℕ) → Committed

module _ (env : Env) where
  existing_or_new_token : ℕ → ℕ → Option TrackingToken → Exec String
  existing_or_new_token delivery now (some t) = pure t.token
  existing_or_new_token delivery now none = do
    token ← new_tracking_token env
    let expires_at = now + env.settings.tracking_token_ttl_days * day
    modify (λ w. record w {
      db = record w.db {
        tokens =
            record { delivery_id = delivery; token = token; expires_at = some expires_at }
            ∷ w.tokens;
      };
    })
    pure token

  -- `TrackingToken.objects.get_or_create(...)`
  unfoldable pub get_or_create_token : ℕ → ℕ → Exec String
  unfolding existing_or_new_token
  get_or_create_token delivery now = do
    token ← gets (λ w. token_of w.db delivery)
    existing_or_new_token delivery now token

  -- `Notification.objects.create(...)`, queued
  unfoldable pub create_notification : ℕ → Kind → Exec ℕ
  create_notification delivery kind = do
    logical ← uuid4 env
    now ← timezone_now env
    id ← gets (λ w. w.next_id)
    modify (λ w. record w {
      db = record w.db {
        notifications = queued_notification id delivery kind logical now ∷ w.notifications;
        next_id = suc id;
      };
    })
    pure id

  checked_eta : Option ℕ → Checked
  checked_eta none = needs_manual_eta
  checked_eta (some eta_at) = ready eta_at EtaSource.auto

  computed_check : Delivery → Option ℕ → Exec Checked
  unfolding checked_eta
  computed_check delivery (some eta_at) = pure (ready eta_at EtaSource.manual)
  computed_check delivery none = do
    shop ← get_shop delivery
    eta_at ← compute_eta env shop delivery
    pure (checked_eta eta_at)

  -- Part one: the exit without a lock, and the ETA.
  unfoldable pub check_start : Delivery → Option ℕ → Exec Checked
  unfolding computed_check
  check_start delivery manual_eta = do
    started ← gets (λ w. already_started w.db delivery)
    if started then pure already else computed_check delivery manual_eta

  -- The writes of the transaction, once the message is reserved.
  unfoldable pub write_start : Delivery → Shop → ℕ → EtaSource → Exec Committed
  write_start locked shop eta_at eta_source = do
    now ← timezone_now env
    modify (write_delivery locked.id (with_start now eta_at eta_source))
    token ← get_or_create_token locked.id now
    notification ← create_notification locked.id Kind.on_the_way
    pure (won (with_start now eta_at eta_source locked) shop token notification)

  -- The limits come first: a message that is over them changes nothing.
  unfoldable pub win_start : Delivery → ℕ → EtaSource → Exec Committed
  win_start locked eta_at eta_source = do
    shop ← get_shop locked
    _ ←
        reserve_send env shop locked.recipient_phone SendKind.on_the_way (some locked.id)
          locked.phone_risk none
    write_start locked shop eta_at eta_source

  -- The transaction for a locked row: the second check, then the start.
  unfoldable pub commit_row : Delivery → ℕ → EtaSource → Exec Committed
  commit_row locked eta_at eta_source = do
    started ← gets (λ w. already_started w.db locked)
    if started then pure (lost locked) else win_start locked eta_at eta_source

  -- Part two: `with transaction.atomic()`.
  unfoldable pub commit_start : ℕ → ℕ → EtaSource → Exec Committed
  commit_start id eta_at eta_source =
      atomic do locked ← get_delivery id; commit_row locked eta_at eta_source

  -- Part three: the message, the tasks and the webhook.
  unfoldable pub finish_start : Delivery → ℕ → Committed → Exec (Delivery × StartResult)
  finish_start delivery eta_at (lost locked) =
      pure (sync_start_fields delivery locked, already_result locked.eta_at)
  finish_start delivery eta_at (won locked shop token notification) = do
    result ← send_and_record env notification locked (on_the_way_text shop locked token)
    enqueue env (send_rating delivery.id (rating_send_time env eta_at))
    schedule_escalation_if_pending env locked.id notification
    emit_delivery_event env locked Event.delivery_started no_extra
    pure (sync_start_fields delivery locked, started_result result.succeeded eta_at)

  unfoldable pub after_check : Delivery → Checked → Exec (Delivery × StartResult)
  after_check delivery already = pure (delivery, already_result delivery.eta_at)
  after_check delivery needs_manual_eta = pure (delivery, manual_eta_result)
  after_check delivery (ready eta_at eta_source) = do
    committed ← commit_start delivery.id eta_at eta_source
    finish_start delivery eta_at committed

  unfoldable pub start_delivery : Delivery → Option ℕ → Exec (Delivery × StartResult)
  unfolding after_check
  start_delivery delivery manual_eta = do
    checked ← check_start delivery manual_eta
    after_check delivery checked
