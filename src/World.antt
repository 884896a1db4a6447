-- ===== src/World.antt =====
-- The state that a request reads and writes: the database (rolled back by `transaction.atomic`), and
-- what has left the process: messages handed to the provider and tasks handed to the queue.
-- A table keeps its newest row first, the order of `Meta.ordering` for notifications and sends.
use javi.Prelude.{ℕ, String, List, Option}
use javi.Model.{
  Shop, ShopSubscription, BillingPayment, Delivery, Status, NotificationStatus, TrackingToken,
  Rating, ApiKey, IdempotencyKey, Notification, NotificationAttempt, OptOut, OutboundSend,
}
use javi.Env.{MessageText, GeocodeResult}

-- GeocodeCache of integrations/models.py
pub record GeocodeEntry : Type 0 where
  pub normalized_address : String
  pub result : GeocodeResult
  pub created_at : ℕ

pub record Db : Type 0 where
  pub shops : List Shop
  pub subscriptions : List ShopSubscription
  pub payments : List BillingPayment
  pub deliveries : List Delivery
  pub tokens : List TrackingToken
  pub ratings : List Rating
  pub notifications : List Notification
  pub attempts : List NotificationAttempt
  pub sends : List OutboundSend
  pub opt_outs : List OptOut
  pub geocodes : List GeocodeEntry
  pub api_keys : List ApiKey
  pub idempotency_keys : List IdempotencyKey
  pub next_id : ℕ

pub record Message : Type 0 where
  pub phone : String
  pub text : MessageText

-- The events of the outgoing webhooks.
pub data Event : Type 0 where
  delivery_started delivery_delivered rating_created : Event
  notification_delivered notification_read notification_failed : Event

-- The `extra` of an event.
pub data Extra : Type 0 where
  no_extra : Extra
  of_notification : (status : NotificationStatus) (channel : String) → Extra
  of_rating : (value : ℕ) → Extra

pub record Payload : Type 0 where
  pub id : ℕ
  pub status : Status
  pub recipient_name : String
  pub recipient_phone : String
  pub tracking_token : Option String
  pub extra : Extra

pub data Task : Type 0 where
  send_rating : (delivery_id run_at : ℕ) → Task
  escalate : (delivery_id run_at : ℕ) → Task
  webhook : (url secret : String) (event : Event) (payload : Payload) (sent_at : ℕ) → Task

pub record World : Type 0 where
  pub db : Db
  pub open db use *
  pub outbox : List Message
  pub tasks : List Task
  pub calls : ℕ
