-- ===== src/Model/Notices.antt =====
-- notifications/models.py: messages to recipients, attempts by channel, opt-outs, the send log.
use javi.Prelude.{ℕ, String, Bool, true, false, Option}

-- Notification.Kind
pub data Kind : Type 0 where
  on_the_way rating_request : Kind

abbrev pub is_start_notice : Kind → Bool
is_start_notice on_the_way = true
is_start_notice rating_request = false

abbrev pub is_rating_notice : Kind → Bool
is_rating_notice on_the_way = false
is_rating_notice rating_request = true

-- Notification.Status
pub data NotificationStatus : Type 0 where
  queued sent delivered read failed : NotificationStatus

pub record Notification : Type 0 where
  pub id : ℕ
  pub delivery_id : ℕ
  pub kind : Kind
  pub channel : String
  pub provider_message_id : String
  pub logical_message_id : ℕ
  pub status : NotificationStatus
  pub sent_at : Option ℕ
  pub created_at : ℕ

pub record NotificationAttempt : Type 0 where
  pub notification_id : ℕ
  pub channel : String
  pub succeeded : Bool
  pub provider_message_id : String
  pub attempt_no : ℕ

pub record OptOut : Type 0 where
  pub phone : String
  pub created_at : ℕ

-- OutboundSend.Kind
pub data SendKind : Type 0 where
  on_the_way resend rating_request : SendKind

abbrev pub is_resend : SendKind → Bool
is_resend resend = true
is_resend _ = false

-- `shop` and `delivery` are nullable foreign keys (SET_NULL).
pub record OutboundSend : Type 0 where
  pub shop_id : Option ℕ
  pub delivery_id : Option ℕ
  pub phone : String
  pub kind : SendKind
  pub created_at : ℕ
