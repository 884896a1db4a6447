-- ===== src/Model/Deliveries.antt =====
-- deliveries/models.py: shops, deliveries, tracking tokens and API keys.
use javi.Prelude.{ℕ, String, Bool, true, false, Option}

-- A coordinate is stored, compared with `None` and passed on; it is kept in units of 1e-7 degrees.
abbrev pub Coordinate : Type 0
Coordinate = ℕ

pub record Shop : Type 0 where
  pub id : ℕ
  pub name : String
  pub origin_address : String
  pub origin_lat : Option Coordinate
  pub origin_lng : Option Coordinate
  pub contact_phone : String
  pub webhook_url : String
  pub webhook_secret : String
  pub sending_verified : Bool
  pub daily_send_limit : Option ℕ
  pub monthly_send_limit : Option ℕ
  pub completed_expanded : Bool
  pub kanban_view : Bool
  pub created_at : ℕ

-- Delivery.Status
pub data Status : Type 0 where
  new created on_the_way delivered : Status

abbrev pub is_new : Status → Bool
is_new new = true
is_new _ = false

abbrev pub is_on_the_way : Status → Bool
is_on_the_way on_the_way = true
is_on_the_way _ = false

abbrev pub is_delivered : Status → Bool
is_delivered delivered = true
is_delivered _ = false

-- Delivery.Source
pub data Source : Type 0 where
  manual api : Source

pub data EtaSource : Type 0 where
  blank auto manual : EtaSource

pub record Delivery : Type 0 where
  pub id : ℕ
  pub shop_id : ℕ
  pub recipient_name : String
  pub recipient_phone : String
  pub phone_risk : Bool
  pub dest_address : String
  pub dest_city : String
  pub dest_lat : Option Coordinate
  pub dest_lng : Option Coordinate
  pub description : String
  pub recipient_language : String
  pub source : Source
  pub status : Status
  pub eta_at : Option ℕ
  pub eta_source : EtaSource
  pub started_at : Option ℕ
  pub delivered_at : Option ℕ
  pub deleted_at : Option ℕ
  pub pii_purged_at : Option ℕ
  pub created_at : ℕ

pub record TrackingToken : Type 0 where
  pub delivery_id : ℕ
  pub token : String
  pub expires_at : Option ℕ

pub record Rating : Type 0 where
  pub delivery_id : ℕ
  pub value : ℕ

-- ApiIdempotencyKey
pub record IdempotencyKey : Type 0 where
  pub shop_id : ℕ
  pub key : String
  pub delivery_id : ℕ

pub record ApiKey : Type 0 where
  pub id : ℕ
  pub shop_id : ℕ
  pub prefix : String
  pub key_hash : String
  pub name : String
  pub created_at : ℕ
  pub last_used_at : Option ℕ
  pub revoked_at : Option ℕ
