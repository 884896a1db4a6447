-- ===== src/Api/Lists.antt =====
-- deliveries/api.py: the list of a shop's deliveries, the form of a delivery in an answer, the ETA
-- of a request, and the profile of the shop.
pub mod Rows
pub mod Profile
use javi.Prelude.{
  ℕ, String, Bool, true, false, not, ◌&&◌, ◌||◌, ◌==◌, str_eq, leb, Option, none, some, List, [],
  ◌∷◌, ◌++◌, map, first, select, update_where, if◌then◌else◌, is_some, is_none, truthy,
}
use javi.Model.{
  Shop, Delivery, Status, new, created, on_the_way, delivered, Source, Notification,
  NotificationStatus, is_start_notice, TrackingToken,
}
use javi.Env.{Env, LocalTime}
use javi.World.{World, Db}
use javi.Exec.{Exec, pure, gets, modify, ◌>>=◌, ◌>>◌}
use javi.Runtime.{timezone_now}
use javi.Webhooks.{token_of}
use javi.Deliveries.Edit.{set_shop_origin}
use javi.Api.{standard_status, status_of_standard}

pub record SerializedDelivery : Type 0 where
  pub id : ℕ
  pub status : String
  pub status_internal : Status
  pub tracking_token : Option String
  pub recipient_name : String
  pub recipient_phone : String
  pub language : String
  pub description : String
  pub dest_address : String
  pub dest_city : String
  pub eta : Option (ℕ × ℕ)
  pub notification : Option (String × NotificationStatus)
  pub source : Source
  pub deleted : Bool
  pub created_at : ℕ

pub record ListQuery : Type 0 where
  pub deleted : Bool
  pub status : String
  pub newest_first : Bool

pub record SerializedShop : Type 0 where
  pub name : String
  pub address : String
  pub geocoded : Bool
  pub webhook_url : String
  pub webhook_configured : Bool

-- The fields that a PATCH names, as the serializer has them.
pub record ShopPatch : Type 0 where
  pub name : Option String
  pub webhook_url : Option String
  pub webhook_secret : Option String
  pub address : Option String

-- The ETA that a request names.
pub data ParsedEta : Type 0 where
  no_eta invalid_eta : ParsedEta
  eta : ℕ → ParsedEta

-- `datetime.strptime(text, "%H:%M")` and `datetime.fromisoformat`, in Belgrade where it has no
-- offset.
pub record EtaReaders : Type 0 where
  pub strptime : String → Option (ℕ × ℕ)
  pub fromisoformat : String → Option ℕ

status_code : Status → String
status_code new = "new"
status_code created = "created"
status_code on_the_way = "on_the_way"
status_code delivered = "delivered"

has_status : Option Status → String → Delivery → Bool
unfolding status_code
has_status (some s) text d = str_eq (status_code d.status) (status_code s)
has_status none text d = str_eq (status_code d.status) text

-- The filters of the list.
unfoldable pub is_listed : Shop → ListQuery → Delivery → Bool
unfolding has_status
is_listed shop q d =
    d.shop_id == shop.id
    && (if q.deleted then is_some d.deleted_at else is_none d.deleted_at)
    && is_none d.pii_purged_at
    && (if truthy q.status then has_status (status_of_standard q.status) q.status d else true)

unfoldable pub reversed : {A : Type 0} → List A → List A
reversed [] = []
reversed (x ∷ xs) = reversed xs ++ x ∷ []

-- A table has its newest row first.
unfoldable pub listed_rows : Shop → ListQuery → Db → List Delivery
listed_rows shop q db =
    let rows = select (is_listed shop q) db.deliveries in
    if q.newest_first then rows else reversed rows

token_text_of : Option TrackingToken → Option String
token_text_of none = none
token_text_of (some t) = some t.token

notification_of : Option Notification → Option (String × NotificationStatus)
notification_of none = none
notification_of (some n) = some (n.channel, n.status)

unfoldable pub serialize_shop : Shop → SerializedShop
serialize_shop shop = record {
  name = shop.name;
  address = shop.origin_address;
  geocoded = is_some shop.origin_lat && is_some shop.origin_lng;
  webhook_url = shop.webhook_url;
  webhook_configured = truthy shop.webhook_url && truthy shop.webhook_secret;
}

set_name : Option String → Shop → Shop
set_name none s = s
set_name (some v) s = record s { name = v }

set_url : Option String → Shop → Shop
set_url none s = s
set_url (some v) s = record s { webhook_url = v }

set_secret : Option String → Shop → Shop
set_secret none s = s
set_secret (some v) s = record s { webhook_secret = v }

unfoldable pub patched : ShopPatch → Shop → Shop
unfolding set_name set_url set_secret
patched patch s =
    set_secret patch.webhook_secret (set_url patch.webhook_url (set_name patch.name s))

unfoldable pub save_shop : ShopPatch → Shop → Exec (Unit {0})
save_shop patch shop =
    if is_some patch.name || is_some patch.webhook_url || is_some patch.webhook_secret
    then modify (λ w. record w {
      db = record w.db {
        shops = update_where (λ (s : Shop). s.id == shop.id) (patched patch) w.shops;
      };
    })
    else pure tt

module _ (env : Env) where
  -- `format_eta`
  format_eta : Option ℕ → Option (ℕ × ℕ)
  format_eta none = none
  format_eta (some t) = let local = env.localtime t in some (local.hour, local.minutes)

  unfoldable pub serialize_delivery : (String → String) → Db → Delivery → SerializedDelivery
  unfolding format_eta token_text_of notification_of
  serialize_delivery base_language db d =
      let notice =
        first (λ (n : Notification). n.delivery_id == d.id && is_start_notice n.kind)
          db.notifications in
      record {
        id = d.id;
        status = standard_status d.status;
        status_internal = d.status;
        tracking_token = token_text_of (token_of db d.id);
        recipient_name = d.recipient_name;
        recipient_phone = d.recipient_phone;
        language = base_language d.recipient_language;
        description = d.description;
        dest_address = d.dest_address;
        dest_city = d.dest_city;
        eta = format_eta d.eta_at;
        notification = notification_of notice;
        source = d.source;
        deleted = is_some d.deleted_at;
        created_at = d.created_at;
      }

  -- `DeliveriesCollectionView.get`
  unfoldable pub list : (String → String) → Shop → ListQuery → Exec (List SerializedDelivery)
  list base_language shop q =
      gets (λ w. map (serialize_delivery base_language w.db) (listed_rows shop q w.db))

  unfoldable pub eta_today : ℕ × ℕ → Exec ℕ
  eta_today (hour, minutes) = do
    now ← timezone_now env
    pure (
        env.instant (record (env.localtime now) {
          hour = hour;
          minutes = minutes;
          seconds = 0;
          microsecond = 0;
        }))

  unfoldable pub in_future : ℕ → Exec ParsedEta
  in_future eta_at = do
    now ← timezone_now env
    pure (if leb eta_at now then invalid_eta else eta eta_at)

  unfoldable pub eta_of_iso : Option ℕ → Exec ParsedEta
  eta_of_iso none = pure invalid_eta
  eta_of_iso (some eta_at) = in_future eta_at

  unfoldable pub eta_of_clock : Option (ℕ × ℕ) → Option ℕ → Exec ParsedEta
  unfolding eta_of_iso
  eta_of_clock none iso = eta_of_iso iso
  eta_of_clock (some parsed) iso = do eta_at ← eta_today parsed; in_future eta_at

  -- `_parse_eta`
  unfoldable pub parse_eta : EtaReaders → String → Exec ParsedEta
  unfolding eta_of_clock
  parse_eta readers raw =
      let text = env.strip raw in
      if truthy text
      then eta_of_clock (readers.strptime text) (readers.fromisoformat text)
      else pure no_eta

  unfoldable pub set_address : Shop → Option String → Exec (Shop × Bool)
  set_address shop none = pure (shop, false)
  set_address shop (some address) =
      if truthy address then set_shop_origin env shop address else pure (shop, false)

  -- `ShopView.patch`
  unfoldable pub patch_shop : Shop → ShopPatch → Exec SerializedShop
  unfolding set_address
  patch_shop shop patch = do
    save_shop patch shop
    saved ← set_address (patched patch shop) patch.address
    pure (serialize_shop saved.0)
