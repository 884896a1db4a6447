-- ===== src/Deliveries/Edit.antt =====
-- deliveries/services.py: the origin of a shop, a new delivery, and the edit of a delivery.
pub mod Safe
pub mod Done
use javi.Prelude.{
  ℕ, suc, String, Bool, true, false, not, ◌&&◌, ◌||◌, Option, none, some, List, [], ◌∷◌, ◌==◌,
  str_eq, update_where, if◌then◌else◌, is_some, get_or,
}
use javi.Model.{Shop, Delivery, Status, Source, EtaSource, Coordinate, is_on_the_way, is_delivered}
use javi.Env.{Env, GeocodeResult}
use javi.World.{World, send_rating}
use javi.Exec.{Exec, Error, value_error, ok, pure, raise, gets, modify, ◌>>=◌, ◌>>◌}
use javi.Runtime.{tick, timezone_now, enqueue}
use javi.Timewindow.{rating_send_time}
use javi.Deliveries.{write_delivery}
use javi.Deliveries.Messages.{PhoneResult}

abbrev pub with_origin : GeocodeResult → Shop → Shop
with_origin geo shop = record shop {
  origin_address = geo.formatted_address;
  origin_lat = some geo.lat;
  origin_lng = some geo.lng;
}

abbrev pub address_or : Option GeocodeResult → String → String
address_or none address = address
address_or (some geo) address = geo.formatted_address

abbrev pub city_of : Option GeocodeResult → String
city_of none = ""
city_of (some geo) = geo.city

abbrev pub lat_of : Option GeocodeResult → Option Coordinate
lat_of none = none
lat_of (some geo) = some geo.lat

abbrev pub lng_of : Option GeocodeResult → Option Coordinate
lng_of none = none
lng_of (some geo) = some geo.lng

pub record EditResult : Type 0 where
  pub changed : List String
  pub geocoded : Bool

-- The arguments of `update_delivery`.
pub record Edit : Type 0 where
  pub recipient_name : String
  pub phone : PhoneResult
  pub dest_address : String
  pub description : String
  pub language : String
  pub eta_at : Option ℕ

abbrev pub differs : Option ℕ → Option ℕ → Bool
differs none none = false
differs (some a) (some b) = not (a == b)
differs _ _ = true

-- What an edit finds changed; a new address comes with the answer of the geocoder.
pub record Changes : Type 0 where
  pub name : Bool
  pub phone : Bool
  pub description : Bool
  pub language : Bool
  pub address : Bool
  pub eta : Bool

abbrev pub any_change : Changes → Bool
any_change c = c.name || c.phone || c.description || c.language || c.address || c.eta

abbrev pub listed : Bool → String → List String → List String
listed true field rest = field ∷ rest
listed false field rest = rest

-- The names of the changed fields, sorted.
unfoldable pub changed_fields : Changes → List String
changed_fields c = listed c.address "dest_address" (
    listed c.description "description" (
      listed c.eta "eta_at" (
        listed c.language "recipient_language"
          (listed c.name "recipient_name" (listed c.phone "recipient_phone" [])))))

-- `setattr` and `save(update_fields=...)` for the changed fields.
unfoldable pub edited : Edit → Changes → Option GeocodeResult → String → Delivery → Delivery
edited e c geo address d = record d {
  recipient_name = if c.name then e.recipient_name else d.recipient_name;
  recipient_phone = if c.phone then e.phone.e164 else d.recipient_phone;
  phone_risk = if c.phone then e.phone.is_risky else d.phone_risk;
  description = if c.description then e.description else d.description;
  recipient_language = if c.language then e.language else d.recipient_language;
  dest_address = if c.address then address_or geo address else d.dest_address;
  dest_city = if c.address then city_of geo else d.dest_city;
  dest_lat = if c.address then lat_of geo else d.dest_lat;
  dest_lng = if c.address then lng_of geo else d.dest_lng;
  eta_at = if c.eta then e.eta_at else d.eta_at;
  eta_source = if c.eta then EtaSource.manual else d.eta_source;
}

module _ (env : Env) where
  -- `get_maps_provider().geocode(address)`
  abbrev pub geocode : String → Exec (Option GeocodeResult)
  geocode address w = (ok (env.geocode w.calls address), tick w)

  unfoldable pub store_origin : Shop → Option GeocodeResult → Exec (Shop × Bool)
  store_origin shop none = pure (shop, false)
  store_origin shop (some geo) = do
    modify (λ w. record w {
      db = record w.db {
        shops = update_where (λ (s : Shop). s.id == shop.id) (with_origin geo) w.shops;
      };
    })
    pure (with_origin geo shop, true)

  unfoldable pub set_shop_origin : Shop → String → Exec (Shop × Bool)
  set_shop_origin shop raw_address = do result ← geocode raw_address; store_origin shop result

  unfoldable pub new_delivery : ℕ → ℕ → Shop → Edit → Option GeocodeResult → Delivery
  new_delivery id now shop e geo = record {
    id = id;
    shop_id = shop.id;
    recipient_name = e.recipient_name;
    recipient_phone = e.phone.e164;
    phone_risk = e.phone.is_risky;
    dest_address = address_or geo e.dest_address;
    dest_city = city_of geo;
    dest_lat = lat_of geo;
    dest_lng = lng_of geo;
    description = e.description;
    recipient_language = e.language;
    source = Source.manual;
    status = Status.new;
    eta_at = none;
    eta_source = EtaSource.blank;
    started_at = none;
    delivered_at = none;
    deleted_at = none;
    pii_purged_at = none;
    created_at = now;
  }

  unfoldable pub create_delivery : Shop → Edit → Exec (Delivery × Bool)
  create_delivery shop e = do
    geo ← geocode e.dest_address
    now ← timezone_now env
    id ← gets (λ w. w.next_id)
    modify (λ w. record w {
      db = record w.db {
        deliveries = new_delivery id now shop e geo ∷ w.deliveries;
        next_id = suc id;
      };
    })
    pure (new_delivery id now shop e geo, is_some geo)

  unfoldable pub changes_of : Edit → Delivery → Changes
  changes_of e d = record {
    name = not (str_eq e.recipient_name d.recipient_name);
    phone = not (str_eq e.phone.e164 d.recipient_phone);
    description = not (str_eq e.description d.description);
    language = not (str_eq e.language d.recipient_language);
    address = not (str_eq (env.strip e.dest_address) d.dest_address);
    eta = is_some e.eta_at && is_on_the_way d.status && differs e.eta_at d.eta_at;
  }

  -- The geocoder is asked only for a new address.
  unfoldable pub geocode_if : Bool → String → Exec (Option GeocodeResult)
  geocode_if true address = geocode address
  geocode_if false address = pure none

  unfoldable pub reschedule : ℕ → Bool → Option ℕ → Exec (Unit {0})
  reschedule id true (some eta_at) = enqueue env (send_rating id (rating_send_time env eta_at))
  reschedule id _ _ = pure tt

  unfoldable pub save_edit :
      Delivery → Edit → Changes → Option GeocodeResult → Exec (Delivery × EditResult)
  save_edit d e c geo =
      if not (any_change c) then pure (d, record { changed = []; geocoded = true }) else do
        let address = env.strip e.dest_address
        modify (write_delivery d.id (edited e c geo address))
        reschedule d.id c.eta e.eta_at
        pure (
          edited e c geo address d,
          record { changed = changed_fields c; geocoded = not c.address || is_some geo },
        )

  unfoldable pub update_delivery : Delivery → Edit → Exec (Delivery × EditResult)
  update_delivery d e =
      if is_delivered d.status
      then raise value_error
      else do let c = changes_of e d; geo ← geocode_if c.address e.dest_address; save_edit d e c geo
