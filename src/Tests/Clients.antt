-- ===== src/Tests/Clients.antt =====
-- A client of the API creates a delivery twice, sends a revoked key, and changes its profile.
use javi.Prelude.{String, ◌≡◌, refl, true, false, none, some, [], ◌∷◌, first, arith}
use javi.Model.{Delivery, Source, ApiKey}
use javi.World.{World}
use javi.Exec.{ok}
use javi.Api.Create.{
  key_row, fresh, begin_create, create_once, begin_with, save_new, mark_api, is_api, as_api,
  finish_create, store_key, delivery_of, Readers, CreateForm, valid, made, create,
}
use javi.Api.Create.Again.{IsAnswered, create_again}
use javi.Api.Create.Twice.{IsSettled, create_race}
use javi.Api.Keys.{KeyHeaders, read_api_key, live_key}
use javi.Api.Lists.{ListQuery, ShopPatch}
use javi.Deliveries.{write_delivery}
use javi.Deliveries.Edit.{Edit, new_delivery, create_delivery}
use javi.Tests.Sample.{env, world, shop, noon}

abbrev edit : Edit
edit = record {
  recipient_name = "Ana";
  phone = record { e164 = "+381601234567"; is_risky = false };
  dest_address = "Bulevar 2";
  description = "";
  language = "sr-latn";
  eta_at = none;
}

free : key_row shop "order-1" world.db ≡ none
unfolding key_row first
free = refl

abbrev readers : Readers
readers = record {
  normalize_phone = λ raw. some (record { e164 = raw; is_risky = false });
  supported_language = λ code. some code;
  default_language = "sr-latn";
}

abbrev form : CreateForm
form = record {
  recipient_name = "Ana";
  recipient_phone = "+381601234567";
  address = "Bulevar 2";
  description = "";
  language = "sr-latn";
}

abbrev ordered : Delivery
ordered = record (new_delivery env world.next_id noon shop edit none) { source = Source.api }

makes : (create env readers shop "order-1" (valid form) world).0 ≡ ok (made ordered)
unfolding create create_once begin_create begin_with save_new create_delivery mark_api is_api as_api
    new_delivery finish_create store_key key_row delivery_of first write_delivery
makes = refl

create_again_example :
    IsAnswered env readers shop "order-1" ordered
      (valid (record form { address = "Bulevar 3" }))
      (create env readers shop "order-1" (valid form) world).1
create_again_example =
    create_again env readers shop "order-1" (valid form)
      (valid (record form { address = "Bulevar 3" })) ordered world refl free makes

create_race_example :
    let a_begun = begin_create env shop "order-1" edit world in
    let b_begun = begin_create env shop "order-1" edit a_begun.1 in
    (a : Delivery) × (b : Delivery) × (a_begun.0 ≡ ok (fresh a))
    × (b_begun.0 ≡ ok (fresh b))
    × IsSettled shop "order-1" a b b_begun.1
    × IsSettled shop "order-1" b a b_begun.1
create_race_example = create_race env shop "order-1" edit edit world refl free

abbrev revoked : ApiKey
revoked = record {
  id = 1;
  shop_id = 1;
  prefix = "javi";
  key_hash = "k1";
  name = "";
  created_at = 0;
  last_used_at = none;
  revoked_at = some 5;
}

abbrev keyed : World
keyed = record world { db = record world.db { api_keys = revoked ∷ [] } }

abbrev headers : KeyHeaders
headers = record { authorization = "Bearer k1"; bearer = "k1"; x_api_key = "" }

abbrev hash : String → String
hash raw = raw

dead :
    (raw : String)
    → read_api_key env hash headers ≡ some raw
    → live_key env hash raw keyed.db ≡ none
unfolding live_key first
dead raw given = ground arith

abbrev all_active : ListQuery
all_active = record { deleted = false; status = ""; newest_first = true }

abbrev renamed : ShopPatch
renamed = record {
  name = some "Cvet";
  webhook_url = none;
  webhook_secret = none;
  address = some "Kneza Milosa 3";
}
