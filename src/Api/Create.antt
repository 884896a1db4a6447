-- ===== src/Api/Create.antt =====
-- deliveries/api.py: a new delivery, which a client may ask for again under the same Idempotency-Key.
pub mod Again
pub mod Twice
use javi.Prelude.{
  ℕ, String, Bool, true, false, not, ◌&&◌, Option, none, some, List, [], ◌∷◌, ◌==◌, str_eq, first,
  select, if◌then◌else◌, truthy,
}
use javi.Model.{Shop, Delivery, Source, IdempotencyKey}
use javi.Env.{Env}
use javi.World.{World, Db}
use javi.Exec.{Exec, pure, gets, modify, ◌>>=◌, ◌>>◌}
use javi.Deliveries.{delivery_row, write_delivery}
use javi.Deliveries.Edit.{Edit, create_delivery}
use javi.Deliveries.Messages.{PhoneResult}

-- The fields of a body that the serializer takes.
pub record CreateForm : Type 0 where
  pub recipient_name : String
  pub recipient_phone : String
  pub address : String
  pub description : String
  pub language : String

pub data CreateBody : Type 0 where
  fields_missing invalid : CreateBody
  valid : CreateForm → CreateBody

pub data CreateAnswer : Type 0 where
  missing_fields invalid_request invalid_language invalid_phone : CreateAnswer
  made : Delivery → CreateAnswer

-- common/phone.py and common/i18n.py
pub record Readers : Type 0 where
  pub normalize_phone : String → Option PhoneResult
  pub supported_language : String → Option String
  pub default_language : String

abbrev pub is_key : ℕ → String → IdempotencyKey → Bool
is_key shop key k = k.shop_id == shop && str_eq k.key key

unfoldable pub key_row : Shop → String → Db → Option IdempotencyKey
key_row shop key db = first (is_key shop.id key) db.idempotency_keys

unfoldable pub delivery_of : Option IdempotencyKey → Db → Option Delivery
delivery_of none db = none
delivery_of (some k) db = delivery_row k.delivery_id db

unfoldable pub is_api : Source → Bool
is_api Source.api = true
is_api Source.manual = false

unfoldable pub as_api : Delivery → Delivery
as_api d = record d { source = Source.api }

unfoldable pub mark_api : Delivery → Exec Delivery
unfolding is_api as_api
mark_api d =
    if is_api d.source then pure d else do modify (write_delivery d.id as_api); pure (as_api d)

unfoldable pub add_key : Shop → String → Delivery → World → World
add_key shop key d w = record w {
  db = record w.db {
    idempotency_keys =
        record { shop_id = shop.id; key = key; delivery_id = d.id } ∷ w.idempotency_keys;
  };
}

-- `delivery.delete()`
unfoldable pub delete_row : ℕ → World → World
delete_row id w = record w {
  db = record w.db { deliveries = select (λ (d : Delivery). not (d.id == id)) w.deliveries };
}

-- The key is taken: the delivery that it names is answered, and the new one deleted.
unfoldable pub lose : Delivery → Option Delivery → Exec Delivery
lose d none = pure d
lose d (some winner) = do modify (delete_row d.id); pure winner

unfoldable pub store_key : Shop → String → Delivery → Option IdempotencyKey → Exec Delivery
store_key shop key d none = do modify (add_key shop key d); pure d
store_key shop key d (some k) = do winner ← gets (λ w. delivery_of (some k) w.db); lose d winner

-- What comes before the insertion of the key: an answer, or a new delivery.
pub data Begun : Type 0 where
  known fresh : Delivery → Begun

unfoldable pub finish_create : Shop → String → Begun → Exec Delivery
finish_create shop key (known d) = pure d
finish_create shop key (fresh d) =
    if not (truthy key)
    then pure d
    else do k ← gets (λ w. key_row shop key w.db); store_key shop key d k

module _ (env : Env) where
  unfoldable pub save_new : Shop → Edit → Exec Delivery
  save_new shop edit = do created ← create_delivery env shop edit; mark_api created.0

  unfoldable pub begin_with : Shop → Edit → Option Delivery → Exec Begun
  begin_with shop edit (some d) = pure (known d)
  begin_with shop edit none = do d ← save_new shop edit; pure (fresh d)

  unfoldable pub begin_create : Shop → String → Edit → Exec Begun
  unfolding begin_with
  begin_create shop key edit =
      if truthy key
      then (do d ← gets (λ w. delivery_of (key_row shop key w.db) w.db); begin_with shop edit d)
      else begin_with shop edit none

  unfoldable pub create_once : Shop → String → Edit → Exec Delivery
  create_once shop key edit = do begun ← begin_create shop key edit; finish_create shop key begun

  module _ (readers : Readers) where
    create_made : Shop → String → Edit → Exec CreateAnswer
    create_made shop key edit = do d ← create_once shop key edit; pure (made d)

    language_of : String → Option String
    language_of raw =
        if truthy raw then readers.supported_language raw else some readers.default_language

    create_to : Shop → String → CreateForm → String → Option PhoneResult → Exec CreateAnswer
    unfolding create_made
    create_to shop key form language none = pure invalid_phone
    create_to shop key form language (some phone) = create_made shop key (record {
      recipient_name = env.strip form.recipient_name;
      phone = phone;
      dest_address = env.strip form.address;
      description = env.strip form.description;
      language = language;
      eta_at = none;
    })

    create_in : Shop → String → CreateForm → Option String → Exec CreateAnswer
    unfolding create_to
    create_in shop key form none = pure invalid_language
    create_in shop key form (some language) =
        if truthy (env.strip form.recipient_name)
          && truthy (env.strip form.recipient_phone)
          && truthy (env.strip form.address)
        then create_to shop key form language
            (readers.normalize_phone (env.strip form.recipient_phone))
        else pure missing_fields

    -- `DeliveriesCollectionView.post`
    unfoldable pub create : Shop → String → CreateBody → Exec CreateAnswer
    unfolding create_in language_of
    create shop header fields_missing = pure missing_fields
    create shop header invalid = pure invalid_request
    create shop header (valid form) =
        create_in shop (env.strip header) form (language_of (env.strip form.language))
