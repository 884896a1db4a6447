-- ===== src/Pages/Keys.antt =====
-- deliveries/views.py and deliveries/models.py: the API keys that a shop makes and revokes.
pub mod Shown
pub mod Limit
use javi.Prelude.{
  ℕ, suc, String, Bool, true, false, not, ◌&&◌, ◌==◌, str_eq, leb, any, count, first, update_where,
  Option, none, some, List, [], ◌∷◌, is_none, if◌then◌else◌,
}
use Prim.Native.String.{◌++◌, slice}
use javi.Model.{Shop, ApiKey}
use javi.Env.{Env}
use javi.World.{World, Db}
use javi.Exec.{Exec, pure, gets, modify, ◌>>=◌, ◌>>◌}
use javi.Runtime.{timezone_now, new_tracking_token}
use javi.Pages.{
  Page, not_found, crashed, redirect, key_created, too_many_keys, no_store, key_revoked, to_profile,
}

abbrev pub api_key_prefix : String
api_key_prefix = "javi_live_"

-- `hash_api_key`, a SHA-256, and the setting API_KEYS_PER_SHOP.
pub record KeySite : Type 0 where
  pub hash_api_key : String → String
  pub api_keys_per_shop : ℕ

abbrev pub is_active_of : Shop → ApiKey → Bool
is_active_of shop k = k.shop_id == shop.id && is_none k.revoked_at

abbrev pub has_hash : String → ApiKey → Bool
has_hash hash k = str_eq k.key_hash hash

-- The token is ASCII, so its first characters are its first bytes.
unfoldable pub new_key : ℕ → ℕ → Shop → String → String → ApiKey
new_key id now shop token hash = record {
  id = id;
  shop_id = shop.id;
  prefix = slice token 0 8;
  key_hash = hash;
  name = "";
  created_at = now;
  last_used_at = none;
  revoked_at = none;
}

unfoldable pub add_api_key : ApiKey → World → World
add_api_key k w = record w {
  db = record w.db { api_keys = k ∷ w.api_keys; next_id = suc w.next_id };
}

abbrev pub revoked : ℕ → ApiKey → ApiKey
revoked now k = record k { revoked_at = some now }

unfoldable pub write_revoked : ℕ → ℕ → World → World
write_revoked id now w = record w {
  db = record w.db {
    api_keys = update_where (λ (k : ApiKey). k.id == id) (revoked now) w.api_keys;
  };
}

abbrev pub is_owned_key : Shop → ℕ → ApiKey → Bool
is_owned_key shop pk k = k.id == pk && k.shop_id == shop.id

module _ (env : Env) (site : KeySite) where
  -- The hash is unique: a second one is refused by the database.
  insert_key : ApiKey → String → Exec (Option (ApiKey × String))
  insert_key k full_key = do
    taken ← gets (λ w. any (has_hash k.key_hash) w.api_keys)
    if taken then pure none else do modify (add_api_key k); pure (some (k, full_key))

  -- `ApiKey.generate`
  unfoldable pub generate : Shop → Exec (Option (ApiKey × String))
  unfolding insert_key
  generate shop = do
    token ← new_tracking_token env
    now ← timezone_now env
    id ← gets (λ w. w.next_id)
    let full_key = api_key_prefix ++ token
    insert_key (new_key id now shop token (site.hash_api_key full_key)) full_key

  created_page : Option (ApiKey × String) → Page
  created_page none = crashed
  created_page (some (k, full_key)) = key_created k full_key

  -- `ApiKeyCreateView.post`
  unfoldable pub create_key : Option Shop → Exec Page
  unfolding created_page
  create_key none = pure (redirect (no_store ∷ []) to_profile)
  create_key (some shop) = do
    active ← gets (λ w. count (is_active_of shop) w.api_keys)
    if leb site.api_keys_per_shop active
        then pure (redirect (too_many_keys active ∷ []) to_profile)
        else do made ← generate shop; pure (created_page made)

  revoke : Option ApiKey → Exec Page
  revoke none = pure not_found
  revoke (some k) =
      if is_none k.revoked_at
      then (do
        now ← timezone_now env
        modify (write_revoked k.id now)
        pure (redirect (key_revoked ∷ []) to_profile))
      else pure (redirect (key_revoked ∷ []) to_profile)

  owned_key : Option Shop → ℕ → Db → Option ApiKey
  owned_key none pk db = none
  owned_key (some shop) pk db = first (is_owned_key shop pk) db.api_keys

  -- `ApiKeyRevokeView.post`
  unfoldable pub revoke_key : Option Shop → ℕ → Exec Page
  unfolding revoke owned_key
  revoke_key account pk = do k ← gets (λ w. owned_key account pk w.db); revoke k
