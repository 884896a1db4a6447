-- ===== src/Api/Keys.antt =====
-- deliveries/auth.py: the API key of a request and the shop that it stands for.
pub mod Scope
use javi.Prelude.{
  ℕ, String, Bool, true, false, not, ◌&&◌, Option, none, some, List, [], ◌∷◌, ◌==◌, str_eq, first,
  update_where, is_none, if◌then◌else◌, truthy,
}
use text.Mathlib.Text.{starts_with}
use javi.Model.{Shop, ApiKey}
use javi.Env.{Env}
use javi.World.{World, Db}
use javi.Exec.{Exec, Result, pure, gets, modify, ok, ◌>>=◌, ◌>>◌}
use javi.Runtime.{timezone_now}
use javi.Api.{Action, Answer, handle}

-- The headers; `bearer` is what stands after `Bearer ` in Authorization.
pub record KeyHeaders : Type 0 where
  pub authorization : String
  pub bearer : String
  pub x_api_key : String

-- `None`, where no key is given
unfoldable pub some_text : String → Option String
some_text s = if truthy s then some s else none

-- What `authenticate` gives: nothing, a shop, or `AuthenticationFailed`.
pub data Authenticated : Type 0 where
  anonymous failed : Authenticated
  as_shop : Shop → Authenticated

pub data ApiAnswer : Type 0 where
  unauthorized : ApiAnswer
  answer : Answer → ApiAnswer

abbrev pub is_live_key : String → ApiKey → Bool
is_live_key hash k = str_eq k.key_hash hash && is_none k.revoked_at

unfoldable pub used : ℕ → ApiKey → ApiKey
used now k = record k { last_used_at = some now }

unfoldable pub key_shop : Db → ApiKey → Option Shop
key_shop db k = first (λ (s : Shop). s.id == k.shop_id) db.shops

unfoldable pub authenticated_as : Option Shop → Authenticated
authenticated_as none = failed
authenticated_as (some shop) = as_shop shop

module _ (env : Env) (hash_api_key : String → String) where
  unfoldable pub read_api_key : KeyHeaders → Option String
  read_api_key h =
      if starts_with h.authorization "Bearer "
      then some_text (env.strip h.bearer)
      else some_text (env.strip h.x_api_key)

  unfoldable pub live_key : String → Db → Option ApiKey
  live_key raw db = first (is_live_key (hash_api_key raw)) db.api_keys

  unfoldable pub use_key : Option ApiKey → Exec (Option Shop)
  use_key none = pure none
  use_key (some k) = do
    now ← timezone_now env
    modify (λ w. record w {
      db = record w.db {
        api_keys = update_where (λ (r : ApiKey). r.id == k.id) (used now) w.api_keys;
      };
    })
    gets (λ w. key_shop w.db k)

  unfoldable pub resolve_shop : String → Exec (Option Shop)
  resolve_shop raw = do k ← gets (λ w. live_key raw w.db); use_key k

  unfoldable pub authenticate_raw : Option String → Exec Authenticated
  unfolding authenticated_as
  authenticate_raw none = pure anonymous
  authenticate_raw (some raw) = do shop ← resolve_shop raw; pure (authenticated_as shop)

  -- `ApiKeyAuthentication.authenticate`
  unfoldable pub authenticate_key : KeyHeaders → Exec Authenticated
  authenticate_key h = authenticate_raw (read_api_key h)

  -- `ApiKeyRateThrottle.get_cache_key`: the identity that is counted
  unfoldable pub throttle_ident : KeyHeaders → Option String
  throttle_ident h = elim (read_api_key h) [ none ↦ none | some raw ↦ some (hash_api_key raw) ]

  -- A request about a delivery: the framework authenticates it, and answers 401 where no shop is
  -- found.
  unfoldable pub request_as : ℕ → Action → Authenticated → Exec ApiAnswer
  request_as pk action anonymous = pure unauthorized
  request_as pk action failed = pure unauthorized
  request_as pk action (as_shop shop) = do a ← handle env shop pk action; pure (answer a)

  unfoldable pub api_request_of : KeyHeaders → ℕ → Action → Exec ApiAnswer
  api_request_of h pk action = do who ← authenticate_key h; request_as pk action who
