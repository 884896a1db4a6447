-- ===== src/Api/Keys/Scope.antt =====
-- Which requests a key lets in.
use javi.Prelude.{
  ℕ, ap, sym, String, ◌≡◌, refl, ◌∙◌, true, Option, none, some, ◌==◌, ==_iff, str_eq, first,
  first-holds, is_none, arith,
}
use javi.Model.{Shop, ApiKey}
use javi.Env.{Env}
use javi.World.{World}
use javi.Exec.{ok, pure, continue}
use javi.Api.{Action}
use javi.Api.Keys.{
  KeyHeaders, as_shop, unauthorized, is_live_key, key_shop, read_api_key, live_key, use_key,
  resolve_shop, authenticated_as, authenticate_raw, authenticate_key, request_as, api_request_of,
}

module _ (env : Env) (hash_api_key : String → String) where
  -- The key that the request carries, and that lets it in as `shop`: it is not revoked, and of that
  -- shop.
  pub record IsLetIn (h : KeyHeaders) (w : World) (shop : Shop) : Type 0 where
    pub raw : String
    pub given : read_api_key env hash_api_key h ≡ some raw
    pub key : ApiKey
    pub found : live_key env hash_api_key raw w.db ≡ some key
    pub same_hash : str_eq key.key_hash (hash_api_key raw) ≡ true
    pub not_revoked : is_none key.revoked_at ≡ true
    pub of_shop : shop.id ≡ key.shop_id

  shop_lem :
      (o : Option Shop) (k : ApiKey) (w : World) (shop : Shop)
      → first (λ (s : Shop). s.id == k.shop_id) w.shops ≡ o
      → ok (authenticated_as o) ≡ ok (as_shop shop)
      → shop.id ≡ k.shop_id
  unfolding authenticated_as
  shop_lem none k w shop e ran = cc
  shop_lem (some s) k w shop e ran =
      let same : s ≡ shop = cc in
      let holds = first-holds (λ (s : Shop). s.id == k.shop_id) w.shops s e in
      ap (λ (s : Shop). s.id) (sym same) ∙ (==_iff s.id k.shop_id).0 holds

  IsLetIn-of_key :
      (raw : String) (o : Option ApiKey) (h : KeyHeaders) (w : World) (shop : Shop)
      → read_api_key env hash_api_key h ≡ some raw
      → live_key env hash_api_key raw w.db ≡ o
      → (continue (λ (s : Option Shop). pure (authenticated_as s)) (use_key env hash_api_key o w)).0
        ≡ ok (as_shop shop)
      → IsLetIn h w shop
  unfolding use_key authenticated_as live_key key_shop
  IsLetIn-of_key raw none h w shop given found ran = cc
  IsLetIn-of_key raw (some k) h w shop given found ran =
      let live = first-holds (is_live_key (hash_api_key raw)) w.api_keys k found in
      record {
        raw = raw;
        given = given;
        key = k;
        found = found;
        same_hash = ground arith;
        not_revoked = ground arith;
        of_shop = shop_lem (first (λ (s : Shop). s.id == k.shop_id) w.shops) k w shop refl ran;
      }

  IsLetIn-raw :
      (o : Option String) (h : KeyHeaders) (w : World) (shop : Shop)
      → read_api_key env hash_api_key h ≡ o
      → (authenticate_raw env hash_api_key o w).0 ≡ ok (as_shop shop)
      → IsLetIn h w shop
  unfolding authenticate_raw resolve_shop
  IsLetIn-raw none h w shop given ran = cc
  IsLetIn-raw (some raw) h w shop given ran =
      IsLetIn-of_key raw (live_key env hash_api_key raw w.db) h w shop given refl ran

  -- A request is let in as a shop only by a key that it carries, that is not revoked, and that is
  -- of that shop.
  pub authenticate_key_lem :
      (h : KeyHeaders) (w : World) (shop : Shop)
      → (authenticate_key env hash_api_key h w).0 ≡ ok (as_shop shop)
      → IsLetIn h w shop
  unfolding authenticate_key
  authenticate_key_lem h w shop ran =
      IsLetIn-raw (read_api_key env hash_api_key h) h w shop refl ran

  closed_raw :
      (o : Option String) (pk : ℕ) (action : Action) (w : World)
      → ((raw : String) → o ≡ some raw → live_key env hash_api_key raw w.db ≡ none)
      → continue (request_as env hash_api_key pk action) (authenticate_raw env hash_api_key o w)
        ≡ (ok unauthorized, w)
  unfolding authenticate_raw resolve_shop use_key request_as authenticated_as
  closed_raw none pk action w dead = refl
  closed_raw (some raw) pk action w dead = rw (dead raw refl) refl

  -- A request without a key, or with one that is unknown or revoked, is answered 401 and changes
  -- nothing, whatever it asks for.
  api_request_of-unauthorized :
      (h : KeyHeaders) (pk : ℕ) (action : Action) (w : World)
      → ((raw : String)
          → read_api_key env hash_api_key h ≡ some raw
          → live_key env hash_api_key raw w.db ≡ none)
      → api_request_of env hash_api_key h pk action w ≡ (ok unauthorized, w)
  unfolding api_request_of authenticate_key
  api_request_of-unauthorized h pk action w dead =
      closed_raw (read_api_key env hash_api_key h) pk action w dead
