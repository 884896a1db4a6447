-- ===== src/Pages/Keys/Limit.antt =====
-- How many keys of a shop are active at a time.
use javi.Prelude.{
  ℕ, ◌≤◌, ◌<◌, ◌&&◌, ◌==◌, leb, any, count, first, update_where, Option, none, some, List, [], ◌∷◌,
  is_none, ◌≡◌, refl, ap, ==_iff, arith, Bool-cases, Option-cases, inl, inr,
}
use javi.Model.{Shop, ApiKey}
use javi.Env.{Env}
use javi.World.{World}
use javi.Runtime.{tick}
use Prim.Native.String.{◌++◌}
use javi.Pages.Keys.{
  api_key_prefix, has_hash, KeySite, is_active_of, new_key, add_api_key, revoked, write_revoked,
  is_owned_key, generate, create_key, revoke_key,
}

-- A POST of the profile's page about the keys.
pub data KeyPost : Type 0 where
  make : Option Shop → KeyPost
  take_back : Option Shop → (pk : ℕ) → KeyPost

abbrev pub active : Shop → World → ℕ
active shop w = count (is_active_of shop) w.api_keys

revoked-le :
    (shop : Shop) (id now : ℕ) (rows : List ApiKey)
    → count (is_active_of shop) (update_where (λ (k : ApiKey). k.id == id) (revoked now) rows)
      ≤ count (is_active_of shop) rows
unfolding count update_where
revoked-le shop id now [] = omega arith
revoked-le shop id now (k ∷ rows) = ground (arith, revoked-le shop id now rows)

module _ (env : Env) (site : KeySite) where
  unfoldable pub key_posts : List KeyPost → World → World
  key_posts [] w = w
  key_posts (make account ∷ rest) w = key_posts rest (create_key env site account w).1
  key_posts (take_back account pk ∷ rest) w = key_posts rest (revoke_key env site account pk w).1

  revoke_key-le :
      (account : Option Shop) (pk : ℕ) (shop : Shop) (w : World)
      → active shop (revoke_key env site account pk w).1 ≤ active shop w
  unfolding revoke_key write_revoked
  revoke_key-le none pk shop w = omega arith
  revoke_key-le (some own) pk shop w =
      elim (Option-cases (first (is_owned_key own pk) w.api_keys)) [
        | inl missing ↦ rw missing (omega arith)
        | inr (k, found) ↦ elim (Bool-cases (is_none k.revoked_at)) [
          | inl live ↦ rw (found, live) (revoked-le shop k.id (env.clock w.calls) w.api_keys)
          | inr dead ↦ rw (found, dead) (omega arith)
        ]
      ]

  -- A key of one shop is none of the others.
  one_more :
      (own shop : Shop) (k : ApiKey) (rows : List ApiKey)
      → k.shop_id ≡ own.id
      → count (is_active_of own) rows < site.api_keys_per_shop
      → count (is_active_of shop) rows ≤ site.api_keys_per_shop
      → count (is_active_of shop) (k ∷ rows) ≤ site.api_keys_per_shop
  unfolding count
  one_more own shop k rows of_own few h = elim (Bool-cases (own.id == shop.id)) [
    | inl same ↦
        let e = (==_iff own.id shop.id).0 same in
        let counts =
          ap (λ (i : ℕ). count (λ (r : ApiKey). r.shop_id == i && is_none r.revoked_at) rows) e in
        ground (arith, counts, few)
    | inr different ↦ ground (arith, different, of_own, h)
  ]

  create_key-le :
      (account : Option Shop) (shop : Shop) (w : World)
      → active shop w ≤ site.api_keys_per_shop
      → active shop (create_key env site account w).1 ≤ site.api_keys_per_shop
  unfolding create_key generate add_api_key new_key
  create_key-le none shop w h = h
  create_key-le (some own) shop w h =
      let token = env.token_urlsafe w.calls in
      let hash = site.hash_api_key (api_key_prefix ++ token) in
      elim (Bool-cases (leb site.api_keys_per_shop (count (is_active_of own) w.api_keys))) [
        | inl many ↦ rw many h
        | inr few ↦ elim (Bool-cases (any (has_hash hash) w.api_keys)) [
          | inl taken ↦ rw (few, taken) h
          | inr fresh ↦
              rw (few, fresh)
                (one_more own shop (new_key w.next_id (env.clock (tick w).calls) own token hash)
                  w.api_keys refl (ground (arith, few)) h)
        ]
      ]

  -- Whatever keys the accounts make and revoke, one after the other: a shop that had no more active
  -- keys than the limit never has more.
  pub key_posts-le :
      (posts : List KeyPost) (shop : Shop) (w : World)
      → active shop w ≤ site.api_keys_per_shop
      → active shop (key_posts posts w) ≤ site.api_keys_per_shop
  unfolding key_posts
  key_posts-le [] shop w h = h
  key_posts-le (make account ∷ rest) shop w h =
      key_posts-le rest shop (create_key env site account w).1 (create_key-le account shop w h)
  key_posts-le (take_back account pk ∷ rest) shop w h =
      key_posts-le rest shop (revoke_key env site account pk w).1
        (omega (arith, revoke_key-le account pk shop w, h))
