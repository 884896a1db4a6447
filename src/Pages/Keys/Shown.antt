-- ===== src/Pages/Keys/Shown.antt =====
-- The key that the page shows once: it lets its shop in, until it is revoked.
use javi.Prelude.{
  ℕ, String, true, false, ◌==◌, ==_refl, leb, any, count, first, first-none, update_where, eq_refl,
  none, some, List, [], ◌∷◌, is_none, ◌≡◌, refl, sym, ◌∙◌, ap, subst, arith, Bool-cases, inl, inr,
}
use Prim.Native.String.{◌++◌}
use javi.Model.{Shop, ApiKey}
use javi.Env.{Env}
use javi.World.{World}
use javi.Exec.{ok}
use javi.Runtime.{tick}
use javi.Api.Keys.{is_live_key, key_shop, live_key, use_key, resolve_shop}
use javi.Pages.{key_created}
use javi.Pages.Keys.{
  KeySite, api_key_prefix, has_hash, is_active_of, new_key, add_api_key, revoked, write_revoked,
  is_owned_key, generate, create_key, revoke_key,
}

-- What a page that shows a key has done.
pub record IsMade (site : KeySite) (shop : Shop) (k : ApiKey) (full : String) (w w' : World)
    : Type 0 where
  pub hash : k.key_hash ≡ site.hash_api_key full
  pub of_shop : k.shop_id ≡ shop.id
  pub live : is_none k.revoked_at ≡ true
  pub fresh : any (has_hash k.key_hash) w.api_keys ≡ false
  pub rows : w'.api_keys ≡ k ∷ w.api_keys
  pub shops : w'.shops ≡ w.shops

no_live :
    (hash : String) (now id : ℕ) (rows : List ApiKey)
    → any (has_hash hash) rows ≡ false
    → any (is_live_key hash) (update_where (λ (k : ApiKey). k.id == id) (revoked now) rows) ≡ false
unfolding any update_where
no_live hash now id [] h = refl
no_live hash now id (k ∷ rows) h = ground (arith, no_live hash now id rows)

module _ (env : Env) (site : KeySite) where
  -- The world after the insertion.
  abbrev made_key : Shop → World → ApiKey
  made_key shop w =
      let token = env.token_urlsafe w.calls in
      new_key w.next_id (env.clock (tick w).calls) shop token
        (site.hash_api_key (api_key_prefix ++ token))

  made_page :
      (shop : Shop) (w : World)
      → leb site.api_keys_per_shop (count (is_active_of shop) w.api_keys) ≡ false
      → any (has_hash (made_key shop w).key_hash) w.api_keys ≡ false
      → create_key env site (some shop) w ≡ (
        ok (key_created (made_key shop w) (api_key_prefix ++ env.token_urlsafe w.calls)),
        add_api_key (made_key shop w) (tick (tick w)),
      )
  unfolding create_key generate add_api_key new_key
  made_page shop w few fresh = rw (few, fresh) refl

  create_key-IsMade :
      (shop : Shop) (k : ApiKey) (full : String) (w w' : World)
      → create_key env site (some shop) w ≡ (ok (key_created k full), w')
      → IsMade site shop k full w w'
  unfolding create_key generate add_api_key new_key
  create_key-IsMade shop k full w w' made =
      let token = env.token_urlsafe w.calls in
      let hash = site.hash_api_key (api_key_prefix ++ token) in
      elim (Bool-cases (leb site.api_keys_per_shop (count (is_active_of shop) w.api_keys))) [
        | inl many ↦ cc (made, many)
        | inr few ↦ elim (Bool-cases (any (has_hash hash) w.api_keys)) [
          | inl taken ↦ cc (made, few, taken)
          | inr fresh ↦
              let same = sym (made_page shop w few fresh) ∙ made in
              let same_key : made_key shop w ≡ k = cc in
              let same_text : api_key_prefix ++ token ≡ full = cc in
              let same_world : add_api_key (made_key shop w) (tick (tick w)) ≡ w' = cc in
              record {
                hash =
                    ap (λ (x : ApiKey). x.key_hash) (sym same_key) ∙ ap site.hash_api_key same_text;
                of_shop = ap (λ (x : ApiKey). x.shop_id) (sym same_key);
                live = ap (λ (x : ApiKey). is_none x.revoked_at) (sym same_key);
                fresh =
                    subst (λ (x : ApiKey). any (has_hash x.key_hash) w.api_keys ≡ false) same_key
                      fresh;
                rows =
                    ap (λ (v : World). v.api_keys) (sym same_world)
                    ∙ ap (λ (x : ApiKey). x ∷ w.api_keys) same_key;
                shops = ap (λ (v : World). v.shops) (sym same_world);
              }
        ]
      ]

  -- The row that the key finds, and the shop of it.
  found_key :
      (shop : Shop) (k : ApiKey) (full : String) (w w' : World)
      → IsMade site shop k full w w'
      → live_key env site.hash_api_key full w'.db ≡ some k
  unfolding live_key first
  found_key shop k full w w' made =
      rw (made.rows, ← made.hash) (ground (arith, eq_refl k.key_hash, made.live))

  rows_after :
      (shop : Shop) (k : ApiKey) (w : World)
      → first (is_owned_key shop k.id) w.api_keys ≡ some k
      → is_none k.revoked_at ≡ true
      → (revoke_key env site (some shop) k.id w).1.api_keys
        ≡ update_where (λ (r : ApiKey). r.id == k.id) (revoked (env.clock w.calls)) w.api_keys
  unfolding revoke_key write_revoked
  rows_after shop k w found live = rw (found, live) refl

  none_live :
      (hash : String) (now : ℕ) (k : ApiKey) (rows : List ApiKey)
      → any (has_hash hash) rows ≡ false
      → any
          (is_live_key hash)
          (update_where (λ (r : ApiKey). r.id == k.id) (revoked now) (k ∷ rows))
        ≡ false
  unfolding any update_where
  none_live hash now k rows fresh = ground (arith, ==_refl k.id, no_live hash now k.id rows fresh)

  revoked_key :
      (shop : Shop) (k : ApiKey) (full : String) (w w' : World)
      → IsMade site shop k full w w'
      → live_key env site.hash_api_key full (revoke_key env site (some shop) k.id w').1.db ≡ none
  unfolding live_key first
  revoked_key shop k full w w' made =
      let now = env.clock w'.calls in
      let hash = site.hash_api_key full in
      let found : first (is_owned_key shop k.id) w'.api_keys ≡ some k =
        rw made.rows (ground (arith, ==_refl k.id, made.of_shop, ==_refl shop.id)) in
      let fresh = subst (λ h. any (has_hash h) w.api_keys ≡ false) made.hash made.fresh in
      ap (first (is_live_key hash)) (rows_after shop k w' found made.live)
      ∙ ap
          (λ rows.
            first (is_live_key hash)
              (update_where (λ (r : ApiKey). r.id == k.id) (revoked now) rows))
          made.rows
      ∙ first-none (is_live_key hash) _ (none_live hash now k w.api_keys fresh)

  -- The key that the page shows, whatever was made before: it lets the shop in as itself. Once it
  -- is revoked by its page, it lets nobody in.
  pub created-resolve :
      (shop : Shop) (k : ApiKey) (full : String) (w w' : World)
      → create_key env site (some shop) w ≡ (ok (key_created k full), w')
      → first (λ (s : Shop). s.id == shop.id) w.shops ≡ some shop
      → ((resolve_shop env site.hash_api_key full w').0 ≡ ok (some shop))
        × (let later = (revoke_key env site (some shop) k.id w').1 in
            (resolve_shop env site.hash_api_key full later).0 ≡ ok none)
  unfolding resolve_shop use_key key_shop
  created-resolve shop k full w w' page row =
      let made = create_key-IsMade shop k full w w' page in
      let its_shop : first (λ (s : Shop). s.id == k.shop_id) w'.shops ≡ some shop =
        rw (made.of_shop, made.shops) row in
      (
        rw (found_key shop k full w w' made) (ap ok its_shop),
        rw (revoked_key shop k full w w' made) refl,
      )
