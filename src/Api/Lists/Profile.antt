-- ===== src/Api/Lists/Profile.antt =====
-- What a shop changes of its profile.
use javi.Prelude.{
  ℕ, subst, String, ◌≡◌, refl, ◌∙◌, sym, ap, Bool, false, ◌||◌, Option, none, some, List, [], ◌∷◌,
  ◌==◌, first, update_where, arith, is_some, get_or, truthy, Bool-cases, inl, inr,
}
use javi.Model.{Shop}
use javi.Env.{Env, GeocodeResult}
use javi.World.{World, Db}
use javi.Exec.{Result, ok, err, pure, continue}
use javi.Exec.Frame.{continue-of_ok}
use javi.Runtime.{tick}
use javi.Deliveries.Edit.{with_origin, store_origin, set_shop_origin}
use javi.Api.Lists.{
  ShopPatch, SerializedShop, set_name, set_url, set_secret, patched, save_shop, set_address,
  serialize_shop, patch_shop,
}

unfoldable pub shop_row : ℕ → World → Option Shop
shop_row id w = first (λ (s : Shop). s.id == id) w.shops

-- The fields that PATCH names are as it says, the others of the three as they were, and so are the
-- limits of the shop.
pub record IsPatched (patch : ShopPatch) (s s' : Shop) : Type 0 where
  pub id : s'.id ≡ s.id
  pub name : s'.name ≡ get_or patch.name s.name
  pub webhook_url : s'.webhook_url ≡ get_or patch.webhook_url s.webhook_url
  pub webhook_secret : s'.webhook_secret ≡ get_or patch.webhook_secret s.webhook_secret
  pub sending_verified : s'.sending_verified ≡ s.sending_verified
  pub daily_send_limit : s'.daily_send_limit ≡ s.daily_send_limit
  pub monthly_send_limit : s'.monthly_send_limit ≡ s.monthly_send_limit

-- Only the row of one shop changes, to one that is as `P` says.
pub record Writes (id : ℕ) (P : Shop → Shop → Type 0) (w w' : World) : Type 0 where
  pub others : (k : ℕ) → (k == id) ≡ false → shop_row k w' ≡ shop_row k w
  pub own : (s : Shop) → shop_row id w ≡ some s → (s' : Shop) × (shop_row id w' ≡ some s') × P s s'

patched-IsPatched : (patch : ShopPatch) (s : Shop) → IsPatched patch s (patched patch s)
unfolding patched set_name set_url set_secret
patched-IsPatched patch s = record {
  id = ground arith;
  name = ground arith;
  webhook_url = ground arith;
  webhook_secret = ground arith;
  sending_verified = ground arith;
  daily_send_limit = ground arith;
  monthly_send_limit = ground arith;
}

module _ (f : Shop → Shop) (keeps : (s : Shop) → (f s).id ≡ s.id) where
  own_row :
      (id : ℕ) (rows : List Shop) (s : Shop)
      → first (λ (s : Shop). s.id == id) rows ≡ some s
      → first (λ (s : Shop). s.id == id) (update_where (λ (s : Shop). s.id == id) f rows)
        ≡ some (f s)
  unfolding first update_where
  own_row id [] s h = cc
  own_row id (r ∷ rows) s h = ground (arith, keeps r, own_row id rows s)

  other_row :
      (id k : ℕ) (rows : List Shop)
      → (k == id) ≡ false
      → first (λ (s : Shop). s.id == k) (update_where (λ (s : Shop). s.id == id) f rows)
        ≡ first (λ (s : Shop). s.id == k) rows
  unfolding first update_where
  other_row id k [] h = refl
  other_row id k (r ∷ rows) h = ground (arith, keeps r, other_row id k rows h)

abbrev pub write_shop : ℕ → (Shop → Shop) → World → World
write_shop id f w = record w {
  db = record w.db { shops = update_where (λ (s : Shop). s.id == id) f w.shops };
}

pub Writes-update :
    (id : ℕ) (P : Shop → Shop → Type 0) (f : Shop → Shop) (w : World)
    → ((s : Shop) → (f s).id ≡ s.id)
    → ((s : Shop) → P s (f s))
    → Writes id P w (write_shop id f w)
unfolding shop_row
Writes-update id P f w keeps holds = record {
  others = λ k other. other_row f keeps id k w.shops other;
  own = λ s row. (f s, own_row f keeps id w.shops s row, holds s);
}

pub Writes-same :
    (id : ℕ) (P : Shop → Shop → Type 0) (w w' : World)
    → w'.db ≡ w.db
    → ((s : Shop) → P s s)
    → Writes id P w w'
unfolding shop_row
Writes-same id P w w' e holds = record {
  others = λ k other. ap (λ (db : Db). first (λ (s : Shop). s.id == k) db.shops) e;
  own = λ s row. (s, ap (λ (db : Db). first (λ (s : Shop). s.id == id) db.shops) e ∙ row, holds s);
}

save_shop_lem :
    (patch : ShopPatch) (shop : Shop) (w : World)
    → Writes shop.id (IsPatched patch) w (save_shop patch shop w).1
unfolding save_shop shop_row
save_shop_lem patch shop w =
    elim (Bool-cases
      (is_some patch.name || is_some patch.webhook_url || is_some patch.webhook_secret)) [
        | inl some_field ↦ rw some_field (
            Writes-update shop.id (IsPatched patch) (patched patch) w
              (λ s. (patched-IsPatched patch s).id) (patched-IsPatched patch))
        | inr no_field ↦ rw no_field (
            Writes-same shop.id (IsPatched patch) w w refl (λ s. record {
              id = refl;
              name = ground arith;
              webhook_url = ground arith;
              webhook_secret = ground arith;
              sending_verified = refl;
              daily_send_limit = refl;
              monthly_send_limit = refl;
            }))
      ]

save_shop_returns :
    (patch : ShopPatch) (shop : Shop) (w : World) → (save_shop patch shop w).0 ≡ ok tt
unfolding save_shop
save_shop_returns patch shop w = ground arith

answered_shop :
    (s : Result (Shop × Bool) × World)
    → (continue (λ (saved : Shop × Bool). pure (serialize_shop saved.0)) s).1 ≡ s.1
answered_shop (ok saved, w) = refl
answered_shop (err e, w) = refl

-- No field of the three, and no limit, changes.
abbrev pub no_patch : ShopPatch
no_patch = record { name = none; webhook_url = none; webhook_secret = none; address = none }

abbrev pub IsSame : Shop → Shop → Type 0
IsSame = IsPatched no_patch

IsSame-refl : (s : Shop) → IsSame s s
IsSame-refl s = record {
  id = refl;
  name = refl;
  webhook_url = refl;
  webhook_secret = refl;
  sending_verified = refl;
  daily_send_limit = refl;
  monthly_send_limit = refl;
}

then_same :
    (patch : ShopPatch) (a b c : Shop) → IsPatched patch a b → IsSame b c → IsPatched patch a c
then_same patch a b c p q = record {
  id = q.id ∙ p.id;
  name = q.name ∙ p.name;
  webhook_url = q.webhook_url ∙ p.webhook_url;
  webhook_secret = q.webhook_secret ∙ p.webhook_secret;
  sending_verified = q.sending_verified ∙ p.sending_verified;
  daily_send_limit = q.daily_send_limit ∙ p.daily_send_limit;
  monthly_send_limit = q.monthly_send_limit ∙ p.monthly_send_limit;
}

pub Writes-then :
    (id : ℕ) (P Q R : Shop → Shop → Type 0) (a b c : World)
    → ((x y z : Shop) → P x y → Q y z → R x z)
    → Writes id P a b
    → Writes id Q b c
    → Writes id R a c
Writes-then id P Q R a b c both p q = record {
  others = λ k other. q.others k other ∙ p.others k other;
  own = λ s row.
      let (s1, row1, h1) = p.own s row in
      let (s2, row2, h2) = q.own s1 row1 in (s2, row2, both s s1 s2 h1 h2);
}

pub after_tick :
    (id : ℕ) (P : Shop → Shop → Type 0) (w w' : World) → Writes id P (tick w) w' → Writes id P w w'
unfolding shop_row
after_tick id P w w' h = record { others = h.others; own = h.own }

module _ (env : Env) where
  store_origin_lem :
      (shop : Shop) (geo : Option GeocodeResult) (w : World)
      → Writes shop.id IsSame w (store_origin env shop geo w).1
  unfolding store_origin shop_row
  store_origin_lem shop none w = Writes-same shop.id IsSame w w refl IsSame-refl
  store_origin_lem shop (some geo) w =
      Writes-update shop.id IsSame (with_origin geo) w (λ s. refl)
        (λ s. record {
          id = refl;
          name = refl;
          webhook_url = refl;
          webhook_secret = refl;
          sending_verified = refl;
          daily_send_limit = refl;
          monthly_send_limit = refl;
        })

  set_address_lem :
      (shop : Shop) (address : Option String) (w : World)
      → Writes shop.id IsSame w (set_address env shop address w).1
  unfolding set_address set_shop_origin
  set_address_lem shop none w = Writes-same shop.id IsSame w w refl IsSame-refl
  set_address_lem shop (some address) w = elim (Bool-cases (truthy address)) [
    | inl given ↦
        let geo = env.geocode w.calls address in
        rw given (
          after_tick shop.id IsSame w (store_origin env shop geo (tick w)).1
            (store_origin_lem shop geo (tick w)))
    | inr blank ↦ rw blank (Writes-same shop.id IsSame w w refl IsSame-refl)
  ]

  patched_id : (patch : ShopPatch) (shop : Shop) → (patched patch shop).id ≡ shop.id
  patched_id patch shop = (patched-IsPatched patch shop).id

  -- A change of a shop's profile leaves the other shops as they were. In the row of the shop the
  -- name, the webhook's URL and its secret are as the request says, or as they were where it says
  -- nothing, and the limits of the shop are as they were.
  patch_shop_lem :
      (shop : Shop) (patch : ShopPatch) (w : World)
      → Writes shop.id (IsPatched patch) w (patch_shop env shop patch w).1
  unfolding patch_shop
  patch_shop_lem shop patch w =
      let w1 = (save_shop patch shop w).1 in
      let part = (set_address env (patched patch shop) patch.address w1) in
      let address =
        subst (λ id. Writes id IsSame w1 part.1) (patched_id patch shop)
          (set_address_lem (patched patch shop) patch.address w1) in
      let whole : (patch_shop env shop patch w).1 ≡ part.1 =
        ap (λ (r : Result SerializedShop × World). r.1)
          (continue-of_ok _ (save_shop patch shop w) tt (save_shop_returns patch shop w))
        ∙ answered_shop part in
      subst (Writes shop.id (IsPatched patch) w) (sym whole) (
        Writes-then shop.id (IsPatched patch) IsSame (IsPatched patch) w w1 part.1 (then_same patch)
          (save_shop_lem patch shop w) address)
