-- ===== src/Pages/Store/Saved.antt =====
-- What the profile's page writes.
use javi.Prelude.{
  [], String, ◌≡◌, refl, ◌∙◌, ◌⊎◌, inl, inr, Bool, true, false, Option, none, some, truthy, arith,
  Option-cases, subst, sym,
}
use javi.Model.{Shop}
use javi.Env.{Env, GeocodeResult}
use javi.World.{World}
use javi.Exec.{Result, ok, err, pure, continue}
use javi.Runtime.{tick}
use javi.Deliveries.Edit.{with_origin, store_origin, set_shop_origin}
use javi.Api.Create.{Readers}
use javi.Api.Lists.Profile.{Writes, Writes-then, Writes-update, Writes-same, after_tick, write_shop}
use javi.Pages.{profile}
use javi.Pages.Forms.{StoreFields, NameReader, clean_store}
use javi.Pages.Store.{secret_from, saved_as, profile_page, save_store, profile_post}

-- The row has what the form says, the old secret where it says nothing of it, and the limits that
-- it had.
pub record IsSavedAs (f : StoreFields) (secret : String) (s s' : Shop) : Type 0 where
  pub id : s'.id ≡ s.id
  pub name : s'.name ≡ f.name
  pub contact_phone : s'.contact_phone ≡ f.contact_phone
  pub webhook_url : s'.webhook_url ≡ f.webhook_url
  pub kept :
      f.clear_webhook_secret ≡ false → truthy f.webhook_secret ≡ false → s'.webhook_secret ≡ secret
  pub given :
      f.clear_webhook_secret ≡ false
      → truthy f.webhook_secret ≡ true
      → s'.webhook_secret ≡ f.webhook_secret
  pub cleared : f.clear_webhook_secret ≡ true → s'.webhook_secret ≡ ""
  pub sending_verified : s'.sending_verified ≡ s.sending_verified
  pub daily_send_limit : s'.daily_send_limit ≡ s.daily_send_limit
  pub monthly_send_limit : s'.monthly_send_limit ≡ s.monthly_send_limit

saved_as-IsSavedAs :
    (f : StoreFields) (shop s : Shop) → IsSavedAs f shop.webhook_secret s (saved_as f shop s)
unfolding saved_as secret_from
saved_as-IsSavedAs f shop s = record {
  id = refl;
  name = refl;
  contact_phone = refl;
  webhook_url = refl;
  kept = λ c g. ground (arith, c, g);
  given = λ c g. ground (arith, c, g);
  cleared = λ c. ground (arith, c);
  sending_verified = refl;
  daily_send_limit = refl;
  monthly_send_limit = refl;
}

-- All of these fields are as they were.
abbrev IsKept : Shop → Shop → Type 0
IsKept s s' =
    (s'.id ≡ s.id)
    × (s'.name ≡ s.name)
    × (s'.contact_phone ≡ s.contact_phone)
    × (s'.webhook_url ≡ s.webhook_url)
    × (s'.webhook_secret ≡ s.webhook_secret)
    × (s'.sending_verified ≡ s.sending_verified)
    × (s'.daily_send_limit ≡ s.daily_send_limit)
    × (s'.monthly_send_limit ≡ s.monthly_send_limit)

then_kept :
    (f : StoreFields) (secret : String) (a b c : Shop)
    → IsSavedAs f secret a b
    → IsKept b c
    → IsSavedAs f secret a c
then_kept f secret a b c p (id, name, phone, url, same_secret, verified, daily, monthly) = record {
  id = id ∙ p.id;
  name = name ∙ p.name;
  contact_phone = phone ∙ p.contact_phone;
  webhook_url = url ∙ p.webhook_url;
  kept = λ c g. same_secret ∙ p.kept c g;
  given = λ c g. same_secret ∙ p.given c g;
  cleared = λ c. same_secret ∙ p.cleared c;
  sending_verified = verified ∙ p.sending_verified;
  daily_send_limit = daily ∙ p.daily_send_limit;
  monthly_send_limit = monthly ∙ p.monthly_send_limit;
}

placed_world :
    (s : Result (Shop × Bool) × World)
    → (continue (λ (placed : Shop × Bool). pure (profile_page placed.1)) s).1 ≡ s.1
placed_world (ok placed, w) = refl
placed_world (err e, w) = refl

module _ (env : Env) where
  origin-IsKept :
      (shop : Shop) (geo : Option GeocodeResult) (w : World)
      → Writes shop.id IsKept w (store_origin env shop geo w).1
  unfolding store_origin
  origin-IsKept shop none w =
      Writes-same shop.id IsKept w w refl (λ s. (refl, refl, refl, refl, refl, refl, refl, refl))
  origin-IsKept shop (some geo) w =
      Writes-update shop.id IsKept (with_origin geo) w (λ s. refl)
        (λ s. (refl, refl, refl, refl, refl, refl, refl, refl))

  module _ (readers : Readers) (names : NameReader) where
    save_store_lem :
        (shop : Shop) (f : StoreFields) (w : World)
        → Writes shop.id
            (IsSavedAs f shop.webhook_secret)
            w
            (save_store env readers names shop f w).1
    unfolding save_store set_shop_origin saved_as
    save_store_lem shop f w =
        let P = IsSavedAs f shop.webhook_secret in
        let w1 = write_shop shop.id (saved_as f shop) w in
        let shop' = saved_as f shop shop in
        let part = store_origin env shop' (env.geocode w1.calls f.address) (tick w1) in
        subst (Writes shop.id P w) (sym (placed_world part)) (
          Writes-then shop.id P IsKept P w w1 part.1 (then_kept f shop.webhook_secret)
            (Writes-update shop.id P (saved_as f shop) w (λ s. refl) (saved_as-IsSavedAs f shop))
            (after_tick shop.id IsKept w1 part.1
              (origin-IsKept shop' (env.geocode w1.calls f.address) (tick w1))))

    -- A POST of the profile's page leaves the other shops as they were. Either the form is refused
    -- and nothing changes, or the row of the shop has the name, phone and URL that the form says,
    -- the secret that it gives, the old one where the field is empty, none where it is to be
    -- removed, and the limits that it had.
    pub profile_post_lem :
        (shop : Shop) (f : Option StoreFields) (w : World)
        → ((clean_store readers names env f ≡ none)
            × (profile_post env readers names (some shop) f w ≡ (ok (profile []), w)))
          ⊎ ((g : StoreFields) × (clean_store readers names env f ≡ some g)
              × Writes shop.id
                  (IsSavedAs g shop.webhook_secret)
                  w
                  (profile_post env readers names (some shop) f w).1)
    unfolding profile_post
    profile_post_lem shop f w = elim (Option-cases (clean_store readers names env f)) [
      | inl refused ↦ inl (refused, rw refused refl)
      | inr (g, good) ↦ inr (g, good, rw good (save_store_lem shop g w))
    ]
