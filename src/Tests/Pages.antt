-- ===== src/Tests/Pages.antt =====
-- Runs of the pages of a shop.
use javi.Prelude.{
  ◌≤◌, ◌≡◌, refl, ◌⊎◌, false, none, some, List, [], ◌∷◌, any, first, count, arith, ◌==◌, ◌-◌, ◌*◌,
}
use javi.Model.{Shop, Delivery, Status, ApiKey}
use javi.Env.{minute}
use javi.World.{World}
use javi.Exec.{ok}
use javi.Api.Create.{Readers}
use javi.Api.Lists.Profile.{Writes}
use javi.Api.Keys.{resolve_shop}
use javi.Pages.{not_found, redirect, profile, key_created, nothing_changed, to_list}
use javi.Pages.Forms.{StoreFields, NameReader, clean_store, initial_edit}
use javi.Pages.Deliveries.{edit, delete, live_delivery, post}
use javi.Pages.Deliveries.Isolated.{HasNone, IsOwn, post-IsOwn}
use javi.Pages.Deliveries.Unchanged.{post_unchanged}
use javi.Pages.Keys.{KeySite, create_key, revoke_key, generate, new_key, add_api_key}
use javi.Pages.Keys.Shown.{created-resolve}
use javi.Pages.Keys.Limit.{KeyPost, make, take_back, active, key_posts, key_posts-le}
use javi.Pages.Store.{profile_post}
use javi.Pages.Store.Saved.{IsSavedAs, profile_post_lem}
use javi.Tests.Sample.{env, shop, delivery, world, noon}

abbrev readers : Readers
readers = record {
  normalize_phone = λ raw. some (record { e164 = raw; is_risky = false });
  supported_language = λ code. some code;
  default_language = "sr-latn";
}

post-IsOwn_example :
    ((post env readers (some shop) 7 delete world ≡ (ok not_found, world))
      × HasNone (some shop) 7 delete world)
    ⊎ IsOwn (some shop) 7 delete world (post env readers (some shop) 7 delete world).1
post-IsOwn_example = post-IsOwn env readers (some shop) 7 delete world

-- A delivery on its way, late by an hour.
abbrev late : Delivery
late = record delivery { status = Status.on_the_way; eta_at = some (noon - 60 * minute) }

abbrev on_its_way : World
on_its_way = record world { db = record world.db { deliveries = late ∷ [] } }

found : live_delivery (some shop) 7 (edit (some (initial_edit env late))) on_its_way.db ≡ some late
unfolding live_delivery first
found = refl

post_unchanged_example :
    post env readers (some shop) 7 (edit (some (initial_edit env late))) on_its_way
    ≡ (ok (redirect (nothing_changed ∷ []) to_list), on_its_way)
post_unchanged_example =
    post_unchanged env readers (some shop) 7 late
      (record { e164 = "+381601234567"; is_risky = false }) on_its_way found refl refl refl refl
      refl

abbrev site : KeySite
site = record { hash_api_key = λ key. key; api_keys_per_shop = 2 }

abbrev made : ApiKey
made = record {
  id = 1;
  shop_id = 1;
  prefix = "token";
  key_hash = "javi_live_token";
  name = "";
  created_at = noon;
  last_used_at = none;
  revoked_at = none;
}

abbrev keyed : World
keyed = record world { db = record world.db { api_keys = made ∷ []; next_id = 2 }; calls = 2 }

shown : create_key env site (some shop) world ≡ (ok (key_created made "javi_live_token"), keyed)
unfolding create_key count generate any new_key add_api_key
shown = refl

own_row : first (λ (s : Shop). s.id == shop.id) world.shops ≡ some shop
unfolding first
own_row = refl

created-resolve_example :
    ((resolve_shop env site.hash_api_key "javi_live_token" keyed).0 ≡ ok (some shop))
    × (let later = (revoke_key env site (some shop) 1 keyed).1 in
        (resolve_shop env site.hash_api_key "javi_live_token" later).0 ≡ ok none)
created-resolve_example =
    created-resolve env site shop made "javi_live_token" world keyed shown own_row

abbrev posts : List KeyPost
posts = make (some shop) ∷ take_back (some shop) 1 ∷ make (some shop) ∷ make none ∷ []

no_keys : active shop world ≤ site.api_keys_per_shop
unfolding count
no_keys = omega arith

key_posts-le_example : active shop (key_posts env site posts world) ≤ site.api_keys_per_shop
key_posts-le_example = key_posts-le env site posts shop world no_keys

abbrev names : NameReader
names = record { clean_shop_name = λ name. some name }

abbrev fields : StoreFields
fields = record {
  name = "Cvet";
  address = "Kneza Milosa 3";
  contact_phone = "";
  webhook_url = "";
  webhook_secret = "";
  clear_webhook_secret = false;
}

profile_post_lem_example :
    ((clean_store readers names env (some fields) ≡ none)
      × (profile_post env readers names (some shop) (some fields) world ≡ (ok (profile []), world)))
    ⊎ ((g : StoreFields) × (clean_store readers names env (some fields) ≡ some g)
        × Writes shop.id
            (IsSavedAs g shop.webhook_secret)
            world
            (profile_post env readers names (some shop) (some fields) world).1)
profile_post_lem_example = profile_post_lem env readers names shop (some fields) world
