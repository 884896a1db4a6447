-- ===== src/Pages/Store.antt =====
-- deliveries/views.py: the profile of the shop, and what its pages remember of their view.
pub mod Saved
use javi.Prelude.{
  ℕ, String, Bool, true, false, ◌==◌, Option, none, some, [], ◌∷◌, update_where, if◌then◌else◌,
  truthy,
}
use javi.Model.{Shop}
use javi.Env.{Env}
use javi.World.{World}
use javi.Exec.{Exec, pure, modify, ◌>>=◌, ◌>>◌}
use javi.Deliveries.Edit.{set_shop_origin}
use javi.Api.Create.{Readers}
use javi.Pages.{Page, json_ok, redirect, profile, saved, name_saved_only, to_list, to_profile}
use javi.Pages.Forms.{StoreFields, NameReader, clean_store}

-- The secret is only written: an empty field keeps it.
unfoldable pub secret_from : StoreFields → String → String
secret_from f old =
    if f.clear_webhook_secret then "" else if truthy f.webhook_secret then f.webhook_secret else old

-- `shop` is the object of the account.
unfoldable pub saved_as : StoreFields → Shop → Shop → Shop
unfolding secret_from
saved_as f shop s = record s {
  name = f.name;
  contact_phone = f.contact_phone;
  webhook_url = f.webhook_url;
  webhook_secret = secret_from f shop.webhook_secret;
}

write_shop : ℕ → (Shop → Shop) → Exec (Unit {0})
write_shop id f = modify (λ w. record w {
  db = record w.db { shops = update_where (λ (s : Shop). s.id == id) f w.shops };
})

-- `SetViewView.post`, with whether the mode is `board`
unfoldable pub set_view_post : Option Shop → Bool → Exec Page
unfolding write_shop
set_view_post none board = pure (redirect [] to_list)
set_view_post (some shop) board = do
  write_shop shop.id (λ s. record s { kanban_view = board })
  pure (redirect [] to_list)

-- `ToggleCompletedView.post`
unfoldable pub toggle_completed_post : Option Shop → Bool → Exec Page
unfolding write_shop
toggle_completed_post none expanded = pure json_ok
toggle_completed_post (some shop) expanded = do
  write_shop shop.id (λ s. record s { completed_expanded = expanded })
  pure json_ok

profile_page : Bool → Page
profile_page true = redirect (saved ∷ []) to_profile
profile_page false = profile (name_saved_only ∷ [])

module _ (env : Env) (readers : Readers) (names : NameReader) where
  unfoldable pub save_store : Shop → StoreFields → Exec Page
  unfolding write_shop profile_page
  save_store shop f = do
    write_shop shop.id (saved_as f shop)
    placed ← set_shop_origin env (saved_as f shop shop) f.address
    pure (profile_page placed.1)

  save_cleaned : Shop → Option StoreFields → Exec Page
  save_cleaned shop none = pure (profile [])
  save_cleaned shop (some f) = save_store shop f

  -- `ShopProfileView.post`
  unfoldable pub profile_post : Option Shop → Option StoreFields → Exec Page
  unfolding save_cleaned
  profile_post none f = pure (profile [])
  profile_post (some shop) f = save_cleaned shop (clean_store readers names env f)
