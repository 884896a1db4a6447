-- ===== src/Pages/Deliveries/Isolated.antt =====
-- What a POST about a delivery can reach: one delivery, of the account's own shop.
use javi.Prelude.{
  ℕ, ◌≡◌, refl, sym, ap, subst, List, ◌⊎◌, inl, inr, true, ==_iff, [], Option, none, some, first,
  first-holds, none-first, any, ◌==◌, ◌&&◌, Bool, false, is_none, arith, Bool-cases,
}
use javi.Model.{Shop, Delivery, is_on_the_way, is_delivered}
use javi.Env.{Env}
use javi.World.{World}
use javi.Exec.{Exec, Result, quota_exceeded, value_error, does_not_exist, ok, err}
use javi.Exec.Keeps.{Keeps, Keeps-bind, SameDb, SameDb-preorder, keeps_rules}
use javi.Deliveries.{delivery_row, mark_ready, mark_delivered, soft_delete, restore}
use javi.Deliveries.Start.{start_delivery}
use javi.Deliveries.Start.Reach.{SameOthers, SameOthers-preorder, start_delivery-SameOthers}
use javi.Deliveries.Messages.{PhoneResult, resend_on_the_way}
use javi.Deliveries.Messages.Resend.Reach.{resend_on_the_way-SameOthers}
use javi.Deliveries.Edit.{Edit, update_delivery}
use javi.Deliveries.Edit.Safe.{update_delivery_lem}
use javi.Api.Create.{Readers}
use javi.Api.Others.{
  mark_ready-SameOthers, mark_delivered-SameOthers, soft_delete-SameOthers, restore-SameOthers,
}
use javi.Pages.{Page, Notice, not_found}
use javi.Deliveries.Start.Races.{get_shop-SameDb, compute_eta-SameDb}
use javi.Pages.Forms.{
  Date, ClockTime, EditFields, EtaFields, clean_phone, clean_eta, clean_edit_eta,
}
use javi.Pages.Deliveries.{
  Action, takes, edit, start, resend, mark_as_delivered, ready, delete, restore_it, is_live,
  live_delivery, caught, confirm_eta_page, save_edit, edit_of, edit_fields, edit_post, start_at,
  start_post, resend_post, act, act_on, post,
}

-- The test of the row that a POST may be about, written out.
abbrev pub is_own_row : Shop → ℕ → Action → Delivery → Bool
is_own_row shop pk action d =
    d.id == pk && d.shop_id == shop.id && is_none d.pii_purged_at && takes action d

-- The table has no row that the POST may be about.
abbrev pub HasNone : Option Shop → ℕ → Action → World → Type 0
HasNone none pk action w = Unit {0}
HasNone (some shop) pk action w = any (is_own_row shop pk action) w.deliveries ≡ false

-- The request is about this row of the table, of the shop of the account, and changes no other.
pub record IsOwn (account : Option Shop) (pk : ℕ) (action : Action) (w w' : World) : Type 0 where
  pub shop : Shop
  pub delivery : Delivery
  pub of_table : first (λ (d : Delivery). is_own_row shop pk action d) w.deliveries ≡ some delivery
  pub of_account : account ≡ some shop
  pub of_shop : delivery.shop_id ≡ shop.id
  pub asked_for : delivery.id ≡ pk
  pub not_erased : is_none delivery.pii_purged_at ≡ true
  pub others : SameOthers pk w w'

caught_world : {A : Type 0} (f : A → Page) (s : Result A × World) → (caught f s).1 ≡ s.1
unfolding caught
caught_world f (ok a, w) = refl
caught_world f (err (quota_exceeded c h), w) = refl
caught_world f (err value_error, w) = refl
caught_world f (err does_not_exist, w) = refl

caught-SameOthers :
    {A : Type 0} (id : ℕ) (f : A → Page) (w : World) (s : Result A × World)
    → SameOthers id w s.1
    → SameOthers id w (caught f s).1
caught-SameOthers id f w s h = subst (λ v. SameOthers id w v) (sym (caught_world f s)) h

module _ (env : Env) where
  clean_eta-SameDb : (f : Option EtaFields) → Keeps SameDb (clean_eta env f)
  unfolding clean_eta
  clean_eta-SameDb none = record { at = λ w. refl }
  clean_eta-SameDb (some f) = record { at = λ w. ground arith }

  clean_edit_eta-SameDb :
      (d : Delivery) (date : Option Date) (time : Option ClockTime)
      → Keeps SameDb (clean_edit_eta env d date time)
  unfolding clean_edit_eta
  clean_edit_eta-SameDb d date time = record { at = λ w. ground arith }

  confirm-SameDb :
      (notices : List Notice) (d : Delivery) → Keeps SameDb (confirm_eta_page env notices d)
  unfolding confirm_eta_page
  confirm-SameDb notices d =
      search (keeps_rules, SameDb-preorder, get_shop-SameDb, compute_eta-SameDb) depth 10

  of_SameDb : {A : Type 0} (id : ℕ) (m : Exec A) → Keeps SameDb m → Keeps (SameOthers id) m
  of_SameDb id m same = record { at = λ w k other. ap (delivery_row k) (same.at w) }

  start_at-SameOthers :
      (d : Delivery) (eta : Option ℕ) → Keeps (SameOthers d.id) (start_at env d eta)
  unfolding start_at
  start_at-SameOthers d none = record { at = λ w k other. refl }
  start_at-SameOthers d (some t) = record {
    at = λ w.
        caught-SameOthers d.id _ w (start_delivery env d (some t) w)
          ((start_delivery-SameOthers env d (some t)).at w);
  }

  save_edit-SameOthers :
      (d : Delivery) (e : Option Edit) → Keeps (SameOthers d.id) (save_edit env d e)
  unfolding save_edit
  save_edit-SameOthers d none = record { at = λ w k other. refl }
  save_edit-SameOthers d (some e) = record {
    at = λ w.
        caught-SameOthers d.id _ w (update_delivery env d e w)
          (update_delivery_lem env d e w).0.others;
  }

  edit_post-SameOthers :
      (readers : Readers) (d : Delivery) (f : Option EditFields)
      → Keeps (SameOthers d.id) (edit_post env readers d f)
  unfolding edit_post edit_fields
  edit_post-SameOthers readers d none = record { at = λ w k other. ground arith }
  edit_post-SameOthers readers d (some f) = elim (Bool-cases (is_delivered d.status)) [
    | inl over ↦ rw over (record { at = λ w k other. refl })
    | inr open_still ↦ rw open_still (
        Keeps-bind (SameOthers-preorder d.id) (clean_edit_eta env d f.eta_date f.eta_time)
          (λ eta. save_edit env d (edit_of readers eta f.fields))
          (of_SameDb d.id _ (clean_edit_eta-SameDb d f.eta_date f.eta_time))
          (λ eta. save_edit-SameOthers d (edit_of readers eta f.fields)))
  ]

  start_post-SameOthers :
      (d : Delivery) (f : Option (Option EtaFields)) → Keeps (SameOthers d.id) (start_post env d f)
  unfolding start_post
  start_post-SameOthers d none = elim (Bool-cases (is_on_the_way d.status)) [
    | inl started ↦ rw started (record { at = λ w k other. refl })
    | inr waits ↦ rw waits (of_SameDb d.id _ (confirm-SameDb [] d))
  ]
  start_post-SameOthers d (some f) =
      Keeps-bind (SameOthers-preorder d.id) (clean_eta env f) (start_at env d)
        (of_SameDb d.id _ (clean_eta-SameDb f)) (start_at-SameOthers d)

  resend_post-SameOthers :
      (d : Delivery) (phone : Option PhoneResult)
      → Keeps (SameOthers d.id) (resend_post env d phone)
  unfolding resend_post
  resend_post-SameOthers d none = record { at = λ w k other. refl }
  resend_post-SameOthers d (some phone) = record {
    at = λ w.
        caught-SameOthers d.id _ w (resend_on_the_way env d (some phone) w)
          ((resend_on_the_way-SameOthers env d (some phone)).at w);
  }

  act-SameOthers :
      (readers : Readers) (action : Action) (d : Delivery) (w : World)
      → SameOthers d.id w (act env readers action d w).1
  unfolding act
  act-SameOthers readers (edit f) d w = (edit_post-SameOthers readers d f).at w
  act-SameOthers readers (start f) d w = (start_post-SameOthers d f).at w
  act-SameOthers readers (resend raw) d w =
      (resend_post-SameOthers d (clean_phone readers raw)).at w
  act-SameOthers readers mark_as_delivered d w =
      caught-SameOthers d.id _ w (mark_delivered env d w) (mark_delivered-SameOthers env d w)
  act-SameOthers readers ready d w =
      caught-SameOthers d.id _ w (mark_ready d w) (mark_ready-SameOthers d w)
  act-SameOthers readers delete d w =
      caught-SameOthers d.id _ w (soft_delete env d w) (soft_delete-SameOthers env d w)
  act-SameOthers readers restore_it d w =
      caught-SameOthers d.id _ w (restore d w) (restore-SameOthers d w)

  act_on-IsOwn :
      (readers : Readers) (shop : Shop) (pk : ℕ) (action : Action) (o : Option Delivery) (w : World)
      → first (is_live shop pk action) w.deliveries ≡ o
      → ((act_on env readers action o w ≡ (ok not_found, w)) × HasNone (some shop) pk action w)
        ⊎ IsOwn (some shop) pk action w (act_on env readers action o w).1
  unfolding act_on
  act_on-IsOwn readers shop pk action none w found =
      inl (refl, none-first (is_own_row shop pk action) w.deliveries found)
  act_on-IsOwn readers shop pk action (some d) w found =
      let live = first-holds (is_live shop pk action) w.deliveries d found in
      let same : d.id ≡ pk = (==_iff d.id pk).0 (ground (arith, live)) in
      let own : d.shop_id ≡ shop.id = (==_iff d.shop_id shop.id).0 (ground (arith, live)) in
      inr (record {
        shop = shop;
        delivery = d;
        of_table = found;
        of_account = refl;
        of_shop = own;
        asked_for = same;
        not_erased = ground (arith, live);
        others =
            subst (λ id. SameOthers id w (act env readers action d w).1) same
              (act-SameOthers readers action d w);
      })

  -- A POST about a delivery, whatever it asks for, is answered 404 with nothing changed, and then
  -- the table has no row of the account's own shop with this number, not erased, and deleted or not
  -- as the page wants it; or it is about such a row of the table, the first one, and leaves each
  -- other delivery as it was.
  pub post-IsOwn :
      (readers : Readers) (account : Option Shop) (pk : ℕ) (action : Action) (w : World)
      → ((post env readers account pk action w ≡ (ok not_found, w)) × HasNone account pk action w)
        ⊎ IsOwn account pk action w (post env readers account pk action w).1
  unfolding post live_delivery act_on
  post-IsOwn readers none pk action w = inl (refl, tt)
  post-IsOwn readers (some shop) pk action w =
      act_on-IsOwn readers shop pk action (first (is_live shop pk action) w.deliveries) w refl
