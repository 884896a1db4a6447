-- ===== src/Api/Others.antt =====
-- What a request of the API changes: one delivery, of its own shop.
use javi.Prelude.{
  ℕ, Bool, false, any, first, none-first, ◌==◌, ◌≡◌, refl, ◌∙◌, sym, ap, subst, true, not, ◌&&◌,
  Option, none, some, ==_iff, first-holds, ◌⊎◌, arith, is_none, is_some, Bool-cases, inl, inr,
}
use javi.Model.{Shop, Delivery, Status, is_new, is_delivered}
use javi.Env.{Env}
use javi.World.{World, Event, no_extra}
use javi.Exec.{Result, quota_exceeded, value_error, does_not_exist, ok, err, pure}
use javi.Exec.Keeps.{SameDb-preorder, continue_keeps}
use javi.Runtime.{tick}
use javi.Webhooks.{emit_delivery_event}
use javi.Webhooks.Quiet.{emit-SameDb}
use javi.Deliveries.{delivery_row, write_delivery, mark_ready, mark_delivered, soft_delete, restore}
use javi.Deliveries.Start.Reach.{SameOthers, update-others, start_delivery-SameOthers}
use javi.Deliveries.Start.{start_delivery}
use javi.Deliveries.Messages.{resend_on_the_way}
use javi.Deliveries.Messages.Resend.Reach.{resend_on_the_way-SameOthers}
use javi.Api.{
  not_found, Action, Answer, get, delete, ready, mark_as_delivered, restore_it, start, resend,
  owned_delivery, answered, act, act_on, handle,
}

pub write-SameOthers :
    (id : ℕ) (f : Delivery → Delivery) (w : World)
    → ((d : Delivery) → (f d).id ≡ d.id)
    → SameOthers id w (write_delivery id f w)
unfolding write_delivery delivery_row
write-SameOthers id f w keeps k other = update-others f keeps id k w.deliveries other

pub mark_ready-SameOthers : (d : Delivery) (w : World) → SameOthers d.id w (mark_ready d w).1
unfolding mark_ready
mark_ready-SameOthers d w k other = elim (Bool-cases (is_new d.status)) [
  | inl new ↦
      rw new
        (write-SameOthers d.id (λ r. record r { status = Status.created }) w (λ r. refl) k other)
  | inr not_new ↦ rw not_new refl
]

pub restore-SameOthers : (d : Delivery) (w : World) → SameOthers d.id w (restore d w).1
unfolding restore
restore-SameOthers d w k other =
    elim (Bool-cases (is_some d.deleted_at && is_none d.pii_purged_at)) [
      | inl on ↦
          rw on (write-SameOthers d.id (λ r. record r { deleted_at = none }) w (λ r. refl) k other)
      | inr off ↦ rw off refl
    ]

-- The test of the row that a request may be about, written out.
abbrev pub is_own_row : Shop → ℕ → Delivery → Bool
is_own_row shop pk d = d.shop_id == shop.id && d.id == pk && is_none d.pii_purged_at

-- The request is about this row of the table, of the shop of the key, and changes no other.
pub record IsOwn (shop : Shop) (pk : ℕ) (w w' : World) : Type 0 where
  pub delivery : Delivery
  pub of_table : first (is_own_row shop pk) w.deliveries ≡ some delivery
  pub of_shop : delivery.shop_id ≡ shop.id
  pub asked_for : delivery.id ≡ pk
  pub not_erased : is_none delivery.pii_purged_at ≡ true
  pub others : SameOthers pk w w'

answered_world : {A : Type 0} (f : A → Answer) (s : Result A × World) → (answered f s).1 ≡ s.1
unfolding answered
answered_world f (ok a, w) = refl
answered_world f (err (quota_exceeded c h), w) = refl
answered_world f (err value_error, w) = refl
answered_world f (err does_not_exist, w) = refl

module _ (env : Env) where
  pub soft_delete-SameOthers :
      (d : Delivery) (w : World) → SameOthers d.id w (soft_delete env d w).1
  unfolding soft_delete
  soft_delete-SameOthers d w k other = elim (Bool-cases (is_none d.deleted_at)) [
    | inl on ↦ rw on (
        write-SameOthers d.id (λ r. record r { deleted_at = some (env.clock w.calls) }) (tick w)
          (λ r. refl) k other)
    | inr off ↦ rw off refl
  ]

  pub mark_delivered-SameOthers :
      (d : Delivery) (w : World) → SameOthers d.id w (mark_delivered env d w).1
  unfolding mark_delivered emit_delivery_event
  mark_delivered-SameOthers d w k other = elim (Bool-cases (not (is_delivered d.status))) [
    | inl on ↦
        let now = env.clock w.calls in
        let d' = record d { status = Status.delivered; delivered_at = some now } in
        let f : Delivery → Delivery =
          λ r. record r { status = Status.delivered; delivered_at = some now } in
        let marked = write_delivery d.id f (tick w) in
        let quiet =
          continue_keeps SameDb-preorder (λ (u : Unit {0}). pure (d', true)) marked
            (emit_delivery_event env d' Event.delivery_delivered no_extra marked)
            (λ u. record { at = λ v. refl })
            ((emit-SameDb env d' Event.delivery_delivered no_extra).at marked) in
        rw on (ap (delivery_row k) quiet ∙ write-SameOthers d.id f (tick w) (λ r. refl) k other)
    | inr off ↦ rw off refl
  ]

  answered-SameOthers :
      {A : Type 0} (id : ℕ) (f : A → Answer) (w : World) (s : Result A × World)
      → SameOthers id w s.1
      → SameOthers id w (answered f s).1
  answered-SameOthers id f w s h = subst (λ v. SameOthers id w v) (sym (answered_world f s)) h

  act-SameOthers :
      (action : Action) (d : Delivery) (w : World) → SameOthers d.id w (act env action d w).1
  unfolding act
  act-SameOthers get d w = λ k other. refl
  act-SameOthers delete d w =
      answered-SameOthers d.id _ w (soft_delete env d w) (soft_delete-SameOthers d w)
  act-SameOthers ready d w =
      answered-SameOthers d.id _ w (mark_ready d w) (mark_ready-SameOthers d w)
  act-SameOthers mark_as_delivered d w =
      answered-SameOthers d.id _ w (mark_delivered env d w) (mark_delivered-SameOthers d w)
  act-SameOthers restore_it d w =
      answered-SameOthers d.id _ w (restore d w) (restore-SameOthers d w)
  act-SameOthers (start eta) d w =
      answered-SameOthers d.id _ w (start_delivery env d eta w)
        ((start_delivery-SameOthers env d eta).at w)
  act-SameOthers (resend phone) d w =
      answered-SameOthers d.id _ w (resend_on_the_way env d phone w)
        ((resend_on_the_way-SameOthers env d phone).at w)

  act_on-IsOwn :
      (shop : Shop) (pk : ℕ) (action : Action) (o : Option Delivery) (w : World)
      → owned_delivery shop pk w.db ≡ o
      → ((act_on env action o w ≡ (ok not_found, w))
          × (any (is_own_row shop pk) w.deliveries ≡ false))
        ⊎ IsOwn shop pk w (act_on env action o w).1
  unfolding act_on owned_delivery
  act_on-IsOwn shop pk action none w found =
      inl (refl, none-first (is_own_row shop pk) w.deliveries found)
  act_on-IsOwn shop pk action (some d) w found =
      let owned = first-holds _ w.deliveries d found in
      let same : d.id ≡ pk = (==_iff d.id pk).0 (ground (arith, owned)) in
      inr (record {
        delivery = d;
        of_table = found;
        of_shop = (==_iff d.shop_id shop.id).0 (ground (arith, owned));
        asked_for = same;
        not_erased = ground (arith, owned);
        others =
            subst (λ id. SameOthers id w (act env action d w).1) same (act-SameOthers action d w);
      })

  -- A request with a shop's key about a delivery, whatever it asks for, is answered 404 with
  -- nothing changed, and then the table has no row of that shop with this number, not erased; or it
  -- is about such a row of the table, the first one, and leaves each other delivery as it was,
  -- whether it succeeds or not.
  pub handle-IsOwn :
      (shop : Shop) (pk : ℕ) (action : Action) (w : World)
      → ((handle env shop pk action w ≡ (ok not_found, w))
          × (any (is_own_row shop pk) w.deliveries ≡ false))
        ⊎ IsOwn shop pk w (handle env shop pk action w).1
  unfolding handle
  handle-IsOwn shop pk action w = act_on-IsOwn shop pk action (owned_delivery shop pk w.db) w refl
