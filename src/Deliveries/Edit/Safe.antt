-- ===== src/Deliveries/Edit/Safe.antt =====
-- An edit of a delivery sends nothing and touches no other delivery.
use javi.Prelude.{
  ◌||◌, is_some, ℕ, String, ◌≡◌, refl, ◌∙◌, ap, Bool, true, false, not, Option, none, some, arith,
  Bool-cases, inl, inr,
}
use javi.Model.{Delivery, is_delivered}
use javi.Env.{Env, GeocodeResult}
use javi.World.{World, Db}
use javi.Exec.{err, pure, value_error}
use javi.Exec.Keeps.{IsPreorder, continue_keeps}
use javi.Deliveries.{delivery_row, write_delivery}
use javi.Deliveries.Start.Reach.{SameOthers, update-others}
use javi.Deliveries.Edit.{
  Edit, Changes, EditResult, any_change, changed_fields, edited, geocode_if, reschedule, save_edit,
  update_delivery, changes_of,
}

pub record IsSafeEdit (id : ℕ) (w w' : World) : Type 0 where
  pub others : SameOthers id w w'
  pub outbox : w'.outbox ≡ w.outbox
  pub notifications : w'.notifications ≡ w.notifications
  pub sends : w'.sends ≡ w.sends

module _ (env : Env) where
  pub reschedule-db :
      (id : ℕ) (b : Bool) (eta : Option ℕ) (w : World)
      → ((reschedule env id b eta w).1.db ≡ w.db)
        × ((reschedule env id b eta w).1.outbox ≡ w.outbox)
  unfolding reschedule
  reschedule-db id true (some t) w = ground arith
  reschedule-db id true none w = (refl, refl)
  reschedule-db id false eta w = (refl, refl)

  safe_refl : (id : ℕ) (w : World) → IsSafeEdit id w w
  safe_refl id w = record {
    others = λ k other. refl;
    outbox = refl;
    notifications = refl;
    sends = refl;
  }

  IsSafeEdit-preorder : (id : ℕ) → IsPreorder (IsSafeEdit id)
  IsSafeEdit-preorder id = record {
    here = safe_refl id;
    then_on = λ a b c p q. record {
      others = λ k other. q.others k other ∙ p.others k other;
      outbox = q.outbox ∙ p.outbox;
      notifications = q.notifications ∙ p.notifications;
      sends = q.sends ∙ p.sends;
    };
  }

  safe_db : (id : ℕ) (w w' : World) → w'.db ≡ w.db → w'.outbox ≡ w.outbox → IsSafeEdit id w w'
  safe_db id w w' e outbox = record {
    others = λ k other. ap (delivery_row k) e;
    outbox = outbox;
    notifications = ap (λ (db : Db). db.notifications) e;
    sends = ap (λ (db : Db). db.sends) e;
  }

  written-IsSafeEdit :
      (d : Delivery) (e : Edit) (c : Changes) (geo : Option GeocodeResult) (address : String)
      (w : World)
      → IsSafeEdit d.id w (write_delivery d.id (edited e c geo address) w)
  unfolding write_delivery delivery_row edited
  written-IsSafeEdit d e c geo address w = record {
    others =
        λ k other. update-others (edited e c geo address) (λ r. refl) d.id k w.deliveries other;
    outbox = refl;
    notifications = refl;
    sends = refl;
  }

  save_edit-IsSafeEdit :
      (d : Delivery) (e : Edit) (c : Changes) (geo : Option GeocodeResult) (w : World)
      → IsSafeEdit d.id w (save_edit env d e c geo w).1
  unfolding save_edit
  save_edit-IsSafeEdit d e c geo w = elim (Bool-cases (any_change c)) [
    | inl some_change ↦
        let address = env.strip e.dest_address in
        let w1 = write_delivery d.id (edited e c geo address) w in
        let later = reschedule-db d.id c.eta e.eta_at w1 in
        let answer : Delivery × EditResult = (
          edited e c geo address d,
          record { changed = changed_fields c; geocoded = not c.address || is_some geo },
        ) in
        rw some_change (
          continue_keeps (IsSafeEdit-preorder d.id) (λ (u : Unit {0}). pure answer) w
            (reschedule env d.id c.eta e.eta_at w1) (λ u. record { at = safe_refl d.id })
            ((IsSafeEdit-preorder d.id).then_on w w1 (reschedule env d.id c.eta e.eta_at w1).1
              (written-IsSafeEdit d e c geo address w)
              (safe_db d.id w1 (reschedule env d.id c.eta e.eta_at w1).1 later.0 later.1)))
    | inr no_change ↦ rw no_change (safe_refl d.id w)
  ]

  geocode_if-IsSafeEdit :
      (id : ℕ) (b : Bool) (address : String) (w : World)
      → IsSafeEdit id w (geocode_if env b address w).1
  unfolding geocode_if
  geocode_if-IsSafeEdit id true address w = safe_db id w (geocode_if env true address w).1 refl refl
  geocode_if-IsSafeEdit id false address w = safe_refl id w

  -- An edit sends no message and writes no notification and no row of the send log; each other
  -- delivery is as it was; and a delivered delivery cannot be edited: that raises, and changes
  -- nothing.
  pub update_delivery_lem :
      (d : Delivery) (e : Edit) (w : World)
      → IsSafeEdit d.id w (update_delivery env d e w).1
        × (is_delivered d.status ≡ true → update_delivery env d e w ≡ (err value_error, w))
  unfolding update_delivery
  update_delivery_lem d e w = (
    elim (Bool-cases (is_delivered d.status)) [
      | inl over ↦ rw over (safe_refl d.id w)
      | inr open_still ↦
          let c = changes_of env e d in
          rw open_still (
            continue_keeps (IsSafeEdit-preorder d.id) (save_edit env d e c) w
              (geocode_if env c.address e.dest_address w)
              (λ geo. record { at = save_edit-IsSafeEdit d e c geo })
              (geocode_if-IsSafeEdit d.id c.address e.dest_address w))
    ],
    λ over. rw over refl,
  )
