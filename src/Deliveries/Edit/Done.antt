-- ===== src/Deliveries/Edit/Done.antt =====
-- An edit does what it is asked, in the object and in the row.
use javi.Prelude.{
  ℕ, String, ◌≡◌, refl, ◌∙◌, sym, ap, Bool, true, false, not, ◌||◌, Option, none, some, [], ==_refl,
  arith, Bool-cases, inl, inr, if◌then◌else◌, str_eq, eq_iff, is_some, first-update,
}
use javi.Model.{Delivery, is_delivered}
use javi.Env.{Env, GeocodeResult}
use javi.World.{World}
use javi.Exec.{ok, pure}
use javi.Exec.Frame.{continue-of_ok}
use javi.Deliveries.{delivery_row, write_delivery}
use javi.Deliveries.Edit.{
  Edit, Changes, EditResult, any_change, changed_fields, edited, geocode_if, reschedule, save_edit,
  update_delivery, changes_of,
}
use javi.Deliveries.Edit.Safe.{reschedule-db}

pub record IsEdited (e : Edit) (d d' : Delivery) (w' : World) : Type 0 where
  pub name : d'.recipient_name ≡ e.recipient_name
  pub phone : d'.recipient_phone ≡ e.phone.e164
  pub description : d'.description ≡ e.description
  pub language : d'.recipient_language ≡ e.language
  pub status : d'.status ≡ d.status
  pub row : delivery_row d.id w'.db ≡ some d'

-- A field that is written only when it differs has the value asked for.
field_lem : (a b : String) → (if not (str_eq a b) then a else b) ≡ a
field_lem a b = elim (Bool-cases (str_eq a b)) [
  | inl same ↦ rw same (sym ((eq_iff a b).0 same))
  | inr other ↦ rw other refl
]

edited_none :
    (e : Edit) (c : Changes) (geo : Option GeocodeResult) (address : String) (d : Delivery)
    → any_change c ≡ false
    → edited e c geo address d ≡ d
unfolding edited
edited_none e c geo address d h = ground arith

module _ (env : Env) where
  fields-IsEdited :
      (e : Edit) (d : Delivery) (geo : Option GeocodeResult) (address : String) (w' : World)
      → delivery_row d.id w'.db ≡ some (edited e (changes_of env e d) geo address d)
      → IsEdited e d (edited e (changes_of env e d) geo address d) w'
  unfolding edited changes_of
  fields-IsEdited e d geo address w' h = record {
    name = field_lem e.recipient_name d.recipient_name;
    phone = field_lem e.phone.e164 d.recipient_phone;
    description = field_lem e.description d.description;
    language = field_lem e.language d.recipient_language;
    status = refl;
    row = h;
  }

  written_row :
      (e : Edit) (c : Changes) (geo : Option GeocodeResult) (address : String) (d : Delivery)
      (w : World)
      → delivery_row d.id w.db ≡ some d
      → delivery_row d.id (write_delivery d.id (edited e c geo address) w).db
        ≡ some (edited e c geo address d)
  unfolding write_delivery delivery_row edited
  written_row e c geo address d w h =
      first-update _ _ (edited e c geo address) w.deliveries d (λ r. refl) h ∙ rw ==_refl refl

  reschedule_returns :
      (id : ℕ) (b : Bool) (eta : Option ℕ) (w : World) → (reschedule env id b eta w).0 ≡ ok tt
  unfolding reschedule
  reschedule_returns id true (some t) w = refl
  reschedule_returns id true none w = refl
  reschedule_returns id false eta w = refl

  save_edit_lem :
      (d : Delivery) (e : Edit) (c : Changes) (geo : Option GeocodeResult) (w : World)
      → delivery_row d.id w.db ≡ some d
      → let d' = edited e c geo (env.strip e.dest_address) d in
        (r : EditResult) × ((save_edit env d e c geo w).0 ≡ ok (d', r))
        × (delivery_row d.id (save_edit env d e c geo w).1.db ≡ some d')
  unfolding save_edit
  save_edit_lem d e c geo w row =
      let address = env.strip e.dest_address in
      elim (Bool-cases (any_change c)) [
        | inl some_change ↦
            let w1 = write_delivery d.id (edited e c geo address) w in
            let r : EditResult = record {
              changed = changed_fields c;
              geocoded = not c.address || is_some geo;
            } in
            let answer : Delivery × EditResult = (edited e c geo address d, r) in
            let s = reschedule env d.id c.eta e.eta_at w1 in
            let goes_on =
              continue-of_ok (λ (u : Unit {0}). pure answer) s tt
                (reschedule_returns d.id c.eta e.eta_at w1) in
            rw some_change (
              rw goes_on (
                r,
                refl,
                ap (delivery_row d.id) (reschedule-db env d.id c.eta e.eta_at w1).0
                    ∙ written_row e c geo address d w row,
              ))
        | inr no_change ↦
            let same = edited_none e c geo address d no_change in
            let r : EditResult = record { changed = []; geocoded = true } in
            rw no_change (r, ap (λ x. ok (x, r)) (sym same), row ∙ ap some (sym same))
      ]

  geocode_if_lem :
      (b : Bool) (address : String) (w : World)
      → (geo : Option GeocodeResult) × (w1 : World) × (geocode_if env b address w ≡ (ok geo, w1))
        × (w1.db ≡ w.db)
  unfolding geocode_if
  geocode_if_lem true address w = (_, _, refl, refl)
  geocode_if_lem false address w = (_, _, refl, refl)

  -- A delivery that is not delivered, edited by its object as the table has it: the edit returns,
  -- the object has the name, phone, description and language asked for and its status of before,
  -- and the row is the object.
  pub update_delivery-IsEdited :
      (d : Delivery) (e : Edit) (w : World)
      → is_delivered d.status ≡ false
      → delivery_row d.id w.db ≡ some d
      → (d' : Delivery) × (r : EditResult) × ((update_delivery env d e w).0 ≡ ok (d', r))
        × IsEdited e d d' (update_delivery env d e w).1
  unfolding update_delivery
  update_delivery-IsEdited d e w open_still row =
      let c = changes_of env e d in
      let (geo, w1, asked, same) = geocode_if_lem c.address e.dest_address w in
      let (r, returned, stored) = save_edit_lem d e c geo w1 (ap (delivery_row d.id) same ∙ row) in
      rw open_still
        (rw asked (_, r, returned, fields-IsEdited e d geo (env.strip e.dest_address) _ stored))
