-- ===== src/Pages/Deliveries/Unchanged.antt =====
-- The form of an edit, saved as it was opened.
use javi.Prelude.{
  ℕ, ◌≡◌, refl, ap, true, false, ==_refl, eq_iff, eq_refl, Option-cases, Option, none, some, [],
  ◌∷◌, arith, Bool-cases, inl, inr, truthy,
}
use javi.Model.{Shop, Delivery, is_on_the_way, is_delivered}
use javi.Env.{Env, LocalTime}
use javi.World.{World}
use javi.Exec.{ok, continue}
use javi.Deliveries.Messages.{PhoneResult}
use javi.Deliveries.Edit.{
  Edit, Changes, any_change, geocode_if, save_edit, changes_of, update_delivery,
}
use javi.Api.Create.{Readers}
use javi.Pages.{redirect, nothing_changed, to_list}
use javi.Pages.Forms.{
  keep_eta, combine, date_of, clock_of, same_minute, clean_delivery, clean_edit_eta, initial_edit,
}
use javi.Pages.Deliveries.{
  edit, live_delivery, caught, edit_page, edit_of, edit_fields, edit_post, act, act_on, post,
}

same_minute_refl : (t : LocalTime) → same_minute (combine (date_of t) (clock_of t)) t ≡ true
unfolding same_minute
same_minute_refl t = ground (
  arith,
  ==_refl t.year,
  ==_refl t.month,
  ==_refl t.day_of_month,
  ==_refl t.hour,
  ==_refl t.minutes,
)

-- The edit that says of a delivery what its row has.
abbrev same_edit : Delivery → PhoneResult → Edit
same_edit d phone = record {
  recipient_name = d.recipient_name;
  phone = phone;
  dest_address = d.dest_address;
  description = d.description;
  language = d.recipient_language;
  eta_at = none;
}

module _ (env : Env) where
  eta_kept :
      (d : Delivery) (w : World)
      → clean_edit_eta env d (initial_edit env d).eta_date (initial_edit env d).eta_time w
        ≡ (ok keep_eta, w)
  unfolding clean_edit_eta initial_edit
  eta_kept d w = elim (Bool-cases (is_on_the_way d.status)) [
    | inr off ↦ rw off refl
    | inl on ↦ elim (Option-cases d.eta_at) [
      | inl none_set ↦ rw (on, none_set) refl
      | inr (t, is_set) ↦ rw (on, is_set, same_minute_refl (env.localtime t)) refl
    ]
  ]

  no_changes :
      (d : Delivery) (phone : PhoneResult)
      → phone.e164 ≡ d.recipient_phone
      → env.strip d.dest_address ≡ d.dest_address
      → any_change (changes_of env (same_edit d phone) d) ≡ false
  unfolding changes_of
  no_changes d phone same stripped = ground (
    arith,
    eq_refl d.recipient_name,
    (eq_iff phone.e164 d.recipient_phone).1 same,
    eq_refl d.description,
    eq_refl d.recipient_language,
    (eq_iff (env.strip d.dest_address) d.dest_address).1 stripped,
  )

  -- No change: the geocoder is not asked, and nothing is written.
  saved_same :
      (d : Delivery) (e : Edit) (c : Changes) (w : World)
      → any_change c ≡ false
      → continue (save_edit env d e c) (geocode_if env c.address e.dest_address w)
        ≡ (ok (d, record { changed = []; geocoded = true }), w)
  unfolding save_edit geocode_if
  saved_same d e c w no_change =
      let kept : c.address ≡ false = ground (arith, no_change) in
      rw (ap (λ b. geocode_if env b e.dest_address w) kept) (rw no_change refl)

  update_same :
      (d : Delivery) (phone : PhoneResult) (w : World)
      → is_delivered d.status ≡ false
      → phone.e164 ≡ d.recipient_phone
      → env.strip d.dest_address ≡ d.dest_address
      → update_delivery env d (same_edit d phone) w
        ≡ (ok (d, record { changed = []; geocoded = true }), w)
  unfolding update_delivery
  update_same d phone w open_still same stripped =
      let e = same_edit d phone in
      rw open_still (saved_same d e (changes_of env e d) w (no_changes d phone same stripped))

  module _ (readers : Readers) where
    edit_as_was :
        (d : Delivery) (phone : PhoneResult)
        → readers.normalize_phone d.recipient_phone ≡ some phone
        → truthy d.recipient_language ≡ true
        → edit_of readers keep_eta (initial_edit env d).fields ≡ some (same_edit d phone)
    unfolding edit_of clean_delivery initial_edit
    edit_as_was d phone normal language = rw (normal, language) refl

    -- The form of an edit, saved as it was opened, says that nothing changed, and nothing has: also
    -- where the ETA of a delivery on its way has passed. The number of the row normalizes to
    -- itself, the row has a language, and its address no spaces around it.
    pub post_unchanged :
        (account : Option Shop) (pk : ℕ) (d : Delivery) (phone : PhoneResult) (w : World)
        → live_delivery account pk (edit (some (initial_edit env d))) w.db ≡ some d
        → is_delivered d.status ≡ false
        → readers.normalize_phone d.recipient_phone ≡ some phone
        → phone.e164 ≡ d.recipient_phone
        → truthy d.recipient_language ≡ true
        → env.strip d.dest_address ≡ d.dest_address
        → post env readers account pk (edit (some (initial_edit env d))) w
          ≡ (ok (redirect (nothing_changed ∷ []) to_list), w)
    unfolding post act_on act edit_post edit_fields caught edit_page
    post_unchanged account pk d phone w found open_still normal same language stripped =
        rw
          (
            found,
            open_still,
            eta_kept d w,
            edit_as_was d phone normal language,
            update_same d phone w open_still same stripped,
          )
          refl
