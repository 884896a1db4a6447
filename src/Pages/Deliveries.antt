-- ===== src/Pages/Deliveries.antt =====
-- deliveries/views.py: the pages that change a delivery, and the page of a new one.
pub mod Isolated
pub mod Unchanged
use javi.Prelude.{
  ℕ, String, Bool, true, false, not, ◌&&◌, ◌==◌, str_eq, any, Option, none, some, List, [], ◌∷◌,
  ◌++◌, first, is_some, is_none, if◌then◌else◌,
}
use javi.Model.{Shop, Delivery, is_on_the_way, is_delivered}
use javi.Env.{Env, SendResult}
use javi.World.{World, Db}
use javi.Exec.{
  Exec, Result, quota_exceeded, value_error, does_not_exist, ok, err, pure, gets, ◌>>=◌, ◌>>◌,
}
use javi.Deliveries.{mark_ready, mark_delivered, soft_delete, restore}
use javi.Deliveries.Sending.{compute_eta}
use javi.Deliveries.Start.{StartResult, get_shop, start_delivery}
use javi.Deliveries.Messages.{PhoneResult, resend_on_the_way}
use javi.Deliveries.Edit.{Edit, EditResult, create_delivery, update_delivery}
use javi.Api.Create.{Readers}
use javi.Pages.{
  Notice, set_address_first, delivery_added, risky_number, address_not_found, already_delivered,
  nothing_changed, delivery_updated, not_sent_again, over_limit, already_started, started_unsent,
  customer_notified, invalid_number, cannot_resend, resent, not_resent, marked_delivered,
  delivery_deleted, delivery_restored, Page, not_found, crashed, redirect, form_again, confirm_eta,
  to_list, to_profile, to_deleted,
}
use javi.Pages.Forms.{
  DeliveryFields, EditFields, EtaFields, EtaEdit, refused, keep_eta, set_eta, clean_delivery,
  clean_phone, clean_eta, clean_edit_eta,
}

-- What a POST about a delivery asks for. `start` has the fields of the second step, if it is that.
pub data Action : Type 0 where
  edit : Option EditFields → Action
  start : Option (Option EtaFields) → Action
  resend : Option String → Action
  mark_as_delivered ready delete restore_it : Action

-- The filter on `deleted_at` of the view.
abbrev pub takes : Action → Delivery → Bool
takes (edit fields) d = is_none d.deleted_at
takes (start eta) d = true
takes (resend phone) d = true
takes mark_as_delivered d = true
takes ready d = is_none d.deleted_at
takes delete d = is_none d.deleted_at
takes restore_it d = is_some d.deleted_at

abbrev pub is_live : Shop → ℕ → Action → Delivery → Bool
is_live shop pk action d =
    d.id == pk && d.shop_id == shop.id && is_none d.pii_purged_at && takes action d

-- `_live_delivery_or_404`; an account with no shop has no delivery.
unfoldable pub live_delivery : Option Shop → ℕ → Action → Db → Option Delivery
live_delivery none pk action db = none
live_delivery (some shop) pk action db = first (is_live shop pk action) db.deliveries

notice_if : Bool → Notice → List Notice
notice_if true n = n ∷ []
notice_if false n = []

-- The view after the service has answered; `caught` is for the views that take `QuotaExceeded`.
unfoldable pub caught : {A : Type 0} → (A → Page) → Result A × World → Result Page × World
caught f (ok a, w) = (ok (f a), w)
caught f (err (quota_exceeded code http_status), w) =
    (ok (redirect (over_limit code ∷ []) to_list), w)
caught f (err value_error, w) = (ok crashed, w)
caught f (err does_not_exist, w) = (ok crashed, w)

unfoldable pub start_page : StartResult → Page
start_page r =
    if r.already
    then redirect (already_started ∷ []) to_list
    else if r.succeeded && r.sent
    then redirect (customer_notified r.eta_at ∷ []) to_list
    else if r.succeeded
    then redirect (started_unsent ∷ []) to_list
    else redirect [] to_list

unfoldable pub resend_page : Option SendResult → Page
resend_page none = redirect (cannot_resend ∷ []) to_list
resend_page (some r) = redirect ((if r.succeeded then resent else not_resent) ∷ []) to_list

-- `delivery` is the object after the edit.
unfoldable pub edit_page : Edit → Delivery × EditResult → Page
unfolding notice_if
edit_page e (delivery, r) = elim r.changed [
  | [] ↦ redirect (nothing_changed ∷ []) to_list
  | field ∷ fields ↦
      redirect
        (delivery_updated
          ∷ (notice_if (is_on_the_way delivery.status) not_sent_again
              ++ (notice_if (any (str_eq "recipient_phone") (field ∷ fields) && e.phone.is_risky)
                    risky_number
                  ++ notice_if (not r.geocoded) address_not_found)))
        to_list
]

eta_of : EtaEdit → Option (Option ℕ)
eta_of refused = none
eta_of keep_eta = some none
eta_of (set_eta t) = some (some t)

clean_edit : Readers → DeliveryFields → Option (Option ℕ) → Option Edit
clean_edit readers fields none = none
clean_edit readers fields (some eta_at) = clean_delivery readers (some fields) eta_at

-- `DeliveryEditForm` as a whole
unfoldable pub edit_of : Readers → EtaEdit → DeliveryFields → Option Edit
unfolding eta_of clean_edit
edit_of readers eta fields = clean_edit readers fields (eta_of eta)

module _ (env : Env) where
  -- `confirm_eta_page`
  unfoldable pub confirm_eta_page : List Notice → Delivery → Exec Page
  confirm_eta_page notices d = do
    shop ← get_shop d
    eta ← compute_eta env shop d
    pure (confirm_eta notices d eta)

  save_edit : Delivery → Option Edit → Exec Page
  save_edit d none w = pure form_again w
  save_edit d (some e) w = caught (edit_page e) (update_delivery env d e w)

  unfoldable pub edit_fields : Readers → Delivery → Option EditFields → Exec Page
  unfolding save_edit
  edit_fields readers d none = pure form_again
  edit_fields readers d (some f) = do
    eta ← clean_edit_eta env d f.eta_date f.eta_time
    save_edit d (edit_of readers eta f.fields)

  -- `DeliveryEditView.post`
  unfoldable pub edit_post : Readers → Delivery → Option EditFields → Exec Page
  unfolding edit_fields
  edit_post readers d f =
      if is_delivered d.status
      then pure (redirect (already_delivered ∷ []) to_list)
      else edit_fields readers d f

  start_at : Delivery → Option ℕ → Exec Page
  start_at d none w = pure form_again w
  start_at d (some eta_at) w = caught (λ r. start_page r.1) (start_delivery env d (some eta_at) w)

  -- `DeliveryStartView.post`
  unfoldable pub start_post : Delivery → Option (Option EtaFields) → Exec Page
  unfolding start_at
  start_post d none =
      if is_on_the_way d.status
      then pure (redirect (already_started ∷ []) to_list)
      else confirm_eta_page [] d
  start_post d (some f) = do eta ← clean_eta env f; start_at d eta

  -- `DeliveryResendView.post`
  unfoldable pub resend_post : Delivery → Option PhoneResult → Exec Page
  resend_post d none w = pure (redirect (invalid_number ∷ []) to_list) w
  resend_post d (some phone) w =
      caught (λ r. resend_page r.1) (resend_on_the_way env d (some phone) w)

  module _ (readers : Readers) where
    unfoldable pub act : Action → Delivery → Exec Page
    act (edit f) d w = edit_post readers d f w
    act (start f) d w = start_post d f w
    act (resend raw) d w = resend_post d (clean_phone readers raw) w
    act mark_as_delivered d w =
        caught (λ r. redirect (marked_delivered ∷ []) to_list) (mark_delivered env d w)
    act ready d w = caught (λ r. redirect [] to_list) (mark_ready d w)
    act delete d w = caught (λ r. redirect (delivery_deleted ∷ []) to_list) (soft_delete env d w)
    act restore_it d w = caught (λ r. redirect (delivery_restored ∷ []) to_deleted) (restore d w)

    unfoldable pub act_on : Action → Option Delivery → Exec Page
    act_on action none = pure not_found
    act_on action (some d) = act action d

    -- A POST about the delivery `pk` from an account and its shop.
    unfoldable pub post : Option Shop → ℕ → Action → Exec Page
    post shop pk action = do d ← gets (λ w. live_delivery shop pk action w.db); act_on action d

    created_page : Bool → PhoneResult → Delivery × Bool → Exec Page
    unfolding notice_if
    created_page notify_now phone (d, geocoded) =
        let notices =
          delivery_added
          ∷ (notice_if phone.is_risky risky_number ++ notice_if (not geocoded) address_not_found) in
        if notify_now
        then (do marked ← mark_ready d; confirm_eta_page notices marked.0)
        else pure (redirect notices to_list)

    create_as : Shop → Bool → Option Edit → Exec Page
    unfolding created_page
    create_as shop notify_now none = pure form_again
    create_as shop notify_now (some e) = do
      made ← create_delivery env shop e
      created_page notify_now e.phone made

    -- `DeliveryCreateView.post`
    unfoldable pub create_post : Option Shop → Option DeliveryFields → Bool → Exec Page
    unfolding create_as
    create_post none f notify_now = pure (redirect (set_address_first ∷ []) to_profile)
    create_post (some shop) f notify_now =
        if is_none shop.origin_lat
        then pure (redirect (set_address_first ∷ []) to_profile)
        else create_as shop notify_now (clean_delivery readers f none)
