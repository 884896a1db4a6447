-- ===== src/Api.antt =====
-- deliveries/api.py and deliveries/auth.py: the requests of a shop's API key, each scoped to its
-- shop. A request's body is read already: the ETA and the phone that it names are values here.
pub mod Others
pub mod Create
pub mod Keys
pub mod Lists
use javi.Prelude.{
  ℕ, String, Bool, true, false, not, ◌&&◌, Option, none, some, List, [], ◌∷◌, ◌==◌, str_eq, first,
  update_where, is_none, if◌then◌else◌, truthy,
}
use javi.Model.{Shop, Delivery, Status, new, created, on_the_way, delivered, ApiKey}
use javi.Env.{Env}
use javi.World.{World, Db}
use javi.Exec.{
  Exec, Result, Error, QuotaCode, quota_exceeded, value_error, does_not_exist, ok, err, pure, gets,
  ◌>>=◌, ◌>>◌,
}
use javi.Deliveries.{mark_ready, mark_delivered, soft_delete, restore}
use javi.Deliveries.Start.{StartResult, start_delivery}
use javi.Deliveries.Messages.{PhoneResult, resend_on_the_way}
use javi.Env.{SendResult}

-- `STATUS_MAP`
abbrev pub standard_status : Status → String
standard_status new = "pending"
standard_status created = "ready_for_pickup"
standard_status on_the_way = "out_for_delivery"
standard_status delivered = "delivered"

-- `STATUS_MAP_REVERSE`
unfoldable pub status_of_standard : String → Option Status
status_of_standard s =
    if str_eq s "pending"
    then some new
    else if str_eq s "ready_for_pickup"
    then some created
    else if str_eq s "out_for_delivery"
    then some on_the_way
    else if str_eq s "delivered"
    then some delivered
    else none

-- An answer: a body with 200, or an error of the API with its code and status. `crashed` is an
-- exception that no handler takes.
pub data Answer : Type 0 where
  done : Answer
  not_found eta_required not_started : Answer
  over_limit : (code : QuotaCode) (http_status : ℕ) → Answer
  crashed : Answer

pub data Action : Type 0 where
  get delete ready mark_as_delivered restore_it : Action
  start : (manual_eta : Option ℕ) → Action
  resend : (new_phone : Option PhoneResult) → Action

-- `get_owned_delivery`
unfoldable pub owned_delivery : Shop → ℕ → Db → Option Delivery
owned_delivery shop pk db =
    first (λ (d : Delivery). d.shop_id == shop.id && d.id == pk && is_none d.pii_purged_at)
      db.deliveries

start_answer : StartResult → Answer
start_answer r = if r.needs_manual_eta then eta_required else done

resend_answer : Option SendResult → Answer
resend_answer none = not_started
resend_answer (some r) = done

-- `except QuotaExceeded as exc: raise ApiError(...)`
unfoldable pub answered : {A : Type 0} → (A → Answer) → Result A × World → Result Answer × World
answered f (ok a, w) = (ok (f a), w)
answered f (err (quota_exceeded code http_status), w) = (ok (over_limit code http_status), w)
answered f (err value_error, w) = (ok crashed, w)
answered f (err does_not_exist, w) = (ok crashed, w)

module _ (env : Env) where
  unfoldable pub act : Action → Delivery → Exec Answer
  unfolding start_answer resend_answer
  act get d w = pure done w
  act delete d w = answered (λ r. done) (soft_delete env d w)
  act ready d w = answered (λ r. done) (mark_ready d w)
  act mark_as_delivered d w = answered (λ r. done) (mark_delivered env d w)
  act restore_it d w = answered (λ r. done) (restore d w)
  act (start manual_eta) d w = answered (λ r. start_answer r.1) (start_delivery env d manual_eta w)
  act (resend new_phone) d w =
      answered (λ r. resend_answer r.1) (resend_on_the_way env d new_phone w)

  unfoldable pub act_on : Action → Option Delivery → Exec Answer
  act_on action none = pure not_found
  act_on action (some d) = act action d

  unfoldable pub handle : Shop → ℕ → Action → Exec Answer
  handle shop pk action = do d ← gets (λ w. owned_delivery shop pk w.db); act_on action d
