-- ===== src/Pages.antt =====
-- deliveries/views.py, the pages of a shop that is signed in: what they answer. The children have the
-- forms and the pages themselves; `gettext` and the templates make the text.
pub mod Forms
pub mod Keys
pub mod Store
pub mod Board
pub mod Deliveries
use javi.Prelude.{ℕ, String, Option, List}
use javi.Model.{Delivery, ApiKey}
use javi.Exec.{QuotaCode}

-- `messages.success`, `info`, `warning` and `error`.
pub data Notice : Type 0 where
  saved name_saved_only no_store set_address_first : Notice
  too_many_keys : (count : ℕ) → Notice
  key_revoked delivery_added risky_number address_not_found : Notice
  already_delivered nothing_changed delivery_updated not_sent_again : Notice
  over_limit : QuotaCode → Notice
  already_started started_unsent : Notice
  customer_notified : (eta_at : Option ℕ) → Notice
  invalid_number cannot_resend resent not_resent : Notice
  marked_delivered delivery_deleted delivery_restored : Notice

pub data Target : Type 0 where
  to_list to_profile to_deleted : Target

-- An answer. `crashed` is an exception that no view takes.
pub data Page : Type 0 where
  not_found crashed json_ok : Page
  redirect : List Notice → Target → Page
  form_again : Page
  profile : List Notice → Page
  confirm_eta : List Notice → Delivery → Option ℕ → Page
  key_created : ApiKey → (full_key : String) → Page
