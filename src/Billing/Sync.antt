-- ===== src/Billing/Sync.antt =====
-- billing/services.py: memberships read from Whop, one or all.
pub mod Counts
use javi.Prelude.{
  ℕ, suc, String, Bool, true, false, not, ◌&&◌, ◌||◌, Option, none, some, List, [], ◌∷◌, ◌==◌,
  str_eq, select, if◌then◌else◌, truthy, or_else,
}
use javi.Model.{ShopSubscription, BillingStatus, trial, active, past_due, canceled}
use javi.Env.{Env}
use javi.World.{World}
use javi.Exec.{Exec, pure, gets, ◌>>=◌}
use javi.Billing.Memberships.{Whop, MembershipData, apply_membership}
use javi.Billing.Api.{WhopApi, get_membership}

pub record Counters : Type 0 where
  pub checked : ℕ
  pub changed : ℕ
  pub errors : ℕ

unfoldable pub is_configured : Whop → WhopApi → Bool
is_configured whop api = truthy api.api_key && truthy whop.company_id && truthy whop.product_id

abbrev pub has_membership : ShopSubscription → Bool
has_membership sub = truthy sub.whop_membership_id

status_eq : BillingStatus → BillingStatus → Bool
status_eq trial trial = true
status_eq active active = true
status_eq past_due past_due = true
status_eq canceled canceled = true
status_eq _ _ = false

moment_eq : Option ℕ → Option ℕ → Bool
moment_eq none none = true
moment_eq (some a) (some b) = a == b
moment_eq _ _ = false

-- Whether the row that an event gave differs from the row before.
unfoldable pub is_changed : ShopSubscription → Option ShopSubscription → Bool
unfolding status_eq moment_eq
is_changed before none = false
is_changed before (some after) = not (
    status_eq after.status before.status
    && str_eq after.whop_status before.whop_status
    && moment_eq after.current_period_end before.current_period_end)

module _ (whop : Whop) (api : WhopApi) (env : Env) where
  unfoldable pub apply_data : Option MembershipData → Exec (Option ShopSubscription)
  apply_data none = pure none
  apply_data (some payload) = apply_membership whop env payload none

  unfoldable pub sync_membership : String → Option MembershipData → Exec (Option ShopSubscription)
  sync_membership id fallback = do
    read ← if truthy api.api_key then get_membership api id else pure none
    apply_data (or_else read fallback)

  unfoldable pub sync_row : ShopSubscription → Counters → Option MembershipData → Exec Counters
  sync_row sub counts none = pure (record counts { errors = suc counts.errors })
  sync_row sub counts (some payload) = do
    after ← apply_membership whop env payload none
    pure (if is_changed sub after then record counts { changed = suc counts.changed } else counts)

  unfoldable pub sync_rows : List ShopSubscription → Counters → Exec Counters
  sync_rows [] counts = pure counts
  sync_rows (sub ∷ rows) counts = do
    read ← get_membership api sub.whop_membership_id
    counts ← sync_row sub (record counts { checked = suc counts.checked }) read
    sync_rows rows counts

  unfoldable pub sync_all : Exec Counters
  sync_all =
      let counts : Counters = record { checked = 0; changed = 0; errors = 0 } in
      if not (is_configured whop api)
      then pure counts
      else do rows ← gets (λ w. select has_membership w.subscriptions); sync_rows rows counts
