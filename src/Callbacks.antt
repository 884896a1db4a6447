-- ===== src/Callbacks.antt =====
-- tasks/views.py: the callbacks of the task queue, behind a shared secret. The answer is the HTTP
-- status.
use javi.Prelude.{
  ℕ, ◌+◌, ◌*◌, String, Bool, true, false, not, Option, none, some, ltb, if◌then◌else◌,
}
use javi.Model.{Delivery}
use javi.Env.{Env, minute}
use javi.Exec.{Exec, pure, gets, ◌>>=◌}
use javi.Runtime.{timezone_now}
use javi.Secrets.{Credentials, request_has_secret}
use javi.Timewindow.{rating_send_time}
use javi.Deliveries.{delivery_row}
use javi.Deliveries.Messages.{send_rating_request, escalate_delivery}
use javi.World.{World}
use javi.Retention.{PurgeResult}
use javi.Retention.Service.{purge_recipient_pii}

-- A task may come this much before its time.
abbrev pub early : ℕ
early = 5 * minute

module _ (env : Env) where
  -- The clock is read only for a delivery that has an ETA.
  unfoldable pub is_early : Option ℕ → Exec Bool
  is_early none = pure false
  is_early (some eta_at) = do
    now ← timezone_now env
    pure (ltb (now + early) (rating_send_time env eta_at))

  unfoldable pub rating_of : Option Delivery → Exec ℕ
  rating_of none = pure 404
  rating_of (some delivery) = do
    too_early ← is_early delivery.eta_at
    if too_early then pure 200 else do _ ← send_rating_request env delivery; pure 200

  unfoldable pub send_rating : String → Credentials → ℕ → Exec ℕ
  send_rating secret request id =
      if not (request_has_secret request secret)
      then pure 403
      else do delivery ← gets (λ w. delivery_row id w.db); rating_of delivery

  unfoldable pub escalation_of : Option Delivery → Exec ℕ
  escalation_of none = pure 404
  escalation_of (some delivery) = do _ ← escalate_delivery env delivery; pure 200

  unfoldable pub escalate : String → Credentials → ℕ → Exec ℕ
  escalate secret request id =
      if not (request_has_secret request secret)
      then pure 403
      else do delivery ← gets (λ w. delivery_row id w.db); escalation_of delivery

-- PURGE_TIME_BUDGET_SECONDS
abbrev pub purge_time_budget : ℕ
purge_time_budget = 40

pub data PurgeAnswer : Type 0 where
  not_allowed forbidden : PurgeAnswer
  counts : PurgeResult → PurgeAnswer

with_counts : Option (PurgeResult × World) → Option (PurgeAnswer × World)
with_counts none = none
with_counts (some (r, w)) = some (counts r, w)

-- `purge_recipient_pii_view`, with fuel for the loops of the purge
unfoldable pub purge_recipient_pii_view :
    Env → ℕ → String → (is_post : Bool) → Credentials → World → Option (PurgeAnswer × World)
unfolding with_counts
purge_recipient_pii_view env fuel secret false request w = some (not_allowed, w)
purge_recipient_pii_view env fuel secret true request w =
    if request_has_secret request secret
    then with_counts (purge_recipient_pii env fuel true none none (some purge_time_budget) w)
    else some (forbidden, w)
