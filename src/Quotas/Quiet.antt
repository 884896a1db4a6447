-- ===== src/Quotas/Quiet.antt =====
-- What `reserve_send` of notifications/quotas.py never touches.
use javi.Prelude.{ℕ, String, ◌≡◌, refl, Bool, Option}
use javi.Model.{Shop, SendKind, OutboundSend}
use javi.Env.{Env}
use javi.World.{World}
use javi.Exec.{Result, ok, err}
use javi.Exec.Frame.{SameState, SameEffects, IsQuiet}
use javi.Quotas.{reserve_send}
use javi.Quotas.Reserve.{outcome, reserve_send_lem}

module _ (env : Env) (shop : Shop) (phone : String) (kind : SendKind) (delivery : Option ℕ)
    (risky : Bool) where
  outcome_effects :
      (r : Result (Unit {0})) (row : OutboundSend) (w w' : World)
      → SameState w w'
      → SameEffects w (outcome r row w').1
  outcome_effects (ok _) row w w' same = record { outbox = same.outbox; tasks = same.tasks }
  outcome_effects (err e) row w w' same = same.effects

  pub reserve_send-IsQuiet :
      (now : Option ℕ) → IsQuiet (reserve_send env shop phone kind delivery risky now)
  reserve_send-IsQuiet now = record {
    at = λ w.
        let (t, unpaid, w', same, e, billed) =
          reserve_send_lem env shop phone kind delivery risky now w in
        rw e (outcome_effects _ _ w w' same);
  }

  outcome_tables :
      (r : Result (Unit {0})) (row : OutboundSend) (w w' : World)
      → SameState w w'
      → ((outcome r row w').1.notifications ≡ w.notifications)
        × ((outcome r row w').1.deliveries ≡ w.deliveries)
  outcome_tables (ok _) row w w' same = rw same.db (refl, refl)
  outcome_tables (err e) row w w' same = rw same.db (refl, refl)

  -- Whether it lets the message through or not, it writes no notification.
  pub reserve_send-notifications :
      (now : Option ℕ) (w : World)
      → (reserve_send env shop phone kind delivery risky now w).1.notifications ≡ w.notifications
  reserve_send-notifications now w =
      let (t, unpaid, w', same, e, billed) =
        reserve_send_lem env shop phone kind delivery risky now w in
      rw e (outcome_tables _ _ w w' same).0

  pub reserve_send-deliveries :
      (now : Option ℕ) (w : World)
      → (reserve_send env shop phone kind delivery risky now w).1.deliveries ≡ w.deliveries
  reserve_send-deliveries now w =
      let (t, unpaid, w', same, e, billed) =
        reserve_send_lem env shop phone kind delivery risky now w in
      rw e (outcome_tables _ _ w w' same).1
