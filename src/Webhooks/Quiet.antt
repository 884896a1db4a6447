-- ===== src/Webhooks/Quiet.antt =====
-- Queuing a task or a webhook leaves the database alone.
use javi.Prelude.{arith}
use javi.Model.{Delivery}
use javi.Env.{Env}
use javi.World.{Event, Extra, Task}
use javi.Exec.Keeps.{Keeps, SameDb}
use javi.Runtime.{enqueue}
use javi.Webhooks.{emit_delivery_event}

module _ (env : Env) where
  pub enqueue-SameDb : (t : Task) → Keeps SameDb (enqueue env t)
  enqueue-SameDb t = record { at = λ w. ground arith }

  pub emit-SameDb :
      (d : Delivery) (e : Event) (extra : Extra) → Keeps SameDb (emit_delivery_event env d e extra)
  unfolding emit_delivery_event
  emit-SameDb d e extra = record { at = λ w. ground arith }
