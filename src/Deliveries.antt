-- ===== src/Deliveries.antt =====
-- deliveries/services.py. A function that changes the `delivery` object of its caller returns the
-- object beside its result; `save(update_fields=...)` writes those fields to the row.
pub mod Sending
pub mod Start
pub mod Messages
pub mod Edit
use javi.Prelude.{
  ℕ, suc, ◌+◌, ◌*◌, String, Bool, true, false, not, ◌&&◌, ◌||◌, Option, none, some, ◌==◌, first,
  any, update_where, if◌then◌else◌, is_some, is_none,
}
use javi.Model.{
  Delivery, Status, Notification, is_new, is_on_the_way, is_delivered, is_start_notice,
  is_rating_notice,
}
use javi.Env.{Env}
use javi.World.{World, Db, Event, no_extra}
use javi.Exec.{Exec, Error, does_not_exist, raise, pure, gets, modify, ◌>>=◌, ◌>>◌}
use javi.Runtime.{timezone_now}
use javi.Webhooks.{emit_delivery_event}

-- `Delivery.objects.filter(pk=id).update(...)`, which is also how `save(update_fields=...)` writes.
unfoldable pub write_delivery : ℕ → (Delivery → Delivery) → World → World
write_delivery id f w = record w {
  db = record w.db { deliveries = update_where (λ (d : Delivery). d.id == id) f w.deliveries };
}

-- `Delivery.objects.get(pk=id)`
unfoldable pub delivery_row : ℕ → Db → Option Delivery
delivery_row id db = first (λ (d : Delivery). d.id == id) db.deliveries

found : Option Delivery → Exec Delivery
found none = raise does_not_exist
found (some d) = pure d

unfoldable pub get_delivery : ℕ → Exec Delivery
unfolding found
get_delivery id = do row ← gets (λ w. delivery_row id w.db); found row

abbrev pub is_start_of : ℕ → Notification → Bool
is_start_of id n = n.delivery_id == id && is_start_notice n.kind

abbrev pub is_rating_of : ℕ → Notification → Bool
is_rating_of id n = n.delivery_id == id && is_rating_notice n.kind

-- `_already_started`
unfoldable pub already_started : Db → Delivery → Bool
already_started db delivery =
    is_on_the_way delivery.status || any (is_start_of delivery.id) db.notifications

unfoldable pub mark_ready : Delivery → Exec (Delivery × Bool)
mark_ready delivery =
    if is_new delivery.status
    then (do
      modify (write_delivery delivery.id (λ d. record d { status = Status.created }))
      pure (record delivery { status = Status.created }, true))
    else pure (delivery, false)

module _ (env : Env) where
  unfoldable pub mark_delivered : Delivery → Exec (Delivery × Bool)
  mark_delivered delivery =
      if not (is_delivered delivery.status)
      then (do
        now ← timezone_now env
        let delivery' = record delivery { status = Status.delivered; delivered_at = some now }
        modify (
            write_delivery delivery.id
              (λ d. record d { status = Status.delivered; delivered_at = some now }))
        emit_delivery_event env delivery' Event.delivery_delivered no_extra
        pure (delivery', true))
      else pure (delivery, false)

  unfoldable pub soft_delete : Delivery → Exec (Delivery × Bool)
  soft_delete delivery =
      if is_none delivery.deleted_at
      then (do
        now ← timezone_now env
        modify (write_delivery delivery.id (λ d. record d { deleted_at = some now }))
        pure (record delivery { deleted_at = some now }, true))
      else pure (delivery, false)

unfoldable pub restore : Delivery → Exec (Delivery × Bool)
restore delivery =
    if is_some delivery.deleted_at && is_none delivery.pii_purged_at
    then (do
      modify (write_delivery delivery.id (λ d. record d { deleted_at = none }))
      pure (record delivery { deleted_at = none }, true))
    else pure (delivery, false)
