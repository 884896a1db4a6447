-- ===== src/Receipts/Handler.antt =====
-- What the handler of receipts does to the database.
use javi.Prelude.{
  String, ◌≡◌, ◌∙◌, ==_refl, refl, true, Option, none, some, List, [], ◌∷◌, All, first, truthy,
  str_eq, ◌==◌, arith, first-update, get_or, Bool-cases, inl, inr,
}
use javi.Model.{Delivery, Notification, NotificationStatus}
use javi.Env.{Env}
use javi.World.{World, Event, of_notification}
use javi.Exec.{ok}
use javi.Receipts.{
  Receipt, resolve_status, apply_status, handle_receipt, handle_receipts, emit_notification_event,
  emit_found, event_of, apply_found, store_status,
}
use javi.Webhooks.Quiet.{emit-SameDb}
use javi.Deliveries.{delivery_row}
use javi.Webhooks.{emit_delivery_event}
use javi.Deliveries.Sending.{write_notification}
use javi.Receipts.Progress.{after_receipt, after_receipts}

-- The row of a message: the one that the provider's id finds, and that its own id finds.
pub record IsRowOf (mid : String) (n : Notification) (w : World) : Type 0 where
  pub by_message :
      first (λ (m : Notification). str_eq m.provider_message_id mid) w.notifications ≡ some n
  pub by_id : first (λ (m : Notification). m.id == n.id) w.notifications ≡ some n

abbrev pub with_status : Notification → NotificationStatus → Notification
with_status n status = record n { status = status }

module _ (env : Env) where
  written :
      (mid : String) (n : Notification) (w : World) (status : NotificationStatus)
      → IsRowOf mid n w
      → IsRowOf mid
          (with_status n status)
          (write_notification n.id (λ row. record row { status = status }) w)
  unfolding write_notification
  written mid n w status row = record {
    by_message = first-update _ _ _ w.notifications n (λ y. refl) row.by_message ∙ rw ==_refl;
    by_id = first-update _ _ _ w.notifications n (λ y. refl) row.by_id ∙ rw ==_refl;
  }

  same_rows :
      (mid : String) (n : Notification) (w w' : World)
      → w'.db ≡ w.db
      → IsRowOf mid n w
      → IsRowOf mid n w'
  same_rows mid n w w' e row = record { by_message = rw e row.by_message; by_id = rw e row.by_id }

  emit_found-SameDb :
      (d : Option Delivery) (e : Option Event) (s : NotificationStatus) (channel : String)
      (w : World)
      → (emit_found env d e s channel w).1.db ≡ w.db
  unfolding emit_found
  emit_found-SameDb none e s channel w = refl
  emit_found-SameDb (some d) none s channel w = refl
  emit_found-SameDb (some d) (some e) s channel w =
      (emit-SameDb env d e (of_notification s channel)).at w

  store_status_lem :
      (mid : String) (n : Notification) (o : Option NotificationStatus) (w : World)
      → IsRowOf mid n w
      → IsRowOf mid (with_status n (get_or o n.status)) (store_status env n o w).1
  unfolding store_status emit_notification_event
  store_status_lem mid n none w row = row
  store_status_lem mid n (some status) w row =
      let stored = write_notification n.id (λ r. record r { status = status }) w in
      same_rows mid (with_status n status) stored _
        (emit_found-SameDb (delivery_row n.delivery_id stored.db) (event_of status) status n.channel
          stored)
        (written mid n w status row)

  apply_found_lem :
      (mid : String) (n : Notification) (o : Option NotificationStatus) (w : World)
      → IsRowOf mid n w
      → IsRowOf mid
          (with_status n
            (elim o [ none ↦ n.status | some new ↦ get_or (apply_status n.status new) n.status ]))
          (apply_found env (some n) o w).1
  unfolding apply_found
  apply_found_lem mid n none w row = row
  apply_found_lem mid n (some new) w row = store_status_lem mid n (apply_status n.status new) w row

  handle_receipt_lem :
      (mid : String) (n : Notification) (r : Receipt) (w : World)
      → truthy mid ≡ true
      → r.message_id ≡ mid
      → IsRowOf mid n w
      → IsRowOf mid (with_status n (after_receipt n.status r)) (handle_receipt env r w).1
  unfolding handle_receipt after_receipt resolve_status
  handle_receipt_lem mid n r w given about row =
      rw (about, given, row.by_message) (apply_found_lem mid n (resolve_status r) w row)

  emit_found_returns :
      (d : Option Delivery) (e : Option Event) (s : NotificationStatus) (channel : String)
      (w : World)
      → (emit_found env d e s channel w).0 ≡ ok tt
  unfolding emit_found emit_delivery_event
  emit_found_returns none e s channel w = refl
  emit_found_returns (some d) none s channel w = refl
  emit_found_returns (some d) (some e) s channel w = ground arith

  store_status_returns :
      (n : Notification) (o : Option NotificationStatus) (w : World)
      → (store_status env n o w).0 ≡ ok tt
  unfolding store_status emit_notification_event
  store_status_returns n none w = refl
  store_status_returns n (some s) w = emit_found_returns _ _ s n.channel _

  apply_found_returns :
      (n : Option Notification) (o : Option NotificationStatus) (w : World)
      → (apply_found env n o w).0 ≡ ok tt
  unfolding apply_found
  apply_found_returns none o w = refl
  apply_found_returns (some n) none w = refl
  apply_found_returns (some n) (some s) w = store_status_returns n _ w

  handle_receipt_returns : (r : Receipt) (w : World) → (handle_receipt env r w).0 ≡ ok tt
  unfolding handle_receipt
  handle_receipt_returns r w = elim (Bool-cases (truthy r.message_id)) [
    | inl given ↦ rw given (apply_found_returns _ (resolve_status r) w)
    | inr missing ↦ rw missing
  ]

  -- The database ends as the pure account of the receipts says: after a batch about one message,
  -- the row that its id finds has the status that `after_receipts` makes of the one before, and is
  -- the row that it was in all else.
  pub handle_receipts_lem :
      (mid : String) (n : Notification) (rs : List Receipt) (w : World)
      → truthy mid ≡ true
      → All (λ r. r.message_id ≡ mid) rs
      → IsRowOf mid n w
      → IsRowOf mid (with_status n (after_receipts n.status rs)) (handle_receipts env rs w).1
  unfolding handle_receipts after_receipts
  handle_receipts_lem mid n [] w given about row = row
  handle_receipts_lem mid n (r ∷ rest) w given about row =
      let next = handle_receipt_lem mid n r w given about.0 row in
      let all =
        handle_receipts_lem mid (with_status n (after_receipt n.status r)) rest
          (handle_receipt env r w).1 given about.1 next in
      rw (handle_receipt_returns r w) all
