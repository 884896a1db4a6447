-- ===== src/Deliveries/Messages/Resend.antt =====
-- `resend_on_the_way`: it changes nothing when a limit is used up, and one message goes out
-- otherwise.
pub mod Reach
use javi.Prelude.{
  ℕ, ◌≡◌, refl, ◌∙◌, Option, none, some, List, ◌∷◌, inl, inr, Bool-cases, subst, update_where, ap,
  arith, ◌==◌,
}
use javi.Model.{Shop, Delivery, Notification, SendKind, OutboundSend, TrackingToken}
use javi.Env.{Env, SendResult, MessageText}
use javi.World.{World, Db}
use javi.Exec.{Exec, Result, Error, ok, err, pure, modify, continue, ◌>>=◌, ◌>>◌}
use javi.Exec.Frame.{SameState, bind-eq-ok, continue-of_ok}
use javi.Runtime.{uuid4}
use javi.Quotas.{reserve_send}
use javi.Quotas.Reserve.{IsReserved, reserve_send-ok}
use javi.Deliveries.{write_delivery}
use javi.Deliveries.Start.{get_shop}
use javi.Deliveries.Sending.{
  on_the_way_text, send_and_record, sent_time, verdict, write_notification, record_attempts,
}
use javi.Deliveries.Messages.{
  PhoneResult, phone_or, with_phone, save_phone, requeue, resend_to, resend_on_the_way,
}

module _ (env : Env) where
  send_and_record_lem :
      (n : ℕ) (d : Delivery) (text : MessageText) (w : World)
      → (r : SendResult) × ((send_and_record env n d text w).0 ≡ ok r)
        × ((send_and_record env n d text w).1.outbox
            ≡ record { phone = d.recipient_phone; text = text } ∷ w.outbox)
        × ((send_and_record env n d text w).1.tasks ≡ w.tasks)
        × ((send_and_record env n d text w).1.sends ≡ w.sends)
        × ((send_and_record env n d text w).1.deliveries ≡ w.deliveries)
  unfolding send_and_record sent_time write_notification record_attempts
  send_and_record_lem n d text w =
      elim (Bool-cases (verdict (env.send_text w.calls d.recipient_phone text)).succeeded) [
        | inl good ↦ rw good (_, refl, refl, refl, refl, refl)
        | inr bad ↦ rw bad (_, refl, refl, refl, refl, refl)
      ]

  -- What follows once the message is reserved.
  abbrev after_reserve :
      Option PhoneResult
      → Delivery
      → Shop
      → Notification
      → TrackingToken
      → Exec (Delivery × Option SendResult)
  after_reserve new_phone delivery shop n t = do
    delivery' ← save_phone new_phone delivery
    logical ← uuid4 env
    modify (requeue n.id logical)
    result ← send_and_record env n.id delivery' (on_the_way_text shop delivery' t.token)
    pure (delivery', some result)

  abbrev saved_rows : Option PhoneResult → Delivery → List Delivery → List Delivery
  saved_rows none d rows = rows
  saved_rows (some phone) d rows =
      update_where (λ (r : Delivery). r.id == d.id) (with_phone phone) rows

  abbrev saved : Option PhoneResult → Delivery → Delivery
  saved none d = d
  saved (some phone) d = with_phone phone d

  -- One message to the phone, and the number stored; nothing raises.
  record IsSent (new_phone : Option PhoneResult) (d : Delivery) (text : MessageText) (w : World)
      (s : Result (Delivery × Option SendResult) × World) : Type 0 where
    answer : SendResult
    result : s.0 ≡ ok (saved new_phone d, some answer)
    outbox :
        s.1.outbox ≡ record { phone = (saved new_phone d).recipient_phone; text = text } ∷ w.outbox
    tasks : s.1.tasks ≡ w.tasks
    sends : s.1.sends ≡ w.sends
    deliveries : s.1.deliveries ≡ saved_rows new_phone d w.deliveries

  abbrev answered : Option PhoneResult → Delivery → SendResult → Exec (Delivery × Option SendResult)
  answered new_phone d r = pure (saved new_phone d, some r)

  send_and_record-IsSent :
      (new_phone : Option PhoneResult) (d : Delivery) (n : ℕ) (text : MessageText) (w0 w : World)
      → w.outbox ≡ w0.outbox
      → w.tasks ≡ w0.tasks
      → w.sends ≡ w0.sends
      → w.deliveries ≡ saved_rows new_phone d w0.deliveries
      → IsSent new_phone d text w0
          (continue (answered new_phone d) (send_and_record env n (saved new_phone d) text w))
  send_and_record-IsSent new_phone d n text w0 w outbox tasks sends deliveries =
      let (r, e, o, t, s, rows) = send_and_record_lem n (saved new_phone d) text w in
      rw
        (continue-of_ok (answered new_phone d) (send_and_record env n (saved new_phone d) text w) r
          e)
        (record {
          answer = r;
          result = refl;
          outbox = o ∙ rw outbox refl;
          tasks = t ∙ tasks;
          sends = s ∙ sends;
          deliveries = rows ∙ deliveries;
        })

  after_reserve_lem :
      (new_phone : Option PhoneResult) (d : Delivery) (shop : Shop) (n : Notification)
      (t : TrackingToken) (w : World)
      → IsSent new_phone d
          (on_the_way_text shop (saved new_phone d) t.token)
          w
          (after_reserve new_phone d shop n t w)
  unfolding save_phone requeue write_delivery write_notification
  after_reserve_lem none d shop n t w = send_and_record-IsSent none d n.id _ w _ refl refl refl refl
  after_reserve_lem (some phone) d shop n t w =
      send_and_record-IsSent (some phone) d n.id _ w _ refl refl refl refl

  -- What a resend that goes out has done.
  pub record IsResent (new_phone : Option PhoneResult) (d : Delivery) (w : World) (d' : Delivery)
      (w' : World) : Type 0 where
    pub row : OutboundSend
    pub row_kind : row.kind ≡ SendKind.resend
    pub row_phone : row.phone ≡ (phone_or new_phone d).e164
    pub row_delivery : row.delivery_id ≡ some d.id
    pub sends : w'.sends ≡ row ∷ w.sends
    pub text : MessageText
    pub outbox : w'.outbox ≡ record { phone = (phone_or new_phone d).e164; text = text } ∷ w.outbox
    pub tasks : w'.tasks ≡ w.tasks
    pub object : d' ≡ saved new_phone d
    pub deliveries : w'.deliveries ≡ saved_rows new_phone d w.deliveries

  saved_phone :
      (new_phone : Option PhoneResult) (d : Delivery)
      → (saved new_phone d).recipient_phone ≡ (phone_or new_phone d).e164
  saved_phone none d = refl
  saved_phone (some phone) d = refl

  get_shop_same : (d : Delivery) (w : World) → (get_shop d w).1 ≡ w
  unfolding get_shop
  get_shop_same d w = ground arith

  after_reserve_result :
      (new_phone : Option PhoneResult) (d d' : Delivery) (shop : Shop) (n : Notification)
      (t : TrackingToken) (w w1 : World) (row : OutboundSend) (r : SendResult)
      → IsReserved env shop
          (phone_or new_phone d).e164
          SendKind.resend
          (some d.id)
          (phone_or new_phone d).is_risky
          w
          row
          w1
      → (after_reserve new_phone d shop n t w1).0 ≡ ok (d', some r)
      → IsResent new_phone d w d' (after_reserve new_phone d shop n t w1).1
  after_reserve_result new_phone d d' shop n t w w1 row r reserved h =
      let s = after_reserve_lem new_phone d shop n t w1 in
      record {
        row = row;
        row_kind = reserved.kind_kept;
        row_phone = reserved.recipient;
        row_delivery = reserved.delivery_kept;
        sends = s.sends ∙ ap (λ (db : Db). db.sends) reserved.db;
        text = on_the_way_text shop (saved new_phone d) t.token;
        outbox = s.outbox ∙ rw (saved_phone new_phone d, reserved.outbox) refl;
        tasks = s.tasks ∙ reserved.tasks;
        object = cc (s.result);
        deliveries =
            s.deliveries ∙ ap (λ (db : Db). saved_rows new_phone d db.deliveries) reserved.db;
      }

  abbrev reserved_part :
      Option PhoneResult
      → Delivery
      → Shop
      → Notification
      → TrackingToken
      → Exec (Delivery × Option SendResult)
  reserved_part new_phone d shop n t =
      reserve_send env shop (phone_or new_phone d).e164 SendKind.resend (some d.id)
        (phone_or new_phone d).is_risky none
      >>= (λ (row : OutboundSend). after_reserve new_phone d shop n t)

  resend_to_lem :
      (new_phone : Option PhoneResult) (d d' : Delivery) (n : Option Notification)
      (t : Option TrackingToken) (w : World) (r : SendResult)
      → (resend_to env new_phone d n t w).0 ≡ ok (d', some r)
      → IsResent new_phone d w d' (resend_to env new_phone d n t w).1
  unfolding resend_to
  resend_to_lem new_phone d d' none t w r h = cc
  resend_to_lem new_phone d d' (some n) none w r h = cc
  resend_to_lem new_phone d d' (some n) (some t) w r h =
      let phone = phone_or new_phone d in
      let (shop, found, h2, e) =
        bind-eq-ok (λ shop. reserved_part new_phone d shop n t) (get_shop d w) (d', some r) h in
      let w1 = (get_shop d w).1 in
      let s = reserve_send env shop phone.e164 SendKind.resend (some d.id) phone.is_risky none w1 in
      let (row, reserved, h3, e2) =
        bind-eq-ok (λ (row : OutboundSend). after_reserve new_phone d shop n t) s (d', some r) h2 in
      let fits =
        reserve_send-ok env shop phone.e164 SendKind.resend (some d.id) phone.is_risky none w1 row
          reserved in
      rw (e, e2)
        (subst (λ v. IsResent new_phone d v d' (after_reserve new_phone d shop n t s.1).1)
          (get_shop_same d w) (after_reserve_result new_phone d d' shop n t w1 s.1 row r fits h3))

  -- A resend that goes out is one new row of the send log, as a resend of this delivery to the number
  -- asked for, and one message to that number. The number is stored in the delivery when a new one is
  -- given, and no task is queued.
  pub resend_on_the_way_lem :
      (d d' : Delivery) (new_phone : Option PhoneResult) (w : World) (r : SendResult)
      → (resend_on_the_way env d new_phone w).0 ≡ ok (d', some r)
      → IsResent new_phone d w d' (resend_on_the_way env d new_phone w).1
  unfolding resend_on_the_way
  resend_on_the_way_lem d d' new_phone w r h = resend_to_lem new_phone d d' _ _ w r h
