-- ===== src/Deliveries/Start/Wins.antt =====
-- What the transaction of `start_delivery` writes for the request that wins.
use javi.Prelude.{
  ℕ, suc, String, ◌≡◌, refl, true, none, some, List, [], ◌∷◌, first, arith, update_where, ◌==◌,
  Option-cases, inl, inr, ap, sym, ◌∙◌, ==_refl, ◌⊎◌, subst,
}
use javi.Model.{
  Shop, Delivery, TrackingToken, EtaSource, Kind, SendKind, OutboundSend, Notification,
  NotificationStatus,
}
use javi.Env.{Env}
use javi.World.{World, Db}
use javi.Exec.{Result, ok, pure, ◌>>=◌}
use javi.Exec.Frame.{continue-of_ok, bind-eq-ok}
use javi.Runtime.{tick}
use javi.Webhooks.{token_of}
use javi.Quotas.{reserve_send}
use javi.Quotas.Reserve.{IsReserved, reserve_send-ok}
use javi.Deliveries.{is_start_of, delivery_row, write_delivery, get_delivery}
use javi.Deliveries.Start.{
  Committed, won, with_start, queued_notification, get_shop, get_or_create_token,
  existing_or_new_token, create_notification, write_start, win_start,
}

-- The link of the delivery: the one that it has, or a new row.
abbrev pub HasToken : ℕ → String → List TrackingToken → List TrackingToken → Type 0
HasToken id token rows rows' =
    let had = first (λ (t : TrackingToken). t.delivery_id == id) rows in
    ((t : TrackingToken) × (had ≡ some t) × (token ≡ t.token) × (rows' ≡ rows))
    ⊎ ((t : TrackingToken) × (had ≡ none)
        × (token ≡ t.token)
        × (t.delivery_id ≡ id)
        × (rows' ≡ t ∷ rows))

-- The tables that a start does not write to.
abbrev pub other_tables : Db → Db
other_tables db = record db {
  deliveries = [];
  tokens = [];
  notifications = [];
  sends = [];
  next_id = 0;
}

-- What the transaction has written for the request that wins: the row is on its way with the ETA that
-- was asked for, one row of the send log and one queued notification are new, the tracking link is
-- there, and every other table is as it was.
pub record HasStarted (before : Delivery) (eta_at : ℕ) (eta_source : EtaSource) (w w' : World)
    (c : Committed) : Type 0 where
  pub now : ℕ
  pub shop : Shop
  pub token : String
  pub notification : ℕ
  pub result : c ≡ won (with_start now eta_at eta_source before) shop token notification
  pub deliveries :
      w'.deliveries
      ≡ update_where
          (λ (d : Delivery). d.id == before.id)
          (with_start now eta_at eta_source)
          w.deliveries
  pub send : OutboundSend
  pub send_phone : send.phone ≡ before.recipient_phone
  pub send_kind : send.kind ≡ SendKind.on_the_way
  pub send_delivery : send.delivery_id ≡ some before.id
  pub sends : w'.sends ≡ send ∷ w.sends
  pub notice : Notification
  pub notice_of : is_start_of before.id notice ≡ true
  pub notice_queued : notice.status ≡ NotificationStatus.queued
  pub notifications : w'.notifications ≡ notice ∷ w.notifications
  pub tokens : HasToken before.id token w.tokens w'.tokens
  pub rest : other_tables w'.db ≡ other_tables w.db

module _ (env : Env) where
  get_shop-rows : (d : Delivery) (w : World) → (get_shop d w).1 ≡ w
  unfolding get_shop
  get_shop-rows d w = ground arith

  pub get_delivery-rows : (id : ℕ) (w : World) → (get_delivery id w).1 ≡ w
  unfolding get_delivery
  get_delivery-rows id w = ground arith

  pub get_delivery_found :
      (id : ℕ) (w : World) (d : Delivery)
      → (get_delivery id w).0 ≡ ok d
      → delivery_row id w.db ≡ some d
  unfolding get_delivery
  get_delivery_found id w d h = ground arith

  -- The link is there afterwards, and no other table has changed.
  record TokenStep (id : ℕ) (token : String) (w w' : World) : Type 0 where
    tokens : HasToken id token w.tokens w'.tokens
    rest : w'.db ≡ record w.db { tokens = w'.tokens }

  get_or_create_token_lem :
      (id now : ℕ) (w : World)
      → (t : String) × ((get_or_create_token env id now w).0 ≡ ok t)
        × TokenStep id t w (get_or_create_token env id now w).1
  unfolding get_or_create_token token_of
  get_or_create_token_lem id now w =
      elim (Option-cases (first (λ (t : TrackingToken). t.delivery_id == id) w.tokens)) [
        | inl e ↦
            rw (e, existing_or_new_token)
              (_, refl, record { tokens = inr (_, e, refl, refl, refl); rest = refl })
        | inr (t, e) ↦
            rw (e, existing_or_new_token)
              (_, refl, record { tokens = inl (t, e, refl, refl); rest = refl })
      ]

  -- What `write_start` is built on: the log has the message of this delivery at its head already.
  record IsLogged (locked : Delivery) (w w' : World) : Type 0 where
    deliveries : w'.deliveries ≡ w.deliveries
    send : OutboundSend
    phone : send.phone ≡ locked.recipient_phone
    kind : send.kind ≡ SendKind.on_the_way
    delivery : send.delivery_id ≡ some locked.id
    sends : w'.sends ≡ send ∷ w.sends
    notifications : w'.notifications ≡ w.notifications
    tokens : w'.tokens ≡ w.tokens
    rest : other_tables w'.db ≡ other_tables w.db

  write_start_lem :
      (locked : Delivery) (shop : Shop) (eta_at : ℕ) (eta_source : EtaSource) (w w1 : World)
      (c : Committed)
      → IsLogged locked w w1
      → (write_start env locked shop eta_at eta_source w1).0 ≡ ok c
      → HasStarted locked eta_at eta_source w (write_start env locked shop eta_at eta_source w1).1 c
  unfolding write_start write_delivery create_notification
  write_start_lem locked shop eta_at eta_source w w1 c logged h =
      let now = env.clock w1.calls in
      let marked = write_delivery locked.id (with_start now eta_at eta_source) (tick w1) in
      let (token, e, step) = get_or_create_token_lem locked.id now marked in
      let rest = λ (t : String). create_notification env locked.id Kind.on_the_way >>= λ n.
      pure (won (with_start now eta_at eta_source locked) shop t n) in
      let eq = continue-of_ok rest (get_or_create_token env locked.id now marked) token e in
      let after = (get_or_create_token env locked.id now marked).1 in
      let notice =
        queued_notification after.next_id locked.id Kind.on_the_way (env.uuid4 after.calls)
          (env.clock (suc after.calls)) in
      rw eq (record {
        now = now;
        shop = shop;
        token = token;
        notification = after.next_id;
        result = let e : ok c ≡ _ = sym h ∙ ap (λ (r : Result Committed × World). r.0) eq in cc e;
        deliveries =
            ap (λ (db : Db). db.deliveries) step.rest ∙ ap (update_where _ _) logged.deliveries;
        send = logged.send;
        send_phone = logged.phone;
        send_kind = logged.kind;
        send_delivery = logged.delivery;
        sends = ap (λ (db : Db). db.sends) step.rest ∙ logged.sends;
        notice = notice;
        notice_of = rw ==_refl;
        notice_queued = refl;
        notifications =
            ap (λ ns. notice ∷ ns)
              (ap (λ (db : Db). db.notifications) step.rest ∙ logged.notifications);
        tokens = subst (λ ts. HasToken locked.id token ts after.tokens) logged.tokens step.tokens;
        rest = ap other_tables step.rest ∙ logged.rest;
      })

  IsReserved-IsLogged :
      (shop : Shop) (locked : Delivery) (w w1 : World) (row : OutboundSend) (w' : World)
      → w1 ≡ w
      → IsReserved env shop locked.recipient_phone SendKind.on_the_way
          (some locked.id)
          locked.phone_risk
          w1
          row
          w'
      → IsLogged locked w w'
  IsReserved-IsLogged shop locked w w1 row w' e r = record {
    deliveries = ap (λ (db : Db). db.deliveries) r.db ∙ ap (λ (v : World). v.deliveries) e;
    send = row;
    phone = r.recipient;
    kind = r.kind_kept;
    delivery = r.delivery_kept;
    sends = ap (λ (db : Db). db.sends) r.db ∙ ap (λ (v : World). row ∷ v.sends) e;
    notifications = ap (λ (db : Db). db.notifications) r.db ∙ ap (λ (v : World). v.notifications) e;
    tokens = ap (λ (db : Db). db.tokens) r.db ∙ ap (λ (v : World). v.tokens) e;
    rest = ap other_tables r.db ∙ ap (λ (v : World). other_tables v.db) e;
  }

  pub win_start-HasStarted :
      (locked : Delivery) (eta_at : ℕ) (eta_source : EtaSource) (w : World) (c : Committed)
      → (win_start env locked eta_at eta_source w).0 ≡ ok c
      → HasStarted locked eta_at eta_source w (win_start env locked eta_at eta_source w).1 c
  unfolding win_start
  win_start-HasStarted locked eta_at eta_source w c h =
      let (shop, _, h1, eq1) = bind-eq-ok _ (get_shop locked w) c h in
      let w1 = (get_shop locked w).1 in
      let (row, e2, h2, eq2) =
        bind-eq-ok _
          (reserve_send env shop locked.recipient_phone SendKind.on_the_way (some locked.id)
            locked.phone_risk none w1)
          c h1 in
      let reserved =
        reserve_send-ok env shop locked.recipient_phone SendKind.on_the_way (some locked.id)
          locked.phone_risk none w1 row e2 in
      rw (eq1, eq2)
        (write_start_lem locked shop eta_at eta_source w _ c
          (IsReserved-IsLogged shop locked w w1 row _ (get_shop-rows locked w) reserved) h2)
