-- ===== src/Quotas/Reserve.antt =====
-- `reserve_send` of notifications/quotas.py: what it writes, and what it leaves alone when it raises.
use javi.Prelude.{
  ℕ, suc, ◌≤◌, ◌&&◌, arith, String, ◌≡◌, refl, sym, Bool, true, not, Option, none, some, ◌∷◌,
  Bool-cases, inl, inr,
}
use javi.Model.{Shop, SendKind, OutboundSend}
use javi.Env.{Env}
use javi.World.{World, Db}
use javi.Exec.{QuotaCode, quota_exceeded, Error, Result, ok, err, continue, rolled_back}
use javi.Exec.Frame.{SameState}
use javi.Runtime.{tick}
use javi.Billing.{has_access, enforced, access_at, subscription_of}
use javi.Quotas.{limits_of, shop_limits, check, check_with, reserve_send, locked_shop, create_send}
use javi.Quotas.Limits.{HasRoom, HasRoom-of_ok, IsBroken, http_status, check_with-blames}

-- Billing restricts the shop at a moment, by its subscription.
abbrev pub is_unpaid : Env → Shop → ℕ → Db → Bool
is_unpaid env shop t db = enforced env && not (access_at env (subscription_of db shop) shop t)

-- What billing says of the shop while a message is reserved: the clock is read anew for it.
pub record IsBilled (env : Env) (shop : Shop) (unpaid : Bool) (w : World) : Type 0 where
  pub call : ℕ
  pub from_start : w.calls ≤ call
  pub soon : call ≤ suc w.calls
  pub by_billing : unpaid ≡ is_unpaid env shop (env.clock call) w.db

module _ (env : Env) where
  has_access_lem :
      (shop : Shop) (w : World)
      → (paid : Bool) × (w' : World) × (has_access env shop none w ≡ (ok paid, w'))
        × SameState w w'
        × (not paid ≡ is_unpaid env shop (env.clock w.calls) w.db)
  unfolding has_access
  has_access_lem shop w = elim (Bool-cases (enforced env)) [
    | inl on ↦
        rw on
          (_, _, refl, record { db = refl; effects = record { outbox = refl; tasks = refl } }, refl)
    | inr off ↦ rw off (
      true,
      w,
      refl,
      record { db = refl; effects = record { outbox = refl; tasks = refl } },
      refl,
    )
  ]

  -- `check` is `check_with` for the limits of the shop as billing sees it.
  pub check_lem :
      (shop : Shop) (phone : String) (kind : SendKind) (delivery : Option ℕ) (risky : Bool)
      (now : ℕ) (w : World)
      → (unpaid : Bool) × (w' : World) × (check env shop phone kind delivery risky now w ≡ (
        check_with env (limits_of env.settings shop unpaid) shop phone kind delivery risky now w.db,
        w',
      ))
        × SameState w w'
        × (unpaid ≡ is_unpaid env shop (env.clock w.calls) w.db)
  unfolding check shop_limits
  check_lem shop phone kind delivery risky now w =
      let (paid, w', e, same, billed) = has_access_lem shop w in
      (not paid, w', rw e (rw same.db), same, billed)

-- What `reserve_send` leaves, by the answer of `_check`.
abbrev pub send_row : Shop → String → SendKind → Option ℕ → ℕ → OutboundSend
send_row shop phone kind delivery now = record {
  shop_id = some shop.id;
  delivery_id = delivery;
  phone = phone;
  kind = kind;
  created_at = now;
}

abbrev pub logged : OutboundSend → World → World
logged row w = record w { db = record w.db { sends = row ∷ w.sends } }

abbrev pub outcome : Result (Unit {0}) → OutboundSend → World → Result OutboundSend × World
outcome (ok _) row w = (ok row, logged row w)
outcome (err e) row w = (err e, w)

module _ (env : Env) (shop : Shop) (phone : String) (kind : SendKind) (delivery : Option ℕ)
    (risky : Bool) where
  atomic_lem :
      (locked : Shop) (t : ℕ) (w0 w : World) (r : Result (Unit {0})) (w' : World)
      → SameState w w'
      → w0.db ≡ w.db
      → check env locked phone kind delivery risky t w ≡ (r, w')
      → (final : World) × SameState w final
        × (rolled_back w0 (
              continue
                (λ _. create_send (send_row locked phone kind delivery t))
                (check env locked phone kind delivery risky t w))
            ≡ outcome r (send_row locked phone kind delivery t) final)
  unfolding create_send
  atomic_lem locked t w0 w (ok _) w' same start e = (w', same, rw e)
  atomic_lem locked t w0 w (err x) w' same start e = (
    record w' { db = w0.db },
    record { db = start; effects = record { outbox = same.outbox; tasks = same.tasks } },
    rw e,
  )

  -- `reserve_send` asks `_check` about the row of the shop in the database, at one moment, and logs
  -- the message at that moment when it passes.
  pub reserve_send_lem :
      (now : Option ℕ) (w : World)
      → (t : ℕ) × (unpaid : Bool) × (w' : World) × SameState w w'
        × (reserve_send env shop phone kind delivery risky now w
            ≡ outcome
                (check_with env
                  (limits_of env.settings (locked_shop shop w) unpaid)
                  (locked_shop shop w)
                  phone
                  kind
                  delivery
                  risky
                  t
                  w.db)
                (send_row (locked_shop shop w) phone kind delivery t)
                w')
        × IsBilled env (locked_shop shop w) unpaid w
  unfolding reserve_send locked_shop
  reserve_send_lem (some t) w =
      let (unpaid, w', e, same, billed) =
        check_lem env (locked_shop shop w) phone kind delivery risky t w in
      let (final, kept, eq) = atomic_lem (locked_shop shop w) t w w _ w' same refl e in
      (
        t,
        unpaid,
        final,
        kept,
        eq,
        record {
          call = w.calls;
          from_start = omega arith;
          soon = omega arith;
          by_billing = billed;
        },
      )
  reserve_send_lem none w =
      let (unpaid, w', e, same, billed) =
        check_lem env (locked_shop shop w) phone kind delivery risky (env.clock w.calls) (tick w) in
      let (final, kept, eq) =
        atomic_lem (locked_shop shop w) (env.clock w.calls) (tick w) (tick w) _ w' same refl e in
      (
        env.clock w.calls,
        unpaid,
        final,
        record { db = kept.db; effects = record { outbox = kept.outbox; tasks = kept.tasks } },
        eq,
        record {
          call = suc w.calls;
          from_start = omega arith;
          soon = omega arith;
          by_billing = billed;
        },
      )

  -- The message that `reserve_send` lets through: its row, and the limits that it was held to.
  pub record IsReserved (w : World) (row : OutboundSend) (w' : World) : Type 0 where
    pub unpaid : Bool
    pub billed : IsBilled env (locked_shop shop w) unpaid w
    pub sender : row.shop_id ≡ some (locked_shop shop w).id
    pub recipient : row.phone ≡ phone
    pub kind_kept : row.kind ≡ kind
    pub delivery_kept : row.delivery_id ≡ delivery
    pub room :
        HasRoom env
          (limits_of env.settings (locked_shop shop w) unpaid)
          (locked_shop shop w)
          phone
          kind
          delivery
          risky
          row.created_at
          w.db
    pub db : w'.db ≡ record w.db { sends = row ∷ w.sends }
    pub outbox : w'.outbox ≡ w.outbox
    pub tasks : w'.tasks ≡ w.tasks

  outcome-IsReserved :
      (t : ℕ) (unpaid : Bool) (w w' : World) (row : OutboundSend)
      → SameState w w'
      → IsBilled env (locked_shop shop w) unpaid w
      → (r : Result (Unit {0}))
      → r
        ≡ check_with env
            (limits_of env.settings (locked_shop shop w) unpaid)
            (locked_shop shop w)
            phone
            kind
            delivery
            risky
            t
            w.db
      → (outcome r (send_row (locked_shop shop w) phone kind delivery t) w').0 ≡ ok row
      → IsReserved w row (outcome r (send_row (locked_shop shop w) phone kind delivery t) w').1
  outcome-IsReserved t unpaid w w' row same billed (ok _) passed e =
      let at : row ≡ send_row (locked_shop shop w) phone kind delivery t = cc in
      rw at (record {
        unpaid = unpaid;
        billed = billed;
        sender = refl;
        recipient = refl;
        kind_kept = refl;
        delivery_kept = refl;
        room = HasRoom-of_ok env _ _ phone kind delivery risky t w.db (sym passed);
        db = cc (same.db);
        outbox = same.outbox;
        tasks = same.tasks;
      })
  outcome-IsReserved t unpaid w w' row same billed (err x) passed e = cc

  -- A message that `reserve_send` lets through fits every limit, read from the log before it (the
  -- limits of a shop on trial where it is not verified, or where billing says, at the reading of the
  -- clock, that it has no access), and the one change of the database is its row at the head of the log: the shop as the database has
  -- it, the phone, the kind and the delivery that were asked for. Nothing is sent or queued.
  pub reserve_send-ok :
      (now : Option ℕ) (w : World) (row : OutboundSend)
      → (reserve_send env shop phone kind delivery risky now w).0 ≡ ok row
      → IsReserved w row (reserve_send env shop phone kind delivery risky now w).1
  reserve_send-ok now w row h =
      let (t, unpaid, w', same, e, billed) = reserve_send_lem now w in
      rw e (outcome-IsReserved t unpaid w w' row same billed _ refl (rw e at h))

  outcome_error :
      (r : Result (Unit {0})) (row : OutboundSend) (w w' : World) (x : Error)
      → SameState w w'
      → (outcome r row w').0 ≡ err x
      → SameState w (outcome r row w').1 × (r ≡ err x)
  outcome_error (ok _) row w w' x same h = cc
  outcome_error (err y) row w w' x same h = (same, cc)

  -- A message that is refused leaves the state as it was, and the error blames a limit that the log
  -- has used up.
  pub record IsRefused (w : World) (x : Error) (w' : World) : Type 0 where
    pub state : SameState w w'
    pub at : ℕ
    pub unpaid : Bool
    pub billed : IsBilled env (locked_shop shop w) unpaid w
    pub code : QuotaCode
    pub named : x ≡ quota_exceeded code (http_status code)
    pub broken :
        IsBroken env
          (limits_of env.settings (locked_shop shop w) unpaid)
          (locked_shop shop w)
          phone
          kind
          delivery
          risky
          at
          w.db
          code

  -- When `reserve_send` raises, the database, the messages sent and the tasks queued are as they
  -- were, and what it raises is a `QuotaExceeded` whose code names a limit that the log has used
  -- up.
  pub reserve_send_error :
      (now : Option ℕ) (w : World) (x : Error)
      → (reserve_send env shop phone kind delivery risky now w).0 ≡ err x
      → IsRefused w x (reserve_send env shop phone kind delivery risky now w).1
  reserve_send_error now w x h =
      let (t, unpaid, w', same, e, billed) = reserve_send_lem now w in
      let (kept, raised) = outcome_error _ _ w w' x same (rw e at h) in
      let (code, named, broken) =
        check_with-blames env _ (locked_shop shop w) phone kind delivery risky t w.db x raised in
      record {
        state = rw e kept;
        at = t;
        unpaid = unpaid;
        billed = billed;
        code = code;
        named = named;
        broken = broken;
      }
