-- ===== src/Quotas/Caps.antt =====
-- The send log never passes its caps, whatever requests wrote it.
use javi.Prelude.{
  ℕ, suc, String, ◌≡◌, refl, sym, ◌∙◌, ◌≤◌, ◌<◌, Bool, Option, some, arith, count, List, [], ◌∷◌,
}
use javi.Model.{Shop, SendKind, OutboundSend}
use javi.Env.{Env}
use javi.World.{World}
use javi.Exec.{Result, ok, err}
use javi.Quotas.{reserve_send, day_start, is_to_phone, is_since, is_resend_of}
use javi.Quotas.Reserve.{IsReserved, reserve_send-ok, reserve_send_error}

-- When the row at the head was written, its phone and the service had each had at most their cap
-- since the start of that row's day, and its delivery at most its cap of resends, the row itself
-- counted.
pub record HeadIsCapped (env : Env) (row : OutboundSend) (rest : List OutboundSend) : Type 0 where
  pub recipient :
      count (is_to_phone row.phone (day_start env row.created_at)) (row ∷ rest)
      ≤ env.settings.send_limit_recipient_day
  pub global :
      count (is_since (day_start env row.created_at)) (row ∷ rest)
      ≤ env.settings.send_limit_global_day
  pub resends :
      (id : ℕ)
      → row.kind ≡ SendKind.resend
      → row.delivery_id ≡ some id
      → count (is_resend_of id) (row ∷ rest) ≤ env.settings.send_limit_resends_per_delivery

abbrev pub IsCapped : Env → List OutboundSend → Type 0
IsCapped env [] = Unit
IsCapped env (row ∷ rest) = HeadIsCapped env row rest × IsCapped env rest

count_cons :
    (p : OutboundSend → Bool) (row : OutboundSend) (rest : List OutboundSend)
    → count p (row ∷ rest) ≤ suc (count p rest)
unfolding count
count_cons p row rest = ground arith

IsReserved-HeadIsCapped :
    (env : Env) (shop : Shop) (phone : String) (kind : SendKind) (delivery : Option ℕ)
    (risky : Bool) (w w' : World) (row : OutboundSend)
    → IsReserved env shop phone kind delivery risky w row w'
    → HeadIsCapped env row w.sends
IsReserved-HeadIsCapped env shop phone kind delivery risky w w' row reserved =
    let since = day_start env row.created_at in
    let fits : count (is_to_phone row.phone since) w.sends < env.settings.send_limit_recipient_day =
      rw reserved.recipient reserved.room.recipient in
    record {
      recipient = omega (arith, fits, count_cons (is_to_phone row.phone since) row w.sends);
      global = omega (arith, reserved.room.global, count_cons (is_since since) row w.sends);
      resends = λ id k d. omega (
        arith,
        reserved.room.resends id (sym reserved.kind_kept ∙ k) (sym reserved.delivery_kept ∙ d),
        count_cons (is_resend_of id) row w.sends,
      );
    }

-- `reserve_send` keeps a capped log capped, whether it lets the message through or raises.
pub reserve_send-IsCapped :
    (env : Env) (shop : Shop) (phone : String) (kind : SendKind) (delivery : Option ℕ)
    (risky : Bool) (now : Option ℕ) (w : World)
    → IsCapped env w.sends
    → IsCapped env (reserve_send env shop phone kind delivery risky now w).1.sends
reserve_send-IsCapped env shop phone kind delivery risky now w capped =
    go (reserve_send env shop phone kind delivery risky now w).0 refl
  where
    go :
        (r : Result OutboundSend)
        → (reserve_send env shop phone kind delivery risky now w).0 ≡ r
        → IsCapped env (reserve_send env shop phone kind delivery risky now w).1.sends
    go (ok row) e =
        let reserved = reserve_send-ok env shop phone kind delivery risky now w row e in
        rw reserved.db
          (IsReserved-HeadIsCapped env shop phone kind delivery risky w _ row reserved, capped)
    go (err x) e =
        rw (reserve_send_error env shop phone kind delivery risky now w x e).state.db capped
