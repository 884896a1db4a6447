-- ===== src/Deliveries/Messages/Rating.antt =====
-- `send_rating_request`: at most one per delivery, and none to those who have opted out.
use javi.Prelude.{
  ℕ, ◌+◌, ◌≤◌, String, ◌≡◌, refl, Bool, true, false, Option, none, some, inl, inr, Bool-cases,
  subst, count, any, not, any-count, arith, ◌==◌, ==_iff, if◌then◌else◌, ap,
}
use javi.Model.{Shop, Delivery, Kind, TrackingToken}
use javi.Env.{Env, SendResult, MessageText}
use javi.World.{World}
use javi.Exec.{
  Exec, Result, quota_exceeded, value_error, does_not_exist, ok, err, pure, continue, ◌>>=◌,
}
use javi.Webhooks.{token_of}
use javi.Quotas.Quiet.{reserve_send-notifications}
use javi.Receipts.{is_opted_out}
use javi.Deliveries.{is_rating_of}
use javi.Deliveries.Start.{get_shop, create_notification}
use javi.Deliveries.Sending.{rating_request_text, send_and_record}
use javi.Deliveries.Sending.Counts.{send_and_record-count}
use javi.Deliveries.Messages.{
  unless_refused, rating_reserved, send_rating_to, rating_by_token, send_rating_request,
}

-- How many rating requests a delivery has.
abbrev pub ratings : ℕ → World → ℕ
ratings id w = count (is_rating_of id) w.notifications

one_of : ℕ → ℕ → ℕ
one_of delivery id = if delivery == id then 1 else 0

module _ (env : Env) where
  abbrev pub written_and_sent : Delivery → MessageText → Exec (Option SendResult)
  written_and_sent d text = do
    notification ← create_notification env d.id Kind.rating_request
    result ← send_and_record env notification d text
    pure (some result)

  pub continue-some :
      (s : Result SendResult × World) → (continue (λ (r : SendResult). pure (some r)) s).1 ≡ s.1
  continue-some (ok r, w) = refl
  continue-some (err e, w) = refl

  written_and_sent-ratings :
      (d : Delivery) (text : MessageText) (w : World) (id : ℕ)
      → ratings id (written_and_sent d text w).1 ≡ ratings id w + one_of d.id id
  unfolding create_notification one_of count
  written_and_sent-ratings d text w id =
      rw (continue-some, send_and_record-count env (is_rating_of id)) (ground arith)

  pub get_shop_world : (d : Delivery) (w : World) → (get_shop d w).1 ≡ w
  unfolding get_shop
  get_shop_world d w = ground arith

  pub unless_refused_world : {A : Type 0} (s : Result A × World) → (unless_refused s).1 ≡ s.1
  unfolding unless_refused
  unless_refused_world (ok a, w) = refl
  unless_refused_world (err (quota_exceeded c h), w) = refl
  unless_refused_world (err value_error, w) = refl
  unless_refused_world (err does_not_exist, w) = refl

  pub reserved-notifications :
      (shop : Shop) (d : Delivery) (w : World)
      → (rating_reserved env shop d w).1.notifications ≡ w.notifications
  unfolding rating_reserved
  reserved-notifications shop d w = rw (unless_refused_world, reserve_send-notifications) refl

  continue-ratings :
      {A B : Type 0} (f : A → Exec B) (s : Result A × World) (k id : ℕ)
      → ((a : A) (v : World) → ratings id (f a v).1 ≤ ratings id v + k)
      → ratings id (continue f s).1 ≤ ratings id s.1 + k
  continue-ratings f (ok a, w) k id h = h a w
  continue-ratings f (err e, w) k id h = omega arith

  sent_if : Shop → Delivery → String → Bool → Exec (Option SendResult)
  sent_if shop d token true = written_and_sent d (rating_request_text shop d token)
  sent_if shop d token false = pure none

  sent_if-ratings :
      (shop : Shop) (d : Delivery) (token : String) (b : Bool) (w : World) (id : ℕ)
      → ratings id (sent_if shop d token b w).1 ≤ ratings id w + one_of d.id id
  unfolding sent_if
  sent_if-ratings shop d token true w id =
      omega (arith, written_and_sent-ratings d (rating_request_text shop d token) w id)
  sent_if-ratings shop d token false w id = omega arith

  reserved_and_sent-ratings :
      (shop : Shop) (d : Delivery) (token : String) (w : World) (id : ℕ)
      → ratings id (continue (sent_if shop d token) (rating_reserved env shop d w)).1
        ≤ ratings id w + one_of d.id id
  reserved_and_sent-ratings shop d token w id = omega (
    arith,
    ap (count (is_rating_of id)) (reserved-notifications shop d w),
    continue-ratings (sent_if shop d token) (rating_reserved env shop d w) (one_of d.id id) id
        (λ b v. sent_if-ratings shop d token b v id),
  )

  sent_if_same :
      (shop : Shop) (d : Delivery) (token : String) (s : Result Bool × World)
      → continue (sent_if shop d token) s
        ≡ continue
            (λ (b : Bool).
              if not b then pure none else written_and_sent d (rating_request_text shop d token))
            s
  unfolding sent_if
  sent_if_same shop d token (ok true, w) = refl
  sent_if_same shop d token (ok false, w) = refl
  sent_if_same shop d token (err e, w) = refl

  send_rating_to-ratings :
      (d : Delivery) (token : String) (w : World) (id : ℕ)
      → ratings id (send_rating_to env d token w).1 ≤ ratings id w + one_of d.id id
  unfolding send_rating_to
  send_rating_to-ratings d token w id =
      let grown =
        continue-ratings
          (λ (shop : Shop). rating_reserved env shop d >>= (λ b.
            if not b then pure none else written_and_sent d (rating_request_text shop d token)))
          (get_shop d w) (one_of d.id id) id
          (λ shop v.
            rw (← sent_if_same shop d token (rating_reserved env shop d v))
              (reserved_and_sent-ratings shop d token v id)) in
      omega (arith, ap (ratings id) (get_shop_world d w), grown)

  rating_by_token-ratings :
      (d : Delivery) (t : Option TrackingToken) (w : World) (id : ℕ)
      → ratings id (rating_by_token env d t w).1 ≤ ratings id w + one_of d.id id
  unfolding rating_by_token
  rating_by_token-ratings d none w id = omega arith
  rating_by_token-ratings d (some t) w id =
      elim (Bool-cases (is_opted_out env d.recipient_phone w.db)) [
        | inl out ↦ rw out (omega arith)
        | inr listed ↦ rw listed (send_rating_to-ratings d t.token w id)
      ]

  not_asked-ratings :
      (d id : ℕ) (w : World)
      → any (is_rating_of d) w.notifications ≡ false
      → (d == id) ≡ true
      → ratings id w ≡ 0
  not_asked-ratings d id w fresh own =
      subst (λ k. ratings k w ≡ 0) ((==_iff d id).0 own)
        (any-count (is_rating_of d) w.notifications fresh)

  one_more_at_most :
      (d id n : ℕ) (w : World)
      → any (is_rating_of d) w.notifications ≡ false
      → n ≤ ratings id w + one_of d id
      → ratings id w ≤ 1
      → n ≤ 1
  unfolding one_of
  one_more_at_most d id n w fresh grown h = elim (Bool-cases (d == id)) [
    | inl own ↦
        let none_yet = not_asked-ratings d id w fresh own in
        let grown' = rw own at grown in omega arith
    | inr other ↦ let grown' = rw other at grown in omega arith
  ]

  pub send_rating_request-ratings :
      (d : Delivery) (w : World) (id : ℕ)
      → ratings id w ≤ 1
      → ratings id (send_rating_request env d w).1 ≤ 1
  unfolding send_rating_request
  send_rating_request-ratings d w id h =
      elim (Bool-cases (any (is_rating_of d.id) w.notifications)) [
        | inl asked ↦ rw asked h
        | inr fresh ↦ rw fresh (
            one_more_at_most d.id id _ w fresh (rating_by_token-ratings d (token_of w.db d.id) w id)
              h)
      ]
