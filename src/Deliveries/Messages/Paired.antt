-- ===== src/Deliveries/Messages/Paired.antt =====
-- `send_rating_request`: a message goes out for each rating request that is recorded, and no other.
use javi.Prelude.{
  ℕ, suc, ◌+◌, String, ◌≡◌, refl, Bool, Option, none, some, count, length, arith, Bool-cases, inl,
  inr,
}
use javi.Model.{Shop, Delivery, Notification, SendKind, TrackingToken}
use javi.Env.{Env, MessageText}
use javi.World.{World}
use javi.Exec.Keeps.{Keeps, IsPreorder, keeps_rules}
use javi.Quotas.Quiet.{reserve_send-IsQuiet, reserve_send-notifications}
use javi.Deliveries.{is_rating_notice}
use javi.Deliveries.Start.{get_shop, create_notification}
use javi.Deliveries.Sending.{
  send_and_record, sent_time, verdict, write_notification, record_attempts,
}
use javi.Deliveries.Sending.Counts.{send_and_record-count}
use javi.Deliveries.Messages.{rating_reserved, send_rating_to, rating_by_token, send_rating_request}
use javi.Deliveries.Messages.Rating.{
  written_and_sent, continue-some, unless_refused_world, get_shop_world,
}

abbrev pub is_request : Notification → Bool
is_request n = is_rating_notice n.kind

-- How many rating requests there are.
abbrev pub requests : World → ℕ
requests w = count is_request w.notifications

-- As many messages have gone out as rating requests were recorded.
abbrev pub IsPaired : World → World → Type 0
IsPaired w w' = length w'.outbox + requests w ≡ length w.outbox + requests w'

pub IsPaired-preorder : IsPreorder IsPaired
IsPaired-preorder = record { here = λ w. refl; then_on = λ a b c p q. omega (arith, p, q) }

send_and_record-outbox :
    (env : Env) (n : ℕ) (d : Delivery) (text : MessageText) (w : World)
    → length (send_and_record env n d text w).1.outbox ≡ suc (length w.outbox)
unfolding send_and_record sent_time write_notification record_attempts
send_and_record-outbox env n d text w =
    elim (Bool-cases (verdict (env.send_text w.calls d.recipient_phone text)).succeeded) [
      | inl good ↦ rw good refl
      | inr bad ↦ rw bad refl
    ]

module _ (env : Env) where
  written_and_sent-Keeps :
      (d : Delivery) (text : MessageText) → Keeps IsPaired (written_and_sent env d text)
  unfolding create_notification count
  written_and_sent-Keeps d text = record {
    at = λ w.
        rw (continue-some, send_and_record-count env is_request, send_and_record-outbox env)
          (omega arith);
  }

  get_shop-Keeps : (d : Delivery) → Keeps IsPaired (get_shop d)
  get_shop-Keeps d = record { at = λ w. rw (get_shop_world env d w) refl }

  rating_reserved-Keeps : (shop : Shop) (d : Delivery) → Keeps IsPaired (rating_reserved env shop d)
  unfolding rating_reserved
  rating_reserved-Keeps shop d = record {
    at = λ w.
        let quiet =
          reserve_send-IsQuiet env shop d.recipient_phone SendKind.rating_request (some d.id)
            d.phone_risk none in
        rw (unless_refused_world env, reserve_send-notifications, (quiet.at w).outbox) refl;
  }

  send_rating_to-Keeps :
      (d : Delivery) (token : String) → Keeps IsPaired (send_rating_to env d token)
  unfolding send_rating_to
  send_rating_to-Keeps d token =
      search
        (
          keeps_rules, IsPaired-preorder, get_shop-Keeps, rating_reserved-Keeps,
          written_and_sent-Keeps,
        )
        depth 8

  rating_by_token-Keeps :
      (d : Delivery) (t : Option TrackingToken) → Keeps IsPaired (rating_by_token env d t)
  unfolding rating_by_token
  rating_by_token-Keeps d none = record { at = λ w. refl }
  rating_by_token-Keeps d (some t) =
      search (keeps_rules, IsPaired-preorder, send_rating_to-Keeps) depth 8

  pub send_rating_request-Keeps : (d : Delivery) → Keeps IsPaired (send_rating_request env d)
  unfolding send_rating_request
  send_rating_request-Keeps d =
      search (keeps_rules, IsPaired-preorder, rating_by_token-Keeps) depth 8
