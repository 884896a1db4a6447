-- ===== src/Tests/Messages.antt =====
-- Messages after the start of the sample delivery.
use javi.Prelude.{
  ℕ, ◌≡◌, ◌≤◌, refl, true, false, none, some, Option, [], ◌∷◌, arith, first, any, count, select,
  update_where,
}
use javi.Model.{Delivery, Notification, Kind, sent}
use javi.Env.{Env, SendResult}
use javi.World.{World}
use javi.Exec.{ok}
use javi.Webhooks.{shop_of, token_of}
use javi.Billing.{has_access, enforced, subscription_of, access_at, trial_ends_at}
use javi.Quotas.{
  limits_of, check_with, shop_limits, check, locked_shop, create_send, reserve_send, day_start,
  month_start,
}
use javi.Deliveries.{write_delivery}
use javi.Deliveries.Start.{get_shop}
use javi.Deliveries.Sending.{
  send_and_record, sent_time, verdict, write_notification, record_attempts, attempt_rows,
}
use javi.Deliveries.Messages.{
  PhoneResult, on_the_way_notification, save_phone, requeue, resend_to, resend_on_the_way,
}
use javi.Deliveries.Messages.Resend.{IsResent, resend_on_the_way_lem}
use javi.Deliveries.Messages.Rating.{ratings}
use javi.Deliveries.Messages.Paired.{IsPaired}
use javi.Deliveries.Messages.Once.{rating_callbacks, rating_callbacks-once}
use javi.Tests.Sample.{env, delivery, world, noon}

abbrev notice : Notification
notice = record {
  id = 1;
  delivery_id = 7;
  kind = Kind.on_the_way;
  channel = "viber";
  provider_message_id = "mid-1";
  logical_message_id = 3;
  status = sent;
  sent_at = some noon;
  created_at = noon;
}

abbrev started : World
started = record world {
  db = record world.db {
    notifications = notice ∷ [];
    tokens = record { delivery_id = 7; token = "token"; expires_at = none } ∷ [];
  };
}

abbrev strict : Env
strict = record env { settings = record env.settings { send_limit_resends_per_delivery = 0 } }

abbrev new_phone : Option PhoneResult
new_phone = some (record { e164 = "+381609999999"; is_risky = false })

abbrev answer : SendResult
answer = record {
  succeeded = true;
  provider_message_id = some "mid-1";
  channel = "viber";
  attempts = [];
}

abbrev moved : Delivery
moved = record delivery { recipient_phone = "+381609999999" }

goes_out : (resend_on_the_way env delivery new_phone started).0 ≡ ok (moved, some answer)
unfolding resend_on_the_way resend_to on_the_way_notification get_shop shop_of token_of reserve_send
    locked_shop create_send check check_with shop_limits limits_of has_access enforced
    subscription_of access_at trial_ends_at first any count select update_where day_start
    month_start save_phone requeue write_delivery write_notification send_and_record sent_time
    verdict record_attempts attempt_rows
goes_out = refl

resend_on_the_way_lem_example :
    IsResent env new_phone delivery started moved
      (resend_on_the_way env delivery new_phone started).1
resend_on_the_way_lem_example =
    resend_on_the_way_lem env delivery moved new_phone started answer goes_out

rating_callbacks-once_example :
    ((id : ℕ) → ratings id (rating_callbacks env (delivery ∷ delivery ∷ []) started) ≤ 1)
    × IsPaired started (rating_callbacks env (delivery ∷ delivery ∷ []) started)
unfolding count
rating_callbacks-once_example =
    rating_callbacks-once env (delivery ∷ delivery ∷ []) started (λ id. grind arith)
