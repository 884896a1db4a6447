-- ===== src/Webhooks.antt =====
-- notifications/outbound.py and the event payload of deliveries/services.py: signed webhooks to the
-- merchant, put on the task queue. The JSON body and its HMAC are functions of what a task holds.
pub mod Quiet
use javi.Prelude.{
  ℕ, String, Bool, not, Option, none, some, str_eq, ◌==◌, first, if◌then◌else◌, truthy,
}
use javi.Model.{Shop, Delivery, TrackingToken}
use javi.Env.{Env}
use javi.World.{Db, Event, Payload, Extra, webhook}
use javi.Exec.{Exec, pure, gets, ◌>>=◌}
use javi.Runtime.{timezone_now, enqueue}

-- `delivery.shop`
unfoldable pub shop_of : Db → Delivery → Option Shop
shop_of db delivery = first (λ (s : Shop). s.id == delivery.shop_id) db.shops

-- `getattr(delivery, "tracking_token", None)`
unfoldable pub token_of : Db → ℕ → Option TrackingToken
token_of db delivery = first (λ (t : TrackingToken). t.delivery_id == delivery) db.tokens

token_text : Option TrackingToken → Option String
token_text none = none
token_text (some t) = some t.token

unfoldable pub delivery_event_payload : Db → Delivery → Extra → Payload
unfolding token_text
delivery_event_payload db delivery extra = record {
  id = delivery.id;
  status = delivery.status;
  recipient_name = delivery.recipient_name;
  recipient_phone = delivery.recipient_phone;
  tracking_token = token_text (token_of db delivery.id);
  extra = extra;
}

module _ (env : Env) where
  -- common/validators.py
  unfoldable pub is_https_url : String → Bool
  is_https_url url = str_eq (env.urlsplit_scheme_lower url) "https"

  unfoldable pub notify_merchant : Option Shop → Event → Payload → Exec (Unit {0})
  notify_merchant none event payload = pure tt
  notify_merchant (some shop) event payload =
      if not (truthy shop.webhook_url)
      then pure tt
      else if not (is_https_url shop.webhook_url)
      then pure tt
      else do
        sent_at ← timezone_now env
        enqueue env (webhook shop.webhook_url shop.webhook_secret event payload sent_at)

  unfoldable pub emit_delivery_event : Delivery → Event → Extra → Exec (Unit {0})
  unfolding notify_merchant
  emit_delivery_event delivery event extra = do
    db ← gets (λ w. w.db)
    notify_merchant (shop_of db delivery) event (delivery_event_payload db delivery extra)
