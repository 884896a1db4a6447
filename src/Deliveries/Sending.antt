-- ===== src/Deliveries/Sending.antt =====
-- deliveries/services.py: the ETA, the texts, one message through the provider and the record of its
-- attempts, and the escalation that follows.
pub mod Counts
use javi.Prelude.{
  ℕ, suc, ◌+◌, ◌*◌, String, Bool, true, false, not, Option, none, some, List, [], ◌∷◌, ◌++◌, ◌==◌,
  str_eq, any, select, update_where, if◌then◌else◌, text_or, get_or,
}
use javi.Model.{Shop, Delivery, Notification, NotificationStatus, NotificationAttempt, Coordinate}
use javi.Env.{Env, SendResult, AttemptResult, MessageText, minute, second}
use javi.World.{World, Db, escalate}
use javi.Exec
use javi.Exec.{Exec, pure, gets, modify, ◌>>=◌, ◌>>◌}
use javi.Runtime.{timezone_now, provider_send, enqueue}

abbrev pub default_customer_language : String
default_customer_language = "sr-latn"

-- The shop's name stands in the text with the source's clean-up applied.
abbrev pub on_the_way_text : Shop → Delivery → String → MessageText
on_the_way_text shop delivery token =
    MessageText.on_the_way (text_or delivery.recipient_language default_customer_language) shop.name
      delivery.eta_at token

abbrev pub rating_request_text : Shop → Delivery → String → MessageText
rating_request_text shop delivery token =
    MessageText.rating_request (text_or delivery.recipient_language default_customer_language)
      shop.name token

-- Both coordinates of a place, or nothing.
abbrev pub place : Option Coordinate → Option Coordinate → Option (Coordinate × Coordinate)
place (some lat) (some lng) = some (lat, lng)
place _ _ = none

-- The first attempt that got through.
unfoldable pub winner : List AttemptResult → Option AttemptResult
winner [] = none
winner (a ∷ rest) = if a.succeeded then some a else winner rest

-- What `_send_and_record` and `escalate_delivery` read of a result: did it get through, by which
-- channel, and under which id at the provider.
pub record Verdict : Type 0 where
  pub succeeded : Bool
  pub channel : String
  pub provider_message_id : String

unfoldable pub verdict_of_winner : Option AttemptResult → Verdict
verdict_of_winner none = record { succeeded = false; channel = ""; provider_message_id = "" }
verdict_of_winner (some a) = record {
  succeeded = true;
  channel = a.channel;
  provider_message_id = get_or a.provider_message_id "";
}

unfoldable pub verdict_by : List AttemptResult → SendResult → Verdict
verdict_by [] result = record {
  succeeded = result.succeeded;
  channel = result.channel;
  provider_message_id = get_or result.provider_message_id "";
}
verdict_by (a ∷ rest) result = verdict_of_winner (winner (a ∷ rest))

unfoldable pub verdict : SendResult → Verdict
unfolding verdict_by verdict_of_winner
verdict result = verdict_by result.attempts result

-- One attempt in place of an empty list (`_AttemptView`).
unfoldable pub attempts_or_single : List AttemptResult → SendResult → List AttemptResult
attempts_or_single [] result =
    record {
      channel = result.channel;
      succeeded = result.succeeded;
      provider_message_id = result.provider_message_id;
    }
    ∷ []
attempts_or_single (a ∷ rest) result = a ∷ rest

-- `enumerate(attempts)`, numbered from `last + 1`
unfoldable pub numbered : ℕ → ℕ → List AttemptResult → List NotificationAttempt
numbered notification last [] = []
numbered notification last (a ∷ rest) =
    record {
      notification_id = notification;
      channel = a.channel;
      succeeded = a.succeeded;
      provider_message_id = get_or a.provider_message_id "";
      attempt_no = suc last;
    }
    ∷ numbered notification (suc last) rest

unfoldable pub attempt_rows : ℕ → ℕ → SendResult → List NotificationAttempt
unfolding attempts_or_single numbered
attempt_rows notification last result =
    numbered notification last (attempts_or_single result.attempts result)

abbrev pub is_attempt_of : ℕ → NotificationAttempt → Bool
is_attempt_of notification a = a.notification_id == notification

-- `_record_attempts`: the attempts of before are replaced.
unfoldable pub record_attempts : ℕ → SendResult → World → World
record_attempts notification result w = record w {
  db = record w.db {
    attempts =
        attempt_rows notification 0 result
        ++ select (λ a. not (is_attempt_of notification a)) w.attempts;
  };
}

-- `notification.save(update_fields=...)`
unfoldable pub write_notification : ℕ → (Notification → Notification) → World → World
write_notification id f w = record w {
  db = record w.db {
    notifications = update_where (λ (n : Notification). n.id == id) f w.notifications;
  };
}

-- `_untried_chain_paths`
unfoldable pub untried_paths : List (String × String) → List NotificationAttempt → List String
untried_paths [] tried = []
untried_paths ((channel, path) ∷ rest) tried =
    let later = untried_paths rest tried in
    if any (λ (a : NotificationAttempt). str_eq a.channel channel) tried
    then later
    else path ∷ later

has_paths : List String → Bool
has_paths [] = false
has_paths (p ∷ ps) = true

module _ (env : Env) where
  unfoldable pub untried_chain_paths : ℕ → Db → List String
  unfolding untried_paths
  untried_chain_paths notification db =
      untried_paths env.chain_channel_paths (select (is_attempt_of notification) db.attempts)

  travel : Option (Coordinate × Coordinate) → Option (Coordinate × Coordinate) → Exec (Option ℕ)
  travel (some from) (some to) w =
      (Exec.ok (env.route_duration_seconds w.calls from to), record w { calls = suc w.calls })
  travel _ _ w = (Exec.ok none, w)

  arrival : Option ℕ → Exec (Option ℕ)
  arrival none = pure none
  arrival (some seconds) = do
    now ← timezone_now env
    pure (some (now + seconds * second + env.settings.eta_buffer_minutes * minute))

  unfoldable pub compute_eta : Shop → Delivery → Exec (Option ℕ)
  unfolding travel arrival
  compute_eta shop delivery = do
    seconds ←
        travel (place shop.origin_lat shop.origin_lng) (place delivery.dest_lat delivery.dest_lng)
    arrival seconds

  unfoldable pub sent_time : Bool → Exec (Option ℕ)
  sent_time true = do now ← timezone_now env; pure (some now)
  sent_time false = pure none

  unfoldable pub send_and_record : ℕ → Delivery → MessageText → Exec SendResult
  unfolding sent_time
  send_and_record notification delivery text = do
    result ← provider_send env delivery.recipient_phone text
    let v = verdict result
    sent_at ← sent_time v.succeeded
    modify (
        write_notification notification (λ n. record n {
          status = if v.succeeded then NotificationStatus.sent else NotificationStatus.failed;
          channel = v.channel;
          provider_message_id = v.provider_message_id;
          sent_at = sent_at;
        }))
    modify (record_attempts notification result)
    pure result

  -- `_schedule_escalation_if_pending`
  unfoldable pub schedule_escalation_if_pending : ℕ → ℕ → Exec (Unit {0})
  unfolding has_paths
  schedule_escalation_if_pending delivery notification =
      if not env.settings.fallback_escalation_enabled then pure tt else do
        paths ← gets (λ w. untried_chain_paths notification w.db)
        if not (has_paths paths) then pure tt else do
          now ← timezone_now env
          enqueue env
              (escalate delivery (now + env.settings.fallback_escalation_delay_minutes * minute))
