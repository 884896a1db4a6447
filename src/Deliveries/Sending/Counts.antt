-- ===== src/Deliveries/Sending/Counts.antt =====
-- What `_send_and_record` keeps of the notifications.
use javi.Prelude.{ℕ, String, ◌≡◌, Bool, Option, count, count-update, Bool-cases, inl, inr}
use javi.Model.{Delivery, Notification, NotificationStatus}
use javi.Env.{Env, MessageText}
use javi.World.{World}
use javi.Deliveries.Sending.{
  send_and_record, sent_time, verdict, write_notification, record_attempts,
}

-- It keeps the number of notifications of a sort that does not depend on what it writes.
pub send_and_record-count :
    (env : Env) (p : Notification → Bool) (n : ℕ) (d : Delivery) (text : MessageText) (w : World)
    → ((r : Notification) (status : NotificationStatus) (channel mid : String) (at : Option ℕ)
        → p (record r {
          status = status;
          channel = channel;
          provider_message_id = mid;
          sent_at = at;
        })
          ≡ p r)
    → count p (send_and_record env n d text w).1.notifications ≡ count p w.notifications
unfolding send_and_record sent_time write_notification record_attempts
send_and_record-count env p n d text w keeps =
    elim (Bool-cases (verdict (env.send_text w.calls d.recipient_phone text)).succeeded) [
      | inl good ↦ rw good (count-update p _ _ w.notifications (λ r. keeps r _ _ _ _))
      | inr bad ↦ rw bad (count-update p _ _ w.notifications (λ r. keeps r _ _ _ _))
    ]
