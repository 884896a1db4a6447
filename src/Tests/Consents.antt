-- ===== src/Tests/Consents.antt =====
-- A run of the bot: a user shares a card of their own, and is written to.
use javi.Prelude.{
  String, ◌≡◌, refl, true, Option, none, some, List, [], ◌∷◌, All, first, any, select,
}
use javi.Telegram.{Card, Request, Bot, webhooks, Post, Answer, send_text}
use javi.Telegram.Shared.{shares}
use javi.Telegram.Consent.{Some, Consents, send_text-consented}

abbrev bot : Bot
bot = record {
  webhook_secret = "s";
  normalize_phone = λ raw. some "+381601234567";
  enabled = true;
  token = "t";
}

abbrev card : Card
card = record { phone_number = some "0601234567"; user_id = some "5" }

abbrev request : String → String → Request
request sender chat = record {
  secret = some "s";
  body = some (record {
    message = some (record { contact = some card; chat_id = some chat; sender_id = some sender });
    edited_message = none;
  });
  received_at = 7;
}

-- The second card is of someone else, passed on.
abbrev requests : List Request
requests = request "5" "5" ∷ request "6" "6" ∷ []

abbrev post : Post → Option Answer
post call = some (record { is_ok = true; message_id = some "1" })

to_own_chat :
    (send_text bot post "+381601234567" "text" (webhooks bot requests [])).1
    ≡ record { chat_id = "5"; text = "text" } ∷ []
unfolding send_text webhooks first any
to_own_chat = refl

send_text-consented_example :
    All
      (λ (call : Post). Some (Consents bot "+381601234567" call.chat_id) requests)
      (send_text bot post "+381601234567" "text" (webhooks bot requests [])).1
    × (webhooks bot requests [] ≡ webhooks bot (select (shares bot) requests) [])
send_text-consented_example = send_text-consented bot post requests "+381601234567" "text"
