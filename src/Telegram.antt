-- ===== src/Telegram.antt =====
-- `telegram_webhook` of notifications/webhooks.py, the rows of TelegramContact, and
-- integrations/telegram.py. An update is what its JSON has; ids are their decimal texts. The text
-- of a message is one String.
pub mod Contacts
pub mod Shared
pub mod Consent
use javi.Prelude.{
  ℕ, String, Bool, true, false, not, ◌&&◌, ◌||◌, Option, none, some, List, [], ◌∷◌, first, any,
  update_where, str_eq, truthy, if◌then◌else◌, or_else,
}
use javi.Env.{SendResult}
use javi.Secrets.{secret_matches}

-- TelegramContact
pub record Contact : Type 0 where
  pub phone : String
  pub chat_id : String
  pub created_at : ℕ

-- A contact card in a message.
pub record Card : Type 0 where
  pub phone_number : Option String
  pub user_id : Option String

pub record Message : Type 0 where
  pub contact : Option Card
  pub chat_id : Option String
  pub sender_id : Option String

-- A message is missing also where it is empty.
pub record Update : Type 0 where
  pub message : Option Message
  pub edited_message : Option Message

-- A request at a moment; a body that is no JSON is missing.
pub record Request : Type 0 where
  pub secret : Option String
  pub body : Option Update
  pub received_at : ℕ

-- `normalize_phone` of common/phone.py, and the settings.
pub record Bot : Type 0 where
  pub webhook_secret : String
  pub normalize_phone : String → Option String
  pub enabled : Bool
  pub token : String

abbrev pub is_contact : String → Contact → Bool
is_contact phone c = str_eq c.phone phone

unfoldable pub contact_of : String → List Contact → Option Contact
contact_of phone rows = first (is_contact phone) rows

-- `update_or_create`
unfoldable pub store_contact : String → String → ℕ → List Contact → List Contact
store_contact phone chat now rows =
    if any (is_contact phone) rows
    then update_where (is_contact phone) (λ (c : Contact). record c { chat_id = chat }) rows
    else record { phone = phone; chat_id = chat; created_at = now } ∷ rows

-- `sender_id is not None and contact.get("user_id") == sender_id`
unfoldable pub is_own : Option String → Option String → Bool
is_own none user = false
is_own (some sender) none = false
is_own (some sender) (some user) = str_eq user sender

abbrev pub message_of : Update → Option Message
message_of u = or_else u.message u.edited_message

module _ (bot : Bot) where
  unfoldable pub store_normalized : Option String → Option String → ℕ → List Contact → List Contact
  unfolding store_contact
  store_normalized none chat now rows = rows
  store_normalized (some phone) none now rows = rows
  store_normalized (some phone) (some chat) now rows = store_contact phone chat now rows

  unfoldable pub store_own : Message → Card → Option String → ℕ → List Contact → List Contact
  unfolding store_normalized is_own
  store_own m card none now rows = rows
  store_own m card (some raw) now rows =
      if truthy raw && is_own m.sender_id card.user_id
      then store_normalized (bot.normalize_phone raw) m.chat_id now rows
      else rows

  unfoldable pub store_card : Message → Option Card → ℕ → List Contact → List Contact
  unfolding store_own
  store_card m none now rows = rows
  store_card m (some card) now rows = store_own m card card.phone_number now rows

  unfoldable pub store_message : Option Message → ℕ → List Contact → List Contact
  unfolding store_card
  store_message none now rows = rows
  store_message (some m) now rows = store_card m m.contact now rows

  unfoldable pub store_update : Option Update → ℕ → List Contact → ℕ × List Contact
  unfolding store_message
  store_update none now rows = (400, rows)
  store_update (some u) now rows = (200, store_message (message_of u) now rows)

  -- The status of the answer, and the rows after it.
  unfoldable pub telegram_webhook : Request → List Contact → ℕ × List Contact
  unfolding store_update secret_matches
  telegram_webhook r rows =
      if not (secret_matches r.secret bot.webhook_secret)
      then (403, rows)
      else store_update r.body r.received_at rows

  unfoldable pub webhooks : List Request → List Contact → List Contact
  unfolding telegram_webhook
  webhooks [] rows = rows
  webhooks (r ∷ rest) rows = webhooks rest (telegram_webhook r rows).1

-- A call of sendMessage, and its answer, if one came and was JSON.
pub record Post : Type 0 where
  pub chat_id : String
  pub text : String

pub record Answer : Type 0 where
  pub is_ok : Bool
  pub message_id : Option String

abbrev pub not_sent : SendResult
not_sent = record { succeeded = false; provider_message_id = none; channel = ""; attempts = [] }

unfoldable pub result_of : Option Answer → SendResult
result_of none = not_sent
result_of (some a) = if not a.is_ok then not_sent else record {
  succeeded = true;
  provider_message_id = a.message_id;
  channel = "telegram";
  attempts = [];
}

module _ (bot : Bot) (post : Post → Option Answer) where
  unfoldable pub send_to : Option Contact → String → SendResult × List Post
  unfolding result_of
  send_to none text = (not_sent, [])
  send_to (some c) text =
      let call : Post = record { chat_id = c.chat_id; text = text } in
      if not bot.enabled || not (truthy bot.token)
      then (not_sent, [])
      else (result_of (post call), call ∷ [])

  -- `TelegramProvider.send_text`, with the calls that it makes.
  unfoldable pub send_text : String → String → List Contact → SendResult × List Post
  unfolding send_to contact_of
  send_text phone text rows = send_to (contact_of phone rows) text
