-- ===== src/Telegram/Consent.antt =====
-- notifications/webhooks.py and integrations/telegram.py: who gets the messages to a phone.
use javi.Prelude.{
  ℕ, String, Bool, true, false, not, ◌≡◌, refl, ap, ◌&&◌, ◌||◌, ◌⊎◌, Option, none, some, List, [],
  ◌∷◌, All, first, select, truthy, if◌then◌else◌, arith, Bool-cases, inl, inr, subst,
}
use javi.Secrets.{secret_matches}
use javi.Telegram.Contacts.{Has, Adds, store_contact-Adds, is_own-user}
use javi.Telegram.Shared.{shares, webhooks-shared}
use javi.Telegram.{
  Contact, Card, Message, Update, Request, Bot, contact_of, is_own, store_normalized, store_own,
  store_card, store_message, message_of, store_update, telegram_webhook, webhooks, Post, Answer,
  send_to, send_text,
}

-- The message has the card of its own sender, with this phone, in this chat.
pub record HasOwnCard (bot : Bot) (phone chat : String) (m : Message) : Type 0 where
  pub card : Card
  pub raw : String
  pub user : String
  pub has_card : m.contact ≡ some card
  pub has_number : card.phone_number ≡ some raw
  pub is_phone : bot.normalize_phone raw ≡ some phone
  pub of_user : card.user_id ≡ some user
  pub of_sender : m.sender_id ≡ some user
  pub in_chat : m.chat_id ≡ some chat

-- A request with the bot's secret in which the user of the phone shared it in the chat.
pub record Consents (bot : Bot) (phone chat : String) (r : Request) : Type 0 where
  pub update : Update
  pub message : Message
  pub known : secret_matches r.secret bot.webhook_secret ≡ true
  pub has_update : r.body ≡ some update
  pub has_message : message_of update ≡ some message
  pub own : HasOwnCard bot phone chat message

-- One of the requests.
abbrev pub Some : (Request → Type 0) → List Request → Type 0
Some P [] = ⊥
Some P (r ∷ rest) = P r ⊎ Some P rest

module _ (bot : Bot) where
  store_normalized-Adds :
      (normal chat : Option String) (now : ℕ) (rows : List Contact)
      → Adds rows
          (λ p ch. (normal ≡ some p) × (chat ≡ some ch))
          (store_normalized bot normal chat now rows)
  unfolding store_normalized
  store_normalized-Adds none chat now rows p ch has = inl has
  store_normalized-Adds (some phone) none now rows p ch has = inl has
  store_normalized-Adds (some phone) (some chat) now rows p ch has =
      elim (store_contact-Adds phone chat now rows p ch has) [
        | inl old ↦ inl old
        | inr (own, given) ↦ inr (ap some own, ap some given)
      ]

  store_own-Adds :
      (m : Message) (card : Card) (raw : Option String) (now : ℕ) (rows : List Contact)
      → m.contact ≡ some card
      → card.phone_number ≡ raw
      → Adds rows (λ p ch. HasOwnCard bot p ch m) (store_own bot m card raw now rows)
  unfolding store_own
  store_own-Adds m card none now rows has_card number p ch has = inl has
  store_own-Adds m card (some raw) now rows has_card number p ch has =
      let stored = store_normalized bot (bot.normalize_phone raw) m.chat_id now rows in
      let pick = λ (b : Bool) (h : (truthy raw && is_own m.sender_id card.user_id) ≡ b).
        subst (λ k. Has p ch (if k then stored else rows)) h has in
      elim (Bool-cases (truthy raw && is_own m.sender_id card.user_id)) [
        | inl good ↦
            let (user, of_user, of_sender) =
              is_own-user m.sender_id card.user_id (ground (arith, good)) in
            elim (store_normalized-Adds (bot.normalize_phone raw) m.chat_id now rows p ch
              (pick true good)) [
                | inl old ↦ inl old
                | inr (is_phone, in_chat) ↦ inr (record {
                  card = card;
                  raw = raw;
                  user = user;
                  has_card = has_card;
                  has_number = number;
                  is_phone = is_phone;
                  of_user = of_user;
                  of_sender = of_sender;
                  in_chat = in_chat;
                })
              ]
        | inr bad ↦ inl (pick false bad)
      ]

  store_card-Adds :
      (m : Message) (card : Option Card) (now : ℕ) (rows : List Contact)
      → m.contact ≡ card
      → Adds rows (λ p ch. HasOwnCard bot p ch m) (store_card bot m card now rows)
  unfolding store_card
  store_card-Adds m none now rows has_card p ch has = inl has
  store_card-Adds m (some card) now rows has_card p ch has =
      store_own-Adds m card card.phone_number now rows has_card refl p ch has

  store_message-Adds :
      (message : Option Message) (now : ℕ) (rows : List Contact)
      → Adds rows
          (λ p ch. (m : Message) × (message ≡ some m) × HasOwnCard bot p ch m)
          (store_message bot message now rows)
  unfolding store_message
  store_message-Adds none now rows p ch has = inl has
  store_message-Adds (some m) now rows p ch has =
      elim (store_card-Adds m m.contact now rows refl p ch has) [
        | inl old ↦ inl old
        | inr own ↦ inr (m, refl, own)
      ]

  store_update-Adds :
      (r : Request) (body : Option Update) (rows : List Contact)
      → secret_matches r.secret bot.webhook_secret ≡ true
      → r.body ≡ body
      → Adds rows (λ p ch. Consents bot p ch r) (store_update bot body r.received_at rows).1
  unfolding store_update
  store_update-Adds r none rows known has_body p ch has = inl has
  store_update-Adds r (some u) rows known has_body p ch has =
      elim (store_message-Adds (message_of u) r.received_at rows p ch has) [
        | inl old ↦ inl old
        | inr (m, has_message, own) ↦ inr (record {
          update = u;
          message = m;
          known = known;
          has_update = has_body;
          has_message = has_message;
          own = own;
        })
      ]

  telegram_webhook-Adds :
      (r : Request) (rows : List Contact)
      → Adds rows (λ p ch. Consents bot p ch r) (telegram_webhook bot r rows).1
  unfolding telegram_webhook
  telegram_webhook-Adds r rows p ch has =
      let done = store_update bot r.body r.received_at rows in
      let pick = λ (b : Bool) (h : secret_matches r.secret bot.webhook_secret ≡ b).
        subst (λ k. Has p ch (if not k then (403, rows) else done).1) h has in
      elim (Bool-cases (secret_matches r.secret bot.webhook_secret)) [
        | inl known ↦ store_update-Adds r r.body rows known refl p ch (pick true known)
        | inr unknown ↦ inl (pick false unknown)
      ]

  webhooks-Adds :
      (requests : List Request) (rows : List Contact)
      → Adds rows (λ p ch. Some (Consents bot p ch) requests) (webhooks bot requests rows)
  unfolding webhooks
  webhooks-Adds [] rows p ch has = inl has
  webhooks-Adds (r ∷ rest) rows p ch has =
      elim (webhooks-Adds rest (telegram_webhook bot r rows).1 p ch has) [
        | inl before ↦ elim (telegram_webhook-Adds r rows p ch before) [
          | inl old ↦ inl old
          | inr now ↦ inr (inl now)
        ]
        | inr later ↦ inr (inr later)
      ]

  send_to-All :
      (post : Post → Option Answer) (c : Option Contact) (text : String) (P : String → Type 0)
      → ((x : Contact) → c ≡ some x → P x.chat_id)
      → All (λ (call : Post). P call.chat_id) (send_to bot post c text).1
  unfolding send_to
  send_to-All post none text P h = tt
  send_to-All post (some c) text P h =
      elim (Bool-cases (not bot.enabled || not (truthy bot.token))) [
        | inl off ↦ rw off tt
        | inr on ↦ rw on (h c refl, tt)
      ]

  -- Whatever requests the webhook got since the table of contacts was empty: a message to a phone
  -- goes to no chat but one in which, in one of these requests and with the bot's secret, a user
  -- shared a card of their own with that phone. All other requests, such as one with a card of
  -- someone else, passed on, have no effect: the table is as if they had never come.
  pub send_text-consented :
      (post : Post → Option Answer) (requests : List Request) (phone text : String)
      → All
          (λ (call : Post). Some (Consents bot phone call.chat_id) requests)
          (send_text bot post phone text (webhooks bot requests [])).1
        × (webhooks bot requests [] ≡ webhooks bot (select (shares bot) requests) [])
  unfolding send_text contact_of first
  send_text-consented post requests phone text =
      let rows = webhooks bot requests [] in
      let consented =
        send_to-All post (contact_of phone rows) text
          (λ chat. Some (Consents bot phone chat) requests)
          (λ c found. elim (webhooks-Adds requests [] phone c.chat_id (c, found, refl)) [
            | inl (x, old, same) ↦ cc
            | inr consented ↦ consented
          ]) in
      (consented, webhooks-shared bot requests [])
