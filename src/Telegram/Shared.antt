-- ===== src/Telegram/Shared.antt =====
-- notifications/webhooks.py: the requests that share a contact, and what all others change.
use javi.Prelude.{
  ℕ, String, Bool, false, ◌≡◌, refl, ◌&&◌, Option, none, some, List, [], ◌∷◌, select, truthy,
  Bool-cases, inl, inr,
}
use javi.Secrets.{secret_matches}
use javi.Telegram.{
  Contact, Card, Message, Update, Request, Bot, is_own, store_own, store_card, store_message,
  message_of, store_update, telegram_webhook, webhooks,
}

-- A request with the secret in which a user shares a card of their own, with a number.
abbrev pub shares_number : Message → Card → Option String → Bool
shares_number m card none = false
shares_number m card (some raw) = truthy raw && is_own m.sender_id card.user_id

abbrev pub shares_card : Message → Option Card → Bool
shares_card m none = false
shares_card m (some card) = shares_number m card card.phone_number

abbrev pub shares_in : Option Message → Bool
shares_in none = false
shares_in (some m) = shares_card m m.contact

abbrev pub shares_by : Option Update → Bool
shares_by none = false
shares_by (some u) = shares_in (message_of u)

abbrev pub shares : Bot → Request → Bool
shares bot r = secret_matches r.secret bot.webhook_secret && shares_by r.body

module _ (bot : Bot) where
  numbered-same :
      (m : Message) (card : Card) (raw : Option String) (now : ℕ) (rows : List Contact)
      → shares_number m card raw ≡ false
      → store_own bot m card raw now rows ≡ rows
  unfolding store_own
  numbered-same m card none now rows h = refl
  numbered-same m card (some raw) now rows h = rw h refl

  carded-same :
      (m : Message) (card : Option Card) (now : ℕ) (rows : List Contact)
      → shares_card m card ≡ false
      → store_card bot m card now rows ≡ rows
  unfolding store_card
  carded-same m none now rows h = refl
  carded-same m (some card) now rows h = numbered-same m card card.phone_number now rows h

  message-same :
      (m : Option Message) (now : ℕ) (rows : List Contact)
      → shares_in m ≡ false
      → store_message bot m now rows ≡ rows
  unfolding store_message
  message-same none now rows h = refl
  message-same (some m) now rows h = carded-same m m.contact now rows h

  update-same :
      (body : Option Update) (now : ℕ) (rows : List Contact)
      → shares_by body ≡ false
      → (store_update bot body now rows).1 ≡ rows
  unfolding store_update
  update-same none now rows h = refl
  update-same (some u) now rows h = message-same (message_of u) now rows h

  request-same :
      (r : Request) (rows : List Contact)
      → shares bot r ≡ false
      → (telegram_webhook bot r rows).1 ≡ rows
  unfolding telegram_webhook
  request-same r rows h = elim (Bool-cases (secret_matches r.secret bot.webhook_secret)) [
    | inl known ↦ rw known (update-same r.body r.received_at rows (rw known at h))
    | inr unknown ↦ rw unknown refl
  ]

  pub webhooks-shared :
      (requests : List Request) (rows : List Contact)
      → webhooks bot requests rows ≡ webhooks bot (select (shares bot) requests) rows
  unfolding webhooks select
  webhooks-shared [] rows = refl
  webhooks-shared (r ∷ rest) rows = elim (Bool-cases (shares bot r)) [
    | inl shared ↦ rw shared (webhooks-shared rest (telegram_webhook bot r rows).1)
    | inr other ↦ rw (other, request-same r rows other) (webhooks-shared rest rows)
  ]
