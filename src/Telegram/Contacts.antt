-- ===== src/Telegram/Contacts.antt =====
-- notifications/webhooks.py, what a request adds to the rows of TelegramContact.
use javi.Prelude.{
  ℕ, String, Bool, true, false, ◌≡◌, refl, sym, ◌∙◌, ap, ◌⊎◌, Option, none, some, List, [], ◌∷◌,
  first, any, update_where, str_eq, eq_iff, if◌then◌else◌, arith, Bool-cases, inl, inr, subst,
}
use javi.Telegram.{Contact, is_contact, contact_of, store_contact, is_own}

-- The phone has a row with this chat.
abbrev pub Has : String → String → List Contact → Type 0
Has phone chat rows = (c : Contact) × (contact_of phone rows ≡ some c) × (c.chat_id ≡ chat)

-- What the rows have afterwards they had before, or it is new.
abbrev pub Adds : List Contact → (String → String → Type 0) → List Contact → Type 0
Adds rows New after =
    (phone chat : String) → Has phone chat after → Has phone chat rows ⊎ New phone chat

-- The row of the phone after an update is the one before it, or has the new chat.
abbrev chat_or : Option Contact → String
chat_or none = ""
chat_or (some c) = c.chat_id

first-update_chat :
    (p phone chat : String) (rows : List Contact) (c : Contact)
    → first
        (is_contact p)
        (update_where (is_contact phone) (λ (x : Contact). record x { chat_id = chat }) rows)
      ≡ some c
    → (first (is_contact p) rows ≡ some c) ⊎ ((p ≡ phone) × (chat ≡ c.chat_id))
unfolding first update_where
first-update_chat p phone chat [] c e = inl e
first-update_chat p phone chat (x ∷ xs) c e =
    let later = first-update_chat p phone chat xs c in
    let write = λ (x : Contact). record x { chat_id = chat } in
    elim (Bool-cases (is_contact p x)) [
      | inl here ↦ elim (Bool-cases (is_contact phone x)) [
        | inl own ↦
            let a = (eq_iff x.phone p).0 here in
            let b = (eq_iff x.phone phone).0 own in
            let same : some (record x { chat_id = chat }) ≡ some c = ground (arith, e, here, own) in
            inr (sym a ∙ b, ap chat_or same)
        | inr other ↦ inl (ground (arith, e, here, other))
      ]
      | inr elsewhere ↦ (elim (Bool-cases (is_contact phone x)) [
        | inl own ↦
            let found : first (is_contact p) (update_where (is_contact phone) write xs) ≡ some c =
              ground (arith, e, elsewhere, own) in
            elim (later found) [ inl old ↦ inl (rw elsewhere old) | inr new ↦ inr new ]
        | inr other ↦
            let found : first (is_contact p) (update_where (is_contact phone) write xs) ≡ some c =
              ground (arith, e, elsewhere, other) in
            elim (later found) [ inl old ↦ inl (rw elsewhere old) | inr new ↦ inr new ]
      ])
    ]

pub store_contact-Adds :
    (phone chat : String) (now : ℕ) (rows : List Contact)
    → Adds rows (λ p ch. (phone ≡ p) × (chat ≡ ch)) (store_contact phone chat now rows)
unfolding store_contact contact_of first
store_contact-Adds phone chat now rows p ch (c, e, same) =
    let write = λ (x : Contact). record x { chat_id = chat } in
    let new : Contact = record { phone = phone; chat_id = chat; created_at = now } in
    let pick = λ (b : Bool) (h : any (is_contact phone) rows ≡ b).
      subst
        (λ k.
          first (is_contact p)
            (if k then update_where (is_contact phone) write rows else new ∷ rows)
          ≡ some c)
        h e in
    elim (Bool-cases (any (is_contact phone) rows)) [
      | inl known ↦ elim (first-update_chat p phone chat rows c (pick true known)) [
        | inl old ↦ inl (c, old, same)
        | inr (own, given) ↦ inr (sym own, given ∙ same)
      ]
      | inr unknown ↦
          let found = pick false unknown in
          elim (Bool-cases (str_eq phone p)) [
            | inl own ↦
                let first_one : some new ≡ some c = ground (arith, found, own) in
                inr ((eq_iff phone p).0 own, ap chat_or first_one ∙ same)
            | inr other ↦ inl (c, ground (arith, found, other), same)
          ]
    ]

pub is_own-user :
    (sender user : Option String)
    → is_own sender user ≡ true
    → (u : String) × (user ≡ some u) × (sender ≡ some u)
unfolding is_own
is_own-user none user h = cc
is_own-user (some s) none h = cc
is_own-user (some s) (some u) h = (u, refl, sym (ap some ((eq_iff u s).0 h)))
