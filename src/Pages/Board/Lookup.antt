-- ===== src/Pages/Board/Lookup.antt =====
-- Whom the lookup by a number finds, and where a delivery stands on the board.
use javi.Prelude.{
  ◌≤◌, String, ◌≡◌, refl, ◌⊎◌, inl, inr, true, false, ◌==◌, leb, ==_refl, any, select, Option, none,
  some, List, [], ◌∷◌, All, arith, Bool-cases, if◌then◌else◌,
}
use javi.Model.{Shop, Delivery}
use javi.World.{Db}
use javi.Pages.Board.{newest, Recipient, is_to, last_to, recipient_lookup}

-- Each delivery of the table to this number of this shop, that is not deleted, is no newer.
abbrev AreNoNewer : Shop → String → Delivery → List Delivery → Type 0
AreNoNewer shop phone d rows =
    All (λ (x : Delivery). is_to shop phone x ≡ true → x.created_at ≤ d.created_at) rows

pub record IsLast (shop : Shop) (phone : String) (db : Db) (r : Recipient) : Type 0 where
  pub delivery : Delivery
  pub to_phone : is_to shop phone delivery ≡ true
  pub of_table : any (λ (x : Delivery). x.id == delivery.id) db.deliveries ≡ true
  pub no_newer : AreNoNewer shop phone delivery db.deliveries
  pub name : r.name ≡ delivery.recipient_name
  pub address : r.address ≡ delivery.dest_address
  pub language : r.language ≡ delivery.recipient_language

weaken :
    (shop : Shop) (phone : String) (d e : Delivery) (rows : List Delivery)
    → d.created_at ≤ e.created_at
    → AreNoNewer shop phone d rows
    → AreNoNewer shop phone e rows
weaken shop phone d e [] le all = tt
weaken shop phone d e (x ∷ rows) le (h, all) =
    (λ own. omega (arith, h own), weaken shop phone d e rows le all)

-- Nothing is found, and nothing is there; or the newest is.
abbrev Found : Shop → String → List Delivery → Option Delivery → Type 0
Found shop phone rows none = any (is_to shop phone) rows ≡ false
Found shop phone rows (some d) =
    (is_to shop phone d ≡ true)
    × (any (λ (x : Delivery). x.id == d.id) rows ≡ true)
    × AreNoNewer shop phone d rows

none_there :
    (shop : Shop) (phone : String) (d : Delivery) (rows : List Delivery)
    → any (is_to shop phone) rows ≡ false
    → AreNoNewer shop phone d rows
unfolding any
none_there shop phone d [] h = tt
none_there shop phone d (x ∷ rows) h =
    (λ own. ground (arith, h, own), none_there shop phone d rows (ground (arith, h)))

picked :
    (shop : Shop) (phone : String) (d : Delivery) (rows : List Delivery) (o : Option Delivery)
    → is_to shop phone d ≡ true
    → Found shop phone rows o
    → Found shop phone (d ∷ rows) (elim o [
      | none ↦ some d
      | some later ↦ if leb later.created_at d.created_at then some d else some later
    ])
unfolding any
picked shop phone d rows none own h =
    (own, ground (arith, ==_refl d.id), (λ _. omega arith, none_there shop phone d rows h))
picked shop phone d rows (some later) own (l_own, there, all) =
    elim (Bool-cases (leb later.created_at d.created_at)) [
      | inl le ↦ rw le (
        own,
        ground (arith, ==_refl d.id),
        (λ _. omega arith, weaken shop phone later d rows (ground (arith, le)) all),
      )
      | inr gt ↦ rw gt (l_own, ground (arith, there), (λ _. ground (arith, gt), all))
    ]

skipped :
    (shop : Shop) (phone : String) (d : Delivery) (rows : List Delivery) (o : Option Delivery)
    → is_to shop phone d ≡ false
    → Found shop phone rows o
    → Found shop phone (d ∷ rows) o
unfolding any
skipped shop phone d rows none other h = ground (arith, other, h)
skipped shop phone d rows (some later) other (l_own, there, all) =
    (l_own, ground (arith, there), (λ own. ground (arith, other, own), all))

newest-Found :
    (shop : Shop) (phone : String) (rows : List Delivery)
    → Found shop phone rows (newest (select (is_to shop phone) rows))
unfolding newest select any
newest-Found shop phone [] = refl
newest-Found shop phone (d ∷ rows) = elim (Bool-cases (is_to shop phone d)) [
  | inl own ↦ rw own (
      picked shop phone d rows (newest (select (is_to shop phone) rows)) own
        (newest-Found shop phone rows))
  | inr other ↦ rw other (
      skipped shop phone d rows (newest (select (is_to shop phone) rows)) other
        (newest-Found shop phone rows))
]

found_row :
    (shop : Shop) (phone : String) (db : Db) (o : Option Delivery)
    → last_to shop phone db ≡ o
    → Found shop phone db.deliveries o
    → ((recipient_lookup (some shop) (some phone) db ≡ none)
        × (any (is_to shop phone) db.deliveries ≡ false))
      ⊎ ((r : Recipient) × (recipient_lookup (some shop) (some phone) db ≡ some r)
          × IsLast shop phone db r)
unfolding recipient_lookup
found_row shop phone db none e h = inl (rw e refl, h)
found_row shop phone db (some d) e (own, there, all) = inr (
  record { name = d.recipient_name; address = d.dest_address; language = d.recipient_language },
  rw e refl,
  record {
    delivery = d;
    to_phone = own;
    of_table = there;
    no_newer = all;
    name = refl;
    address = refl;
    language = refl;
  },
)

-- The lookup by a number finds nothing exactly when no delivery of the account's shop went to it,
-- of those that are not deleted; otherwise it answers what a newest one of these has.
recipient_lookup_lem :
    (shop : Shop) (phone : String) (db : Db)
    → ((recipient_lookup (some shop) (some phone) db ≡ none)
        × (any (is_to shop phone) db.deliveries ≡ false))
      ⊎ ((r : Recipient) × (recipient_lookup (some shop) (some phone) db ≡ some r)
          × IsLast shop phone db r)
unfolding last_to
recipient_lookup_lem shop phone db =
    found_row shop phone db (newest (select (is_to shop phone) db.deliveries)) refl
      (newest-Found shop phone db.deliveries)
