-- ===== src/Pages/Board.antt =====
-- deliveries/views.py: what a shop sees of its deliveries. `digest` is the SHA-256 of the text that
-- lists numbers and statuses.
pub mod Lookup
use javi.Prelude.{
  ℕ, String, Bool, true, false, not, ◌&&◌, ◌==◌, str_eq, leb, any, map, first, select, Option, none,
  some, List, [], ◌∷◌, is_some, is_none, if◌then◌else◌,
}
use javi.Model.{
  Shop, Delivery, Status, is_new, is_on_the_way, is_delivered, Notification, is_start_notice,
  OptOut,
}
use javi.World.{Db}

is_created : Status → Bool
is_created Status.created = true
is_created _ = false

-- The deliveries of a shop that are not deleted and not erased.
unfoldable pub shown_rows : Shop → Db → List Delivery
shown_rows shop db =
    select
      (λ (d : Delivery). d.shop_id == shop.id && is_none d.deleted_at && is_none d.pii_purged_at)
      db.deliveries

-- A card: the delivery, its notification of the start, and whether the number is opted out.
pub record Card : Type 0 where
  pub delivery : Delivery
  pub on_the_way_notif : Option Notification
  pub opted_out : Bool

pub record Board : Type 0 where
  pub cards : List Card
  pub novo : List Card
  pub u_dostavi : List Card
  pub spremno : List Card
  pub zavrseno : List Card
  pub completed_expanded : Bool
  pub kanban_view : Bool
  pub feed_sig : String

card_of : Db → Delivery → Card
card_of db d = record {
  delivery = d;
  on_the_way_notif =
      first (λ (n : Notification). n.delivery_id == d.id && is_start_notice n.kind)
        db.notifications;
  opted_out = any (λ (o : OptOut). str_eq o.phone d.recipient_phone) db.opt_outs;
}

column : (Status → Bool) → List Card → List Card
column test cards = select (λ (c : Card). test c.delivery.status) cards

module _ (digest : List (ℕ × Status) → String) where
  -- `_deliveries_signature`
  unfoldable pub deliveries_signature : Option Shop → Db → String
  deliveries_signature none db = ""
  deliveries_signature (some shop) db =
      digest (map (λ (d : Delivery). (d.id, d.status)) (shown_rows shop db))

  rows_of : Option Shop → Db → List Delivery
  rows_of none db = []
  rows_of (some shop) db = shown_rows shop db

  expanded : Option Shop → Bool
  expanded none = false
  expanded (some shop) = shop.completed_expanded

  kanban : Option Shop → Bool
  kanban none = false
  kanban (some shop) = shop.kanban_view

  -- `DeliveryListView.get_context_data`
  unfoldable pub board : Option Shop → Db → Board
  unfolding deliveries_signature rows_of expanded kanban card_of column is_created
  board shop db =
      let cards = map (card_of db) (rows_of shop db) in
      record {
        cards = cards;
        novo = column is_new cards;
        u_dostavi = column is_on_the_way cards;
        spremno = column is_created cards;
        zavrseno = column is_delivered cards;
        completed_expanded = expanded shop;
        kanban_view = kanban shop;
        feed_sig = deliveries_signature shop db;
      }

-- `DeletedDeliveriesView`
unfoldable pub deleted_rows : Option Shop → Db → List Delivery
deleted_rows none db = []
deleted_rows (some shop) db =
    select
      (λ (d : Delivery). d.shop_id == shop.id && is_some d.deleted_at && is_none d.pii_purged_at)
      db.deliveries

-- `.order_by("-created_at").first()`
unfoldable pub newest : List Delivery → Option Delivery
newest [] = none
newest (d ∷ rest) = elim (newest rest) [
  | none ↦ some d
  | some later ↦ if leb later.created_at d.created_at then some d else some later
]

pub record Recipient : Type 0 where
  pub name : String
  pub address : String
  pub language : String

recipient_of : Option Delivery → Option Recipient
recipient_of none = none
recipient_of (some d) =
    some (record {
      name = d.recipient_name;
      address = d.dest_address;
      language = d.recipient_language;
    })

abbrev pub is_to : Shop → String → Delivery → Bool
is_to shop phone d = d.shop_id == shop.id && str_eq d.recipient_phone phone && is_none d.deleted_at

unfoldable pub last_to : Shop → String → Db → Option Delivery
unfolding newest
last_to shop phone db = newest (select (is_to shop phone) db.deliveries)

-- `RecipientLookupView.get`, from what the number normalizes to
unfoldable pub recipient_lookup : Option Shop → Option String → Db → Option Recipient
unfolding last_to recipient_of
recipient_lookup none phone db = none
recipient_lookup (some shop) none db = none
recipient_lookup (some shop) (some phone) db = recipient_of (last_to shop phone db)
