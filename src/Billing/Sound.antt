-- ===== src/Billing/Sound.antt =====
-- What every event of Whop keeps of the tables.
pub mod Events
pub mod Requests
use javi.Prelude.{
  ℕ, ◌≤◌, String, ◌≡◌, refl, Bool, true, false, Option, none, some, List, [], ◌∷◌, ◌==◌, ==_refl,
  ==_iff, first, any, count, update_where, All, arith, Bool-cases, inl, inr, ap, if-split,
  count-update, if◌then◌else◌, subst, sym, get_or,
}
use javi.Model.{ShopSubscription, BillingPayment}
use javi.World.{World, Db}
use javi.Exec.Keeps.{IsPreorder}
use javi.Billing.Memberships.{stored, new_subscription}
use javi.Billing.Memberships.Stamps.{is_stamped}
use javi.Billing.Memberships.Store.{row_of_shop}
use javi.Billing.Payments.Rows.{IsUnique}

abbrev pub IsStamped : ShopSubscription → Type 0
IsStamped sub = is_stamped sub ≡ true

abbrev pub rows_of : ℕ → List ShopSubscription → ℕ
rows_of shop rows = count (λ (s : ShopSubscription). s.shop_id == shop) rows

-- A shop has one subscription at most, whose moments fit its status, and a payment stands once.
pub record IsSound (db : Db) : Type 0 where
  pub one_row : (shop : ℕ) → rows_of shop db.subscriptions ≤ 1
  pub stamped : All IsStamped db.subscriptions
  pub payments : IsUnique db.payments

abbrev pub KeepsSound : World → World → Type 0
KeepsSound w w' = IsSound w.db → IsSound w'.db

pub KeepsSound-preorder : IsPreorder KeepsSound
KeepsSound-preorder = record { here = λ w h. h; then_on = λ a b c p q h. q (p h) }

missing_row :
    (shop : ℕ) (rows : List ShopSubscription) → row_of_shop shop rows ≡ none → rows_of shop rows ≡ 0
unfolding first count
missing_row shop [] h = refl
missing_row shop (r ∷ rows) h = ground (arith, missing_row shop rows)

-- A write to the row of one shop.
module _ (f : ShopSubscription → ShopSubscription) (shop : ℕ)
    (keeps : (s : ShopSubscription) → (f s).shop_id ≡ s.shop_id) where
  stored_rows :
      (other : ℕ) (rows : List ShopSubscription) (o : Option ShopSubscription)
      → row_of_shop shop rows ≡ o
      → rows_of other rows ≤ 1
      → rows_of other (stored shop f o rows) ≤ 1
  unfolding stored count
  stored_rows other rows none missing h =
      ground (arith, keeps (new_subscription shop), missing_row shop rows missing)
  stored_rows other rows (some sub) found h = ground (
    arith,
    count-update (λ (s : ShopSubscription). s.shop_id == other)
        (λ (s : ShopSubscription). s.shop_id == shop) f rows (λ s. ap (λ i. i == other) (keeps s)),
  )

  update_stamped :
      (rows : List ShopSubscription)
      → ((s : ShopSubscription) → IsStamped s → IsStamped (f s))
      → All IsStamped rows
      → All IsStamped (update_where (λ (s : ShopSubscription). s.shop_id == shop) f rows)
  unfolding update_where
  update_stamped [] fits h = tt
  update_stamped (r ∷ rows) fits (here, later) = (
    if-split IsStamped (r.shop_id == shop) (f r) r (λ own. fits r here) (λ other. here),
    update_stamped rows fits later,
  )

  stored_stamped :
      (rows : List ShopSubscription) (o : Option ShopSubscription)
      → ((s : ShopSubscription) → IsStamped s → IsStamped (f s))
      → All IsStamped rows
      → All IsStamped (stored shop f o rows)
  unfolding stored is_stamped
  stored_stamped rows none fits h = (fits (new_subscription shop) refl, h)
  stored_stamped rows (some sub) fits h = update_stamped rows fits h

  pub stored-IsSound :
      (db : Db)
      → ((s : ShopSubscription) → IsStamped s → IsStamped (f s))
      → IsSound db
      → IsSound (record db {
        subscriptions = stored shop f (row_of_shop shop db.subscriptions) db.subscriptions;
      })
  stored-IsSound db fits sound = record {
    one_row = λ other.
        stored_rows other db.subscriptions (row_of_shop shop db.subscriptions) refl
          (sound.one_row other);
    stamped =
        stored_stamped db.subscriptions (row_of_shop shop db.subscriptions) fits sound.stamped;
    payments = sound.payments;
  }
