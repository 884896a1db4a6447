-- ===== src/Billing/Memberships/Store.antt =====
-- What an event of a membership makes of the database.
use javi.Prelude.{
  subst, ℕ, ◌≡◌, refl, ◌∙◌, sym, ap, true, false, ◌&&◌, Option, none, some, List, [], ◌∷◌, first,
  update_where, ◌==◌, ==_refl, get_or, arith, Bool-cases, inl, inr,
}
use text.Mathlib.Text.{starts_with}
use javi.Model.{Shop, ShopSubscription, BillingStatus, trial, active, past_due, canceled}
use javi.Env.{Env}
use javi.World.{World, Db}
use javi.Exec.{Result, ok, atomic}
use javi.Exec.Frame.{rolled_back-eq-ok}
use javi.Runtime.{tick}
use javi.Billing.{subscription_of}
use javi.Billing.Memberships.{
  Whop, MembershipData, read, time_fails, write_subscription, stamped, copied, applied,
  new_subscription, stored, is_ours, find_shop, apply_to_row, apply_to_shop, apply_found_shop,
  apply_membership,
}

stamped-shop_id :
    (status : BillingStatus) (at : Option ℕ) (now : ℕ) (sub : ShopSubscription)
    → (stamped status at now sub).shop_id ≡ sub.shop_id
unfolding stamped
stamped-shop_id trial at now sub = refl
stamped-shop_id active at now sub = refl
stamped-shop_id past_due at now sub = refl
stamped-shop_id canceled at now sub = refl

abbrev pub row_of_shop : ℕ → List ShopSubscription → Option ShopSubscription
row_of_shop shop rows = first (λ (s : ShopSubscription). s.shop_id == shop) rows

-- A write to the row of one shop.
module _ (f : ShopSubscription → ShopSubscription)
    (keeps : (s : ShopSubscription) → (f s).shop_id ≡ s.shop_id) where
  update-own :
      (shop : ℕ) (rows : List ShopSubscription) (sub : ShopSubscription)
      → row_of_shop shop rows ≡ some sub
      → row_of_shop shop (update_where (λ (s : ShopSubscription). s.shop_id == shop) f rows)
        ≡ some (f sub)
  unfolding first update_where
  update-own shop [] sub h = cc
  update-own shop (r ∷ rows) sub h = ground (arith, keeps r, update-own shop rows sub)

  update-other :
      (shop other : ℕ) (rows : List ShopSubscription)
      → (other == shop) ≡ false
      → row_of_shop other (update_where (λ (s : ShopSubscription). s.shop_id == shop) f rows)
        ≡ row_of_shop other rows
  unfolding first update_where
  update-other shop other [] h = refl
  update-other shop other (r ∷ rows) h = ground (arith, keeps r, update-other shop other rows h)

  pub stored-own :
      (shop : ℕ) (rows : List ShopSubscription) (o : Option ShopSubscription)
      → row_of_shop shop rows ≡ o
      → row_of_shop shop (stored shop f o rows) ≡ some (f (get_or o (new_subscription shop)))
  unfolding stored first
  stored-own shop rows none h = rw (keeps, ==_refl) refl
  stored-own shop rows (some sub) h = update-own shop rows sub h

  pub stored-other :
      (shop other : ℕ) (rows : List ShopSubscription) (o : Option ShopSubscription)
      → (other == shop) ≡ false
      → row_of_shop other (stored shop f o rows) ≡ row_of_shop other rows
  unfolding stored first
  stored-other shop other rows none h = ground (arith, keeps (new_subscription shop))
  stored-other shop other rows (some sub) h = update-other shop other rows h

module _ (whop : Whop) (env : Env) where
  pub applied-shop_id :
      (event : MembershipData) (now : ℕ) (sub : ShopSubscription)
      → (applied whop event now sub).shop_id ≡ sub.shop_id
  unfolding applied copied
  applied-shop_id event now sub =
      let next = copied whop event sub in
      ground (arith, stamped-shop_id next.status (read event.canceled_at) now next)

  -- An event that was stored: it is ours and has a shop, whose row is what the event makes of the row
  -- before, at one moment. The rows of the other shops are as they were.
  pub record IsStored (event : MembershipData) (w : World) (sub : ShopSubscription) (w' : World)
      : Type 0 where
    pub ours : is_ours whop event ≡ true
    pub shop : Shop
    pub found : find_shop whop w.db event event.id ≡ some shop
    pub now : ℕ
    pub row :
        sub ≡ applied whop event now (get_or (subscription_of w.db shop) (new_subscription shop.id))
    pub own : subscription_of w'.db shop ≡ some sub
    pub others :
        (other : Shop)
        → (other.id == shop.id) ≡ false
        → subscription_of w'.db other ≡ subscription_of w.db other

  -- A row that was written, so that every time could be read.
  row_lem :
      (event : MembershipData) (now : ℕ) (shop : Shop) (row : Option ShopSubscription) (w : World)
      (sub : ShopSubscription)
      → let run = apply_to_row whop env event now shop row w in
        run.0 ≡ ok (some sub)
        → (sub ≡ applied whop event now (get_or row (new_subscription shop.id)))
          × (run.1.db ≡ record w.db {
            subscriptions = stored shop.id (applied whop event now) row w.subscriptions;
          })
  unfolding apply_to_row write_subscription
  row_lem event now shop row w sub h =
      elim (Bool-cases (time_fails whop event (get_or row (new_subscription shop.id)))) [
        | inl fails ↦ let failed = rw fails at h in cc
        | inr reads ↦ let done = rw reads at h in rw reads (cc, refl)
      ]

  at_moment :
      (event : MembershipData) (shop : Shop) (now : ℕ) (w0 w : World) (sub : ShopSubscription)
      → is_ours whop event ≡ true
      → find_shop whop w0.db event event.id ≡ some shop
      → w.db ≡ w0.db
      → (apply_to_shop whop env event now shop w).0 ≡ ok (some sub)
      → IsStored event w0 sub (apply_to_shop whop env event now shop w).1
  unfolding apply_to_shop subscription_of
  at_moment event shop now w0 w sub ours found same h =
      let f = applied whop event now in
      let keeps = applied-shop_id event now in
      let (e, written) = row_lem event now shop (row_of_shop shop.id w.subscriptions) w sub h in
      record {
        ours = ours;
        shop = shop;
        found = found;
        now = now;
        row =
            e
            ∙ ap
                (λ (db : Db).
                  f (get_or (row_of_shop shop.id db.subscriptions) (new_subscription shop.id)))
                same;
        own =
            ap (λ (db : Db). row_of_shop shop.id db.subscriptions) written
            ∙ stored-own f keeps shop.id w.subscriptions (row_of_shop shop.id w.subscriptions) refl
            ∙ ap some (sym e);
        others = λ other different.
            ap (λ (db : Db). row_of_shop other.id db.subscriptions) written
            ∙ stored-other f keeps shop.id other.id w.subscriptions
                (row_of_shop shop.id w.subscriptions) different
            ∙ ap (λ (db : Db). row_of_shop other.id db.subscriptions) same;
      }

  in_transaction :
      (event : MembershipData) (shop : Shop) (now : ℕ) (w0 w : World) (sub : ShopSubscription)
      → is_ours whop event ≡ true
      → find_shop whop w0.db event event.id ≡ some shop
      → w.db ≡ w0.db
      → (atomic (apply_to_shop whop env event now shop) w).0 ≡ ok (some sub)
      → IsStored event w0 sub (atomic (apply_to_shop whop env event now shop) w).1
  in_transaction event shop now w0 w sub ours found same h =
      let (done, kept) =
        rolled_back-eq-ok w (apply_to_shop whop env event now shop w) (some sub) h in
      subst (λ (s : Result (Option ShopSubscription) × World). IsStored event w0 sub s.1) (sym kept)
        (at_moment event shop now w0 w sub ours found same done)

  found_lem :
      (event : MembershipData) (now : Option ℕ) (o : Option Shop) (w : World)
      (sub : ShopSubscription)
      → is_ours whop event ≡ true
      → find_shop whop w.db event event.id ≡ o
      → (apply_found_shop whop env event now o w).0 ≡ ok (some sub)
      → IsStored event w sub (apply_found_shop whop env event now o w).1
  unfolding apply_found_shop
  found_lem event now none w sub ours found h = cc
  found_lem event none (some shop) w sub ours found h =
      in_transaction event shop (env.clock w.calls) w (tick w) sub ours found refl h
  found_lem event (some now) (some shop) w sub ours found h =
      in_transaction event shop now w w sub ours found refl h

  -- When an event is stored, it is of our product and has a shop, whose row in the database is what
  -- the event makes of the row before (of a new one, if there was none), at one moment, and is what
  -- is returned. No row of another shop changes.
  pub apply_membership_lem :
      (event : MembershipData) (now : Option ℕ) (w : World) (sub : ShopSubscription)
      → (apply_membership whop env event now w).0 ≡ ok (some sub)
      → IsStored event w sub (apply_membership whop env event now w).1
  unfolding apply_membership
  apply_membership_lem event now w sub h =
      elim (Bool-cases (starts_with event.id "mem_" && is_ours whop event)) [
        | inl good ↦
            let ours : is_ours whop event ≡ true = ground arith in
            rw good (found_lem event now _ w sub ours refl (rw good at h))
        | inr bad ↦ let refused = rw bad at h in cc
      ]
