-- ===== src/Billing/Memberships/Stamps.antt =====
-- What an event of a membership makes of a row.
use javi.Prelude.{
  ℕ, String, ◌≡◌, refl, Bool, true, false, ◌&&◌, Option, none, some, eq_refl, is_some, is_none,
  arith, if◌then◌else◌, get_or, or_else, Bool-cases, inl, inr, ◌∙◌, ap, sym,
}
use javi.Model.{ShopSubscription, BillingStatus, trial, active, past_due, canceled}
use javi.Billing.Memberships.{Whop, MembershipData, read, stamped, is_ignored, copied, applied}

-- The moments fit the status: an active row has the moment of its activation and no debt, a row
-- past due has the start of its debt, a canceled one the moment of its end and no debt.
is_stamped_as : BillingStatus → ShopSubscription → Bool
is_stamped_as trial sub = true
is_stamped_as active sub = is_some sub.activated_at && is_none sub.past_due_since
is_stamped_as past_due sub = is_some sub.past_due_since
is_stamped_as canceled sub = is_some sub.canceled_at && is_none sub.past_due_since

unfoldable pub is_stamped : ShopSubscription → Bool
unfolding is_stamped_as
is_stamped sub = is_stamped_as sub.status sub

renamed_as :
    (status : BillingStatus) (sub : ShopSubscription) (id : String)
    → is_stamped_as status (record sub { whop_membership_id = id }) ≡ is_stamped_as status sub
unfolding is_stamped_as
renamed_as trial sub id = refl
renamed_as active sub id = refl
renamed_as past_due sub id = refl
renamed_as canceled sub id = refl

-- The moments fit whatever the membership is.
pub renamed-is_stamped :
    (sub : ShopSubscription) (id : String)
    → is_stamped (record sub { whop_membership_id = id }) ≡ is_stamped sub
unfolding is_stamped
renamed-is_stamped sub id = renamed_as sub.status sub id

stamped-status :
    (status : BillingStatus) (at : Option ℕ) (now : ℕ) (sub : ShopSubscription)
    → (stamped status at now sub).status ≡ sub.status
unfolding stamped
stamped-status trial at now sub = refl
stamped-status active at now sub = refl
stamped-status past_due at now sub = refl
stamped-status canceled at now sub = refl

is_some-or_else : (o : Option ℕ) (t : ℕ) → is_some (or_else o (some t)) ≡ true
is_some-or_else none t = refl
is_some-or_else (some a) t = refl

stamped-is_stamped_as :
    (status : BillingStatus) (at : Option ℕ) (now : ℕ) (sub : ShopSubscription)
    → is_stamped_as status (stamped status at now sub) ≡ true
unfolding stamped is_stamped_as
stamped-is_stamped_as trial at now sub = refl
stamped-is_stamped_as active at now sub = ground arith
stamped-is_stamped_as past_due at now sub = is_some-or_else _ now
stamped-is_stamped_as canceled at now sub = ground arith

or_else_again :
    (o : Option ℕ) (t u : ℕ) → or_else (or_else o (some t)) (some u) ≡ or_else o (some t)
or_else_again none t u = refl
or_else_again (some a) t u = refl

get_or_again : (o : Option BillingStatus) (d : BillingStatus) → get_or o (get_or o d) ≡ get_or o d
get_or_again none d = refl
get_or_again (some a) d = refl

if_again : (b : Bool) (x y : String) → (if b then x else if b then x else y) ≡ (if b then x else y)
if_again true x y = refl
if_again false x y = refl

stamped_again :
    (status : BillingStatus) (at : Option ℕ) (t u : ℕ) (sub : ShopSubscription)
    → stamped status at u (stamped status at t sub) ≡ stamped status at t sub
unfolding stamped
stamped_again trial at t u sub = refl
stamped_again active at t u sub =
    ap (λ v. record sub { activated_at = v; past_due_since = none })
      (or_else_again sub.activated_at t u)
stamped_again past_due at t u sub =
    ap (λ v. record sub { past_due_since = v }) (or_else_again sub.past_due_since t u)
stamped_again canceled none t u sub =
    ap (λ v. record sub { canceled_at = v; past_due_since = none })
      (or_else_again sub.canceled_at t u)
stamped_again canceled (some a) t u sub = refl

module _ (whop : Whop) where
  -- An event leaves the moments of a row fitting its status, if they did before; a new row's do.
  pub applied-is_stamped :
      (event : MembershipData) (now : ℕ) (sub : ShopSubscription)
      → is_stamped sub ≡ true
      → is_stamped (applied whop event now sub) ≡ true
  unfolding applied is_stamped stamped
  applied-is_stamped event now sub h = elim (Bool-cases (is_ignored whop event sub)) [
    | inl ignored ↦ rw ignored h
    | inr taken ↦
        let next = copied whop event sub in
        rw (taken, stamped-status next.status (read event.canceled_at) now next)
          (stamped-is_stamped_as next.status (read event.canceled_at) now next)
  ]

  is_ignored-stamped :
      (event : MembershipData) (status : BillingStatus) (now : ℕ) (sub : ShopSubscription)
      → is_ignored whop event (stamped status (read event.canceled_at) now (copied whop event sub))
        ≡ false
  unfolding is_ignored copied stamped
  is_ignored-stamped event trial now sub = ground (arith, eq_refl event.id)
  is_ignored-stamped event active now sub = ground (arith, eq_refl event.id)
  is_ignored-stamped event past_due now sub = ground (arith, eq_refl event.id)
  is_ignored-stamped event canceled now sub = ground (arith, eq_refl event.id)

  copied-stamped :
      (event : MembershipData) (status : BillingStatus) (now : ℕ) (sub : ShopSubscription)
      → copied whop event (stamped status (read event.canceled_at) now (copied whop event sub))
        ≡ stamped status (read event.canceled_at) now (copied whop event sub)
  unfolding copied stamped
  copied-stamped event trial now sub = rw (get_or_again, if_again) refl
  copied-stamped event active now sub = rw (get_or_again, if_again) refl
  copied-stamped event past_due now sub = rw (get_or_again, if_again) refl
  copied-stamped event canceled now sub = rw (get_or_again, if_again) refl

  taken_lem :
      (event : MembershipData) (now : ℕ) (sub : ShopSubscription)
      → is_ignored whop event sub ≡ false
      → applied whop event now sub
        ≡ stamped
            (copied whop event sub).status
            (read event.canceled_at)
            now
            (copied whop event sub)
  unfolding applied
  taken_lem event now sub h = rw h refl

  -- The same event again, at whatever later moment, changes nothing.
  pub applied_again :
      (event : MembershipData) (first_time again : ℕ) (sub : ShopSubscription)
      → applied whop event again (applied whop event first_time sub)
        ≡ applied whop event first_time sub
  unfolding applied
  applied_again event first_time again sub = elim (Bool-cases (is_ignored whop event sub)) [
    | inl ignored ↦ cc
    | inr taken ↦
        let next = copied whop event sub in
        let once = stamped next.status (read event.canceled_at) first_time next in
        let same = copied-stamped event next.status first_time sub in
        let mine = is_ignored-stamped event next.status first_time sub in
        let keeps = stamped-status next.status (read event.canceled_at) first_time next in
        let twice = stamped_again next.status (read event.canceled_at) first_time again next in
        let first_run = taken_lem event first_time sub taken in
        ap (applied whop event again) first_run
        ∙ taken_lem event again once mine
        ∙ ap (λ (c : ShopSubscription). stamped c.status (read event.canceled_at) again c) same
        ∙ ap (λ s. stamped s (read event.canceled_at) again once) keeps
        ∙ twice
        ∙ sym first_run
  ]
