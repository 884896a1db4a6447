-- ===== src/Billing/Sync/Counts.antt =====
-- What the sync of all memberships counts.
use javi.Prelude.{
  ℕ, suc, String, ◌⊎◌, ◌||◌, get_or, ◌+◌, ◌≤◌, ◌≡◌, refl, ◌∙◌, ap, Bool, true, false, Option, none,
  some, List, [], ◌∷◌, select, count, length, length-select, arith, if◌then◌else◌, Bool-cases, inl,
  inr, truthy, ◌&&◌,
}
use text.Mathlib.Text.{starts_with}
use javi.Model.{ShopSubscription, Shop}
use javi.Env.{Env}
use javi.World.{World}
use javi.Exec.{Result, ok, err, value_error, rolled_back}
use javi.Runtime.{tick}
use javi.Exec.Frame.{continue-of_ok, continue-of_err}
use javi.Billing.Memberships.{
  Whop, MembershipData, apply_membership, apply_found_shop, apply_to_shop, is_ours, is_unreadable,
  time_fails, write_subscription, apply_to_row, new_subscription,
}
use javi.Billing.Api.{WhopApi, get_membership, api_request, body_of}
use javi.Billing.Sync.{Counters, is_configured, has_membership, sync_row, sync_rows, sync_all}

unfoldable pub has_unreadable : MembershipData → Bool
has_unreadable event = is_unreadable event.renewal_period_end || is_unreadable event.canceled_at

-- An event that returns, or that a time of the event ended.
abbrev Ends : MembershipData → Result (Option ShopSubscription) → Type 0
Ends event result =
    ((o : Option ShopSubscription) × (result ≡ ok o))
    ⊎ ((result ≡ err value_error) × (has_unreadable event ≡ true))

rolled_back-Ends :
    (event : MembershipData) (w : World) (s : Result (Option ShopSubscription) × World)
    → Ends event s.0
    → Ends event (rolled_back w s).0
rolled_back-Ends event w (ok a, w') h = h
rolled_back-Ends event w (err e, w') h = h

module _ (whop : Whop) (api : WhopApi) (env : Env) where
  apply_to_row-Ends :
      (event : MembershipData) (now : ℕ) (shop : Shop) (row : Option ShopSubscription) (w : World)
      → Ends event (apply_to_row whop env event now shop row w).0
  unfolding apply_to_row time_fails has_unreadable write_subscription
  apply_to_row-Ends event now shop row w =
      elim (Bool-cases (time_fails whop event (get_or row (new_subscription shop.id)))) [
        | inl fails ↦ rw fails (inr (refl, ground arith))
        | inr reads ↦ rw reads (inl (_, refl))
      ]

  apply_found_shop-Ends :
      (event : MembershipData) (now : Option ℕ) (shop : Option Shop) (w : World)
      → Ends event (apply_found_shop whop env event now shop w).0
  unfolding apply_found_shop apply_to_shop
  apply_found_shop-Ends event now none w = inl (none, refl)
  apply_found_shop-Ends event none (some shop) w =
      rolled_back-Ends event (tick w) _
        (apply_to_row-Ends event (env.clock w.calls) shop _ (tick w))
  apply_found_shop-Ends event (some now) (some shop) w =
      rolled_back-Ends event w _ (apply_to_row-Ends event now shop _ w)

  pub apply_membership-Ends :
      (event : MembershipData) (now : Option ℕ) (w : World)
      → Ends event (apply_membership whop env event now w).0
  unfolding apply_membership
  apply_membership-Ends event now w =
      elim (Bool-cases (starts_with event.id "mem_" && is_ours whop event)) [
        | inl good ↦ rw good (apply_found_shop-Ends event now _ w)
        | inr bad ↦ rw bad (inl (none, refl))
      ]

  -- What is read is an answer of Whop.
  get_membership_lem :
      (id : String) (w : World)
      → (o : Option MembershipData) × ((get_membership api id w).0 ≡ ok o)
        × ((event : MembershipData)
            → o ≡ some event
            → (n : ℕ) × (body_of (api.memberships n id) ≡ some event))
  unfolding get_membership api_request
  get_membership_lem id w = elim (Bool-cases (truthy api.api_key)) [
    | inl key ↦ rw key (body_of (api.memberships w.calls id), refl, λ event h. (w.calls, h))
    | inr no_key ↦ rw no_key (none, refl, λ event h. cc)
  ]

  -- Whop has answered a time that cannot be read.
  pub record IsUnread : Type 0 where
    pub membership : String
    pub call : ℕ
    pub event : MembershipData
    pub answered : body_of (api.memberships call membership) ≡ some event
    pub unread : has_unreadable event ≡ true

  -- One membership is an error, a change, or neither.
  abbrev IsOneMore : Counters → Counters → Type 0
  IsOneMore before after =
      (after.checked ≡ before.checked)
      × (after.errors + after.changed ≤ suc (before.errors + before.changed))

  counts_row :
      (sub : ShopSubscription) (counts : Counters) (b : Bool)
      → IsOneMore counts (if b then record counts { changed = suc counts.changed } else counts)
  counts_row sub counts true = (refl, omega arith)
  counts_row sub counts false = (refl, omega arith)

  -- The sync of some rows, and its counts.
  abbrev IsCounted : Counters → ℕ → Result Counters → Type 0
  IsCounted counts n result =
      (after : Counters) × (result ≡ ok after)
      × (after.checked ≡ counts.checked + n)
      × (after.errors + after.changed ≤ counts.errors + counts.changed + n)

  abbrev pub IsRaised : Result Counters → Type 0
  IsRaised result = (result ≡ err value_error) × IsUnread

  sync_row_lem :
      (sub : ShopSubscription) (counts : Counters) (read : Option MembershipData) (w : World)
      → ((event : MembershipData)
          → read ≡ some event
          → (n : ℕ) × (body_of (api.memberships n sub.whop_membership_id) ≡ some event))
      → let result = (sync_row whop api env sub counts read w).0 in
        ((after : Counters) × (result ≡ ok after) × IsOneMore counts after) ⊎ IsRaised result
  unfolding sync_row
  sync_row_lem sub counts none w given = inl (_, refl, (refl, omega arith))
  sync_row_lem sub counts (some event) w given =
      let run = apply_membership whop env event none w in
      elim (apply_membership-Ends event none w) [
        | inl (o, e) ↦ inl (_, ap (λ s. s.0) (continue-of_ok _ run o e), counts_row sub counts _)
        | inr (e, unread) ↦
            let (n, answered) = given event refl in
            inr (
              ap (λ s. s.0) (continue-of_err _ run value_error e),
              record {
                membership = sub.whop_membership_id;
                call = n;
                event = event;
                answered = answered;
                unread = unread;
              },
            )
      ]

  sync_rows_lem :
      (rows : List ShopSubscription) (counts : Counters) (w : World)
      → let result = (sync_rows whop api env rows counts w).0 in
        IsCounted counts (length rows) result ⊎ IsRaised result
  unfolding sync_rows
  sync_rows_lem [] counts w = inl (counts, refl, omega arith, omega arith)
  sync_rows_lem (sub ∷ rows) counts w =
      let id = sub.whop_membership_id in
      let next : Counters = record counts { checked = suc counts.checked } in
      let (read, e, given) = get_membership_lem id w in
      let w1 = (get_membership api id w).1 in
      let run = sync_row whop api env sub next read w1 in
      let start = ap (λ s. s.0) (continue-of_ok _ (get_membership api id w) read e) in
      elim (sync_row_lem sub next read w1 given) [
        | inl (mid, e1, one) ↦
            let so_far = start ∙ ap (λ s. s.0) (continue-of_ok _ run mid e1) in
            elim (sync_rows_lem rows mid run.1) [
              | inl (after, e2, checked, bound) ↦
                  inl
                    (after, so_far ∙ e2, omega (arith, one.0, checked), omega (arith, one.1, bound))
              | inr (e2, unread) ↦ inr (so_far ∙ e2, unread)
            ]
        | inr (e1, unread) ↦
            inr (start ∙ ap (λ s. s.0) (continue-of_err _ run value_error e1), unread)
      ]

  -- The sync of all memberships returns, or raises because Whop answered a time that cannot be read.
  -- When it returns, it has looked at every subscription that has a membership (at none, if Whop is
  -- not configured), and of these no more have changed or failed than it has looked at.
  pub sync_all_lem :
      (w : World)
      → let result = (sync_all whop api env w).0 in
        ((after : Counters) × (result ≡ ok after)
          × (after.checked
              ≡ (if is_configured whop api then count has_membership w.subscriptions else 0))
          × (after.errors + after.changed ≤ after.checked))
        ⊎ IsRaised result
  unfolding sync_all
  sync_all_lem w = elim (Bool-cases (is_configured whop api)) [
    | inl set ↦
        rw set
          (elim (sync_rows_lem (select has_membership w.subscriptions)
            (record { checked = 0; changed = 0; errors = 0 }) w) [
              | inl (after, e, checked, bound) ↦ inl (
                after,
                e,
                omega (arith, checked, length-select has_membership w.subscriptions),
                omega (arith, checked, bound),
              )
              | inr raised ↦ inr raised
            ])
    | inr unset ↦ rw unset (inl (_, refl, refl, omega arith))
  ]
