-- ===== src/Billing/Sound/Requests.antt =====
-- The sync and the webhook keep the tables sound.
use javi.Prelude.{ℕ, String, Option, none, some, List, [], ◌∷◌}
use javi.Model.{Shop, ShopSubscription, BillingPayment}
use javi.Env.{Env}
use javi.World.{World}
use javi.Exec.Keeps.{Keeps, keeps_rules}
use javi.Billing.Memberships.{Whop, MembershipData}
use javi.Billing.Api.{WhopApi, Json, no_json, not_a_dict, dict}
use javi.Billing.Sync.{Counters, apply_data, sync_membership, sync_row, sync_rows, sync_all}
use javi.Billing.Signature.{Codec}
use javi.Billing.Webhook.{
  WhopEvent, WhopRequest, sync_only, on_membership, sync_paid, on_paid, sync_problem, on_problem,
  refund_only, on_refund, dispatch, answer_ok, handle_event, handle_signed, whop_webhook,
}
use javi.Billing.Sound.{KeepsSound, KeepsSound-preorder, IsSound}
use javi.Billing.Sound.Events.{
  apply_membership-Keeps, record_payment-Keeps, get_membership-Keeps, record_refund-Keeps,
  timezone_now-Keeps,
}

module _ (whop : Whop) (api : WhopApi) (env : Env) where
  apply_data-Keeps :
      (payload : Option MembershipData) → Keeps KeepsSound (apply_data whop api env payload)
  unfolding apply_data
  apply_data-Keeps none = record { at = λ w h. h }
  apply_data-Keeps (some payload) = apply_membership-Keeps whop env payload none

  sync_membership-Keeps :
      (id : String) (fallback : Option MembershipData)
      → Keeps KeepsSound (sync_membership whop api env id fallback)
  unfolding sync_membership
  sync_membership-Keeps id fallback =
      search (keeps_rules, KeepsSound-preorder, get_membership-Keeps, apply_data-Keeps) depth 8

  sync_row-Keeps :
      (sub : ShopSubscription) (counts : Counters) (read : Option MembershipData)
      → Keeps KeepsSound (sync_row whop api env sub counts read)
  unfolding sync_row
  sync_row-Keeps sub counts none = record { at = λ w h. h }
  sync_row-Keeps sub counts (some payload) =
      search (keeps_rules, KeepsSound-preorder, apply_membership-Keeps) depth 8

  sync_rows-Keeps :
      (rows : List ShopSubscription) (counts : Counters)
      → Keeps KeepsSound (sync_rows whop api env rows counts)
  unfolding sync_rows
  sync_rows-Keeps [] counts = record { at = λ w h. h }
  sync_rows-Keeps (sub ∷ rows) counts =
      search
        (
          keeps_rules,
          KeepsSound-preorder,
          get_membership-Keeps,
          sync_row-Keeps,
          sync_rows-Keeps rows,
        )
        depth 8

  -- The sync of all memberships keeps the tables sound, whatever Whop answers.
  pub sync_all-IsSound : (w : World) → IsSound w.db → IsSound (sync_all whop api env w).1.db
  unfolding sync_all
  sync_all-IsSound w h =
      let keeps : Keeps KeepsSound (sync_all whop api env) =
        search (keeps_rules, KeepsSound-preorder, sync_rows-Keeps) depth 8 in
      keeps.at w h

  sync_only-Keeps :
      (id : String) (fallback : Option MembershipData)
      → Keeps KeepsSound (sync_only whop api env id fallback)
  unfolding sync_only
  sync_only-Keeps id fallback =
      search (keeps_rules, KeepsSound-preorder, sync_membership-Keeps) depth 8

  on_membership-Keeps : (event : WhopEvent) → Keeps KeepsSound (on_membership whop api env event)
  unfolding on_membership
  on_membership-Keeps event = search (keeps_rules, KeepsSound-preorder, sync_only-Keeps) depth 8

  sync_paid-Keeps :
      (payment : Option BillingPayment) → Keeps KeepsSound (sync_paid whop api env payment)
  unfolding sync_paid
  sync_paid-Keeps none = record { at = λ w h. h }
  sync_paid-Keeps (some payment) =
      search (keeps_rules, KeepsSound-preorder, sync_only-Keeps) depth 8

  on_paid-Keeps : (event : WhopEvent) → Keeps KeepsSound (on_paid whop api env event)
  unfolding on_paid
  on_paid-Keeps event =
      search (keeps_rules, KeepsSound-preorder, record_payment-Keeps, sync_paid-Keeps) depth 8

  sync_problem-Keeps :
      (event : WhopEvent) (shop : Option Shop)
      → Keeps KeepsSound (sync_problem whop api env event shop)
  unfolding sync_problem
  sync_problem-Keeps event shop = search (keeps_rules, KeepsSound-preorder, sync_only-Keeps) depth 8

  on_problem-Keeps : (event : WhopEvent) → Keeps KeepsSound (on_problem whop api env event)
  unfolding on_problem
  on_problem-Keeps event = search (keeps_rules, KeepsSound-preorder, sync_problem-Keeps) depth 8

  on_refund-Keeps : (event : WhopEvent) → Keeps KeepsSound (on_refund whop api env event)
  unfolding on_refund refund_only
  on_refund-Keeps event = search (keeps_rules, KeepsSound-preorder, record_refund-Keeps) depth 8

  dispatch-Keeps : (event : WhopEvent) → Keeps KeepsSound (dispatch whop api env event)
  unfolding dispatch
  dispatch-Keeps event =
      search
        (
          keeps_rules, KeepsSound-preorder, on_membership-Keeps, on_paid-Keeps, on_problem-Keeps,
          on_refund-Keeps,
        )
        depth 12

  handle_event-Keeps : (json : Json WhopEvent) → Keeps KeepsSound (handle_event whop api env json)
  unfolding handle_event answer_ok
  handle_event-Keeps no_json = record { at = λ w h. h }
  handle_event-Keeps not_a_dict = record { at = λ w h. h }
  handle_event-Keeps (dict event) =
      search (keeps_rules, KeepsSound-preorder, dispatch-Keeps) depth 12

  module _ (codec : Codec) where
    handle_signed-Keeps :
        (request : WhopRequest) (now : ℕ)
        → Keeps KeepsSound (handle_signed whop api env codec request now)
    unfolding handle_signed
    handle_signed-Keeps request now =
        search (keeps_rules, KeepsSound-preorder, handle_event-Keeps) depth 8

    -- A request to the webhook of Whop, signed or not, keeps the tables sound, whatever Whop answers.
    pub whop_webhook-IsSound :
        (request : WhopRequest) (w : World)
        → IsSound w.db
        → IsSound (whop_webhook whop api env codec request w).1.db
    unfolding whop_webhook
    whop_webhook-IsSound request w h =
        let keeps : Keeps KeepsSound (whop_webhook whop api env codec request) =
          search (keeps_rules, KeepsSound-preorder, timezone_now-Keeps, handle_signed-Keeps) depth
            8 in
        keeps.at w h
