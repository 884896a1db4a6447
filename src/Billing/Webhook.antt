-- ===== src/Billing/Webhook.antt =====
-- billing/views.py: the webhook of Whop. `data_` of the code is one payload, read as a membership
-- and as a payment.
pub mod Guards
use javi.Prelude.{
  ℕ, String, Bool, true, false, not, ◌&&◌, ◌||◌, Option, none, some, str_eq, if◌then◌else◌, truthy,
  text_or, is_some, get_or,
}
use text.Mathlib.Text.{starts_with}
use javi.Model.{BillingPayment, Shop}
use javi.Env.{Env}
use javi.World.{World}
use javi.Exec.{Exec, pure, gets, ◌>>=◌}
use javi.Runtime.{timezone_now}
use javi.Billing.Memberships.{Whop, MembershipData, account_of, is_ours, find_shop}
use javi.Billing.Api.{WhopApi, PaymentData, membership_of, Json, no_json, not_a_dict, dict}
use javi.Billing.Payments.{record_payment, record_refund}
use javi.Billing.Sync.{sync_membership}
use javi.Billing.Signature.{Codec, WebhookHeaders, verify_signature}

-- The body of an event. `payment_id` is the one of a refund.
pub record WhopEvent : Type 0 where
  pub kind : String
  pub account_id : String
  pub company_id : String
  pub payment : PaymentData
  pub open payment use {payload}
  pub payment_id : String
  pub nested_payment : Option String

pub record WhopRequest : Type 0 where
  pub headers : WebhookHeaders
  pub body : String
  pub json : Json WhopEvent

unfoldable pub account_of_event : WhopEvent → String
account_of_event event =
    text_or event.account_id (text_or event.company_id (account_of event.payload))

module _ (whop : Whop) (api : WhopApi) (env : Env) where
  unfoldable pub sync_only : String → Option MembershipData → Exec (Unit {0})
  sync_only membership fallback = do sub ← sync_membership whop api env membership fallback; pure tt

  unfoldable pub on_membership : WhopEvent → Exec (Unit {0})
  unfolding sync_only
  on_membership event =
      if starts_with event.payload.id "mem_" && is_ours whop event.payload
      then sync_only event.payload.id (some event.payload)
      else pure tt

  unfoldable pub sync_paid : Option BillingPayment → Exec (Unit {0})
  unfolding sync_only
  sync_paid none = pure tt
  sync_paid (some payment) =
      if truthy payment.whop_membership_id
      then sync_only payment.whop_membership_id none
      else pure tt

  unfoldable pub on_paid : WhopEvent → Exec (Unit {0})
  unfolding sync_paid
  on_paid event = do payment ← record_payment whop api env event.payment; sync_paid payment

  unfoldable pub sync_problem : WhopEvent → Option Shop → Exec (Unit {0})
  unfolding sync_only
  sync_problem event shop =
      let membership = membership_of event.payment in
      if truthy membership && is_ours whop event.payload && is_some shop
      then sync_only membership none
      else pure tt

  unfoldable pub on_problem : WhopEvent → Exec (Unit {0})
  unfolding sync_problem
  on_problem event = do
    shop ← gets (λ w. find_shop whop w.db event.payload (membership_of event.payment))
    sync_problem event shop

  unfoldable pub refund_only : String → Exec (Unit {0})
  refund_only id = do payment ← record_refund api id; pure tt

  unfoldable pub on_refund : WhopEvent → Exec (Unit {0})
  unfolding refund_only
  on_refund event =
      let id = text_or event.payment_id (get_or event.nested_payment "") in
      if str_eq (text_or event.payload.status "succeeded") "succeeded" && truthy id
      then refund_only id
      else pure tt

  unfoldable pub dispatch : WhopEvent → Exec (Unit {0})
  dispatch event =
      if starts_with event.kind "membership."
      then on_membership event
      else if str_eq event.kind "payment.succeeded"
      then on_paid event
      else if str_eq event.kind "payment.failed" || str_eq event.kind "payment.requires_action"
      then on_problem event
      else if str_eq event.kind "refund.created" || str_eq event.kind "refund.updated"
      then on_refund event
      else pure tt

  unfoldable pub answer_ok : Exec (Unit {0}) → Exec ℕ
  answer_ok run = do done ← run; pure 200

  unfoldable pub handle_event : Json WhopEvent → Exec ℕ
  unfolding answer_ok
  handle_event no_json = pure 400
  handle_event not_a_dict = pure 400
  handle_event (dict event) =
      let account = account_of_event event in
      if truthy account && not (str_eq account whop.company_id)
      then pure 200
      else answer_ok (dispatch event)

  module _ (codec : Codec) where
    unfoldable pub handle_signed : WhopRequest → ℕ → Exec ℕ
    handle_signed request now =
        if verify_signature codec request.body request.headers api.webhook_secret now
        then handle_event request.json
        else pure 401

    unfoldable pub whop_webhook : WhopRequest → Exec ℕ
    whop_webhook request =
        if not (truthy api.webhook_secret)
        then pure 500
        else do now ← timezone_now env; handle_signed request now
