-- ===== src/Billing/Webhook/Guards.antt =====
-- What the webhook of Whop does before it reads an event.
use javi.Prelude.{if◌then◌else◌, ◌≡◌, refl, false, inl, inr, Bool-cases, truthy}
use javi.Env.{Env}
use javi.World.{World}
use javi.Exec.{ok}
use javi.Billing.Memberships.{Whop}
use javi.Billing.Api.{WhopApi}
use javi.Billing.Signature.{Codec, verify_signature}
use javi.Billing.Signature.Accepts.{IsSigned, verify_signature_iff}
use javi.Billing.Webhook.{WhopRequest, handle_signed, whop_webhook}

module _ (whop : Whop) (api : WhopApi) (env : Env) where
  module _ (codec : Codec) where
    unsigned_lem :
        (request : WhopRequest) (w : World)
        → verify_signature codec request.body request.headers api.webhook_secret (env.clock w.calls)
          ≡ false
        → let run = whop_webhook whop api env codec request w in
          (run.0 ≡ ok (if truthy api.webhook_secret then 401 else 500)) × (run.1.db ≡ w.db)
    unfolding whop_webhook handle_signed
    unsigned_lem request w bad = elim (Bool-cases (truthy api.webhook_secret)) [
      | inl set ↦ rw (set, bad) (refl, refl)
      | inr unset ↦ rw unset (refl, refl)
    ]

    -- A request that is not signed with our secret at the moment it comes is answered 401, or 500
    -- where no secret is set, and changes nothing.
    pub whop_webhook-unsigned :
        (request : WhopRequest) (w : World)
        → ¬ IsSigned codec request.body request.headers api.webhook_secret (env.clock w.calls)
        → let run = whop_webhook whop api env codec request w in
          (run.0 ≡ ok (if truthy api.webhook_secret then 401 else 500)) × (run.1.db ≡ w.db)
    whop_webhook-unsigned request w unsigned =
        let now = env.clock w.calls in
        let check = verify_signature codec request.body request.headers api.webhook_secret now in
        elim (Bool-cases check) [
          | inl good ↦ absurd (
              unsigned (
                (verify_signature_iff codec request.body request.headers api.webhook_secret now).0
                  good))
          | inr bad ↦ unsigned_lem request w bad
        ]
