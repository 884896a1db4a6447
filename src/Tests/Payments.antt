-- ===== src/Tests/Payments.antt =====
-- The sample shop pays, its payment is refunded, and Whop answers for one membership.
use javi.Prelude.{
  ◌⊎◌, pos, truthy, ◌≡◌, refl, true, false, none, some, [], ◌∷◌, str_eq, if◌then◌else◌, count,
  first, any, ◌↔◌, ◌⊎◌, update_where, arith, ◌≤◌, ◌+◌, ◌/◌,
}
use javi.Model.{BillingPayment}
use javi.Env.{second}
use javi.World.{World}
use javi.Exec.{ok}
use javi.Billing.{subscription_of}
use javi.Billing.Memberships.{
  moment, is_ours, account_of, product_of, find_shop, shop_from_metadata, token_is_valid, stored,
}
use javi.Billing.Api.{
  WhopApi, PaymentData, money, membership_of, null, text, scalar, answer, dict, not_a_dict,
}
use javi.Billing.Payments.{
  record_payment, record_found, record_charged, charged, charged_items, subtotals_of, total,
  one_currency, name_membership, named, payment_row, saved_payment, store_payment,
}
use javi.Billing.Payments.Recorded.{IsRecorded, record_payment_lem}
use javi.Billing.Sync.{Counters, is_configured, has_membership, sync_all}
use javi.Billing.Sync.Counts.{IsRaised, sync_all_lem}
use javi.Billing.Signature.{
  WebhookHeaders, Codec, verify_signature, distance, candidates, try_keys, signing_keys,
  compare_all,
}
use javi.Billing.Signature.Accepts.{IsSigned, verify_signature_iff}
use javi.Billing.Webhook.{WhopRequest, whop_webhook}
use javi.Billing.Webhook.Guards.{whop_webhook-unsigned}
use javi.Billing.Sound.{IsSound}
use javi.Billing.Sound.Requests.{whop_webhook-IsSound}
use javi.Billing.Report.{MonthReport, monthly_report}
use javi.Billing.Report.Agrees.{IsReport, monthly_report_lem}
use javi.Tests.Sample.{env, world, noon}
use javi.Tests.Memberships.{whop, event, paid}

abbrev payment : PaymentData
payment = record {
  payload = record event { id = "pay_1"; status = "paid" };
  membership_id = "mem_1";
  membership = none;
  line_items =
      some (record { amount = text "15.00"; currency = "eur" })
      ∷ some (record { amount = text "15.00"; currency = "eur" })
      ∷ [];
  presentment_total = none;
  subtotal = scalar null;
  currency = "";
  refunded_amount = scalar (text "0");
  billing_reason = "subscription_cycle";
  paid_at = moment noon;
}

abbrev api : WhopApi
api = record {
  api_key = "key";
  webhook_secret = "ws_secret";
  memberships =
      λ n id. if str_eq id "mem_1" then answer 200 (dict event) else answer 404 not_a_dict;
  payments = λ n id. answer 200 (dict payment);
  checkouts = λ n shop left.
      answer 200 (dict (record { id = "ch_1"; purchase_url = "https://whop.com/c" }));
  decimal = λ s. if str_eq s "15.00" then some 1500 else none;
  upper = λ s. "EUR";
}

abbrev row : BillingPayment
row = record {
  shop_id = 1;
  whop_payment_id = "pay_1";
  whop_membership_id = "mem_1";
  amount = 3000;
  currency = "EUR";
  refunded_amount = 0;
  billing_reason = "subscription_cycle";
  paid_at = noon;
}

abbrev codec : Codec
codec = record {
  strip = λ s. s;
  removeprefix = λ s prefix. "secret";
  b64decode = λ s. none;
  hmac = λ key text. key;
  int = λ s. some (pos (noon / second));
  split = λ s. s ∷ [];
  partition_comma = λ s. ("v1", s);
}

abbrev headers : WebhookHeaders
headers = record {
  webhook_id = "msg_1";
  webhook_timestamp = "8683200";
  webhook_signature = "secret";
}

verify_signature_iff_example :
    (verify_signature codec "{}" headers "ws_secret" noon ≡ true)
    ↔ IsSigned codec "{}" headers "ws_secret" noon
verify_signature_iff_example = verify_signature_iff codec "{}" headers "ws_secret" noon

abbrev live : World
live = record world { db = record world.db { subscriptions = paid ∷ [] } }

sync_all_lem_example :
    let result = (sync_all whop api env live).0 in
    ((after : Counters) × (result ≡ ok after)
      × (after.checked
          ≡ (if is_configured whop api then count has_membership live.subscriptions else 0))
      × (after.errors + after.changed ≤ after.checked))
    ⊎ IsRaised whop api env result
sync_all_lem_example = sync_all_lem whop api env live

monthly_report_lem_example :
    (r : MonthReport) × ((monthly_report env 1970 4 none live).0 ≡ ok r)
    × IsReport env 1970 4 live.db r
monthly_report_lem_example = monthly_report_lem env 1970 4 none live

takes : (record_payment whop api env payment world).0 ≡ ok (some row)
unfolding record_payment is_ours account_of product_of record_found find_shop shop_from_metadata
    token_is_valid first record_charged charged charged_items subtotals_of total money one_currency
    any membership_of stored name_membership named payment_row saved_payment store_payment
    subscription_of update_where
takes = refl

record_payment_lem_example :
    IsRecorded whop api env payment world row (record_payment whop api env payment world).1
record_payment_lem_example = record_payment_lem whop api env payment world row takes

abbrev request : WhopRequest
request = record {
  headers = headers;
  body = "{}";
  json = dict (record {
    kind = "payment.succeeded";
    account_id = "biz_1";
    company_id = "";
    payment = payment;
    payment_id = "";
    nested_payment = none;
  });
}

sound : IsSound world.db
unfolding count
sound = record { one_row = λ s. omega arith; stamped = tt; payments = λ id. omega arith }

whop_webhook-IsSound_example : IsSound (whop_webhook whop api env codec request world).1.db
whop_webhook-IsSound_example = whop_webhook-IsSound whop api env codec request world sound

abbrev forged : WhopRequest
forged = record request { headers = record headers { webhook_signature = "x" } }

rejected : verify_signature codec "{}" forged.headers "ws_secret" noon ≡ false
unfolding verify_signature distance candidates try_keys signing_keys compare_all
rejected = refl

unsigned : ¬ IsSigned codec "{}" forged.headers "ws_secret" noon
unsigned signed =
    let accepted = (verify_signature_iff codec "{}" forged.headers "ws_secret" noon).1 signed in
    let e = rejected in cc

whop_webhook-unsigned_example :
    let run = whop_webhook whop api env codec forged world in
    (run.0 ≡ ok (if truthy api.webhook_secret then 401 else 500)) × (run.1.db ≡ world.db)
whop_webhook-unsigned_example = whop_webhook-unsigned whop api env codec forged world unsigned
