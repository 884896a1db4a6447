-- ===== src/Billing/Api.antt =====
-- billing/whop.py: requests to Whop, and what is read from a payload.
use javi.Prelude.{
  ℕ, String, Bool, leb, Option, none, some, if◌then◌else◌, truthy, List, text_or, get_or,
}
use javi.Exec.{Exec, ok}
use javi.Runtime.{tick}
use javi.Billing.Memberships.{Time, MembershipData}

-- A value of a payload that is not an object; `text` is `str(value)`.
pub data Scalar : Type 0 where
  null : Scalar
  boolean : Bool → Scalar
  text : String → Scalar

-- A money object, with `str(currency or "")`.
pub record Money : Type 0 where
  pub amount : Scalar
  pub currency : String

pub data Value : Type 0 where
  scalar : Scalar → Value
  object : Money → Value

-- A payment has the keys of a membership (`payload`) and its own.
pub record PaymentData : Type 0 where
  pub payload : MembershipData
  pub membership_id : String
  pub membership : Option String
  pub line_items : List (Option Money)
  pub presentment_total : Option Money
  pub subtotal : Value
  pub currency : String
  pub refunded_amount : Value
  pub billing_reason : String
  pub paid_at : Time

pub data Json (B : Type 0) : Type 0 where
  no_json not_a_dict : Json B
  dict : B → Json B

-- What `requests.request` gives: an exception, or a status and a body.
pub data Response (B : Type 0) : Type 0 where
  request_exception : Response B
  answer : (status_code : ℕ) → Json B → Response B

pub record CheckoutBody : Type 0 where
  pub id : String
  pub purchase_url : String

-- Whop's side, the key of the API, and what `Decimal` (in cents) and `str.upper` make of a text.
pub record WhopApi : Type 0 where
  pub api_key : String
  pub webhook_secret : String
  pub memberships : ℕ → String → Response MembershipData
  pub payments : ℕ → String → Response PaymentData
  pub checkouts : ℕ → (shop trial_days : ℕ) → Response CheckoutBody
  pub decimal : String → Option ℕ
  pub upper : String → String

unfoldable pub body_of : {B : Type 0} → Response B → Option B
body_of request_exception = none
body_of (answer status_code no_json) = none
body_of (answer status_code not_a_dict) = none
body_of (answer status_code (dict body)) = if leb 400 status_code then none else some body

module _ (api : WhopApi) where
  -- `none` where the code raises `WhopError`.
  unfoldable pub api_request : {B : Type 0} → (ℕ → Response B) → Exec (Option B)
  api_request request w =
      if truthy api.api_key then (ok (body_of (request w.calls)), tick w) else (ok none, w)

  unfoldable pub get_membership : String → Exec (Option MembershipData)
  get_membership id = api_request (λ n. api.memberships n id)

  unfoldable pub get_payment : String → Exec (Option PaymentData)
  get_payment id = api_request (λ n. api.payments n id)

  money_of_scalar : Scalar → Option ℕ
  money_of_scalar null = none
  money_of_scalar (boolean b) = none
  money_of_scalar (text s) = api.decimal s

  unfoldable pub money : Value → Option ℕ
  unfolding money_of_scalar
  money (scalar s) = money_of_scalar s
  money (object m) = money_of_scalar m.amount

unfoldable pub membership_of : PaymentData → String
membership_of payment = text_or payment.membership_id (get_or payment.membership "")
