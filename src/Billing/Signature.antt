-- ===== src/Billing/Signature.antt =====
-- billing/whop.py: the Standard Webhooks signature of an event. Bytes are texts here.
pub mod Accepts
use javi.Prelude.{
  ℕ, ℤ, pos, negsuc, suc, ◌+◌, ◌-◌, ◌*◌, String, Bool, true, false, not, ◌&&◌, ◌||◌, Option, none,
  some, List, [], ◌∷◌, ◌++◌, str_eq, ltb, if◌then◌else◌, truthy,
}
use Prim.Native.String.{◌++◌ as append}
use text.Mathlib.Text.{starts_with}
use javi.Env.{second}

pub record WebhookHeaders : Type 0 where
  pub webhook_id : String
  pub webhook_timestamp : String
  pub webhook_signature : String

-- What Python gives. `hmac key text` is the base64 of the HMAC, `b64decode` is `none` for
-- `ValueError`.
pub record Codec : Type 0 where
  pub strip : String → String
  pub removeprefix : String → String → String
  pub b64decode : String → Option String
  pub hmac : (key text : String) → String
  pub int : String → Option ℤ
  pub split : String → List String
  pub partition_comma : String → String × String

-- `abs(now - sent_at)`, where a moment is a number of microseconds and `sent_at` one of seconds
unfoldable pub distance : ℕ → ℤ → ℕ
distance now (pos s) = (now - s * second) + (s * second - now)
distance now (negsuc n) = now + suc n * second

abbrev pub signature_tolerance : ℕ
signature_tolerance = 300 * second

-- The inner loop, without an early exit.
unfoldable pub compare_all : String → List String → Bool → Bool
compare_all expected [] ok = ok
compare_all expected (candidate ∷ given) ok =
    compare_all expected given (str_eq expected candidate || ok)

is_fresh : ℕ → Option ℤ → Bool
is_fresh now none = false
is_fresh now (some sent_at) = not (ltb signature_tolerance (distance now sent_at))

unfoldable pub signed_text : String → WebhookHeaders → String
signed_text body headers =
    append headers.webhook_id (append "." (append headers.webhook_timestamp (append "." body)))

has_candidate : List String → Bool
has_candidate [] = false
has_candidate (c ∷ cs) = true

decoded : Option String → List String
decoded none = []
decoded (some key) = key ∷ []

module _ (codec : Codec) where
  unfoldable pub signing_keys : String → List String
  unfolding decoded
  signing_keys given =
      let secret = codec.strip given in
      if starts_with secret "whsec_"
      then decoded (codec.b64decode (codec.removeprefix secret "whsec_"))
      else secret ∷ (if starts_with secret "ws_" then codec.removeprefix secret "ws_" ∷ [] else [])

  -- The signatures of version 1.
  unfoldable pub candidates : List String → List String
  candidates [] = []
  candidates (entry ∷ entries) =
      let parts = codec.partition_comma entry in
      let rest = candidates entries in
      if str_eq parts.0 "v1" && truthy parts.1 then parts.1 ∷ rest else rest

  unfoldable pub try_keys : List String → String → List String → Bool → Bool
  try_keys [] signed given ok = ok
  try_keys (key ∷ keys) signed given ok =
      try_keys keys signed given (compare_all (codec.hmac key signed) given ok)

  unfoldable pub verify_signature : String → WebhookHeaders → String → ℕ → Bool
  unfolding is_fresh has_candidate
  verify_signature body headers secret now =
      let given = candidates (codec.split headers.webhook_signature) in
      truthy secret
      && (truthy headers.webhook_id
          && truthy headers.webhook_timestamp
          && truthy headers.webhook_signature)
      && is_fresh now (codec.int headers.webhook_timestamp)
      && has_candidate given
      && try_keys (signing_keys secret) (signed_text body headers) given false
