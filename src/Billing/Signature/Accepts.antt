-- ===== src/Billing/Signature/Accepts.antt =====
-- Which events the signature check accepts.
use javi.Prelude.{
  ℕ, ℤ, ◌≤◌, String, ◌≡◌, refl, Bool, true, false, Option, none, some, List, [], ◌∷◌, str_eq,
  eq_iff, arith, truthy, Bool-cases, inl, inr, ◌↔◌, subst,
}
use mathlib.Core.List.{Memᴰ}
use javi.Billing.Signature.{
  WebhookHeaders, Codec, distance, signature_tolerance, signing_keys, candidates, compare_all,
  try_keys, signed_text, is_fresh, has_candidate, verify_signature,
}

-- A comparison that has succeeded is not lost by the later ones.
compare_all-true : (e : String) (given : List String) → compare_all e given true ≡ true
unfolding compare_all
compare_all-true e [] = refl
compare_all-true e (c ∷ given) = ground (arith, compare_all-true e given)

-- `ok` is right where the comparisons so far are: of an equal one, or of the start.
compare_all-eq-true :
    (e : String) (given : List String) → compare_all e given false ≡ true → Memᴰ e given
unfolding compare_all
compare_all-eq-true e [] h = cc
compare_all-eq-true e (c ∷ given) h = elim (Bool-cases (str_eq e c)) [
  | inl same ↦ Memᴰ.head ((eq_iff e c).0 same)
  | inr other ↦
      let rest : compare_all e given false ≡ true = rw other at h in
      Memᴰ.tail (compare_all-eq-true e given rest)
]

compare_all-of_mem :
    (e : String) (given : List String) (ok : Bool) → Memᴰ e given → compare_all e given ok ≡ true
unfolding compare_all
compare_all-of_mem e [] ok m = elim m [ ]
compare_all-of_mem e (c ∷ given) ok (Memᴰ.head same) =
    rw ((eq_iff e c).1 same) (compare_all-true e given)
compare_all-of_mem e (c ∷ given) ok (Memᴰ.tail later) = compare_all-of_mem e given _ later

module _ (codec : Codec) where
  try_keys-true :
      (keys : List String) (text : String) (given : List String)
      → try_keys codec keys text given true ≡ true
  unfolding try_keys
  try_keys-true [] text given = refl
  try_keys-true (k ∷ keys) text given =
      rw (compare_all-true (codec.hmac k text) given) (try_keys-true keys text given)

  -- A key that is tried and a signature that is given, which fit.
  abbrev pub Fits : List String → String → List String → Type 0
  Fits keys text given = (key : String) × Memᴰ key keys × Memᴰ (codec.hmac key text) given

  try_keys-eq-true :
      (keys : List String) (text : String) (given : List String)
      → try_keys codec keys text given false ≡ true
      → Fits keys text given
  unfolding try_keys
  try_keys-eq-true [] text given h = cc
  try_keys-eq-true (k ∷ keys) text given h =
      elim (Bool-cases (compare_all (codec.hmac k text) given false)) [
        | inl same ↦ (k, Memᴰ.head refl, compare_all-eq-true _ given same)
        | inr other ↦
            let (key, m, fits) = try_keys-eq-true keys text given (rw other at h) in
            (key, Memᴰ.tail m, fits)
      ]

  try_keys-of_Fits :
      (keys : List String) (text : String) (given : List String) (ok : Bool)
      → Fits keys text given
      → try_keys codec keys text given ok ≡ true
  unfolding try_keys
  try_keys-of_Fits [] text given ok (key, m, fits) = elim m [ ]
  try_keys-of_Fits (k ∷ keys) text given ok (key, Memᴰ.head same, fits) =
      let m = subst (λ x. Memᴰ (codec.hmac x text) given) same fits in
      rw (compare_all-of_mem (codec.hmac k text) given ok m) (try_keys-true keys text given)
  try_keys-of_Fits (k ∷ keys) text given ok (key, Memᴰ.tail later, fits) =
      try_keys-of_Fits keys text given _ (key, later, fits)

  -- The signature of an event: it has the secret, the three headers, a time within five minutes of
  -- now, and one of its version 1 signatures is the HMAC, under one of our keys, of id, time and
  -- body.
  pub record IsSigned (body : String) (headers : WebhookHeaders) (secret : String) (now : ℕ)
      : Type 0 where
    pub has_secret : truthy secret ≡ true
    pub has_id : truthy headers.webhook_id ≡ true
    pub has_timestamp : truthy headers.webhook_timestamp ≡ true
    pub has_signature : truthy headers.webhook_signature ≡ true
    pub sent_at : ℤ
    pub timestamp : codec.int headers.webhook_timestamp ≡ some sent_at
    pub fresh : distance now sent_at ≤ signature_tolerance
    pub fits :
        Fits
          (signing_keys codec secret)
          (signed_text body headers)
          (candidates codec (codec.split headers.webhook_signature))

  fresh_lem :
      (now : ℕ) (o : Option ℤ)
      → is_fresh now o ≡ true
      → (s : ℤ) × (o ≡ some s) × (distance now s ≤ signature_tolerance)
  unfolding is_fresh
  fresh_lem now none h = cc
  fresh_lem now (some s) h = (s, refl, ground arith)

  fresh_of :
      (now : ℕ) (o : Option ℤ) (s : ℤ)
      → o ≡ some s
      → distance now s ≤ signature_tolerance
      → is_fresh now o ≡ true
  unfolding is_fresh
  fresh_of now o s e h = rw e (ground arith)

  has_candidate_of : {x : String} (given : List String) → Memᴰ x given → has_candidate given ≡ true
  unfolding has_candidate
  has_candidate_of [] m = elim m [ ]
  has_candidate_of (c ∷ given) m = refl

  -- An event is accepted exactly when it is signed.
  pub verify_signature_iff :
      (body : String) (headers : WebhookHeaders) (secret : String) (now : ℕ)
      → (verify_signature codec body headers secret now ≡ true) ↔ IsSigned body headers secret now
  unfolding verify_signature
  verify_signature_iff body headers secret now =
      let given = candidates codec (codec.split headers.webhook_signature) in
      let keys = signing_keys codec secret in
      let text = signed_text body headers in
      let stamp = codec.int headers.webhook_timestamp in
      (
        λ h.
            let fresh : is_fresh now stamp ≡ true = ground arith in
            let tried : try_keys codec keys text given false ≡ true = ground arith in
            let (s, e, near) = fresh_lem now stamp fresh in
            record {
              has_secret = ground arith;
              has_id = ground arith;
              has_timestamp = ground arith;
              has_signature = ground arith;
              sent_at = s;
              timestamp = e;
              fresh = near;
              fits = try_keys-eq-true keys text given tried;
            },
        λ signed.
            let fresh = fresh_of now stamp signed.sent_at signed.timestamp signed.fresh in
            let there = has_candidate_of given signed.fits.2 in
            let tried = try_keys-of_Fits keys text given false signed.fits in
            rw
              (
                signed.has_secret, signed.has_id, signed.has_timestamp, signed.has_signature, fresh,
                there, tried,
              )
              refl,
      )
