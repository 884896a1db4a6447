-- ===== src/Receipts/Optouts.antt =====
-- `infobip_optout` of notifications/webhooks.py, which mirrors opt-outs by STOP.
use javi.Prelude.{
  ℕ, String, true, not, ◌≡◌, refl, Option, none, some, List, [], ◌∷◌, All, any, str_eq, eq_iff,
  truthy, text_or, if◌then◌else◌, arith, ap, sym, subst, Bool-cases, inl, inr,
}
use Prim.Native.String.{◌++◌, len}
use text.Mathlib.Text.{starts_with}
use text.Mathlib.TextPositions.{len-append}
use javi.Model.{OptOut}
use javi.Env.{Env}
use javi.World.{World}
use javi.Exec.{Exec, ok, pure, ◌>>◌}
use javi.Secrets.{Credentials, request_has_secret}
use javi.Receipts.{opt_out, is_opted_out}

-- One element of `results`; a text that is missing is empty.
pub record Stop : Type 0 where
  pub to : String
  pub phone_number : String
  pub destination : String

abbrev pub phone_of : Stop → String
phone_of s = text_or s.to (text_or s.phone_number s.destination)

abbrev pub with_plus : String → String
with_plus phone = if starts_with phone "+" then phone else "+" ++ phone

module _ (env : Env) where
  unfoldable pub handle_stop : Stop → Exec (Unit {0})
  handle_stop s = if truthy (phone_of s) then opt_out env (with_plus (phone_of s)) else pure tt

  unfoldable pub handle_stops : List Stop → Exec (Unit {0})
  unfolding handle_stop
  handle_stops [] = pure tt
  handle_stops (s ∷ rest) = do handle_stop s; handle_stops rest

  -- The whole handler: its HTTP status. `none` is a body that is no JSON.
  unfoldable pub infobip_optout : String → Credentials → Option (List Stop) → Exec ℕ
  unfolding handle_stops
  infobip_optout secret request none =
      if not (request_has_secret request secret) then pure 403 else pure 400
  infobip_optout secret request (some results) =
      if not (request_has_secret request secret)
      then pure 403
      else do handle_stops results; pure 200

  -- The step returns, and whoever was opted out still is.
  record Keeps (step : Exec (Unit {0})) (w : World) : Type 0 where
    returns : step w ≡ (ok tt, (step w).1)
    still : (p : String) → is_opted_out env p w.db ≡ true → is_opted_out env p (step w).1.db ≡ true

  opt_out-Keeps : (phone : String) (w : World) → Keeps (opt_out env phone) w
  unfolding opt_out is_opted_out any
  opt_out-Keeps phone w = elim (Bool-cases (truthy phone)) [
    | inr empty ↦ record { returns = rw empty refl; still = λ p h. rw empty h }
    | inl given ↦ elim (Bool-cases (any (λ (o : OptOut). str_eq o.phone phone) w.opt_outs)) [
      | inl known ↦ record { returns = rw (given, known) refl; still = λ p h. rw (given, known) h }
      | inr new ↦ record {
        returns = rw (given, new) refl;
        still = λ p h. rw (given, new) (ground (arith, h));
      }
    ]
  ]

  opt_out-opts :
      (phone : String) (w : World)
      → truthy phone ≡ true
      → is_opted_out env phone (opt_out env phone w).1.db ≡ true
  unfolding opt_out is_opted_out any
  opt_out-opts phone w given =
      let own = (eq_iff phone phone).1 refl in
      elim (Bool-cases (any (λ (o : OptOut). str_eq o.phone phone) w.opt_outs)) [
        | inl known ↦ rw (given, known) (ground (arith, known, given))
        | inr new ↦ rw (given, new, own) refl
      ]

  handle_stop-Keeps : (s : Stop) (w : World) → Keeps (handle_stop s) w
  unfolding handle_stop
  handle_stop-Keeps s w = elim (Bool-cases (truthy (phone_of s))) [
    | inl given ↦
        let kept = opt_out-Keeps (with_plus (phone_of s)) w in
        record { returns = rw given kept.returns; still = λ p h. rw given (kept.still p h) }
    | inr empty ↦ record { returns = rw empty refl; still = λ p h. rw empty h }
  ]

  handle_stops-Keeps : (stops : List Stop) (w : World) → Keeps (handle_stops stops) w
  unfolding handle_stops
  handle_stops-Keeps [] w = record { returns = refl; still = λ p h. h }
  handle_stops-Keeps (s ∷ rest) w =
      let here = handle_stop-Keeps s w in
      let later = handle_stops-Keeps rest (handle_stop s w).1 in
      record {
        returns = rw (here.returns, later.returns) refl;
        still = λ p h. rw here.returns (later.still p (here.still p h));
      }

  with_plus-truthy : (phone : String) → truthy phone ≡ true → truthy (with_plus phone) ≡ true
  with_plus-truthy phone given = elim (Bool-cases (starts_with phone "+")) [
    | inl has ↦ rw has given
    | inr has_not ↦ elim (Bool-cases (str_eq ("+" ++ phone) "")) [
      | inl empty ↦
          let same = (eq_iff ("+" ++ phone) "").0 empty in
          let longer = len-append "+" phone in
          let none_left = ap len same in ground (arith, longer, none_left)
      | inr good ↦ rw (has_not, good) refl
    ]
  ]

  handle_stop-opts :
      (s : Stop) (w : World)
      → truthy (phone_of s) ≡ true
      → is_opted_out env (with_plus (phone_of s)) (handle_stop s w).1.db ≡ true
  unfolding handle_stop
  handle_stop-opts s w given =
      rw given (opt_out-opts (with_plus (phone_of s)) w (with_plus-truthy (phone_of s) given))

  -- A STOP with a phone, which is opted out.
  abbrev pub IsHeeded : World → Stop → Type 0
  IsHeeded w s = truthy (phone_of s) ≡ true → is_opted_out env (with_plus (phone_of s)) w.db ≡ true

  handle_stops-cons :
      (s : Stop) (rest : List Stop) (w : World)
      → handle_stops (s ∷ rest) w ≡ handle_stops rest (handle_stop s w).1
  unfolding handle_stops
  handle_stops-cons s rest w = rw (handle_stop-Keeps s w).returns refl

  handle_stops-IsHeeded :
      (stops : List Stop) (w : World) → All (IsHeeded (handle_stops stops w).1) stops
  handle_stops-IsHeeded [] w = tt
  handle_stops-IsHeeded (s ∷ rest) w =
      let next = (handle_stop s w).1 in
      let later = handle_stops-Keeps rest next in
      subst (λ done. All (IsHeeded done.1) (s ∷ rest)) (sym (handle_stops-cons s rest w))
        (
          λ given. later.still (with_plus (phone_of s)) (handle_stop-opts s w given),
          handle_stops-IsHeeded rest next,
        )

  -- A request with the secret and a list of STOPs is answered 200. Afterwards each phone of the
  -- list is opted out, and so is whoever was before.
  pub infobip_optout-IsHeeded :
      (secret : String) (request : Credentials) (stops : List Stop) (w : World)
      → request_has_secret request secret ≡ true
      → let after = (infobip_optout secret request (some stops) w).1 in
        ((infobip_optout secret request (some stops) w).0 ≡ ok 200)
        × All (IsHeeded after) stops
        × ((p : String) → is_opted_out env p w.db ≡ true → is_opted_out env p after.db ≡ true)
  unfolding infobip_optout
  infobip_optout-IsHeeded secret request stops w known =
      let done = handle_stops-Keeps stops w in
      rw (known, done.returns) (refl, handle_stops-IsHeeded stops w, done.still)
