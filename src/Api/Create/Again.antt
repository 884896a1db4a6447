-- ===== src/Api/Create/Again.antt =====
-- A request to create a delivery that is sent again under its Idempotency-Key.
use javi.Prelude.{
  String, ◌≡◌, refl, ◌∙◌, sym, ap, Bool, true, false, Option, none, some, ◌&&◌, truthy, Bool-cases,
  ◌⊎◌, inl, inr, subst,
}
use javi.Model.{Shop, Delivery}
use javi.Env.{Env}
use javi.World.{World}
use javi.Exec.{Result, ok, continue, pure}
use javi.Exec.Frame.{continue-of_ok}
use javi.Deliveries.Edit.{Edit}
use javi.Deliveries.Messages.{PhoneResult}
use javi.Api.Create.{
  CreateForm, CreateBody, fields_missing, invalid, valid, CreateAnswer, missing_fields,
  invalid_request, invalid_language, invalid_phone, made, Readers, key_row, create_once,
  create_made, create_to, create_in, create,
}
use javi.Api.Create.Twice.{create_once_again}

unfoldable pub is_refusal : CreateAnswer → Bool
is_refusal (made d) = false
is_refusal _ = true

refused_not_made : (a : CreateAnswer) (d : Delivery) → is_refusal a ≡ true → (a ≡ made d) → ⊥
unfolding is_refusal
refused_not_made a d refusal h = let e = ap is_refusal h in cc

module _ (env : Env) (readers : Readers) (shop : Shop) (header : String) where
  -- What a body is, whatever the state: refused, or the fields of a new delivery.
  IsRefused : CreateBody → Type 0
  IsRefused body =
      (a : CreateAnswer) × (is_refusal a ≡ true)
      × ((w : World) → create env readers shop header body w ≡ (ok a, w))

  IsTaken : CreateBody → Type 0
  IsTaken body =
      (edit : Edit) × ((w : World)
        → create env readers shop header body w
          ≡ create_made env readers shop (env.strip header) edit w)

  phone_lem :
      (form : CreateForm) (language : String) (phone : Option PhoneResult)
      → let run = create_to env readers shop (env.strip header) form language phone in
        ((a : CreateAnswer) × (is_refusal a ≡ true) × ((w : World) → run w ≡ (ok a, w)))
        ⊎ ((edit : Edit) × ((w : World)
              → run w ≡ create_made env readers shop (env.strip header) edit w))
  unfolding create_to is_refusal
  phone_lem form language none = inl (invalid_phone, refl, λ w. refl)
  phone_lem form language (some phone) = inr (_, λ w. refl)

  language_lem :
      (form : CreateForm) (language : Option String)
      → let run = create_in env readers shop (env.strip header) form language in
        ((a : CreateAnswer) × (is_refusal a ≡ true) × ((w : World) → run w ≡ (ok a, w)))
        ⊎ ((edit : Edit) × ((w : World)
              → run w ≡ create_made env readers shop (env.strip header) edit w))
  unfolding create_in is_refusal
  language_lem form none = inl (invalid_language, refl, λ w. refl)
  language_lem form (some language) =
      elim (Bool-cases (
        truthy (env.strip form.recipient_name)
        && truthy (env.strip form.recipient_phone)
        && truthy (env.strip form.address))) [
          | inl given ↦ rw given (phone_lem form language _)
          | inr missing ↦ rw missing (inl (missing_fields, refl, λ w. refl))
        ]

  body_lem : (body : CreateBody) → IsRefused body ⊎ IsTaken body
  unfolding IsRefused IsTaken create is_refusal
  body_lem fields_missing = inl (missing_fields, refl, λ w. refl)
  body_lem invalid = inl (invalid_request, refl, λ w. refl)
  body_lem (valid form) = language_lem form _

  -- What a request is answered that comes after `d` was made: its body is refused, or it is answered
  -- `d`. Neither changes anything.
  pub IsAnswered : Delivery → CreateBody → World → Type 0
  IsAnswered d again w =
      let run = create env readers shop header again w in
      (run ≡ (ok (made d), w))
      ⊎ ((a : CreateAnswer) × (is_refusal a ≡ true)
          × ((v : World) → create env readers shop header again v ≡ (ok a, v)))

  made_again :
      (edit next : Edit) (d : Delivery) (w : World)
      → truthy (env.strip header) ≡ true
      → key_row shop (env.strip header) w.db ≡ none
      → let run = create_made env readers shop (env.strip header) edit w in
        run.0 ≡ ok (made d)
        → create_made env readers shop (env.strip header) next run.1 ≡ (ok (made d), run.1)
  unfolding create_made
  made_again edit next d w given free h =
      let key = env.strip header in
      let once = create_once env shop key edit w in
      let (e, first_run, again) = create_once_again env shop key edit next w given free in
      let run = continue-of_ok (λ (x : Delivery). pure (made x)) once e first_run in
      let same : e ≡ d = cc in
      rw run (
        ap (continue (λ (x : Delivery). pure (made x))) again
        ∙ ap (λ x. (ok (made x), once.1)) same)

  -- A request with a key that no request has had yet makes a delivery. A request under that key that
  -- comes next, whatever its body, is answered the same delivery and changes nothing; only a body
  -- that is refused in every state is answered its refusal, and changes nothing either.
  pub create_again :
      (body again : CreateBody) (d : Delivery) (w : World)
      → truthy (env.strip header) ≡ true
      → key_row shop (env.strip header) w.db ≡ none
      → let run = create env readers shop header body w in
        run.0 ≡ ok (made d) → IsAnswered d again run.1
  unfolding IsAnswered IsRefused IsTaken is_refusal
  create_again body again d w given free h = elim (body_lem again) [
    | inl refused ↦ inr refused
    | inr (next, taken) ↦ elim (body_lem body) [
      | inl (a, refusal, answered) ↦
          let said : ok a ≡ ok (made d) = sym (ap (λ s. s.0) (answered w)) ∙ h in
          elim (refused_not_made a d refusal (let same : a ≡ made d = cc in same)) [ ]
      | inr (edit, is_made) ↦
          let made_first = sym (ap (λ s. s.0) (is_made w)) ∙ h in
          inl (
            taken (create env readers shop header body w).1
            ∙ subst
                (λ (s : Result CreateAnswer × World).
                  create_made env readers shop (env.strip header) next s.1 ≡ (ok (made d), s.1))
                (sym (is_made w)) (made_again edit next d w given free made_first))
    ]
  ]
