-- ===== src/Deliveries/Start/Interleaving/Turns.antt =====
-- How many parts a request has still to run: each of its turns takes one away, and no other
-- request's turn does.
use javi.Prelude.{
  ℕ, zero, suc, ◌+◌, ◌≤◌, ◌≡◌, refl, ◌∙◌, sym, subst, inl, inr, false, ◌==◌, Bool-cases, ==_iff,
  Option, none, some, List, [], ◌∷◌, All, count, arith, get_or,
}
use javi.Model.{Delivery}
use javi.Env.{Env}
use javi.World.{World}
use javi.Exec.{Result, ok, err}
use javi.Deliveries.Start.{
  Checked, Committed, already, needs_manual_eta, ready, check_start, commit_start,
}
use javi.Deliveries.Start.Interleaving.{
  Phase, checking, committing, finishing, finished, Request, checked_phase, committed_phase, part,
  part_at, interleave, IsNewRequest,
}

abbrev pub request_at : ℕ → List Request → Option Request
request_at i [] = none
request_at zero (r ∷ rs) = some r
request_at (suc i) (r ∷ rs) = request_at i rs

unfoldable pub steps_left : Phase → ℕ
steps_left (checking m) = 3
steps_left (committing eta_at eta_source) = 2
steps_left (finishing eta_at c) = 1
steps_left (finished c) = 0

-- The request at a place, about the delivery `id`, with at most `k` parts to run.
pub record HasLeft (id i k : ℕ) (rs : List Request) : Type 0 where
  pub request : Request
  pub there : request_at i rs ≡ some request
  pub about : request.delivery.id ≡ id
  pub few : steps_left request.phase ≤ k

module _ (env : Env) (id : ℕ) where
  checked-steps : (r : Result Checked) → steps_left (checked_phase r) ≤ 2
  unfolding checked_phase steps_left
  checked-steps (ok already) = omega arith
  checked-steps (ok needs_manual_eta) = omega arith
  checked-steps (ok (ready eta_at eta_source)) = omega arith
  checked-steps (err e) = omega arith

  committed-steps : (eta_at : ℕ) (r : Result Committed) → steps_left (committed_phase eta_at r) ≤ 1
  unfolding committed_phase steps_left
  committed-steps eta_at (ok c) = omega arith
  committed-steps eta_at (err e) = omega arith

  part-steps :
      (d : Delivery) (p : Phase) (w : World) (k : ℕ)
      → steps_left p ≤ suc k
      → steps_left (part env d p w).0 ≤ k
  unfolding part steps_left
  part-steps d (checking m) w k h = omega (arith, checked-steps (check_start env d m w).0)
  part-steps d (committing eta_at eta_source) w k h =
      omega (arith, committed-steps eta_at (commit_start env d.id eta_at eta_source w).0)
  part-steps d (finishing eta_at c) w k h = omega arith
  part-steps d (finished c) w k h = omega arith

  part_at-own :
      (i k : ℕ) (rs : List Request) (w : World)
      → HasLeft id i (suc k) rs
      → HasLeft id i k (part_at env i rs w).0
  unfolding part_at
  part_at-own i k [] w h = let e = h.there in cc
  part_at-own zero k (r ∷ rs) w h = record {
    request = record r { phase = (part env r.delivery r.phase w).0 };
    there = refl;
    about = let e : some r ≡ some h.request = h.there in let a = h.about in cc;
    few = part-steps r.delivery r.phase w k (
        let e : some r ≡ some h.request = h.there in
        let f = h.few in subst (λ o. steps_left (get_or o h.request).phase ≤ suc k) (sym e) f);
  }
  part_at-own (suc i) k (r ∷ rs) w h =
      let rest =
        part_at-own i k rs w
          (record { request = h.request; there = h.there; about = h.about; few = h.few }) in
      record { request = rest.request; there = rest.there; about = rest.about; few = rest.few }

  part_at-other :
      (i j k : ℕ) (rs : List Request) (w : World)
      → (j == i) ≡ false
      → request_at i (part_at env j rs w).0 ≡ request_at i rs
  unfolding part_at
  part_at-other i j k [] w h = refl
  part_at-other zero zero k (r ∷ rs) w h = cc
  part_at-other zero (suc j) k (r ∷ rs) w h = refl
  part_at-other (suc i) zero k (r ∷ rs) w h = refl
  part_at-other (suc i) (suc j) k (r ∷ rs) w h = part_at-other i j k rs w (ground (arith, h))

  pub weaken : (i j k : ℕ) (rs : List Request) → HasLeft id i j rs → j ≤ k → HasLeft id i k rs
  weaken i j k rs h le = record {
    request = h.request;
    there = h.there;
    about = h.about;
    few = omega (arith, h.few);
  }

  pub interleave-steps :
      (i k : ℕ) (is : List ℕ) (rs : List Request) (w : World)
      → HasLeft id i (count (λ j. j == i) is + k) rs
      → HasLeft id i k (interleave env is rs w).0
  unfolding interleave count
  interleave-steps i k [] rs w h = weaken i (0 + k) k rs h (omega arith)
  interleave-steps i k (j ∷ is) rs w h =
      let (rs', w') = part_at env j rs w in
      let n = count (λ j. j == i) is in
      elim (Bool-cases (j == i)) [
        | inl own ↦
            let e = (==_iff j i).0 own in
            interleave-steps i k is rs' w' (
              subst (λ m. HasLeft id i (n + k) (part_at env m rs w).0) (sym e)
                (part_at-own i (n + k) rs w (weaken i _ (suc (n + k)) rs h (rw own (omega arith)))))
        | inr other ↦ interleave-steps i k is rs' w' (record {
          request = h.request;
          there = part_at-other i j k rs w other ∙ h.there;
          about = h.about;
          few = let f = h.few in rw other at f;
        })
      ]

  pub finished_of : (p : Phase) → steps_left p ≤ 0 → (c : Option Committed) × (p ≡ finished c)
  unfolding steps_left
  finished_of (checking m) h = ground arith
  finished_of (committing eta_at eta_source) h = ground arith
  finished_of (finishing eta_at c) h = ground arith
  finished_of (finished c) h = (c, refl)

  pub new_steps :
      (rs : List Request) (i : ℕ) (r : Request)
      → All IsNewRequest rs
      → request_at i rs ≡ some r
      → steps_left r.phase ≤ 3
  new_steps [] i r new e = cc
  new_steps (x ∷ rs) zero r ((m, start), new) e =
      let same : x ≡ r = cc in
      subst (λ q. steps_left q.phase ≤ 3) same (rw start (unfold steps_left in omega arith))
  new_steps (x ∷ rs) (suc i) r (start, new) e = new_steps rs i r new e
