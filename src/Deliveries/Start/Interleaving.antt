-- ===== src/Deliveries/Start/Interleaving.antt =====
-- Requests that start deliveries at the same time: each runs the three parts of `start_delivery`, and
-- the parts of different requests follow one another in any order. The lock of the row makes the
-- transaction one part.
pub mod Turns
pub mod Sound
pub mod Served
use javi.Prelude.{
  ℕ, zero, suc, ◌+◌, ◌≤◌, ◌<◌, ◌≡◌, refl, Option, none, some, List, [], ◌∷◌, arith, All,
}
use javi.Model.{Delivery, EtaSource}
use javi.Env.{Env}
use javi.World.{World}
use javi.Exec.{Result, ok, err}
use javi.Deliveries.Start.{
  Checked, Committed, already, needs_manual_eta, ready, check_start, commit_start, finish_start,
}
use javi.Deliveries.Start.Commit.{commit_start_error}
use javi.Deliveries.Start.Races.{notices, gain, check_start-SameDb, commit-notices, finish-notices}

-- How far a request has come; `finished` keeps what its transaction led to, if it had one.
pub data Phase : Type 0 where
  checking : (manual_eta : Option ℕ) → Phase
  committing : (eta_at : ℕ) (eta_source : EtaSource) → Phase
  finishing : (eta_at : ℕ) (c : Committed) → Phase
  finished : Option Committed → Phase

pub record Request : Type 0 where
  pub delivery : Delivery
  pub phase : Phase

checked_phase : Result Checked → Phase
checked_phase (ok already) = finished none
checked_phase (ok needs_manual_eta) = finished none
checked_phase (ok (ready eta_at eta_source)) = committing eta_at eta_source
checked_phase (err e) = finished none

committed_phase : ℕ → Result Committed → Phase
committed_phase eta_at (ok c) = finishing eta_at c
committed_phase eta_at (err e) = finished none

module _ (env : Env) where
  -- The next part of a request.
  part : Delivery → Phase → World → Phase × World
  part d (checking manual_eta) w =
      let s = check_start env d manual_eta w in (checked_phase s.0, s.1)
  part d (committing eta_at eta_source) w =
      let s = commit_start env d.id eta_at eta_source w in (committed_phase eta_at s.0, s.1)
  part d (finishing eta_at c) w = (finished (some c), (finish_start env d eta_at c w).1)
  part d (finished c) w = (finished c, w)

  -- The request at a place of the list runs its next part.
  part_at : ℕ → List Request → World → List Request × World
  part_at i [] w = ([], w)
  part_at zero (r ∷ rs) w =
      let (phase, w') = part r.delivery r.phase w in (record r { phase = phase } ∷ rs, w')
  part_at (suc i) (r ∷ rs) w = let (rs', w') = part_at i rs w in (r ∷ rs', w')

  -- A schedule says which request runs next.
  pub interleave : List ℕ → List Request → World → List Request × World
  interleave [] rs w = (rs, w)
  interleave (i ∷ is) rs w = let (rs', w') = part_at i rs w in interleave is rs' w'

-- Has a request won the start of a delivery? (1 or 0)
pub wins : ℕ → Phase → ℕ
wins id (finishing eta_at c) = gain id c
wins id (finished (some c)) = gain id c
wins id _ = 0

pub total_wins : ℕ → List Request → ℕ
total_wins id [] = 0
total_wins id (r ∷ rs) = wins id r.phase + total_wins id rs

abbrev pub IsNewRequest : Request → Type 0
IsNewRequest r = (m : Option ℕ) × (r.phase ≡ checking m)

-- One part of a request: the notifications of a delivery grow by the wins, and only from none.
record Fair (id : ℕ) (w w' : World) (before after : ℕ) : Type 0 where
  balance : notices id w' + before ≡ notices id w + after
  bounded : notices id w ≤ 1 → notices id w' ≤ 1

module _ (env : Env) (id : ℕ) where
  gain-le : (c : Committed) → gain id c ≤ 1
  gain-le (Committed.lost locked) = omega arith
  gain-le (Committed.won locked shop token n) = ground arith

  bound_of :
      {after before g : ℕ}
      → after ≡ before + g
      → (0 < g → before ≡ 0)
      → before ≤ 1
      → g ≤ 1
      → after ≤ 1
  bound_of {g = zero} grows fresh b h = omega arith
  bound_of {g = suc k} grows fresh b h = omega (arith, fresh (omega arith))

  committed-Fair :
      (d : Delivery) (eta_at : ℕ) (eta_source : EtaSource) (w : World) (r : Result Committed)
      → (commit_start env d.id eta_at eta_source w).0 ≡ r
      → Fair id w
          (commit_start env d.id eta_at eta_source w).1
          0
          (wins id (committed_phase eta_at r))
  unfolding wins committed_phase
  committed-Fair d eta_at eta_source w (ok c) h =
      let (grows, fresh) = commit-notices env d.id eta_at eta_source w c h id in
      record { balance = omega arith; bounded = λ b. bound_of grows fresh b (gain-le c) }
  committed-Fair d eta_at eta_source w (err e) h =
      let same = commit_start_error env d.id eta_at eta_source w e h in
      record { balance = rw same.db (omega arith); bounded = λ b. rw same.db b }

  checked_phase-wins : (r : Result Checked) → wins id (checked_phase r) ≡ 0
  unfolding wins checked_phase
  checked_phase-wins (ok already) = refl
  checked_phase-wins (ok needs_manual_eta) = refl
  checked_phase-wins (ok (ready eta_at eta_source)) = refl
  checked_phase-wins (err e) = refl

  part-Fair :
      (d : Delivery) (p : Phase) (w : World)
      → Fair id w (part env d p w).1 (wins id p) (wins id (part env d p w).0)
  unfolding part wins
  part-Fair d (checking m) w =
      let same = (check_start-SameDb env d m).at w in
      rw checked_phase-wins (record { balance = rw same (omega arith); bounded = λ b. rw same b })
  part-Fair d (committing eta_at eta_source) w = committed-Fair d eta_at eta_source w _ refl
  part-Fair d (finishing eta_at c) w =
      let same = finish-notices env d eta_at c w id in
      record { balance = omega arith; bounded = λ b. omega arith }
  part-Fair d (finished none) w = record { balance = refl; bounded = λ b. b }
  part-Fair d (finished (some c)) w = record { balance = refl; bounded = λ b. b }

  part_at-Fair :
      (i : ℕ) (rs : List Request) (w : World)
      → Fair id w (part_at env i rs w).1 (total_wins id rs) (total_wins id (part_at env i rs w).0)
  unfolding part_at total_wins
  part_at-Fair i [] w = record { balance = refl; bounded = λ b. b }
  part_at-Fair zero (r ∷ rs) w =
      let fair = part-Fair r.delivery r.phase w in
      record { balance = omega (arith, fair.balance); bounded = fair.bounded }
  part_at-Fair (suc i) (r ∷ rs) w =
      let fair = part_at-Fair i rs w in
      record { balance = omega (arith, fair.balance); bounded = fair.bounded }

  interleave-Fair :
      (is : List ℕ) (rs : List Request) (w : World)
      → Fair id w
          (interleave env is rs w).1
          (total_wins id rs)
          (total_wins id (interleave env is rs w).0)
  unfolding interleave
  interleave-Fair [] rs w = record { balance = refl; bounded = λ b. b }
  interleave-Fair (i ∷ is) rs w =
      let one = part_at-Fair i rs w in
      let (rs', w') = part_at env i rs w in
      let rest = interleave-Fair is rs' w' in
      record {
        balance = omega (arith, one.balance, rest.balance);
        bounded = λ b. rest.bounded (one.bounded b);
      }

  new_requests-no_wins : (rs : List Request) → All IsNewRequest rs → total_wins id rs ≡ 0
  unfolding total_wins wins
  new_requests-no_wins [] h = refl
  new_requests-no_wins (r ∷ rs) h =
      let (m, e) = h.0 in rw e (omega (arith, new_requests-no_wins rs h.1))

  -- Whatever requests start deliveries at the same time, and however their parts interleave, at most
  -- one of them wins the start of a delivery, none if it had its start notification already, and the
  -- delivery never has two start notifications, if it had at most one before.
  pub interleave_wins_once :
      (is : List ℕ) (rs : List Request) (w : World)
      → All IsNewRequest rs
      → notices id w ≤ 1
      → (notices id (interleave env is rs w).1
          ≡ notices id w + total_wins id (interleave env is rs w).0)
        × (notices id (interleave env is rs w).1 ≤ 1)
  interleave_wins_once is rs w new once =
      let fair = interleave-Fair is rs w in
      (omega (arith, fair.balance, new_requests-no_wins rs new), fair.bounded once)
