-- ===== src/Deliveries/Start/Interleaving/Served.antt =====
-- What becomes of one of the requests that start a delivery at the same time, however the others run.
use javi.Prelude.{
  ℕ, zero, suc, ◌+◌, ◌≤◌, ◌<◌, ◌≡◌, refl, sym, subst, Bool, true, false, ◌==◌, Option, some,
  is_some, List, [], ◌∷◌, All, any, count, arith,
}
use javi.Model.{Delivery, EtaSource}
use javi.Env.{Env}
use javi.World.{World}
use javi.Exec.{Result, ok, err}
use javi.Deliveries.Start.{
  Checked, Committed, already, needs_manual_eta, ready, check_start, commit_start,
}
use javi.Deliveries.Start.Races.{notices, check_start-SameDb, finish-notices}
use javi.Deliveries.Start.Reach.{finish_start-deliveries}
use javi.Deliveries.Start.Interleaving.Turns.{
  request_at, interleave-steps, weaken, finished_of, new_steps,
}
use javi.Deliveries.Start.Interleaving.{
  Phase, checking, committing, finishing, finished, Request, checked_phase, committed_phase, part,
  part_at, interleave, total_wins, IsNewRequest, interleave_wins_once,
}
use javi.Deliveries.Start.Interleaving.Sound.{
  is_started_row, IsSound, Serves, committed_served, committed-Serves,
}

-- Has the transaction of the request returned?
abbrev has_returned : Phase → Bool
has_returned (checking m) = false
has_returned (committing eta_at eta_source) = false
has_returned (finishing eta_at c) = true
has_returned (finished c) = is_some c

module _ (env : Env) (id : ℕ) where
  part-Serves : (d : Delivery) (p : Phase) (w : World) → Serves env id w (part env d p w).1
  unfolding part
  part-Serves d (checking m) w =
      let same = (check_start-SameDb env d m).at w in
      record { grows = rw same (omega arith); sound = λ s. rw same s }
  part-Serves d (committing eta_at eta_source) w =
      committed-Serves env id d.id eta_at eta_source w _ refl
  part-Serves d (finishing eta_at c) w =
      let kept = finish-notices env d eta_at c w id in
      let rows = finish_start-deliveries env d eta_at c w in
      record { grows = omega arith; sound = λ s on_way. rw kept (s (rw rows at on_way)) }
  part-Serves d (finished c) w = record { grows = omega arith; sound = λ s. s }

  -- The delivery of a request whose transaction has returned has a start notification.
  abbrev IsServed : World → Request → Type 0
  IsServed w r = r.delivery.id ≡ id → has_returned r.phase ≡ true → 0 < notices id w

  commit-IsServed :
      (d : Delivery) (eta_at : ℕ) (eta_source : EtaSource) (w : World) (r : Result Committed)
      → IsSound id w
      → (commit_start env d.id eta_at eta_source w).0 ≡ r
      → d.id ≡ id
      → has_returned (committed_phase eta_at r) ≡ true
      → 0 < notices id (commit_start env d.id eta_at eta_source w).1
  unfolding committed_phase
  commit-IsServed d eta_at eta_source w (ok c) s h e good =
      subst (λ b. 0 < notices id (commit_start env b eta_at eta_source w).1) (sym e)
        (committed_served env id eta_at eta_source w c s
          (subst (λ b. (commit_start env b eta_at eta_source w).0 ≡ ok c) e h))
  commit-IsServed d eta_at eta_source w (err x) s h e good = cc

  checked_returned : (r : Result Checked) → has_returned (checked_phase r) ≡ false
  unfolding checked_phase
  checked_returned (ok already) = refl
  checked_returned (ok needs_manual_eta) = refl
  checked_returned (ok (ready eta_at eta_source)) = refl
  checked_returned (err e) = refl

  part-IsServed :
      (d : Delivery) (p : Phase) (w : World)
      → IsSound id w
      → IsServed w (record { delivery = d; phase = p })
      → IsServed (part env d p w).1 (record { delivery = d; phase = (part env d p w).0 })
  unfolding part
  part-IsServed d (checking m) w s h e good =
      let none_yet = checked_returned (check_start env d m w).0 in cc
  part-IsServed d (committing eta_at eta_source) w s h e good =
      commit-IsServed d eta_at eta_source w _ s refl e good
  part-IsServed d (finishing eta_at c) w s h e good =
      rw (finish-notices env d eta_at c w id) (h e refl)
  part-IsServed d (finished c) w s h e good = h e good

  grown :
      (w w' : World) (rs : List Request)
      → notices id w ≤ notices id w'
      → All (IsServed w) rs
      → All (IsServed w') rs
  grown w w' [] le all = tt
  grown w w' (r ∷ rs) le (h, all) = (λ e good. omega (arith, h e good), grown w w' rs le all)

  part_at-Serves : (i : ℕ) (rs : List Request) (w : World) → Serves env id w (part_at env i rs w).1
  unfolding part_at
  part_at-Serves i [] w = record { grows = omega arith; sound = λ s. s }
  part_at-Serves zero (r ∷ rs) w = part-Serves r.delivery r.phase w
  part_at-Serves (suc i) (r ∷ rs) w = part_at-Serves i rs w

  part_at-AreServed :
      (i : ℕ) (rs : List Request) (w : World)
      → IsSound id w
      → All (IsServed w) rs
      → All (IsServed (part_at env i rs w).1) (part_at env i rs w).0
  unfolding part_at
  part_at-AreServed i [] w s all = tt
  part_at-AreServed zero (r ∷ rs) w s (h, all) = (
    part-IsServed r.delivery r.phase w s h,
    grown w (part env r.delivery r.phase w).1 rs (part-Serves r.delivery r.phase w).grows all,
  )
  part_at-AreServed (suc i) (r ∷ rs) w s (h, all) =
      let le = (part_at-Serves i rs w).grows in
      ((grown w (part_at env i rs w).1 (r ∷ []) le (h, tt)).0, part_at-AreServed i rs w s all)

  interleave-AreServed :
      (is : List ℕ) (rs : List Request) (w : World)
      → IsSound id w
      → All (IsServed w) rs
      → All (IsServed (interleave env is rs w).1) (interleave env is rs w).0
  unfolding interleave
  interleave-AreServed [] rs w s all = all
  interleave-AreServed (i ∷ is) rs w s all =
      let (rs', w') = part_at env i rs w in
      interleave-AreServed is rs' w' ((part_at-Serves i rs w).sound s)
        (part_at-AreServed i rs w s all)

  new-AreServed : (rs : List Request) (w : World) → All IsNewRequest rs → All (IsServed w) rs
  new-AreServed [] w new = tt
  new-AreServed (r ∷ rs) w ((m, e), new) = (
    (λ own good. let bad : has_returned (checking m) ≡ true = rw e at good in cc),
    new-AreServed rs w new,
  )

  IsServed-at :
      (i : ℕ) (rs : List Request) (w : World) (r : Request)
      → All (IsServed w) rs
      → request_at i rs ≡ some r
      → IsServed w r
  IsServed-at i [] w r all e = cc
  IsServed-at zero (x ∷ rs) w r (h, all) e = let same : x ≡ r = cc in subst (IsServed w) same h
  IsServed-at (suc i) (x ∷ rs) w r (h, all) e = IsServed-at i rs w r all e

  -- Requests start deliveries at the same time. One of them, about a delivery that is not on its
  -- way and has no start notification, is done once the schedule has given it three turns, whatever
  -- the others do in between. If its transaction has returned, it or another one has won the start
  -- of the delivery, and only one, and the delivery has its one start notification.
  pub interleave_serves :
      (is : List ℕ) (rs : List Request) (w : World) (i : ℕ) (r : Request)
      → All IsNewRequest rs
      → request_at i rs ≡ some r
      → r.delivery.id ≡ id
      → 3 ≤ count (λ j. j == i) is
      → any (is_started_row id) w.deliveries ≡ false
      → notices id w ≡ 0
      → let (rs', w') = interleave env is rs w in
        (r' : Request) × (request_at i rs' ≡ some r')
        × ((c : Option Committed) × (r'.phase ≡ finished c)
            × (is_some c ≡ true → (total_wins id rs' ≡ 1) × (notices id w' ≡ 1)))
  interleave_serves is rs w i r new there about turns fresh silent =
      let h = interleave-steps env id i 0 is rs w (
        weaken env id i 3 (count (λ j. j == i) is + 0) rs
          (record {
            request = r;
            there = there;
            about = about;
            few = new_steps env id rs i r new there;
          })
          (omega arith)) in
      let (c, done) = finished_of env id h.request.phase h.few in
      let served =
        IsServed-at i (interleave env is rs w).0 (interleave env is rs w).1 h.request
          (interleave-AreServed is rs w (λ on_way. cc) (new-AreServed rs w new)) h.there h.about in
      let (balance, once) = interleave_wins_once env id is rs w new (omega arith) in
      (
        h.request,
        h.there,
        (
          c,
          done,
          λ returned. let some_one = served (rw done returned) in (omega arith, omega arith),
        ),
      )
