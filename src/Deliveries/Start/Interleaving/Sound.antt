-- ===== src/Deliveries/Start/Interleaving/Sound.antt =====
-- While requests start deliveries at the same time: a delivery that is on its way has a start
-- notification, and a transaction that returns leaves one.
use javi.Prelude.{
  ℕ, ◌≤◌, ◌<◌, ◌≡◌, refl, ◌∙◌, ap, sym, subst, inl, inr, Bool, true, false, ◌&&◌, ◌==◌, Bool-cases,
  ==_iff, some, List, [], ◌∷◌, any, count, first, update_where, first-holds, arith,
}
use javi.Model.{Delivery, EtaSource, is_on_the_way}
use javi.Env.{Env}
use javi.World.{World}
use javi.Exec.{Result, ok, err}
use javi.Deliveries.{is_start_of, already_started, delivery_row}
use javi.Deliveries.Start.{Committed, with_start, commit_start}
use javi.Deliveries.Start.Wins.{HasStarted}
use javi.Deliveries.Start.Commit.{commit_start_lem, commit_start_error}
use javi.Deliveries.Start.Races.{notices, gain, commit-notices}

abbrev pub is_started_row : ℕ → Delivery → Bool
is_started_row id d = d.id == id && is_on_the_way d.status

-- A delivery that is on its way has a start notification.
abbrev pub IsSound : ℕ → World → Type 0
IsSound id w = any (is_started_row id) w.deliveries ≡ true → 0 < notices id w

first-any :
    {A : Type 0} (p q : A → Bool) (xs : List A) (x : A)
    → first p xs ≡ some x
    → q x ≡ true
    → any q xs ≡ true
unfolding first any
first-any p q [] x h good = cc
first-any p q (y ∷ ys) x h good = ground (arith, first-any p q ys x, good, h)

any-count-pos : {A : Type 0} (p : A → Bool) (xs : List A) → any p xs ≡ true → 0 < count p xs
unfolding any count
any-count-pos p [] h = cc
any-count-pos p (x ∷ xs) h = ground (arith, any-count-pos p xs)

started_rows_kept :
    (id b now eta_at : ℕ) (eta_source : EtaSource) (rows : List Delivery)
    → (b == id) ≡ false
    → any
        (is_started_row id)
        (update_where (λ (d : Delivery). d.id == b) (with_start now eta_at eta_source) rows)
      ≡ any (is_started_row id) rows
unfolding any update_where
started_rows_kept id b now eta_at eta_source [] h = refl
started_rows_kept id b now eta_at eta_source (d ∷ rows) h =
    ground (arith, started_rows_kept id b now eta_at eta_source rows h, h)

module _ (env : Env) (id : ℕ) where
  -- One part of any request: notifications stay, and what is on its way has one.
  pub record Serves (w w' : World) : Type 0 where
    pub grows : notices id w ≤ notices id w'
    pub sound : IsSound id w → IsSound id w'

  won-notices :
      (b eta_at : ℕ) (eta_source : EtaSource) (before : Delivery) (w : World) (c : Committed)
      → (commit_start env b eta_at eta_source w).0 ≡ ok c
      → HasStarted before eta_at eta_source w (commit_start env b eta_at eta_source w).1 c
      → (before.id == id) ≡ true
      → 0 < notices id (commit_start env b eta_at eta_source w).1
  won-notices b eta_at eta_source before w c h win own =
      let (grows, fresh) = commit-notices env b eta_at eta_source w c h id in
      let one : gain id c ≡ 1 = rw (win.result, own) refl in omega arith

  pub committed-Serves :
      (b eta_at : ℕ) (eta_source : EtaSource) (w : World) (r : Result Committed)
      → (commit_start env b eta_at eta_source w).0 ≡ r
      → Serves w (commit_start env b eta_at eta_source w).1
  committed-Serves b eta_at eta_source w (err e) h =
      let same = commit_start_error env b eta_at eta_source w e h in
      record { grows = rw same.db (omega arith); sound = λ s. rw same.db s }
  committed-Serves b eta_at eta_source w (ok c) h =
      let (before, row, outcome) = commit_start_lem env b eta_at eta_source w c h in
      let (grows, fresh) = commit-notices env b eta_at eta_source w c h id in
      record {
        grows = omega arith;
        sound = λ s on_way. elim outcome [
          | inl (started, lose, same) ↦ rw same (s (rw same at on_way))
          | inr (started, win) ↦ elim (Bool-cases (before.id == id)) [
            | inl own ↦ won-notices b eta_at eta_source before w c h win own
            | inr other ↦
                let kept =
                  started_rows_kept id before.id win.now eta_at eta_source w.deliveries other in
                let was =
                  s (sym kept ∙ ap (any (is_started_row id)) (sym win.deliveries) ∙ on_way) in
                omega arith
          ]
        ];
      }

  -- A transaction that returns finds the delivery started, or starts it.
  pub committed_served :
      (eta_at : ℕ) (eta_source : EtaSource) (w : World) (c : Committed)
      → IsSound id w
      → (commit_start env id eta_at eta_source w).0 ≡ ok c
      → 0 < notices id (commit_start env id eta_at eta_source w).1
  unfolding already_started delivery_row
  committed_served eta_at eta_source w c s h =
      let (before, row, outcome) = commit_start_lem env id eta_at eta_source w c h in
      let own = first-holds _ w.deliveries before row in
      elim outcome [
        | inl (started, lose, same) ↦ rw same (elim (Bool-cases (is_on_the_way before.status)) [
          | inl on_way ↦
              s (first-any _ (is_started_row id) w.deliveries before row (rw (own, on_way) refl))
          | inr waiting ↦
              let e = (==_iff before.id id).0 own in
              any-count-pos (is_start_of id) w.notifications
                (subst (λ k. any (is_start_of k) w.notifications ≡ true) e (rw waiting at started))
        ])
        | inr (started, win) ↦ won-notices id eta_at eta_source before w c h win own
      ]
