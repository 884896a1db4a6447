-- ===== src/Deliveries/Start/Commit.antt =====
-- The transaction of `start_delivery`: what it writes when it wins, and that it undoes everything
-- when it raises.
use javi.Prelude.{
  ℕ, ◌≡◌, refl, true, false, some, arith, inl, inr, sym, ◌⊎◌, subst, Bool-cases, ◌∙◌,
}
use javi.Model.{Delivery, EtaSource, Kind}
use javi.Env.{Env}
use javi.World.{World}
use javi.Exec.{Result, Error, ok, err, rolled_back}
use javi.Exec.Frame.{SameState, IsQuiet, quiet_rules, bind-eq-ok, rolled_back-eq-ok}
use javi.Quotas.Quiet.{reserve_send-IsQuiet}
use javi.Deliveries.{delivery_row, write_delivery, get_delivery, already_started}
use javi.Deliveries.Start.{
  Committed, lost, get_shop, get_or_create_token, create_notification, write_start, win_start,
  commit_row, commit_start,
}
use javi.Deliveries.Start.Wins.{
  HasStarted, win_start-HasStarted, get_delivery-rows, get_delivery_found,
}

module _ (env : Env) where
  get_shop-IsQuiet : (d : Delivery) → IsQuiet (get_shop d)
  unfolding get_shop
  get_shop-IsQuiet d = record { at = λ w. ground arith }

  get_delivery-IsQuiet : (id : ℕ) → IsQuiet (get_delivery id)
  unfolding get_delivery
  get_delivery-IsQuiet id = record { at = λ w. ground arith }

  get_or_create_token-IsQuiet : (id now : ℕ) → IsQuiet (get_or_create_token env id now)
  unfolding get_or_create_token
  get_or_create_token-IsQuiet id now = record { at = λ w. ground arith }

  create_notification-IsQuiet : (id : ℕ) (kind : Kind) → IsQuiet (create_notification env id kind)
  unfolding create_notification
  create_notification-IsQuiet id kind = record { at = λ w. record { outbox = refl; tasks = refl } }

  win_start-IsQuiet :
      (locked : Delivery) (eta_at : ℕ) (eta_source : EtaSource)
      → IsQuiet (win_start env locked eta_at eta_source)
  unfolding win_start write_start write_delivery
  win_start-IsQuiet locked eta_at eta_source =
      search
        (
          quiet_rules, get_shop-IsQuiet, reserve_send-IsQuiet, get_or_create_token-IsQuiet,
          create_notification-IsQuiet,
        )
        depth 12

  commit_start-IsQuiet :
      (id eta_at : ℕ) (eta_source : EtaSource) → IsQuiet (commit_start env id eta_at eta_source)
  unfolding commit_start commit_row
  commit_start-IsQuiet id eta_at eta_source =
      search (quiet_rules, get_delivery-IsQuiet, win_start-IsQuiet) depth 12

  rolled_back_db :
      {A : Type 0} (w : World) (s : Result A × World) (x : Error)
      → (rolled_back w s).0 ≡ err x
      → (rolled_back w s).1.db ≡ w.db
  rolled_back_db w (ok a, w') x h = cc
  rolled_back_db w (err e, w') x h = refl

  -- When the transaction of a start raises (a limit is used up, or the row is gone), nothing of it
  -- stays: the database is as it was, no message is sent and no task is queued.
  pub commit_start_error :
      (id eta_at : ℕ) (eta_source : EtaSource) (w : World) (x : Error)
      → (commit_start env id eta_at eta_source w).0 ≡ err x
      → SameState w (commit_start env id eta_at eta_source w).1
  commit_start_error id eta_at eta_source w x h = record {
    db = unfold commit_start in rolled_back_db w _ x h;
    effects = (commit_start-IsQuiet id eta_at eta_source).at w;
  }

-- Either the row had started already, which the caller is told, and nothing is written, or it had not
-- and now it has.
abbrev pub LostOrWon : Delivery → ℕ → EtaSource → World → Committed → World → Type 0
LostOrWon before eta_at eta_source w c w' =
    ((already_started w.db before ≡ true) × (c ≡ lost before) × (w' ≡ w))
    ⊎ ((already_started w.db before ≡ false) × HasStarted before eta_at eta_source w w' c)

module _ (env : Env) where
  commit_row_lem :
      (before : Delivery) (eta_at : ℕ) (eta_source : EtaSource) (w : World) (c : Committed)
      → (commit_row env before eta_at eta_source w).0 ≡ ok c
      → LostOrWon before eta_at eta_source w c (commit_row env before eta_at eta_source w).1
  unfolding commit_row
  commit_row_lem before eta_at eta_source w c h = elim (Bool-cases (already_started w.db before)) [
    | inl started ↦
        inl (started, (let e : ok (lost before) ≡ ok c = rw started at h in cc), rw started)
    | inr fresh ↦
        inr
          (fresh, rw fresh (win_start-HasStarted env before eta_at eta_source w c (rw fresh at h)))
  ]

  -- The transaction of a start, when it returns, found the row and either told that it had started
  -- already and wrote nothing, or put it on its way with the ETA asked for, logged one send and
  -- queued one notification; its tracking token is the one it had, or a new one beside the others,
  -- and every other table is as it was.
  pub commit_start_lem :
      (id eta_at : ℕ) (eta_source : EtaSource) (w : World) (c : Committed)
      → (commit_start env id eta_at eta_source w).0 ≡ ok c
      → (before : Delivery) × (delivery_row id w.db ≡ some before)
        × LostOrWon before eta_at eta_source w c (commit_start env id eta_at eta_source w).1
  unfolding commit_start
  commit_start_lem id eta_at eta_source w c h =
      let (inner, kept) = rolled_back-eq-ok w _ c h in
      let (before, e, h2, eq) =
        bind-eq-ok (λ d. commit_row env d eta_at eta_source) (get_delivery id w) c inner in
      let same = get_delivery-rows env id w in
      (
        before,
        get_delivery_found env id w before e,
        subst (λ (v : Result Committed × World). LostOrWon before eta_at eta_source w c v.1)
            (sym (kept ∙ eq))
            (subst
              (λ v.
                LostOrWon before eta_at eta_source v c
                  (commit_row env before eta_at eta_source (get_delivery id w).1).1)
              same (commit_row_lem before eta_at eta_source (get_delivery id w).1 c h2)),
      )
