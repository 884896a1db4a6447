-- ===== src/Deliveries/Start/Races.antt =====
-- Several requests that start deliveries, in any interleaving of their three parts: at most one of
-- those for a delivery wins.
use javi.Prelude.{
  String, any-count, ℕ, ◌+◌, ◌≡◌, inl, inr, Bool-cases, ==_iff, subst, refl, ap, ◌∙◌, true, false,
  Option, none, some, List, ◌==◌, arith, count, any, if◌then◌else◌, ◌<◌,
}
use javi.Model.{Shop, Delivery, EtaSource, Notification}
use javi.Env.{Env, MessageText, SendResult}
use javi.Timewindow.{rating_send_time}
use javi.World.{World, Db, Event, no_extra, send_rating}
use javi.Exec.{ok, pure, ◌>>◌}
use javi.Exec.Keeps.{Keeps, continue_keeps, SameDb, SameDb-preorder, keeps_rules}
use javi.Runtime.{enqueue}
use javi.Webhooks.Quiet.{enqueue-SameDb, emit-SameDb}
use javi.Webhooks.{emit_delivery_event}
use javi.Deliveries.{is_start_of, already_started}
use javi.Deliveries.Sending.{
  compute_eta, on_the_way_text, send_and_record, schedule_escalation_if_pending,
}
use javi.Deliveries.Sending.Counts.{send_and_record-count}
use javi.Deliveries.Start.{
  Committed, lost, won, sync_start_fields, started_result, get_shop, check_start, computed_check,
  commit_start, finish_start,
}
use javi.Deliveries.Start.Commit.{LostOrWon, commit_start_lem}

module _ (env : Env) where
  pub get_shop-SameDb : (d : Delivery) → Keeps SameDb (get_shop d)
  unfolding get_shop
  get_shop-SameDb d = record { at = λ w. ground arith }

  pub compute_eta-SameDb : (shop : Shop) (d : Delivery) → Keeps SameDb (compute_eta env shop d)
  unfolding compute_eta
  compute_eta-SameDb shop d = record { at = λ w. ground arith }

  schedule-SameDb : (d n : ℕ) → Keeps SameDb (schedule_escalation_if_pending env d n)
  unfolding schedule_escalation_if_pending
  schedule-SameDb d n = record { at = λ w. ground arith }

  pub check_start-SameDb : (d : Delivery) (m : Option ℕ) → Keeps SameDb (check_start env d m)
  unfolding check_start computed_check
  check_start-SameDb d none =
      search (keeps_rules, SameDb-preorder, get_shop-SameDb, compute_eta-SameDb) depth 10
  check_start-SameDb d (some t) = search (keeps_rules, SameDb-preorder) depth 10

-- How many start notifications a delivery has.
abbrev pub notices : ℕ → World → ℕ
notices id w = count (is_start_of id) w.notifications

send-notices :
    (env : Env) (n : ℕ) (d : Delivery) (text : MessageText) (w : World) (id : ℕ)
    → notices id (send_and_record env n d text w).1 ≡ notices id w
send-notices env n d text w id =
    send_and_record-count env (is_start_of id) n d text w (λ r status channel mid at. refl)

-- Part three writes what its message writes, and nothing else.
pub finish_start-db :
    (env : Env) (d : Delivery) (eta_at : ℕ) (locked : Delivery) (shop : Shop) (token : String)
    (n : ℕ) (w : World)
    → (finish_start env d eta_at (won locked shop token n) w).1.db
      ≡ (send_and_record env n locked (on_the_way_text shop locked token) w).1.db
unfolding finish_start
finish_start-db env d eta_at locked shop token n w =
    let sent = send_and_record env n locked (on_the_way_text shop locked token) w in
    continue_keeps SameDb-preorder
      (λ (r : SendResult). do
        enqueue env (send_rating d.id (rating_send_time env eta_at))
        schedule_escalation_if_pending env locked.id n
        emit_delivery_event env locked Event.delivery_started no_extra
        pure (sync_start_fields d locked, started_result r.succeeded eta_at))
      sent.1 sent
      (λ r.
        search (keeps_rules, SameDb-preorder, enqueue-SameDb, schedule-SameDb, emit-SameDb) depth
          12)
      refl

pub finish-notices :
    (env : Env) (d : Delivery) (eta_at : ℕ) (c : Committed) (w : World) (id : ℕ)
    → notices id (finish_start env d eta_at c w).1 ≡ notices id w
unfolding finish_start
finish-notices env d eta_at (lost locked) w id = refl
finish-notices env d eta_at (won locked shop token n) w id =
    ap (λ (db : Db). count (is_start_of id) db.notifications)
      (finish_start-db env d eta_at locked shop token n w)
    ∙ send-notices env n locked (on_the_way_text shop locked token) w id

-- One for the request that wins, and none otherwise.
abbrev pub gain : ℕ → Committed → ℕ
gain id (lost locked) = 0
gain id (won locked shop token n) = if locked.id == id then 1 else 0

is_start_of_own :
    (b id : ℕ) (n : Notification) → is_start_of b n ≡ true → is_start_of id n ≡ (b == id)
is_start_of_own b id n h = ground arith

not_started-fresh :
    (w : World) (d : Delivery)
    → already_started w.db d ≡ false
    → any (is_start_of d.id) w.notifications ≡ false
unfolding already_started
not_started-fresh w d h = ground arith

fresh-zero :
    (b id : ℕ) (ns : List Notification)
    → any (is_start_of b) ns ≡ false
    → (b == id) ≡ true
    → count (is_start_of id) ns ≡ 0
fresh-zero b id ns h e =
    any-count (is_start_of id) ns
      (subst (λ k. any (is_start_of k) ns ≡ false) ((==_iff b id).0 e) h)

notices_by :
    (before : Delivery) (eta_at : ℕ) (eta_source : EtaSource) (w w' : World) (c : Committed)
    → LostOrWon before eta_at eta_source w c w'
    → (id : ℕ) → (notices id w' ≡ notices id w + gain id c) × (0 < gain id c → notices id w ≡ 0)
unfolding count
notices_by before eta_at eta_source w w' c (inl (started, lose, same)) id =
    rw (lose, same) (omega arith, λ p. omega arith)
notices_by before eta_at eta_source w w' c (inr (fresh, win)) id =
    elim (Bool-cases (before.id == id)) [
      | inl own ↦
          rw
            (
              win.result,
              win.notifications,
              is_start_of_own before.id id win.notice win.notice_of,
              own,
            )
            (
              omega arith,
              λ _. fresh-zero before.id id w.notifications (not_started-fresh w before fresh) own,
            )
      | inr other ↦
          rw
            (
              win.result,
              win.notifications,
              is_start_of_own before.id id win.notice win.notice_of,
              other,
            )
            (omega arith, λ p. omega arith)
    ]

-- A win adds one start notification to its own delivery, which had none.
pub commit-notices :
    (env : Env) (d eta_at : ℕ) (eta_source : EtaSource) (w : World) (c : Committed)
    → (commit_start env d eta_at eta_source w).0 ≡ ok c
    → (id : ℕ)
    → (notices id (commit_start env d eta_at eta_source w).1 ≡ notices id w + gain id c)
      × (0 < gain id c → notices id w ≡ 0)
commit-notices env d eta_at eta_source w c h =
    let (before, row, outcome) = commit_start_lem env d eta_at eta_source w c h in
    notices_by before eta_at eta_source w _ c outcome
