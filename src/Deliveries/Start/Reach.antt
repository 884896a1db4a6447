-- ===== src/Deliveries/Start/Reach.antt =====
-- Which deliveries an operation reaches: the rows of the others are as they were.
use javi.Prelude.{
  ℕ, ◌≡◌, refl, sym, ◌∙◌, ap, subst, false, Option, some, List, [], ◌∷◌, ◌==◌, first, update_where,
  arith, Bool-cases, inl, inr, ◌⊎◌,
}
use javi.Model.{Delivery, EtaSource}
use javi.Env.{Env, MessageText}
use javi.World.{World, Db}
use javi.Exec.{Result, Error, ok, err}
use javi.Exec.Keeps.{Keeps, IsPreorder, continue_keeps}
use javi.Deliveries.{delivery_row}
use javi.Deliveries.Sending.{
  on_the_way_text, send_and_record, sent_time, verdict, write_notification, record_attempts,
}
use javi.Deliveries.Start.{
  Checked, already, needs_manual_eta, ready, Committed, lost, won, with_start, check_start,
  after_check, commit_start, finish_start, start_delivery,
}
use javi.Deliveries.Start.Commit.{commit_start_lem, commit_start_error}
use javi.Deliveries.Start.Races.{check_start-SameDb, finish_start-db}

-- Each delivery but one is as it was.
abbrev pub SameOthers : ℕ → World → World → Type 0
SameOthers id w w' = (k : ℕ) → (k == id) ≡ false → delivery_row k w'.db ≡ delivery_row k w.db

pub SameOthers-preorder : (id : ℕ) → IsPreorder (SameOthers id)
SameOthers-preorder id = record {
  here = λ w k other. refl;
  then_on = λ a b c p q k other. q k other ∙ p k other;
}

abbrev rows_first : ℕ → List Delivery → Option Delivery
rows_first k rows = first (λ (d : Delivery). d.id == k) rows

pub update-others :
    (f : Delivery → Delivery) (keeps : (d : Delivery) → (f d).id ≡ d.id) (id k : ℕ)
    (rows : List Delivery)
    → (k == id) ≡ false
    → rows_first k (update_where (λ (d : Delivery). d.id == id) f rows) ≡ rows_first k rows
unfolding first update_where
update-others f keeps id k [] h = refl
update-others f keeps id k (d ∷ rows) h = ground (arith, keeps d, update-others f keeps id k rows h)

pub deliveries-SameOthers :
    (id : ℕ) (w w' : World) → w'.deliveries ≡ w.deliveries → SameOthers id w w'
unfolding delivery_row
deliveries-SameOthers id w w' e k other = ap (rows_first k) e

found_id : (id : ℕ) (rows : List Delivery) (d : Delivery) → rows_first id rows ≡ some d → d.id ≡ id
unfolding first
found_id id [] d h = cc
found_id id (r ∷ rows) d h = ground (arith, found_id id rows d)

Result-cases : {A : Type 0} (r : Result A) → ((a : A) × (r ≡ ok a)) ⊎ ((e : Error) × (r ≡ err e))
Result-cases (ok a) = inl (a, refl)
Result-cases (err e) = inr (e, refl)

module _ (env : Env) where
  commit_start-SameOthers :
      (id eta_at : ℕ) (eta_source : EtaSource) (w : World)
      → SameOthers id w (commit_start env id eta_at eta_source w).1
  unfolding delivery_row
  commit_start-SameOthers id eta_at eta_source w =
      let after = (commit_start env id eta_at eta_source w).1 in
      elim (Result-cases (commit_start env id eta_at eta_source w).0) [
        | inl (c, e) ↦
            let (before, row, outcome) = commit_start_lem env id eta_at eta_source w c e in
            elim outcome [
              | inl (started, lose, same) ↦
                  deliveries-SameOthers id w after (ap (λ (v : World). v.deliveries) same)
              | inr (fresh, win) ↦
                  let own = found_id id w.deliveries before row in
                  λ k other.
                    ap (rows_first k) win.deliveries
                    ∙ update-others (with_start win.now eta_at eta_source) (λ d. refl) before.id k
                        w.deliveries (subst (λ i. (k == i) ≡ false) (sym own) other)
            ]
        | inr (x, e) ↦
            deliveries-SameOthers id w after (
              ap (λ (db : Db). db.deliveries)
                (commit_start_error env id eta_at eta_source w x e).db)
      ]

  pub send_and_record-deliveries :
      (n : ℕ) (d : Delivery) (text : MessageText) (w : World)
      → (send_and_record env n d text w).1.deliveries ≡ w.deliveries
  unfolding send_and_record sent_time write_notification record_attempts
  send_and_record-deliveries n d text w =
      elim (Bool-cases (verdict (env.send_text w.calls d.recipient_phone text)).succeeded) [
        | inl good ↦ rw good refl
        | inr bad ↦ rw bad refl
      ]

  pub finish_start-deliveries :
      (d : Delivery) (eta_at : ℕ) (c : Committed) (w : World)
      → (finish_start env d eta_at c w).1.deliveries ≡ w.deliveries
  unfolding finish_start
  finish_start-deliveries d eta_at (lost locked) w = refl
  finish_start-deliveries d eta_at (won locked shop token n) w =
      let text = on_the_way_text shop locked token in
      ap (λ (db : Db). db.deliveries) (finish_start-db env d eta_at locked shop token n w)
      ∙ send_and_record-deliveries n locked text w

  after_check-SameOthers :
      (d : Delivery) (c : Checked) → Keeps (SameOthers d.id) (after_check env d c)
  unfolding after_check
  after_check-SameOthers d already = record { at = λ w k other. refl }
  after_check-SameOthers d needs_manual_eta = record { at = λ w k other. refl }
  after_check-SameOthers d (ready eta_at eta_source) = record {
    at = λ w.
        continue_keeps (SameOthers-preorder d.id) (finish_start env d eta_at) w
          (commit_start env d.id eta_at eta_source w)
          (λ c. record {
            at = λ v.
                deliveries-SameOthers d.id v (finish_start env d eta_at c v).1
                  (finish_start-deliveries d eta_at c v);
          })
          (commit_start-SameOthers d.id eta_at eta_source w);
  }

  -- A start writes to no delivery but its own.
  pub start_delivery-SameOthers :
      (d : Delivery) (manual_eta : Option ℕ)
      → Keeps (SameOthers d.id) (start_delivery env d manual_eta)
  unfolding start_delivery
  start_delivery-SameOthers d manual_eta = record {
    at = λ w.
        continue_keeps (SameOthers-preorder d.id) (after_check env d) w
          (check_start env d manual_eta w) (after_check-SameOthers d)
          (deliveries-SameOthers d.id w (check_start env d manual_eta w).1
            (ap (λ (db : Db). db.deliveries) ((check_start-SameDb env d manual_eta).at w)));
  }
