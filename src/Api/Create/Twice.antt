-- ===== src/Api/Create/Twice.antt =====
-- Two requests with one Idempotency-Key.
use javi.Prelude.{
  ℕ, suc, String, ◌≡◌, refl, ◌∙◌, sym, ap, true, false, not, none, some, List, [], ◌∷◌, ◌==◌,
  ==_refl, eq_refl, first, select, update_where, arith, truthy, subst,
}
use javi.Model.{Shop, Delivery, IdempotencyKey}
use javi.Env.{Env}
use javi.World.{World}
use javi.Exec.{ok, pure, continue}
use javi.Exec.Frame.{continue-of_ok}
use javi.Deliveries.{delivery_row, write_delivery}
use javi.Deliveries.Edit.{Edit, new_delivery, create_delivery}
use javi.Api.Create.{
  key_row, is_key, delivery_of, is_api, as_api, mark_api, add_key, delete_row, lose, store_key,
  save_new, known, fresh, begin_with, begin_create, finish_create, create_once,
}

-- A new delivery: its number is the next one, it has a row, and the keys and the other rows are as
-- they were.
record IsNew (w : World) (d : Delivery) (w' : World) : Type 0 where
  number : d.id ≡ w.next_id
  next : w'.next_id ≡ suc w.next_id
  row : delivery_row d.id w'.db ≡ some d
  keys : w'.idempotency_keys ≡ w.idempotency_keys
  others : (k : ℕ) → (k == d.id) ≡ false → delivery_row k w'.db ≡ delivery_row k w.db

as_api_other :
    (id k : ℕ) (rows : List Delivery)
    → (k == id) ≡ false
    → first (λ (d : Delivery). d.id == k) (update_where (λ (d : Delivery). d.id == id) as_api rows)
      ≡ first (λ (d : Delivery). d.id == k) rows
unfolding first update_where as_api
as_api_other id k [] h = refl
as_api_other id k (r ∷ rows) h = ground (arith, as_api_other id k rows h)

module _ (env : Env) where
  save_new_lem :
      (shop : Shop) (edit : Edit) (w : World)
      → let run = save_new env shop edit w in (d : Delivery) × (run.0 ≡ ok d) × IsNew w d run.1
  unfolding save_new create_delivery mark_api is_api as_api new_delivery write_delivery delivery_row
      first update_where
  save_new_lem shop edit w = (
    _,
    refl,
    record {
      number = refl;
      next = refl;
      row = rw (==_refl w.next_id) (rw (==_refl w.next_id) refl);
      keys = refl;
      others = λ k h. rw (==_refl w.next_id) (
          let head : (w.next_id == k) ≡ false = ground arith in
          rw head (as_api_other w.next_id k w.deliveries h));
    },
  )

key_row_same :
    (shop : Shop) (key : String) (w w' : World)
    → w'.idempotency_keys ≡ w.idempotency_keys
    → key_row shop key w'.db ≡ key_row shop key w.db
unfolding key_row
key_row_same shop key w w' e = ap (first (is_key shop.id key)) e

added_key :
    (shop : Shop) (key : String) (d : Delivery) (w : World)
    → key_row shop key (add_key shop key d w).db
      ≡ some (record { shop_id = shop.id; key = key; delivery_id = d.id })
unfolding key_row add_key first
added_key shop key d w = rw (==_refl shop.id, eq_refl key) refl

kept_by_key :
    (shop : Shop) (key : String) (d : Delivery) (w : World)
    → delivery_row d.id w.db ≡ some d
    → delivery_row d.id (add_key shop key d w).db ≡ some d
unfolding add_key delivery_row
kept_by_key shop key d w h = h

deleted_row :
    (id : ℕ) (rows : List Delivery)
    → first (λ (d : Delivery). d.id == id) (select (λ (d : Delivery). not (d.id == id)) rows) ≡ none
unfolding first select
deleted_row id [] = refl
deleted_row id (r ∷ rows) = ground (arith, deleted_row id rows)

kept_row :
    (id k : ℕ) (rows : List Delivery)
    → (k == id) ≡ false
    → first (λ (d : Delivery). d.id == k) (select (λ (d : Delivery). not (d.id == id)) rows)
      ≡ first (λ (d : Delivery). d.id == k) rows
unfolding first select
kept_row id k [] h = refl
kept_row id k (r ∷ rows) h = ground (arith, kept_row id k rows h)

module _ (shop : Shop) (key : String) where
  -- The first one to insert the key keeps its delivery.
  finish_first :
      (x : Delivery) (w : World)
      → truthy key ≡ true
      → key_row shop key w.db ≡ none
      → finish_create shop key (fresh x) w ≡ (ok x, add_key shop key x w)
  unfolding finish_create store_key
  finish_first x w given free = rw given (rw free refl)

  -- The second one answers the delivery of the first, and deletes its own.
  finish_second :
      (x y : Delivery) (w : World)
      → truthy key ≡ true
      → key_row shop key w.db ≡ some (record { shop_id = shop.id; key = key; delivery_id = x.id })
      → delivery_row x.id w.db ≡ some x
      → finish_create shop key (fresh y) w ≡ (ok x, delete_row y.id w)
  unfolding finish_create store_key lose delivery_of
  finish_second x y w given taken row = rw given (rw taken (rw row refl))

  -- `winner` inserts its key first.
  pub record IsSettled (winner loser : Delivery) (w : World) : Type 0 where
    first_answer : finish_create shop key (fresh winner) w ≡ (ok winner, add_key shop key winner w)
    second_answer :
        finish_create shop key (fresh loser) (add_key shop key winner w)
        ≡ (ok winner, delete_row loser.id (add_key shop key winner w))
    winner_row :
        delivery_row winner.id (delete_row loser.id (add_key shop key winner w)).db ≡ some winner
    loser_row : delivery_row loser.id (delete_row loser.id (add_key shop key winner w)).db ≡ none

  settle :
      (x y : Delivery) (w : World)
      → truthy key ≡ true
      → key_row shop key w.db ≡ none
      → delivery_row x.id w.db ≡ some x
      → (x.id == y.id) ≡ false
      → IsSettled x y w
  unfolding delivery_row add_key delete_row
  settle x y w given free row differ = record {
    first_answer = finish_first x w given free;
    second_answer = finish_second x y (add_key shop key x w) given (added_key shop key x w) row;
    winner_row = kept_row y.id x.id w.deliveries differ ∙ row;
    loser_row = deleted_row y.id w.deliveries;
  }

module _ (env : Env) (shop : Shop) (key : String) where
  begin_lem :
      (edit : Edit) (w : World)
      → truthy key ≡ true
      → key_row shop key w.db ≡ none
      → let run = begin_create env shop key edit w in
        (d : Delivery) × (run.0 ≡ ok (fresh d)) × IsNew w d run.1
  unfolding begin_create begin_with delivery_of
  begin_lem edit w given free =
      let (d, e, is_new) = save_new_lem env shop edit w in
      let run = continue-of_ok (λ (d : Delivery). pure (fresh d)) (save_new env shop edit w) d e in
      rw given (rw free (d, ap (λ s. s.0) run, subst (IsNew w d) (sym (ap (λ s. s.1) run)) is_new))

  begin_again :
      (edit : Edit) (w : World) (k : IdempotencyKey) (d : Delivery)
      → truthy key ≡ true
      → key_row shop key w.db ≡ some k
      → delivery_row k.delivery_id w.db ≡ some d
      → begin_create env shop key edit w ≡ (ok (known d), w)
  unfolding begin_create begin_with delivery_of
  begin_again edit w k d given taken row = rw given (rw taken (rw row refl))

  once_lem :
      (edit : Edit) (w : World)
      → truthy key ≡ true
      → key_row shop key w.db ≡ none
      → let w1 = (create_once env shop key edit w).1 in
        (d : Delivery) × ((create_once env shop key edit w).0 ≡ ok d)
        × (key_row shop key w1.db
            ≡ some (record { shop_id = shop.id; key = key; delivery_id = d.id }))
        × (delivery_row d.id w1.db ≡ some d)
  unfolding create_once
  once_lem edit w given free =
      let begun = begin_create env shop key edit w in
      let (d, e, is_new) = begin_lem edit w given free in
      let w1 = begun.1 in
      let still_free = key_row_same shop key w w1 is_new.keys ∙ free in
      let run : create_once env shop key edit w ≡ (ok d, add_key shop key d w1) =
        continue-of_ok (finish_create shop key) begun (fresh d) e
        ∙ finish_first shop key d w1 given still_free in
      rw run (d, refl, added_key shop key d w1, kept_by_key shop key d w1 is_new.row)

  -- A request whose fields are valid and whose key has a delivery already is answered this delivery,
  -- whatever the fields, and changes nothing.
  pub create_once_again :
      (edit again : Edit) (w : World)
      → truthy key ≡ true
      → key_row shop key w.db ≡ none
      → let w1 = (create_once env shop key edit w).1 in
        (d : Delivery) × ((create_once env shop key edit w).0 ≡ ok d)
        × (create_once env shop key again w1 ≡ (ok d, w1))
  unfolding create_once finish_create
  create_once_again edit again w given free =
      let w1 = (create_once env shop key edit w).1 in
      let (d, e, taken, row) = once_lem edit w given free in
      (d, e, ap (continue (finish_create shop key)) (begin_again again w1 _ d given taken row))

  -- Two requests with one key that both find it free: whichever inserts the key first, both are
  -- answered its delivery, which is in the table, and the delivery of the other is not.
  pub create_race :
      (edit_a edit_b : Edit) (w : World)
      → truthy key ≡ true
      → key_row shop key w.db ≡ none
      → let a_begun = begin_create env shop key edit_a w in
        let b_begun = begin_create env shop key edit_b a_begun.1 in
        (a : Delivery) × (b : Delivery) × (a_begun.0 ≡ ok (fresh a))
        × (b_begun.0 ≡ ok (fresh b))
        × IsSettled shop key a b b_begun.1
        × IsSettled shop key b a b_begun.1
  create_race edit_a edit_b w given free =
      let w1 = (begin_create env shop key edit_a w).1 in
      let (a, a_runs, a_new) = begin_lem edit_a w given free in
      let free1 = key_row_same shop key w w1 a_new.keys ∙ free in
      let (b, b_runs, b_new) = begin_lem edit_b w1 given free1 in
      let w2 = (begin_create env shop key edit_b w1).1 in
      let free2 = key_row_same shop key w1 w2 b_new.keys ∙ free1 in
      let a_number = a_new.number in
      let a_next = a_new.next in
      let b_number = b_new.number in
      let differ : (a.id == b.id) ≡ false = ground arith in
      let differ' : (b.id == a.id) ≡ false = ground arith in
      let a_row = b_new.others a.id differ ∙ a_new.row in
      (
        a,
        b,
        a_runs,
        b_runs,
        settle shop key a b w2 given free2 a_row differ,
        settle shop key b a w2 given free2 b_new.row differ',
      )
