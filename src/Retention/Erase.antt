-- ===== src/Retention/Erase.antt =====
-- The first loop of the purge: in the end it has erased the due deliveries and nothing else, and
-- has counted what a dry run counts.
use javi.Prelude.{
  ◌==◌, ℕ, ◌+◌, ◌<◌, ◌≡◌, refl, ap, ◌∙◌, Bool, false, not, none, some, map, any, count, select,
  arith, Bool-cases, inl, inr,
}
use javi.Model.{Delivery, TrackingToken}
use javi.World.{World, Db}
use javi.Retention.{
  PurgeResult, is_due, is_empty, batch, update_batch, erased, is_token_of, erase_batch,
  purge_deliveries,
}
use javi.Retention.Batches.{
  none_due, change_if, count-update_batch, map-update_batch, map-none, length-batch,
  is_empty-length, any-update_batch, select-none, select_all, count_none, count-split,
  select-select,
}
use javi.Retention.Loops.{Works-by, IsBody}

-- An erased delivery is not due again.
erased-done : (cutoff now : ℕ) (d : Delivery) → is_due cutoff (erased now d) ≡ false
unfolding is_due
erased-done cutoff now d = refl

module _ (size cutoff now : ℕ) (batches : 0 < size) where
  -- The tables after the first loop, and its counts.
  abbrev pub token_due : Db → TrackingToken → Bool
  token_due db = is_token_of (select (is_due cutoff) db.deliveries)

  abbrev pub erased_db : Db → Db
  erased_db db = record db {
    deliveries = map (change_if (is_due cutoff) (erased now)) db.deliveries;
    tokens = select (λ t. not (token_due db t)) db.tokens;
  }

  abbrev pub erased_result : Db → PurgeResult → PurgeResult
  erased_result db r = record r {
    deliveries = r.deliveries + count (is_due cutoff) db.deliveries;
    tracking_tokens = r.tracking_tokens + count (token_due db) db.tokens;
  }

  nothing_to_erase : (db : Db) → count (is_due cutoff) db.deliveries ≡ 0 → erased_db db ≡ db
  unfolding any
  nothing_to_erase db h =
      rw
        (
          map-none (is_due cutoff) (erased now) db.deliveries h,
          select-none (is_due cutoff) db.deliveries h,
        )
        (ap (λ t. record db { tokens = t }) (select_all db.tokens))

  nothing_to_count :
      (db : Db) (r : PurgeResult) → count (is_due cutoff) db.deliveries ≡ 0 → erased_result db r ≡ r
  unfolding any
  nothing_to_count db r h =
      rw (h, select-none (is_due cutoff) db.deliveries h)
        (let zero_tokens = count_none db.tokens in ground arith)

  erase_then_rest :
      (r : PurgeResult) (w : World)
      → erased_db (erase_batch size cutoff now r w).1.db ≡ erased_db w.db
  unfolding erase_batch
  erase_then_rest r w =
      let rows = batch size (is_due cutoff) w.deliveries in
      let changed = update_batch size (is_due cutoff) (erased now) w.deliveries in
      let tokens =
        select-select (λ t. not (is_token_of (select (is_due cutoff) changed) t))
          (λ t. not (is_token_of rows t)) (λ t. not (token_due w.db t)) w.tokens
          (λ t. ground (
            arith,
            any-update_batch size (is_due cutoff) (λ (d : Delivery). d.id == t.delivery_id)
                (erased now) (erased-done cutoff now) w.deliveries,
          )) in
      ap
        (λ ds. record w.db {
          deliveries = ds;
          tokens =
              select (λ t. not (is_token_of (select (is_due cutoff) changed) t))
                (select (λ t. not (is_token_of rows t)) w.tokens);
        })
        (map-update_batch size (is_due cutoff) (erased now) (erased-done cutoff now) w.deliveries)
      ∙ ap
          (λ ts. record w.db {
            deliveries = map (change_if (is_due cutoff) (erased now)) w.deliveries;
            tokens = ts;
          })
          tokens

  erase_then_count :
      (r : PurgeResult) (w : World)
      → let (r', w') = erase_batch size cutoff now r w in
        erased_result w'.db r' ≡ erased_result w.db r
  unfolding erase_batch
  erase_then_count r w =
      let rows = batch size (is_due cutoff) w.deliveries in
      let changed = update_batch size (is_due cutoff) (erased now) w.deliveries in
      let tokens =
        count-split (is_token_of (select (is_due cutoff) changed)) (is_token_of rows)
          (token_due w.db) w.tokens
          (λ t.
            any-update_batch size (is_due cutoff) (λ (d : Delivery). d.id == t.delivery_id)
              (erased now) (erased-done cutoff now) w.deliveries) in
      let left =
        count-update_batch size (is_due cutoff) (erased now) (erased-done cutoff now)
          w.deliveries in
      let done = length-batch size (is_due cutoff) w.deliveries in
      ap
        (λ n. record r {
          deliveries = n;
          tracking_tokens =
              (r.tracking_tokens + count (is_token_of rows) w.tokens)
              + count (is_token_of (select (is_due cutoff) changed))
                  (select (λ t. not (is_token_of rows t)) w.tokens);
        })
        (omega (arith, left, done))
      ∙ ap
          (λ n. record r {
            deliveries = r.deliveries + count (is_due cutoff) w.deliveries;
            tracking_tokens = n;
          })
          (omega (arith, tokens))

  pub deliveries-IsBody :
      IsBody
        (λ db. count (is_due cutoff) db.deliveries)
        erased_db
        erased_result
        (purge_deliveries size cutoff now)
  unfolding purge_deliveries
  deliveries-IsBody = record {
    stops = λ r w stop. elim (Bool-cases (is_empty (batch size (is_due cutoff) w.deliveries))) [
      | inl e ↦
          let none_left = none_due size (is_due cutoff) w.deliveries batches e in
          (nothing_to_erase w.db none_left, nothing_to_count w.db r none_left)
      | inr e ↦ let bad : some (erase_batch size cutoff now r w) ≡ none = rw e at stop in cc
    ];
    works = λ r w next go. elim (Bool-cases (is_empty (batch size (is_due cutoff) w.deliveries))) [
      | inl e ↦ let bad : none ≡ some next = rw e at go in cc
      | inr e ↦
          let left =
            count-update_batch size (is_due cutoff) (erased now) (erased-done cutoff now)
              w.deliveries in
          let some_done = is_empty-length (batch size (is_due cutoff) w.deliveries) e in
          let done = length-batch size (is_due cutoff) w.deliveries in
          Works-by (λ db. count (is_due cutoff) db.deliveries) erased_db erased_result r w
            (erase_batch size cutoff now r w) next (rw e at go)
            (
              (unfold erase_batch in omega (arith, left, some_done, done)),
              erase_then_rest r w,
              erase_then_count r w,
              (unfold erase_batch in refl),
            )
    ];
  }
