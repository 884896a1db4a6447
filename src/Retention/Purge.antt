-- ===== src/Retention/Purge.antt =====
-- The loops of the purge over the send log and over the geocodes.
use javi.Prelude.{
  ℕ, ◌+◌, ◌<◌, ◌≡◌, refl, ap, false, not, none, some, map, count, select, arith, Bool-cases, inl,
  inr,
}
use javi.Model.{OutboundSend}
use javi.World.{Db}
use javi.Retention.{
  PurgeResult, is_outbound_due, is_geocode_due, is_empty, batch, without_phone, purge_sends,
  purge_geocodes,
}
use javi.Retention.Batches.{
  none_due, change_if, count-update_batch, map-update_batch, map-none, length-batch,
  count-delete_batch, select-delete_batch, is_empty-length, select-kept,
}
use javi.Retention.Loops.{Works-by, IsBody}

without_phone-done :
    (cutoff : ℕ) (s : OutboundSend) → is_outbound_due cutoff (without_phone s) ≡ false
unfolding is_outbound_due
without_phone-done cutoff s = ground arith

module _ (size cutoff now : ℕ) (batches : 0 < size) where
  abbrev pub sends_db : Db → Db
  sends_db db = record db {
    sends = map (change_if (is_outbound_due cutoff) without_phone) db.sends;
  }

  abbrev pub sends_result : Db → PurgeResult → PurgeResult
  sends_result db r = record r {
    outbound_phones = r.outbound_phones + count (is_outbound_due cutoff) db.sends;
  }

  pub sends-IsBody :
      IsBody
        (λ db. count (is_outbound_due cutoff) db.sends)
        sends_db
        sends_result
        (purge_sends size cutoff now)
  unfolding purge_sends
  sends-IsBody =
      let due = is_outbound_due cutoff in
      record {
        stops = λ r w stop. elim (Bool-cases (is_empty (batch size due w.sends))) [
          | inl e ↦
              let none_left = none_due size due w.sends batches e in
              (
                ap (λ x. record w.db { sends = x }) (map-none due without_phone w.sends none_left),
                ap (λ n. record r { outbound_phones = n }) (omega (arith, none_left)),
              )
          | inr e ↦ let bad = rw e at stop in cc
        ];
        works = λ r w next go. elim (Bool-cases (is_empty (batch size due w.sends))) [
          | inl e ↦ let bad : none ≡ some next = rw e at go in cc
          | inr e ↦
              let left =
                count-update_batch size due without_phone (without_phone-done cutoff) w.sends in
              let some_done = is_empty-length (batch size due w.sends) e in
              let done = length-batch size due w.sends in
              Works-by (λ db. count due db.sends) sends_db sends_result r w _ next (rw e at go)
                (
                  omega (arith, left, some_done, done),
                  ap (λ x. record w.db { sends = x })
                      (map-update_batch size due without_phone (without_phone-done cutoff) w.sends),
                  ap (λ n. record r { outbound_phones = n }) (omega (arith, left, done)),
                  refl,
                )
        ];
      }

  abbrev pub geocodes_db : Db → Db
  geocodes_db db = record db { geocodes = select (λ g. not (is_geocode_due cutoff g)) db.geocodes }

  abbrev pub geocodes_result : Db → PurgeResult → PurgeResult
  geocodes_result db r = record r {
    geocode_entries = r.geocode_entries + count (is_geocode_due cutoff) db.geocodes;
  }

  pub geocodes-IsBody :
      IsBody
        (λ db. count (is_geocode_due cutoff) db.geocodes)
        geocodes_db
        geocodes_result
        (purge_geocodes size cutoff now)
  unfolding purge_geocodes
  geocodes-IsBody =
      let due = is_geocode_due cutoff in
      record {
        stops = λ r w stop. elim (Bool-cases (is_empty (batch size due w.geocodes))) [
          | inl e ↦
              let none_left = none_due size due w.geocodes batches e in
              (
                ap (λ x. record w.db { geocodes = x }) (select-kept due w.geocodes none_left),
                ap (λ n. record r { geocode_entries = n }) (omega (arith, none_left)),
              )
          | inr e ↦ let bad = rw e at stop in cc
        ];
        works = λ r w next go. elim (Bool-cases (is_empty (batch size due w.geocodes))) [
          | inl e ↦ let bad : none ≡ some next = rw e at go in cc
          | inr e ↦
              let left = count-delete_batch size due w.geocodes in
              let some_done = is_empty-length (batch size due w.geocodes) e in
              let done = length-batch size due w.geocodes in
              Works-by (λ db. count due db.geocodes) geocodes_db geocodes_result r w _ next
                (rw e at go)
                (
                  omega (arith, left, some_done, done),
                  ap (λ x. record w.db { geocodes = x }) (select-delete_batch size due w.geocodes),
                  ap (λ n. record r { geocode_entries = n }) (omega (arith, left, done)),
                  refl,
                )
        ];
      }
