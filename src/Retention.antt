-- ===== src/Retention.antt =====
-- deliveries/retention.py: recipient data past the retention limit is erased, in batches. A batch
-- is the oldest rows that are due; without another request in between, the check under the lock
-- finds the same rows. `none` stands for a loop that has used up its fuel.
pub mod Batches
pub mod Erase
pub mod Purge
pub mod Runs
pub mod Service
pub mod Loops
use javi.Prelude.{
  ℕ, zero, suc, ◌+◌, ◌-◌, ◌*◌, Bool, true, false, not, ◌&&◌, ◌||◌, Option, none, some, List, [],
  ◌∷◌, ◌==◌, ltb, leb, any, count, length, select, if◌then◌else◌, is_none, truthy, get_or, or_else,
}
use javi.Model.{Delivery, TrackingToken, OutboundSend, is_delivered}
use javi.Env.{Env, day}
use javi.World.{World, Db, GeocodeEntry}
use javi.Runtime.{tick}

pub record PurgeResult : Type 0 where
  pub deliveries : ℕ
  pub tracking_tokens : ℕ
  pub outbound_phones : ℕ
  pub geocode_entries : ℕ
  pub stale_active : ℕ
  pub complete : Bool

-- `_last_known_at`
abbrev pub last_known_at : Delivery → ℕ
last_known_at d = get_or (or_else d.delivered_at (or_else d.eta_at d.started_at)) d.created_at

is_before : ℕ → Option ℕ → Bool
is_before cutoff none = false
is_before cutoff (some t) = ltb t cutoff

-- `deliveries_due`
unfoldable pub is_due : ℕ → Delivery → Bool
unfolding is_before
is_due cutoff d =
    is_none d.pii_purged_at
    && (is_before cutoff d.deleted_at
        || (is_none d.deleted_at && is_delivered d.status && ltb (last_known_at d) cutoff))

-- `stale_active_deliveries`
unfoldable pub is_stale_active : ℕ → Delivery → Bool
is_stale_active cutoff d =
    is_none d.pii_purged_at
    && is_none d.deleted_at
    && not (is_delivered d.status)
    && ltb (last_known_at d) cutoff

-- `_outbound_due`
unfoldable pub is_outbound_due : ℕ → OutboundSend → Bool
is_outbound_due cutoff s = ltb s.created_at cutoff && truthy s.phone

-- `_geocode_due`
unfoldable pub is_geocode_due : ℕ → GeocodeEntry → Bool
is_geocode_due cutoff g = ltb g.created_at cutoff

module _ {A : Type 0} where
  abbrev pub is_empty : List A → Bool
  is_empty [] = true
  is_empty (x ∷ xs) = false

  -- Whether a row is in the batch, by the rows that are older than it.
  abbrev pub in_batch : ℕ → (A → Bool) → A → List A → Bool
  in_batch size p x older = p x && ltb (count p older) size

  -- `_ids`: the rows of the batch.
  unfoldable pub batch : ℕ → (A → Bool) → List A → List A
  batch size p [] = []
  batch size p (x ∷ xs) =
      let rest = batch size p xs in if in_batch size p x xs then x ∷ rest else rest

  unfoldable pub update_batch : ℕ → (A → Bool) → (A → A) → List A → List A
  update_batch size p f [] = []
  update_batch size p f (x ∷ xs) =
      (if in_batch size p x xs then f x else x) ∷ update_batch size p f xs

  unfoldable pub delete_batch : ℕ → (A → Bool) → List A → List A
  delete_batch size p [] = []
  delete_batch size p (x ∷ xs) =
      let rest = delete_batch size p xs in if in_batch size p x xs then rest else x ∷ rest

-- What the update erases.
abbrev pub erased : ℕ → Delivery → Delivery
erased now d = record d {
  recipient_name = "";
  recipient_phone = "";
  dest_address = "";
  dest_lat = none;
  dest_lng = none;
  pii_purged_at = some now;
}

abbrev pub without_phone : OutboundSend → OutboundSend
without_phone s = record s { phone = "" }

abbrev pub is_token_of : List Delivery → TrackingToken → Bool
is_token_of rows t = any (λ (d : Delivery). d.id == t.delivery_id) rows

-- One batch of each loop: `none` is the `break` when nothing is due.
module _ (size cutoff now : ℕ) where
  -- The transaction of the first loop.
  unfoldable pub erase_batch : PurgeResult → World → PurgeResult × World
  erase_batch r w =
      let rows = batch size (is_due cutoff) w.deliveries in
      (
        record r {
          deliveries = r.deliveries + length rows;
          tracking_tokens = r.tracking_tokens + count (is_token_of rows) w.tokens;
        },
        record w {
          db = record w.db {
            deliveries = update_batch size (is_due cutoff) (erased now) w.deliveries;
            tokens = select (λ t. not (is_token_of rows t)) w.tokens;
          };
        },
      )

  unfoldable pub purge_deliveries : PurgeResult → World → Option (PurgeResult × World)
  purge_deliveries r w =
      if is_empty (batch size (is_due cutoff) w.deliveries) then none else some (erase_batch r w)

  unfoldable pub purge_sends : PurgeResult → World → Option (PurgeResult × World)
  purge_sends r w =
      let rows = batch size (is_outbound_due cutoff) w.sends in
      if is_empty rows
      then none
      else some (
        record r { outbound_phones = r.outbound_phones + length rows },
        record w {
          db = record w.db {
            sends = update_batch size (is_outbound_due cutoff) without_phone w.sends;
          };
        },
      )

  unfoldable pub purge_geocodes : PurgeResult → World → Option (PurgeResult × World)
  purge_geocodes r w =
      let rows = batch size (is_geocode_due cutoff) w.geocodes in
      if is_empty rows
      then none
      else some (
        record r { geocode_entries = r.geocode_entries + length rows },
        record w {
          db = record w.db { geocodes = delete_batch size (is_geocode_due cutoff) w.geocodes };
        },
      )

module _ (env : Env) where
  -- `out_of_time`: the clock is read only where there is a deadline.
  unfoldable pub out_of_time : Option ℕ → World → Bool × World
  out_of_time none w = (false, w)
  out_of_time (some deadline) w = (leb deadline (env.monotonic w.calls), tick w)

  -- `while not out_of_time()`
  unfoldable pub while_time :
      Option ℕ
      → (PurgeResult → World → Option (PurgeResult × World))
      → ℕ
      → PurgeResult
      → World
      → Option (PurgeResult × World)
  while_time deadline body zero r w = none
  while_time deadline body (suc fuel) r w =
      let (late, w1) = out_of_time deadline w in
      elim late [
        | true ↦ some (record r { complete = false }, w1)
        | false ↦ elim (body r w1) [
          | none ↦ some (r, w1)
          | some next ↦ while_time deadline body fuel next.0 next.1
        ]
      ]

  abbrev pub counted : ℕ → World → PurgeResult
  counted cutoff w = record {
    deliveries = 0;
    tracking_tokens = 0;
    outbound_phones = 0;
    geocode_entries = 0;
    stale_active = count (is_stale_active cutoff) w.deliveries;
    complete = true;
  }

  -- apply=False
  unfoldable pub dry_run : ℕ → World → PurgeResult
  dry_run cutoff w = record (counted cutoff w) {
    deliveries = count (is_due cutoff) w.deliveries;
    tracking_tokens = count (is_token_of (select (is_due cutoff) w.deliveries)) w.tokens;
    outbound_phones = count (is_outbound_due cutoff) w.sends;
    geocode_entries = count (is_geocode_due cutoff) w.geocodes;
  }

  next_loop :
      (PurgeResult → World → Option (PurgeResult × World))
      → Option (PurgeResult × World)
      → Option (PurgeResult × World)
  next_loop loop none = none
  next_loop loop (some (r, w)) = loop r w

  -- apply=True, from a moment and a size that are given, with a deadline or none, and fuel for each
  -- loop.
  unfoldable pub real_run : ℕ → ℕ → ℕ → Option ℕ → World → Option (PurgeResult × World)
  unfolding next_loop
  real_run fuel now size deadline w =
      let cutoff = now - env.settings.retention_days * day in
      next_loop (while_time deadline (purge_geocodes size cutoff now) fuel) (
        next_loop (while_time deadline (purge_sends size cutoff now) fuel)
          (while_time deadline (purge_deliveries size cutoff now) fuel (counted cutoff w) w))
