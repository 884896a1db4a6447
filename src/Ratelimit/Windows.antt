-- ===== src/Ratelimit/Windows.antt =====
-- How many events a window lets through.
use javi.Prelude.{
  ℕ, suc, ◌+◌, ◌*◌, ◌/◌, ◌≤◌, ◌<◌, ◌≡◌, refl, String, Bool, true, false, Option, some, List, [],
  ◌∷◌, first, select, update_where, ltb, leb, if◌then◌else◌, arith, eq_refl, Option-cases, inl, inr,
  Bool-cases, ap, All, length, ◌-◌, get_or, subst,
}
use native.Mathlib.Nat.{div-lt_iff_lt-mul}
use javi.Env.{second}
use javi.Ratelimit.{
  Key, Counter, key_eq, window_key, window_index, window_expires_at, row_of, hit_rows, counted,
  purged, one_more, hit, within, count_or_zero,
}

-- How many events a key has.
abbrev pub hits : Key → List Counter → ℕ
hits key rows = count_or_zero (row_of key rows)

pub key_eq_refl : (k : Key) → key_eq k k ≡ true
key_eq_refl k = ground (arith, eq_refl k.scope, eq_refl k.ident)

-- The window that holds a moment ends after it.
pub window_ends : (w now : ℕ) → 0 < w → now < window_expires_at w now
unfolding window_expires_at
window_ends w now h =
    let index = window_index w now in
    let in_seconds : now / second < suc index * w = (div-lt_iff_lt-mul h).0 (omega arith) in
    (div-lt_iff_lt-mul (omega arith)).0 in_seconds

pub counted_row :
    (key : Key) (rows : List Counter) (c : Counter)
    → row_of key rows ≡ some c
    → row_of key (counted key rows) ≡ some (one_more c)
unfolding row_of counted first update_where
counted_row key [] c h = cc
counted_row key (r ∷ rows) c h = elim (Bool-cases (key_eq r.key key)) [
  | inl own ↦ let same : r ≡ c = cc in rw own (rw own (ap (λ d. some (one_more d)) same))
  | inr other ↦ rw other (rw other (counted_row key rows c (rw other at h)))
]

pub new_row :
    (key : Key) (expires_at now : ℕ) (rows : List Counter)
    → now ≤ expires_at
    → row_of key
        (purged now (counted key (record { key = key; count = 0; expires_at = expires_at } ∷ rows)))
      ≡ some (record { key = key; count = 1; expires_at = expires_at })
unfolding row_of counted purged first update_where select
new_row key expires_at now rows h =
    let kept : ltb expires_at now ≡ false = ground arith in
    rw (key_eq_refl, kept) (rw key_eq_refl refl)

-- An event adds one to its key, and the row is there to be read.
hit_rows_lem :
    (key : Key) (expires_at now : ℕ) (rows : List Counter)
    → now ≤ expires_at
    → (c : Counter) × (row_of key (hit_rows key expires_at now rows) ≡ some c)
      × (c.count ≡ suc (hits key rows))
unfolding hit_rows
hit_rows_lem key expires_at now rows h = elim (Option-cases (row_of key rows)) [
  | inl missing ↦ rw missing (_, new_row key expires_at now rows h, refl)
  | inr (c, e) ↦ rw e (_, counted_row key rows c e, refl)
]

hit_by_row :
    (limit n : ℕ) (o : Option Counter) (c : Counter)
    → o ≡ some c
    → c.count ≡ n
    → within limit o ≡ some (leb n limit)
hit_by_row limit n o c e count = rw e (rw count refl)

abbrev pub one_if : Bool → ℕ
one_if b = if b then 1 else 0

abbrev pub at_most : ℕ → ℕ → ℕ
at_most room n = if leb n room then n else room

module _ (scope ident : String) (limit window_seconds : ℕ) where
  abbrev pub key_of_index : ℕ → Key
  key_of_index index = record {
    scope = scope;
    ident = ident;
    window_seconds = window_seconds;
    index = index;
  }

  hit_lem :
      (now : ℕ) (rows : List Counter)
      → 0 < window_seconds
      → let key = window_key scope ident window_seconds now in
        ((hit scope ident limit window_seconds now rows).0 ≡ some (leb (suc (hits key rows)) limit))
        × (hits key (hit scope ident limit window_seconds now rows).1 ≡ suc (hits key rows))
  unfolding hit
  hit_lem now rows h =
      let key = window_key scope ident window_seconds now in
      let live = window_ends window_seconds now h in
      let (c, e, n) =
        hit_rows_lem key (window_expires_at window_seconds now) now rows (omega arith) in
      (hit_by_row limit (suc (hits key rows)) _ c e n, rw e n)

  -- Events one after the other: how many are let through, and the rows after them.
  abbrev pub let_through : List ℕ → List Counter → ℕ
  let_through [] rows = 0
  let_through (now ∷ later) rows =
      let answer = hit scope ident limit window_seconds now rows in
      one_if (get_or answer.0 false) + let_through later answer.1

  abbrev pub after_hits : List ℕ → List Counter → List Counter
  after_hits [] rows = rows
  after_hits (now ∷ later) rows = after_hits later (hit scope ident limit window_seconds now rows).1

  pub key_at :
      (now index : ℕ)
      → window_index window_seconds now ≡ index
      → window_key scope ident window_seconds now ≡ key_of_index index
  unfolding window_key
  key_at now index e = ap key_of_index e

  pub hit_at :
      (now : ℕ) (rows : List Counter) (key : Key)
      → 0 < window_seconds
      → window_key scope ident window_seconds now ≡ key
      → ((hit scope ident limit window_seconds now rows).0 ≡ some (leb (suc (hits key rows)) limit))
        × (hits key (hit scope ident limit window_seconds now rows).1 ≡ suc (hits key rows))
  hit_at now rows key h e =
      subst
        (λ k.
          ((hit scope ident limit window_seconds now rows).0 ≡ some (leb (suc (hits k rows)) limit))
          × (hits k (hit scope ident limit window_seconds now rows).1 ≡ suc (hits k rows)))
        e (hit_lem now rows h)

  answer_counts :
      (o : Option Bool) (n : ℕ)
      → o ≡ some (leb n limit)
      → one_if (get_or o false) ≡ one_if (leb n limit)
  answer_counts o n e = rw e refl

  -- Events of one window: they are all counted, and of `n` events as many are let through as the
  -- limit leaves after those that the window had before; nothing else of the state matters.
  pub hits_let_through_lem :
      (times : List ℕ) (index : ℕ) (rows : List Counter)
      → 0 < window_seconds
      → All (λ t. window_index window_seconds t ≡ index) times
      → let key = key_of_index index in
        (let_through times rows ≡ at_most (limit - hits key rows) (length times))
        × (hits key (after_hits times rows) ≡ hits key rows + length times)
  hits_let_through_lem [] index rows h same = (ground arith, omega arith)
  hits_let_through_lem (now ∷ later) index rows h same =
      let key = key_of_index index in
      let (answer, count) = hit_at now rows key h (key_at now index same.0) in
      let one = answer_counts _ (suc (hits key rows)) answer in
      let (through, total) =
        hits_let_through_lem later index (hit scope ident limit window_seconds now rows).1 h
          same.1 in
      (ground (arith, one, through, count), omega (arith, total, count))
