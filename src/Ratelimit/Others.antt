-- ===== src/Ratelimit/Others.antt =====
-- What an event leaves of the counters of other keys.
use javi.Prelude.{
  ℕ, ◌≤◌, ◌≡◌, refl, ◌∙◌, sym, true, false, some, List, [], ◌∷◌, first, select, update_where, ltb,
  arith, eq_iff, Option-cases, Bool-cases, inl, inr, str_eq,
}
use javi.Ratelimit.{Key, Counter, key_eq, row_of, hit_rows, counted, purged}
use javi.Ratelimit.Windows.{counted_row, new_row}

-- The counter of the key, if there is one, is not yet to be deleted at `t`.
abbrev pub LivesUntil : Key → ℕ → List Counter → Type 0
LivesUntil key t rows = (c : Counter) → row_of key rows ≡ some c → t ≤ c.expires_at

key_eq_cong : (a b k : Key) → key_eq a b ≡ true → key_eq a k ≡ key_eq b k
key_eq_cong a b k h =
    let scope_eq : str_eq a.scope b.scope ≡ true = ground arith in
    let ident_eq : str_eq a.ident b.ident ≡ true = ground arith in
    let scope : a.scope ≡ b.scope = (eq_iff a.scope b.scope).0 scope_eq in
    let ident : a.ident ≡ b.ident = (eq_iff a.ident b.ident).0 ident_eq in
    let seconds : a.window_seconds ≡ b.window_seconds = ground arith in
    let index : a.index ≡ b.index = ground arith in rw (scope, ident, seconds, index) refl

counted_other :
    (key other : Key) (rows : List Counter)
    → key_eq other key ≡ false
    → row_of key (counted other rows) ≡ row_of key rows
unfolding row_of counted first update_where
counted_other key other [] h = refl
counted_other key other (r ∷ rows) h = elim (Bool-cases (key_eq r.key other)) [
  | inl own ↦
      let not_key : key_eq r.key key ≡ false = key_eq_cong r.key other key own ∙ h in
      rw own (rw not_key (counted_other key other rows h))
  | inr different ↦ rw different (ground (arith, counted_other key other rows h))
]

purged_lives :
    (key : Key) (now : ℕ) (rows : List Counter)
    → LivesUntil key now rows
    → row_of key (purged now rows) ≡ row_of key rows
unfolding row_of purged first select
purged_lives key now [] lives = refl
purged_lives key now (r ∷ rows) lives = elim (Bool-cases (key_eq r.key key)) [
  | inl own ↦
      let stays : now ≤ r.expires_at = lives r (rw own refl) in
      let kept : ltb r.expires_at now ≡ false = ground arith in rw kept (rw own refl)
  | inr different ↦
      let later : LivesUntil key now rows = λ c e. lives c (rw different e) in
      let rest = purged_lives key now rows later in ground (arith, rest)
]

new_other :
    (key : Key) (new : Counter) (rows : List Counter)
    → key_eq new.key key ≡ false
    → row_of key (new ∷ rows) ≡ row_of key rows
unfolding row_of first
new_other key new rows h = rw h refl

-- An event of another key leaves the counter of the key as it was.
pub hit_rows_other :
    (key other : Key) (expires_at now : ℕ) (rows : List Counter)
    → key_eq other key ≡ false
    → LivesUntil key now rows
    → row_of key (hit_rows other expires_at now rows) ≡ row_of key rows
unfolding hit_rows
hit_rows_other key other expires_at now rows h lives = elim (Option-cases (row_of other rows)) [
  | inl missing ↦
      let new : Counter = record { key = other; count = 0; expires_at = expires_at } in
      let skipped : row_of key (new ∷ rows) ≡ row_of key rows = new_other key new rows h in
      let same : row_of key (counted other (new ∷ rows)) ≡ row_of key rows =
        counted_other key other (new ∷ rows) h ∙ skipped in
      rw missing (purged_lives key now _ (λ c e. lives c (sym same ∙ e)) ∙ same)
  | inr (c, e) ↦ rw e (counted_other key other rows h)
]

-- An event of the key keeps its counter.
pub hit_rows_lives :
    (key : Key) (expires_at now t : ℕ) (rows : List Counter)
    → now ≤ expires_at
    → t ≤ expires_at
    → LivesUntil key t rows
    → LivesUntil key t (hit_rows key expires_at now rows)
unfolding hit_rows
hit_rows_lives key expires_at now t rows live enough lives = elim (Option-cases (row_of key rows)) [
  | inl missing ↦
      rw missing (λ c e. let row = new_row key expires_at now rows live in ground (arith, row, e))
  | inr (r, e) ↦ rw e (λ c e'.
      let row = counted_row key rows r e in let old = lives r e in ground (arith, row, e', old))
]
