-- ===== src/Ratelimit.antt =====
-- common/ratelimit.py: counters of fixed windows in the database. The key of a row is the SHA-256 of
-- scope, identity, window length and window index; here it is these four.
pub mod Windows
pub mod Others
use javi.Prelude.{
  ℕ, suc, ◌+◌, ◌*◌, ◌/◌, String, Bool, true, false, ◌&&◌, not, Option, none, some, List, [], ◌∷◌,
  ◌==◌, str_eq, ltb, leb, first, select, update_where, if◌then◌else◌, is_none,
}
use javi.Env.{second}

pub record Key : Type 0 where
  pub scope : String
  pub ident : String
  pub window_seconds : ℕ
  pub index : ℕ

abbrev pub key_eq : Key → Key → Bool
key_eq a b =
    str_eq a.scope b.scope
    && str_eq a.ident b.ident
    && a.window_seconds == b.window_seconds
    && a.index == b.index

-- RateLimitCounter of common/models.py
pub record Counter : Type 0 where
  pub key : Key
  pub count : ℕ
  pub expires_at : ℕ

-- `int(now.timestamp()) // window_seconds`
abbrev pub window_index : ℕ → ℕ → ℕ
window_index window_seconds now = now / second / window_seconds

-- `_window`
unfoldable pub window_key : String → String → ℕ → ℕ → Key
window_key scope ident window_seconds now = record {
  scope = scope;
  ident = ident;
  window_seconds = window_seconds;
  index = window_index window_seconds now;
}

unfoldable pub window_expires_at : ℕ → ℕ → ℕ
window_expires_at window_seconds now =
    suc (window_index window_seconds now) * window_seconds * second

unfoldable pub row_of : Key → List Counter → Option Counter
row_of key rows = first (λ (c : Counter). key_eq c.key key) rows

abbrev pub within : ℕ → Option Counter → Option Bool
within limit none = none
within limit (some c) = some (leb c.count limit)

abbrev pub one_more : Counter → Counter
one_more c = record c { count = suc c.count }

unfoldable pub counted : Key → List Counter → List Counter
counted key rows = update_where (λ (c : Counter). key_eq c.key key) one_more rows

unfoldable pub purged : ℕ → List Counter → List Counter
purged now rows = select (λ (c : Counter). not (ltb c.expires_at now)) rows

-- `get_or_create`, the increment, and the expired rows when a window begins. The answer is `none`
-- where `refresh_from_db` would find no row.
unfoldable pub hit_rows : Key → ℕ → ℕ → List Counter → List Counter
unfolding counted purged
hit_rows key expires_at now rows =
    if is_none (row_of key rows)
    then purged now (counted key (record { key = key; count = 0; expires_at = expires_at } ∷ rows))
    else counted key rows

unfoldable pub hit : String → String → ℕ → ℕ → ℕ → List Counter → Option Bool × List Counter
hit scope ident limit window_seconds now rows =
    let key = window_key scope ident window_seconds now in
    let rows' = hit_rows key (window_expires_at window_seconds now) now rows in
    (within limit (row_of key rows'), rows')

abbrev pub count_or_zero : Option Counter → ℕ
count_or_zero none = 0
count_or_zero (some c) = c.count

unfoldable pub exceeded : String → String → ℕ → ℕ → ℕ → List Counter → Bool
exceeded scope ident limit window_seconds now rows =
    leb limit (count_or_zero (row_of (window_key scope ident window_seconds now) rows))
