-- ===== src/Lockout/Locks.antt =====
-- When sign-ins are refused.
use javi.Prelude.{
  ℕ, suc, ◌+◌, ◌*◌, ◌≤◌, ◌<◌, ◌≡◌, refl, ◌∙◌, ap, sym, String, true, Option, none, some, List, [],
  ◌∷◌, All, length, arith, truthy, leb,
}
use javi.ClientIp.{Addresses, Headers, client_ip}
use javi.Env.{second}
use javi.Ratelimit.{
  Key, Counter, row_of, hit, exceeded, window_key, window_index, window_expires_at, count_or_zero,
}
use javi.Ratelimit.Windows.{hits, hit_at, key_at, window_ends}
use javi.Ratelimit.Others.{LivesUntil, hit_rows_other, hit_rows_lives}
use javi.Lockout.{
  Login, permission_denied, ip_checks, account_checks, limits_of, window_seconds, any_exceeded,
  is_locked, hit_all, record_failure, authenticate,
}

-- A failed sign-in.
pub record Attempt : Type 0 where
  pub request : Headers
  pub username : String
  pub now : ℕ → ℕ

module _ (net : Addresses) (login : Login) (account : String) (index : ℕ) where
  abbrev pub account_key : Key
  account_key = record {
    scope = "login-account";
    ident = account;
    window_seconds = window_seconds net login;
    index = index;
  }

  -- The end of the window.
  abbrev pub window_end : ℕ
  window_end = suc index * window_seconds net login * second

  -- The attempt names the account, in the window.
  pub record IsOf (a : Attempt) : Type 0 where
    pub named : truthy a.username ≡ true
    pub account_of : login.strip_lower a.username ≡ account
    pub in_window : (n : ℕ) → window_index (window_seconds net login) (a.now n) ≡ index

  abbrev pub after_failures : List Attempt → List Counter → List Counter
  after_failures [] rows = rows
  after_failures (a ∷ later) rows =
      after_failures later (record_failure net login (some a.request) (some a.username) a.now rows)

  ends_at :
      (now : ℕ)
      → window_index (window_seconds net login) now ≡ index
      → window_expires_at (window_seconds net login) now ≡ window_end
  unfolding window_expires_at
  ends_at now e = ap (λ i. suc i * window_seconds net login * second) e

  before_end :
      (now : ℕ)
      → 0 < window_seconds net login
      → window_index (window_seconds net login) now ≡ index
      → now < window_end
  before_end now h e =
      let ends = window_ends (window_seconds net login) now h in
      let same = ends_at now e in omega (arith, ends, same)

  hit_lives :
      (limit now : ℕ) (rows : List Counter)
      → 0 < window_seconds net login
      → window_index (window_seconds net login) now ≡ index
      → LivesUntil account_key window_end rows
      → LivesUntil account_key window_end
          (hit "login-account" account limit (window_seconds net login) now rows).1
  unfolding hit
  hit_lives limit now rows h e lives =
      let key = key_at "login-account" account limit (window_seconds net login) now index e in
      let end = ends_at now e in
      let live = before_end now h e in
      let kept =
        hit_rows_lives account_key window_end now window_end rows (omega arith) (omega arith)
          lives in
      rw (key, end) kept

  ip_hit :
      (ip : String) (limit now : ℕ) (rows : List Counter)
      → 0 < window_seconds net login
      → window_index (window_seconds net login) now ≡ index
      → LivesUntil account_key window_end rows
      → row_of account_key (hit "login-ip" ip limit (window_seconds net login) now rows).1
        ≡ row_of account_key rows
  unfolding hit window_key
  ip_hit ip limit now rows h e lives =
      let live = before_end now h e in
      hit_rows_other account_key (window_key "login-ip" ip (window_seconds net login) now) _ now
        rows refl (λ c row. let end = lives c row in omega arith)

  -- A failed sign-in adds one to the failures of its account.
  failure_lem :
      (a : Attempt) (rows : List Counter)
      → 0 < window_seconds net login
      → IsOf a
      → LivesUntil account_key window_end rows
      → let rows' = record_failure net login (some a.request) (some a.username) a.now rows in
        (hits account_key rows' ≡ suc (hits account_key rows))
        × LivesUntil account_key window_end rows'
  unfolding record_failure limits_of ip_checks account_checks hit_all
  failure_lem a rows h is_of lives =
      let seconds = window_seconds net login in
      let limit = login.failure_limit_account in
      let rows1 =
        (hit "login-ip" (client_ip net a.request) login.failure_limit_ip seconds (a.now 0)
          rows).1 in
      let same : row_of account_key rows1 ≡ row_of account_key rows =
        ip_hit (client_ip net a.request) login.failure_limit_ip (a.now 0) rows h (is_of.in_window 0)
          lives in
      let lives1 : LivesUntil account_key window_end rows1 = λ c e. lives c (sym same ∙ e) in
      let key = key_at "login-account" account limit seconds (a.now 1) index (is_of.in_window 1) in
      let one = hit_at "login-account" account limit seconds (a.now 1) rows1 account_key h key in
      rw (is_of.named, is_of.account_of)
        (
          one.1 ∙ ap (λ o. suc (count_or_zero o)) same,
          hit_lives limit (a.now 1) rows1 h (is_of.in_window 1) lives1,
        )

  failures_lem :
      (attempts : List Attempt) (rows : List Counter)
      → 0 < window_seconds net login
      → All IsOf attempts
      → LivesUntil account_key window_end rows
      → hits account_key (after_failures attempts rows) ≡ hits account_key rows + length attempts
  failures_lem [] rows h all lives = omega arith
  failures_lem (a ∷ later) rows h (first_one, rest) lives =
      let (one, lives1) = failure_lem a rows h first_one lives in
      let rows1 = record_failure net login (some a.request) (some a.username) a.now rows in
      omega (arith, one, failures_lem later rows1 h rest lives1)

  -- After as many failed sign-ins to an account as its limit, from whatever addresses, a sign-in to
  -- it is refused until the window ends, from whatever address and with whatever password.
  pub authenticate-locked :
      {U : Type 0} (check : Option String → String → Option U) (attempts : List Attempt)
      (rows : List Counter) (a : Attempt) (password : String)
      → 0 < window_seconds net login
      → LivesUntil account_key window_end rows
      → All IsOf attempts
      → login.failure_limit_account ≤ length attempts
      → IsOf a
      → authenticate net login check
          (some a.request)
          (some a.username)
          none
          password
          a.now
          (after_failures attempts rows)
        ≡ permission_denied
  unfolding authenticate is_locked limits_of ip_checks account_checks any_exceeded exceeded
  authenticate-locked check attempts rows a password h lives all enough is_of =
      let seconds = window_seconds net login in
      let key =
        key_at "login-account" account login.failure_limit_account seconds (a.now 1) index
          (is_of.in_window 1) in
      let counted = failures_lem attempts rows h all lives in
      let over : leb login.failure_limit_account (hits account_key (after_failures attempts rows))
          ≡ true =
        ground (arith, counted) in
      rw is_of.named (rw (is_of.named, is_of.account_of) (rw key (ground (arith, over))))
