-- ===== src/Lockout.antt =====
-- accounts/lockout.py: failed sign-ins are counted per client address and per account.
pub mod Locks
use javi.Prelude.{
  ℕ, suc, ◌*◌, String, Bool, true, false, ◌||◌, Option, none, some, List, [], ◌∷◌, if◌then◌else◌,
  truthy, text_or, ◌++◌,
}
use javi.ClientIp.{Addresses, Headers, client_ip}
use javi.Ratelimit.{Counter, hit, exceeded}

-- Settings, and `.strip().lower()`.
pub record Login : Type 0 where
  pub failure_limit_ip : ℕ
  pub failure_limit_account : ℕ
  pub lockout_minutes : ℕ
  pub strip_lower : String → String

pub record Check : Type 0 where
  pub scope : String
  pub ident : String
  pub limit : ℕ

abbrev pub username_of : Option String → String
username_of none = ""
username_of (some name) = name

-- What `authenticate` gives: `PermissionDenied`, or what the check of the password gives.
pub data Outcome (U : Type 0) : Type 0 where
  permission_denied : Outcome U
  checked : Option U → Outcome U

module _ (net : Addresses) (login : Login) where
  unfoldable pub ip_checks : Option Headers → List Check
  ip_checks none = []
  ip_checks (some request) =
      record { scope = "login-ip"; ident = client_ip net request; limit = login.failure_limit_ip }
      ∷ []

  unfoldable pub account_checks : Option String → List Check
  account_checks username =
      if truthy (username_of username)
      then record {
        scope = "login-account";
        ident = login.strip_lower (username_of username);
        limit = login.failure_limit_account;
      }
        ∷ []
      else []

  -- `_limits`
  unfoldable pub limits_of : Option Headers → Option String → List Check
  limits_of request username = ip_checks request ++ account_checks username

  abbrev pub window_seconds : ℕ
  window_seconds = login.lockout_minutes * 60

  -- The clock is read at each check: `now n` is the moment of the check number `n`.
  unfoldable pub any_exceeded : List Check → (ℕ → ℕ) → List Counter → Bool
  any_exceeded [] now rows = false
  any_exceeded (c ∷ checks) now rows =
      exceeded c.scope c.ident c.limit window_seconds (now 0) rows
      || any_exceeded checks (λ n. now (suc n)) rows

  unfoldable pub is_locked : Option Headers → Option String → (ℕ → ℕ) → List Counter → Bool
  is_locked request username now rows = any_exceeded (limits_of request username) now rows

  unfoldable pub hit_all : List Check → (ℕ → ℕ) → List Counter → List Counter
  hit_all [] now rows = rows
  hit_all (c ∷ checks) now rows =
      hit_all checks (λ n. now (suc n)) (hit c.scope c.ident c.limit window_seconds (now 0) rows).1

  unfoldable pub record_failure :
      Option Headers → Option String → (ℕ → ℕ) → List Counter → List Counter
  record_failure request username now rows = hit_all (limits_of request username) now rows

  -- `_count_failed_login`, with the user name or else the email of the credentials
  unfoldable pub count_failed_login :
      Option Headers → (username email : Option String) → (ℕ → ℕ) → List Counter → List Counter
  count_failed_login none username email now rows = rows
  count_failed_login (some request) username email now rows =
      record_failure (some request) (some (text_or (username_of username) (username_of email))) now
        rows

  -- `LockoutBackend.authenticate`, where `check` is that of `ModelBackend`
  unfoldable pub authenticate :
      {U : Type 0}
      → (Option String → String → Option U)
      → Option Headers
      → (username email : Option String) (password : String) → (ℕ → ℕ)
      → List Counter
      → Outcome U
  authenticate check none username email password now rows = checked (check username password)
  authenticate check (some request) username email password now rows =
      let name = text_or (username_of username) (username_of email) in
      if is_locked (some request) (some name) now rows
      then permission_denied
      else checked (check username password)
