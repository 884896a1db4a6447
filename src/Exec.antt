-- ===== src/Exec.antt =====
-- Code that reads and writes the state and may raise. What was written before a raise stays
-- written, unless it stands in a `transaction.atomic` block.
pub mod Frame
pub mod Keeps
use javi.Prelude.{ℕ, Bool, true, false}
use javi.World.{World}

-- notifications/quotas.py: the codes of `QuotaExceeded`.
pub data QuotaCode : Type 0 where
  resend_limit destination_not_allowed recipient_daily_limit : QuotaCode
  daily_limit monthly_limit global_limit : QuotaCode

pub data Error : Type 0 where
  quota_exceeded : (code : QuotaCode) (http_status : ℕ) → Error
  value_error does_not_exist : Error

pub data Result {ℓ} (A : Type ℓ) : Type ℓ where
  ok : A → Result A
  err : Error → Result A

abbrev pub Exec : Type 0 → Type 0
Exec A = World → Result A × World

abbrev pub pure : {A : Type 0} → A → Exec A
pure a w = (ok a, w)

abbrev pub raise : {A : Type 0} → Error → Exec A
raise e w = (err e, w)

abbrev pub lift : {A : Type 0} → Result A → Exec A
lift r w = (r, w)

abbrev pub gets : {A : Type 0} → (World → A) → Exec A
gets f w = (ok (f w), w)

abbrev pub modify : (World → World) → Exec (Unit {0})
modify f w = (ok tt, f w)

abbrev pub continue : {A B : Type 0} → (A → Exec B) → Result A × World → Result B × World
continue f (ok a, w) = f a w
continue f (err e, w) = (err e, w)

infixl 5 ◌>>=◌ ◌>>◌
abbrev pub ◌>>=◌ : {A B : Type 0} → Exec A → (A → Exec B) → Exec B
◌>>=◌ m f w = continue f (m w)

abbrev pub ◌>>◌ : {B : Type 0} → Exec (Unit {0}) → Exec B → Exec B
m >> k = m >>= λ _. k

-- `raise` under a test
abbrev pub raise_if : Bool → Error → Result (Unit {0}) → Result (Unit {0})
raise_if true e rest = err e
raise_if false e rest = rest

-- `with transaction.atomic()`: a raise restores the database, and nothing else.
abbrev pub rolled_back : {A : Type 0} → World → Result A × World → Result A × World
rolled_back w (ok a, w') = (ok a, w')
rolled_back w (err e, w') = (err e, record w' { db = w.db })

abbrev pub atomic : {A : Type 0} → Exec A → Exec A
atomic m w = rolled_back w (m w)

-- `try: m except: pass`, where the caller goes on with the state that `m` left
abbrev pub handled : {A : Type 0} → (Error → A) → Result A × World → Result A × World
handled f (ok a, w) = (ok a, w)
handled f (err e, w) = (ok (f e), w)
