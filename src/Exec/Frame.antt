-- ===== src/Exec/Frame.antt =====
-- What an action may change: a relation of the state before to the state after, carried through `do`
-- blocks, and the inversion of a bind.
use javi.Prelude.{◌≡◌, refl, ◌∙◌, Bool, true, false, if◌then◌else◌}
use javi.World.{World, Db}
use javi.Exec.{
  Exec, Result, Error, ok, err, pure, raise, lift, gets, modify, continue, rolled_back, atomic,
  ◌>>=◌,
}

-- The messages sent and the tasks queued are as they were.
pub record SameEffects (w w' : World) : Type 0 where
  pub outbox : w'.outbox ≡ w.outbox
  pub tasks : w'.tasks ≡ w.tasks

-- The database too.
pub record SameState (w w' : World) : Type 0 where
  pub db : w'.db ≡ w.db
  pub effects : SameEffects w w'
  pub open effects use *

pub SameEffects-refl : (w : World) → SameEffects w w
SameEffects-refl w = record { outbox = refl; tasks = refl }

pub SameEffects-trans : (a b c : World) → SameEffects a b → SameEffects b c → SameEffects a c
SameEffects-trans a b c p q = record { outbox = q.outbox ∙ p.outbox; tasks = q.tasks ∙ p.tasks }

-- `m` sends no message and queues no task.
pub record IsQuiet {A : Type 0} (m : Exec A) : Type 0 where
  pub at : (w : World) → SameEffects w (m w).1

module _ {A : Type 0} where
  pub IsQuiet-pure : (a : A) → IsQuiet (pure a)
  IsQuiet-pure a = record { at = SameEffects-refl }

  pub IsQuiet-raise : (e : Error) → IsQuiet (raise {A = A} e)
  IsQuiet-raise e = record { at = SameEffects-refl }

  pub IsQuiet-lift : (r : Result A) → IsQuiet (lift r)
  IsQuiet-lift r = record { at = SameEffects-refl }

  pub IsQuiet-gets : (f : World → A) → IsQuiet (gets f)
  IsQuiet-gets f = record { at = SameEffects-refl }

  pub IsQuiet-if : (b : Bool) (m n : Exec A) → IsQuiet m → IsQuiet n → IsQuiet (if b then m else n)
  IsQuiet-if true m n p q = p
  IsQuiet-if false m n p q = q

  rolled_back_effects :
      (w : World) (s : Result A × World) → SameEffects w s.1 → SameEffects w (rolled_back w s).1
  rolled_back_effects w (ok a, w') h = h
  rolled_back_effects w (err e, w') h = record { outbox = h.outbox; tasks = h.tasks }

  -- A transaction that returns has kept all that it wrote.
  pub rolled_back-eq-ok :
      (w : World) (s : Result A × World) (a : A)
      → (rolled_back w s).0 ≡ ok a
      → (s.0 ≡ ok a) × (rolled_back w s ≡ s)
  rolled_back-eq-ok w (ok b, w') a h = (h, refl)
  rolled_back-eq-ok w (err e, w') a h = cc

  pub IsQuiet-atomic : (m : Exec A) → IsQuiet m → IsQuiet (atomic m)
  IsQuiet-atomic m q = record { at = λ w. rolled_back_effects w (m w) (q.at w) }

pub IsQuiet-modify : (g : World → Db) → IsQuiet (modify (λ w. record w { db = g w }))
IsQuiet-modify g = record { at = λ w. record { outbox = refl; tasks = refl } }

module _ {A B : Type 0} where
  continue_effects :
      (f : A → Exec B) (w : World) (s : Result A × World)
      → ((a : A) → IsQuiet (f a))
      → SameEffects w s.1
      → SameEffects w (continue f s).1
  continue_effects f w (ok a, w') q h = SameEffects-trans w w' (f a w').1 h ((q a).at w')
  continue_effects f w (err e, w') q h = h

  pub IsQuiet-bind :
      (m : Exec A) (f : A → Exec B) → IsQuiet m → ((a : A) → IsQuiet (f a)) → IsQuiet (m >>= f)
  IsQuiet-bind m f p q = record { at = λ w. continue_effects f w (m w) q (p.at w) }

  -- A bind that returns has run both parts.
  pub bind-eq-ok :
      (f : A → Exec B) (s : Result A × World) (b : B)
      → (continue f s).0 ≡ ok b
      → (a : A) × (s.0 ≡ ok a) × ((f a s.1).0 ≡ ok b) × (continue f s ≡ f a s.1)
  bind-eq-ok f (ok a, w) b h = (a, refl, h, refl)
  bind-eq-ok f (err e, w) b h = cc

  pub continue-of_err :
      (f : A → Exec B) (s : Result A × World) (e : Error)
      → s.0 ≡ err e
      → continue f s ≡ (err e, s.1)
  continue-of_err f (ok b, w) e h = cc
  continue-of_err f (err e', w) e h = let same : e' ≡ e = cc in rw same refl

  pub continue-of_ok :
      (f : A → Exec B) (s : Result A × World) (a : A) → s.0 ≡ ok a → continue f s ≡ f a s.1
  continue-of_ok f (ok b, w) a h = let same : b ≡ a = cc in rw same
  continue-of_ok f (err e, w) a h = cc

pub ruleset quiet_rules = (
  IsQuiet-pure, IsQuiet-raise, IsQuiet-lift, IsQuiet-gets, IsQuiet-if, IsQuiet-bind, IsQuiet-atomic,
  IsQuiet-modify,
)
