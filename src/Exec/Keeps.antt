-- ===== src/Exec/Keeps.antt =====
-- Rules for any relation between the state before an action and the state after it.
use javi.Prelude.{◌≡◌, ◌∙◌, refl, Bool, true, false, if◌then◌else◌}
use javi.World.{World}
use javi.Exec.{Exec, Result, Error, ok, err, pure, raise, lift, gets, continue, ◌>>=◌}

pub record IsPreorder (R : World → World → Type 0) : Type 0 where
  pub here : (w : World) → R w w
  pub then_on : (a b c : World) → R a b → R b c → R a c

pub record Keeps {A : Type 0} (R : World → World → Type 0) (m : Exec A) : Type 0 where
  pub at : (w : World) → R w (m w).1

module _ {A : Type 0} {R : World → World → Type 0} (preorder : IsPreorder R) where
  pub Keeps-pure : (a : A) → Keeps R (pure a)
  Keeps-pure a = record { at = preorder.here }

  pub Keeps-raise : (e : Error) → Keeps R (raise {A = A} e)
  Keeps-raise e = record { at = preorder.here }

  pub Keeps-lift : (r : Result A) → Keeps R (lift r)
  Keeps-lift r = record { at = preorder.here }

  pub Keeps-gets : (f : World → A) → Keeps R (gets f)
  Keeps-gets f = record { at = preorder.here }

pub Keeps-if :
    {A : Type 0} {R : World → World → Type 0} (b : Bool) (m n : Exec A)
    → Keeps R m
    → Keeps R n
    → Keeps R (if b then m else n)
Keeps-if true m n p q = p
Keeps-if false m n p q = q

module _ {A B : Type 0} {R : World → World → Type 0} (preorder : IsPreorder R) where
  pub continue_keeps :
      (f : A → Exec B) (w : World) (s : Result A × World)
      → ((a : A) → Keeps R (f a))
      → R w s.1
      → R w (continue f s).1
  continue_keeps f w (ok a, w') q h = preorder.then_on w w' (f a w').1 h ((q a).at w')
  continue_keeps f w (err e, w') q h = h

  pub Keeps-bind :
      (m : Exec A) (f : A → Exec B) → Keeps R m → ((a : A) → Keeps R (f a)) → Keeps R (m >>= f)
  Keeps-bind m f p q = record { at = λ w. continue_keeps f w (m w) q (p.at w) }

pub ruleset keeps_rules = (Keeps-pure, Keeps-raise, Keeps-lift, Keeps-gets, Keeps-if, Keeps-bind)

-- The database is as it was.
abbrev pub SameDb : World → World → Type 0
SameDb w w' = w'.db ≡ w.db

pub SameDb-preorder : IsPreorder SameDb
SameDb-preorder = record { here = λ w. refl; then_on = λ a b c p q. q ∙ p }
