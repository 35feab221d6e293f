-- ===== src/Exec/Keeps.antt =====
-- Invariants of methods: `Keeps P m` says that `m` leaves `P` true, whatever its outcome.
use mural.Prelude.{Bool, true, false, if◌then◌else◌}
use mural.Exec.{
  Error, Outcome, ok, err, running, Exec, pure, raise, gets, lift, modify, ◌>>=◌, continue,
}

pub record Keeps {κ} {S A : Type 0} (P : S → Type κ) (m : Exec S A) : Type κ where
  pub at : (s : S) → P s → P (m s).1

module _ {κ} {S A : Type 0} {P : S → Type κ} where
  pub Keeps-pure : (a : A) → Keeps P (pure a)
  Keeps-pure a = record { at = λ s p. p }

  pub Keeps-raise : (e : Error) → Keeps P (raise {A = A} e)
  Keeps-raise e = record { at = λ s p. p }

  pub Keeps-lift : (o : Outcome A) → Keeps P (lift o)
  Keeps-lift o = record { at = λ s p. p }

  pub Keeps-gets : (f : S → A) → Keeps P (gets f)
  Keeps-gets f = record { at = λ s p. p }

  pub Keeps-if : (b : Bool) (m n : Exec S A) → Keeps P m → Keeps P n → Keeps P (if b then m else n)
  Keeps-if true m n k l = k
  Keeps-if false m n k l = l

module _ {κ} {S A B : Type 0} {P : S → Type κ} where
  pub Keeps-continue :
      (o : Outcome A) (f : A → Exec S B) (s : S)
      → ((a : A) → Keeps P (f a))
      → P s
      → P (continue o f s).1
  Keeps-continue (ok a) f s k p = (k a).at s p
  Keeps-continue (err e) f s k p = p
  Keeps-continue running f s k p = p

  pub Keeps-bind :
      (m : Exec S A) (f : A → Exec S B) → Keeps P m → ((a : A) → Keeps P (f a)) → Keeps P (m >>= f)
  Keeps-bind m f k l = record { at = λ s p. let r = m s in Keeps-continue r.0 f r.1 l (k.at s p) }

pub Keeps-modify {κ} :
    {S : Type 0} {P : S → Type κ} (f : S → S) → ((s : S) → P s → P (f s)) → Keeps P (modify f)
Keeps-modify f k = record { at = k }

pub ruleset keeps_rules = (Keeps-pure, Keeps-raise, Keeps-lift, Keeps-gets, Keeps-if, Keeps-bind)
