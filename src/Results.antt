-- ===== src/Results.antt =====
-- `Result` without a state: `?`, `ok_or_else`, and `collect` over an iterator of results.
pub mod Ensures
use mathlib.Core.Logic.{◌⊎◌, inl, inr}
use mural.Prelude.{◌≡◌, refl, Bool, true, false, Option, none, some, List, [], ◌∷◌, Text}
use mural.Exec.{Outcome, Error, ok, err, running, message}

module _ {ℓ κ} {A : Type ℓ} {B : Type κ} where
  infixl 5 ◌>>=◌
  abbrev pub ◌>>=◌ : Outcome A → (A → Outcome B) → Outcome B
  ok a >>= f = f a
  err e >>= f = err e
  running >>= f = running

  -- Inversion of a successful `?`.
  pub >>=-eq-ok :
      (o : Outcome A) (f : A → Outcome B) {b : B}
      → (o >>= f) ≡ ok b
      → (a : A) × (o ≡ ok a) × (f a ≡ ok b)
  >>=-eq-ok (ok a) f h = (a, refl, h)
  >>=-eq-ok (err e) f h = cc
  >>=-eq-ok running f h = cc

abbrev pub map_ok {ℓ κ} : {A : Type ℓ} {B : Type κ} → (A → B) → Outcome A → Outcome B
map_ok f o = o >>= λ a. ok (f a)

infixl 5 ◌>>◌
abbrev pub ◌>>◌ {ℓ} : {B : Type ℓ} → Outcome (Unit {0}) → Outcome B → Outcome B
m >> k = m >>= λ u. k

abbrev pub fail {ℓ} : {A : Type ℓ} → Text → Outcome A
fail m = err (message m)

-- An early `return Err(..)`.
abbrev pub refuse_if : Bool → Text → Outcome (Unit {0})
refuse_if true m = fail m
refuse_if false m = ok tt

abbrev pub ok_or {ℓ} : {A : Type ℓ} → Option A → Text → Outcome A
ok_or none m = fail m
ok_or (some a) m = ok a
