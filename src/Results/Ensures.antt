-- ===== src/Results/Ensures.antt =====
-- Predicates on what a computation returns.
use mural.Prelude.{◌≡◌, refl, subst, Bool, true, false, Option, none, some, Text, if◌then◌else◌}
use mural.Exec.{Outcome, ok, running}
use mural.Results.{◌>>=◌, ◌>>◌, fail, refuse_if, ok_or, >>=-eq-ok}

-- A result, if there is one, satisfies the predicate.
pub record Ensures {A : Type 0} (o : Outcome A) (P : A → Type 0) : Type 0 where
  pub holds : (a : A) → o ≡ ok a → P a

pub record OnSome {A : Type 0} (P : A → Type 0) (o : Option A) : Type 0 where
  pub holds : (a : A) → o ≡ some a → P a

module _ {A : Type 0} {P : A → Type 0} where
  pub ensures_ok : (a : A) → P a → Ensures (ok a) P
  ensures_ok a h = record { holds = λ b e. subst P (let same : a ≡ b = cc in same) h }

  pub ensures_fail : (m : Text) → Ensures (fail m) P
  ensures_fail m = record { holds = λ b e. absurd cc }

  pub ensures_running : Ensures running P
  ensures_running = record { holds = λ b e. absurd cc }

  pub on_none : OnSome P none
  on_none = record { holds = λ b e. absurd cc }

  pub on_some : (a : A) → P a → OnSome P (some a)
  on_some a h = record { holds = λ b e. subst P (let same : a ≡ b = cc in same) h }

  pub ensures_some : (o : Option A) (m : Text) → OnSome P o → Ensures (ok_or o m) P
  ensures_some none m h = ensures_fail m
  ensures_some (some a) m h = ensures_ok a (h.holds a refl)

  pub ensures_if :
      (b : Bool) (o o' : Outcome A) → Ensures o P → Ensures o' P → Ensures (if b then o else o') P
  ensures_if true o o' h h' = h
  ensures_if false o o' h h' = h'

  pub ensures_unless :
      (b : Bool) (m : Text) (k : Outcome A)
      → (b ≡ false → Ensures k P)
      → Ensures (refuse_if b m >> k) P
  ensures_unless true m k h = ensures_fail m
  ensures_unless false m k h = h refl

module _ {A B : Type 0} {Q : B → Type 0} where
  pub ensures_then :
      (o : Outcome A) (k : A → Outcome B)
      → ((a : A) → o ≡ ok a → Ensures (k a) Q)
      → Ensures (o >>= k) Q
  ensures_then o k g = record {
    holds = λ b e. let (a, p, q) = >>=-eq-ok o k e in (g a p).holds b q;
  }

  pub ensures_bind :
      {P : A → Type 0} (o : Outcome A) (k : A → Outcome B)
      → Ensures o P
      → ((a : A) → P a → Ensures (k a) Q)
      → Ensures (o >>= k) Q
  ensures_bind o k h g = ensures_then o k (λ a e. g a (h.holds a e))
