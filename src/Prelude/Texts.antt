-- ===== src/Prelude/Texts.antt =====
-- Texts and paths as the list of their code points, with the equality that the code tests.
use Prim.Native.Nat.{ℕ}
use Prim.Native.Char.{code}
use Prim.Native.String.{String}
use mathlib.Core.Path.{◌≡◌, refl}
use mathlib.Core.Logic.{◌↔◌}
use mathlib.Core.Bool.{Bool, true, false, ◌&&◌, ◌||◌}
use mathlib.Core.List.{List, [], ◌∷◌}
use native.Mathlib.Omega.{arith}
use mural.Prelude.Tests.{◌==◌, if◌then◌else◌}

abbrev pub Text : Type 0
Text = List ℕ

-- The code points of a literal.
abbrev pub text : String → Text
text String.[] = []
text (String.◌∷◌ c s) = code c ∷ text s

unfoldable pub text_eq : Text → Text → Bool
text_eq [] [] = true
text_eq (a ∷ s) (b ∷ t) = a == b && text_eq s t
text_eq [] (b ∷ t) = false
text_eq (a ∷ s) [] = false

text_eq_sound : (s t : Text) → text_eq s t ≡ true → s ≡ t
unfolding text_eq
text_eq_sound [] [] h = refl
text_eq_sound (a ∷ s) (b ∷ t) h = ground (arith, text_eq_sound s t)
text_eq_sound [] (b ∷ t) h = cc
text_eq_sound (a ∷ s) [] h = cc

text_eq_refl : (s : Text) → text_eq s s ≡ true
unfolding text_eq
text_eq_refl [] = refl
text_eq_refl (a ∷ s) = ground (arith, text_eq_refl s)

pub text_eq_iff : (s t : Text) → (text_eq s t ≡ true) ↔ (s ≡ t)
text_eq_iff s t = (text_eq_sound s t, λ e. rw e (text_eq_refl t))

-- `Vec::contains`.
unfoldable pub contains : List Text → Text → Bool
contains [] s = false
contains (t ∷ ts) s = text_eq t s || contains ts s

-- `Vec::retain(|t| t != s)`.
unfoldable pub retain_ne : Text → List Text → List Text
retain_ne s [] = []
retain_ne s (t ∷ ts) = let rest = retain_ne s ts in if text_eq t s then rest else t ∷ rest

pub contains-retain_ne : (s : Text) (ts : List Text) → contains (retain_ne s ts) s ≡ false
unfolding contains retain_ne
contains-retain_ne s [] = refl
contains-retain_ne s (t ∷ ts) = ground (arith, contains-retain_ne s ts)

pub contains-retain_ne_ne :
    (s r : Text) (ts : List Text)
    → text_eq s r ≡ false
    → contains (retain_ne s ts) r ≡ contains ts r
unfolding contains retain_ne
contains-retain_ne_ne s r [] h = refl
contains-retain_ne_ne s r (t ∷ ts) h =
    ground (arith, contains-retain_ne_ne s r ts, text_eq_iff t s, text_eq_iff t r, text_eq_iff s r)
