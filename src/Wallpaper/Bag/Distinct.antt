-- ===== src/Wallpaper/Bag/Distinct.antt =====
-- Lists of paths without repetition, and how many entries they can have.
use mathlib.Core.List.{Permᴰ, Perm}
use mathlib.Core.Logic.{∥∥₁_elim}
use mathlib.Core.Bool.{Bool-set}
use mural.Prelude.{
  ◌≤◌, ◌<◌, ◌≡◌, refl, ◌∙◌, true, false, ◌||◌, List, [], ◌∷◌, ◌++◌, Text, text_eq, text_eq_iff,
  contains, retain_ne, contains-retain_ne_ne, arith, length, All, All-map,
}

-- No entry occurs again behind itself.
abbrev pub Distinct : List Text → Type 0
Distinct [] = Unit
Distinct (w ∷ ws) = (contains ws w ≡ false) × Distinct ws

pub contains-append :
    (ws : List Text) (v w : Text) → contains (ws ++ (v ∷ [])) w ≡ (contains ws w || text_eq v w)
unfolding contains
contains-append [] v w = ground arith
contains-append (x ∷ ws) v w = ground (arith, contains-append ws v w)

pub Distinct-append :
    (ws : List Text) (v : Text) → Distinct ws → contains ws v ≡ false → Distinct (ws ++ (v ∷ []))
unfolding contains
Distinct-append [] v d h = (refl, tt)
Distinct-append (w ∷ ws) v d h = (
  ground (arith, contains-append ws v w, text_eq_iff v w, text_eq_iff w v),
  Distinct-append ws v d.1 (ground arith),
)

length-retain_ne-le : (s : Text) (ts : List Text) → length (retain_ne s ts) ≤ length ts
unfolding retain_ne
length-retain_ne-le s [] = omega arith
length-retain_ne-le s (t ∷ ts) = ground (arith, length-retain_ne-le s ts)

length-retain_ne-lt :
    (s : Text) (ts : List Text) → contains ts s ≡ true → length (retain_ne s ts) < length ts
unfolding retain_ne contains
length-retain_ne-lt s [] h = absurd (cc)
length-retain_ne-lt s (t ∷ ts) h =
    ground (arith, length-retain_ne-le s ts, length-retain_ne-lt s ts)

-- What is listed and is not `x` is still listed without `x`.
listed_without :
    (x : Text) (xs ys : List Text)
    → contains xs x ≡ false
    → All (λ w. contains ys w ≡ true) xs
    → All (λ w. contains (retain_ne x ys) w ≡ true) xs
unfolding contains
listed_without x [] ys h k = tt
listed_without x (w ∷ xs) ys h k = (
  ground (arith, contains-retain_ne_ne x w ys, text_eq_iff x w, text_eq_iff w x),
  listed_without x xs ys (ground arith) k.1,
)

-- The pigeonhole principle.
pub length-le_of_Distinct :
    (xs ys : List Text) → Distinct xs → All (λ w. contains ys w ≡ true) xs → length xs ≤ length ys
length-le_of_Distinct [] ys d h = omega arith
length-le_of_Distinct (x ∷ xs) ys d h = omega (
  arith,
  length-le_of_Distinct xs (retain_ne x ys) d.1 (listed_without x xs ys d.0 h.1),
  length-retain_ne-lt x ys h.0,
)

contains-permᴰ : (w : Text) {xs ys : List Text} → Permᴰ xs ys → contains xs w ≡ contains ys w
unfolding contains
contains-permᴰ w Permᴰ.nil = refl
contains-permᴰ w (Permᴰ.cons e d) = cc (contains-permᴰ w d)
contains-permᴰ w (Permᴰ.swap {a = a} {b = b} {l = l} e f) = rw (e, f) (ground arith)
contains-permᴰ w (Permᴰ.trans d e) = contains-permᴰ w d ∙ contains-permᴰ w e

-- A permutation contains the same paths.
pub contains-perm : (w : Text) {xs ys : List Text} → Perm xs ys → contains xs w ≡ contains ys w
contains-perm w p = ∥∥₁_elim p (Bool-set _ _) (contains-permᴰ w)

pub contains-append_right :
    (xs ys : List Text) (w : Text) → contains ys w ≡ true → contains (xs ++ ys) w ≡ true
unfolding contains
contains-append_right [] ys w h = h
contains-append_right (x ∷ xs) ys w h = ground (arith, contains-append_right xs ys w h)

-- A list contains each of its entries.
pub All-contains : (xs : List Text) → All (λ w. contains xs w ≡ true) xs
unfolding contains
All-contains [] = tt
All-contains (x ∷ xs) = (
  ground (arith, text_eq_iff x x),
  All-map (λ w. contains xs w ≡ true) (λ w. (text_eq x w || contains xs w) ≡ true) xs
      (λ w h. ground arith) (All-contains xs),
)
