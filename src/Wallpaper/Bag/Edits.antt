-- ===== src/Wallpaper/Bag/Edits.antt =====
-- Lists that are edited at a place: what is read after a write, in front and behind, and how often a
-- path occurs.
use mathlib.Core.List.{Permᴰ, Perm}
use mathlib.Core.Logic.{∥∥₁_elim}
use mural.Prelude.{
  ℕ, zero, suc, ◌+◌, ◌<◌, ◌≡◌, refl, ap, ◌∙◌, true, some, List, [], ◌∷◌, ◌++◌, Text, text_eq,
  text_eq_iff, arith, length, get_elem?, set, Bool-cases, inl, inr,
}
use mural.Wallpaper.Bag.Weights.{occurrences}

module _ {ℓ} {A : Type ℓ} where
  pub get-append_left :
      (xs ys : List A) (i : ℕ) → i < length xs → get_elem? (xs ++ ys) i ≡ get_elem? xs i
  get-append_left [] ys i h = absurd (omega arith)
  get-append_left (x ∷ xs) ys zero h = refl
  get-append_left (x ∷ xs) ys (suc i) h = get-append_left xs ys i (omega arith)

  pub get-append_at :
      (xs : List A) (a : A) (ys : List A) → get_elem? (xs ++ (a ∷ ys)) (length xs) ≡ some a
  get-append_at [] a ys = refl
  get-append_at (x ∷ xs) a ys = get-append_at xs a ys

  pub set-append_left :
      (xs ys : List A) (i : ℕ) (v : A) → i < length xs → set (xs ++ ys) i v ≡ set xs i v ++ ys
  set-append_left [] ys i v h = absurd (omega arith)
  set-append_left (x ∷ xs) ys zero v h = refl
  set-append_left (x ∷ xs) ys (suc i) v h = ap (◌∷◌ x) (set-append_left xs ys i v (omega arith))

  pub set-append_at :
      (xs : List A) (a v : A) (ys : List A) → set (xs ++ (a ∷ ys)) (length xs) v ≡ xs ++ (v ∷ ys)
  set-append_at [] a v ys = refl
  set-append_at (x ∷ xs) a v ys = ap (◌∷◌ x) (set-append_at xs a v ys)

  pub append-one : (xs : List A) (a : A) (ys : List A) → (xs ++ (a ∷ [])) ++ ys ≡ xs ++ (a ∷ ys)
  append-one [] a ys = refl
  append-one (x ∷ xs) a ys = ap (◌∷◌ x) (append-one xs a ys)

  -- A list that is not empty, as its last entry behind the others.
  pub last_of : (xs : List A) → 0 < length xs → (ys : List A) × (a : A) × (xs ≡ ys ++ (a ∷ []))
  last_of [] h = absurd (omega arith)
  last_of (x ∷ []) h = ([], x, refl)
  last_of (x ∷ (y ∷ xs)) h =
      let r = last_of (y ∷ xs) (omega arith) in (x ∷ r.0, r.1, ap (◌∷◌ x) r.2)

pub occurrences-set :
    (w : Text) (xs : List Text) (i : ℕ) (u v : Text)
    → get_elem? xs i ≡ some u
    → occurrences w (set xs i v) + occurrences w (u ∷ [])
      ≡ occurrences w xs + occurrences w (v ∷ [])
occurrences-set w [] i u v h = absurd cc
occurrences-set w (x ∷ xs) zero u v h = let e : x ≡ u = cc in rw e (omega arith)
occurrences-set w (x ∷ xs) (suc i) u v h = omega (arith, occurrences-set w xs i u v h)

-- Where a path that occurs stands.
pub place_of :
    (w : Text) (xs : List Text)
    → 0 < occurrences w xs
    → (i : ℕ) × (i < length xs) × (get_elem? xs i ≡ some w)
place_of w [] h = absurd (omega arith)
place_of w (x ∷ xs) h = elim (Bool-cases (text_eq x w)) [
  | inl e ↦ (0, omega arith, ap some ((text_eq_iff x w).0 e))
  | inr e ↦ let r = place_of w xs (ground (arith, h)) in (suc r.0, omega arith, r.2)
]

pub occurrences_self : (w : Text) → occurrences w (w ∷ []) ≡ 1
occurrences_self w = let e : text_eq w w ≡ true = (text_eq_iff w w).1 refl in rw e refl

length-permᴰ : {xs ys : List Text} → Permᴰ xs ys → length xs ≡ length ys
length-permᴰ Permᴰ.nil = refl
length-permᴰ (Permᴰ.cons e d) = ap suc (length-permᴰ d)
length-permᴰ (Permᴰ.swap e f) = omega (arith, ap length e, ap length f)
length-permᴰ (Permᴰ.trans d e) = length-permᴰ d ∙ length-permᴰ e

pub length-perm : {xs ys : List Text} → Perm xs ys → length xs ≡ length ys
length-perm p = ∥∥₁_elim p (hlevel) length-permᴰ

pub append_nil : (xs : List Text) → xs ++ [] ≡ xs
append_nil [] = refl
append_nil (x ∷ xs) = ap (◌∷◌ x) (append_nil xs)
