-- ===== src/Canvas/Shown.antt =====
-- The old wallpaper and the target keep their place among the tiles.
use mural.Prelude.{
  ℕ, zero, suc, ◌≤◌, ◌≡◌, true, false, Option, none, some, List, [], ◌∷◌, ◌++◌, Text, text_eq_iff,
  contains, leb, ltb, length, arith, tests, Bool-cases, Option-cases, inl, inr, All,
}
use mural.Wallpaper.Layout.{is_empty}
use mural.Wallpaper.Bag.Distinct.{
  Distinct, Distinct-append, contains-append, length-le_of_Distinct, All-contains,
}
use mural.Canvas.Tiles.{
  clamped, required_paths, join_new, gather, at_last_other, require, require_each, remove_one,
  shrink, canvas_tile_paths, or_push, or_tail,
}
use mural.Canvas.Changed.{
  Changed, at_last_other-Changed, at_last_other-none, Replaced-keeps, Replaced-has,
  Replaced-Distinct, length-Removed, Removed-keeps, Removed-Distinct,
}

join_new-Distinct : (paths : List Text) (p : Text) → Distinct paths → Distinct (join_new paths p)
join_new-Distinct paths p d = ground (arith, Distinct-append paths p d)

gather-Distinct :
    (n : ℕ) (preview paths : List Text) → Distinct paths → Distinct (gather n preview paths)
unfolding gather
gather-Distinct n [] paths d = d
gather-Distinct n (p ∷ preview) paths d = elim (Bool-cases (is_empty p)) [
  | inl e ↦ rw (e, gather) (gather-Distinct n preview paths d)
  | inr e ↦ elim (Bool-cases (leb n (length (join_new paths p)))) [
    | inl f ↦ rw (e, f, gather) (join_new-Distinct paths p d)
    | inr f ↦
        rw (e, f, gather)
          (gather-Distinct n preview (join_new paths p) (join_new-Distinct paths p d))
  ]
]

-- The required paths that are there are kept, and no path comes twice.
record Kept (required ps qs : List Text) : Type 0 where
  kept : (r : Text) → contains required r ≡ true → contains ps r ≡ true → contains qs r ≡ true
  distinct : Distinct ps → Distinct qs

Kept-append :
    (required ps : List Text) (path : Text)
    → contains ps path ≡ false
    → Kept required ps (ps ++ (path ∷ []))
Kept-append required ps path h = record {
  kept = λ r k l. ground (arith, contains-append ps path r);
  distinct = λ d. Distinct-append ps path d h;
}

append-has : (ps : List Text) (path : Text) → contains (ps ++ (path ∷ [])) path ≡ true
append-has ps path = ground (arith, contains-append ps path path, text_eq_iff path path)

record Joined (required ps : List Text) (path : Text) (qs : List Text) : Type 0 where
  keeps : Kept required ps qs
  has : contains qs path ≡ true

Joined-append :
    (required ps : List Text) (path : Text)
    → contains ps path ≡ false
    → Joined required ps path (ps ++ (path ∷ []))
Joined-append required ps path h = record {
  keeps = Kept-append required ps path h;
  has = append-has ps path;
}

require-Joined :
    (n : ℕ) (required paths : List Text) (path : Text)
    → Joined required paths path (require n required paths path)
unfolding require or_push
require-Joined n required paths path = elim (Bool-cases (contains paths path)) [
  | inl e ↦
      rw (e, require) (record { keeps = record { kept = λ r k l. l; distinct = λ d. d }; has = e })
  | inr e ↦ elim (Bool-cases (ltb (length paths) n)) [
    | inl f ↦ rw (e, f, require) (Joined-append required paths path e)
    | inr f ↦ elim (Option-cases (at_last_other (λ p rest. path ∷ rest) required paths)) [
      | inl g ↦ rw (e, f, g, require) (Joined-append required paths path e)
      | inr (qs, g) ↦
          let c = at_last_other-Changed (λ p rest. path ∷ rest) required paths qs g in
          rw (e, f, g, require)
            (record {
              keeps = record {
                kept = λ r k l. Replaced-keeps path required paths qs r c k l;
                distinct = λ d. Replaced-Distinct path required paths qs c e d;
              };
              has = Replaced-has path required paths qs c;
            })
    ]
  ]
]

-- Every path of `rs` is required and there.
abbrev Present : List Text → List Text → Type 0
Present rs paths = All (λ r. contains paths r ≡ true) rs

require_each-kept :
    (n : ℕ) (required rs paths : List Text) (r : Text)
    → contains required r ≡ true
    → contains paths r ≡ true
    → contains (require_each n required rs paths) r ≡ true
unfolding require_each
require_each-kept n required [] paths r k l = l
require_each-kept n required (q ∷ rs) paths r k l =
    require_each-kept n required rs (require n required paths q) r k
      ((require-Joined n required paths q).keeps.kept r k l)

require_each-Present :
    (n : ℕ) (required rs paths : List Text)
    → All (λ r. contains required r ≡ true) rs
    → Present rs (require_each n required rs paths)
unfolding require_each
require_each-Present n required [] paths h = tt
require_each-Present n required (q ∷ rs) paths h = (
  require_each-kept n required rs (require n required paths q) q h.0
      (require-Joined n required paths q).has,
  require_each-Present n required rs (require n required paths q) h.1,
)

require_each-Distinct :
    (n : ℕ) (required rs paths : List Text)
    → Distinct paths
    → Distinct (require_each n required rs paths)
unfolding require_each
require_each-Distinct n required [] paths d = d
require_each-Distinct n required (q ∷ rs) paths d =
    require_each-Distinct n required rs (require n required paths q)
      ((require-Joined n required paths q).keeps.distinct d)

-- What the tiles are in the end.
pub record AreTiles (n : ℕ) (required paths : List Text) : Type 0 where
  pub present : All (λ r. contains paths r ≡ true) required
  pub distinct : Distinct paths
  pub few : length paths ≤ n

Present-Removed :
    (required rs ps qs : List Text)
    → All (λ r. contains required r ≡ true) rs
    → Changed (λ p rest. rest) required ps qs
    → Present rs ps
    → Present rs qs
Present-Removed required [] ps qs k c h = tt
Present-Removed required (r ∷ rs) ps qs k c h =
    (Removed-keeps required ps qs r c k.0 h.0, Present-Removed required rs ps qs k.1 c h.1)

shrink-AreTiles :
    (fuel n : ℕ) (required paths : List Text)
    → length required ≤ n
    → Present required paths
    → Distinct paths
    → length paths ≤ fuel
    → AreTiles n required (shrink fuel n required paths)
unfolding shrink remove_one or_tail
shrink-AreTiles zero n required paths l h d f = record {
  present = h;
  distinct = d;
  few = omega arith;
}
shrink-AreTiles (suc fuel) n required paths l h d f = elim (Bool-cases (ltb n (length paths))) [
  | inr e ↦ rw (e, shrink) (record { present = h; distinct = d; few = omega (tests, e) })
  | inl e ↦ elim (Option-cases (at_last_other (λ p rest. rest) required paths)) [
    | inl g ↦
        let few = length-le_of_Distinct paths required d (at_last_other-none _ required paths g) in
        absurd (omega (tests, e, few))
    | inr (qs, g) ↦
        let c = at_last_other-Changed (λ p rest. rest) required paths qs g in
        rw (e, g, shrink)
          (shrink-AreTiles fuel n required qs l
            (Present-Removed required required paths qs (All-contains required) c h)
            (Removed-Distinct required paths qs c d)
            (omega (arith, length-Removed required paths qs c)))
  ]
]

length-required_paths : (old : Option Text) (target : Text) → length (required_paths old target) ≤ 2
length-required_paths none [] = omega arith
length-required_paths none (c ∷ target) = omega arith
length-required_paths (some []) [] = omega arith
length-required_paths (some []) (c ∷ target) = omega arith
length-required_paths (some (d ∷ old)) [] = omega arith
length-required_paths (some (d ∷ old)) (c ∷ target) = omega arith

-- For a tile count of at least 2, canvas_tile_paths gives distinct paths, at most as many as the
-- clamped tile count, and both the old path and the target are among them, unless they are empty.
pub canvas_tile_paths-AreTiles :
    (preview : List Text) (old : Option Text) (target : Text) (tile_count : ℕ)
    → 2 ≤ tile_count
    → AreTiles
        (clamped tile_count)
        (required_paths old target)
        (canvas_tile_paths preview old target tile_count)
unfolding canvas_tile_paths
canvas_tile_paths-AreTiles preview old target tile_count h =
    let n = clamped tile_count in
    let required = required_paths old target in
    let paths = require_each n required required (gather n preview []) in
    shrink-AreTiles (length paths) n required paths
      (omega (arith, length-required_paths old target))
      (require_each-Present n required required (gather n preview []) (All-contains required))
      (require_each-Distinct n required required (gather n preview [])
        (gather-Distinct n preview [] tt))
      (omega arith)
