-- ===== src/Canvas/Changed.antt =====
-- What a change of the last path that is not required does to a list of paths.
use mathlib.Core.Option.{some-injective}
use mural.Prelude.{
  suc, ◌≡◌, refl, ap, subst, true, false, none, some, List, [], ◌∷◌, Text, text_eq, text_eq_iff,
  contains, length, arith, Bool-cases, Option-cases, inl, inr, All,
}
use mural.Wallpaper.Bag.Distinct.{Distinct}
use mural.Canvas.Tiles.{at_last_other}

-- How the list changes where the last path that is not required stands.
pub data Changed (f : Text → List Text → List Text) (required : List Text)
    : List Text → List Text → Type 0 where
  here :
      (p : Text) (rest : List Text)
      → contains required p ≡ false
      → Changed f required (p ∷ rest) (f p rest)
  later :
      (p : Text) (rest changed : List Text)
      → Changed f required rest changed
      → Changed f required (p ∷ rest) (p ∷ changed)

pub at_last_other-Changed :
    (f : Text → List Text → List Text) (required paths changed : List Text)
    → at_last_other f required paths ≡ some changed
    → Changed f required paths changed
unfolding at_last_other
at_last_other-Changed f required [] changed h = absurd (cc)
at_last_other-Changed f required (p ∷ paths) changed h =
    elim (Option-cases (at_last_other f required paths)) [
      | inr (c, e) ↦
          let same : some (p ∷ c) ≡ some changed = rw e at h in
          subst (Changed f required (p ∷ paths)) (some-injective _ _ same)
            (later p paths c (at_last_other-Changed f required paths c e))
      | inl e ↦ elim (Bool-cases (contains required p)) [
        | inl k ↦ absurd (cc (rw (e, k, at_last_other) at h))
        | inr k ↦
            let same : some (f p paths) ≡ some changed = rw (e, k) at h in
            subst (Changed f required (p ∷ paths)) (some-injective _ _ same) (here p paths k)
      ]
    ]

pub at_last_other-none :
    (f : Text → List Text → List Text) (required paths : List Text)
    → at_last_other f required paths ≡ none
    → All (λ p. contains required p ≡ true) paths
unfolding at_last_other
at_last_other-none f required [] h = tt
at_last_other-none f required (p ∷ paths) h = elim (Option-cases (at_last_other f required paths)) [
  | inr (c, e) ↦ absurd (cc (rw (e, at_last_other) at h))
  | inl e ↦ elim (Bool-cases (contains required p)) [
    | inl k ↦ (k, at_last_other-none f required paths e)
    | inr k ↦ absurd (cc (rw (e, k, at_last_other) at h))
  ]
]

module _ (path : Text) (required : List Text) where
  abbrev pub Replaced : List Text → List Text → Type 0
  Replaced = Changed (λ p rest. path ∷ rest) required

  pub length-Replaced : (ps qs : List Text) → Replaced ps qs → length qs ≡ length ps
  length-Replaced _ _ (here p rest k) = refl
  length-Replaced _ _ (later p rest changed c) = ap suc (length-Replaced rest changed c)

  pub Replaced-keeps :
      (ps qs : List Text) (r : Text)
      → Replaced ps qs
      → contains required r ≡ true
      → contains ps r ≡ true
      → contains qs r ≡ true
  unfolding contains
  Replaced-keeps _ _ r (here p rest k) h l = ground (arith, text_eq_iff p r)
  Replaced-keeps _ _ r (later p rest changed c) h l =
      ground (arith, Replaced-keeps rest changed r c h)

  pub Replaced-has : (ps qs : List Text) → Replaced ps qs → contains qs path ≡ true
  unfolding contains
  Replaced-has _ _ (here p rest k) = ground (arith, text_eq_iff path path)
  Replaced-has _ _ (later p rest changed c) = ground (arith, Replaced-has rest changed c)

  Replaced-only :
      (ps qs : List Text) (w : Text)
      → Replaced ps qs
      → contains ps w ≡ false
      → text_eq path w ≡ false
      → contains qs w ≡ false
  unfolding contains
  Replaced-only _ _ w (here p rest k) h l = ground arith
  Replaced-only _ _ w (later p rest changed c) h l = ground (arith, Replaced-only rest changed w c)

  pub Replaced-Distinct :
      (ps qs : List Text) → Replaced ps qs → contains ps path ≡ false → Distinct ps → Distinct qs
  unfolding contains
  Replaced-Distinct _ _ (here p rest k) h d = (ground arith, d.1)
  Replaced-Distinct _ _ (later p rest changed c) h d = (
    Replaced-only rest changed p c d.0 (ground (arith, text_eq_iff path p, text_eq_iff p path)),
    Replaced-Distinct rest changed c (ground arith) d.1,
  )

module _ (required : List Text) where
  abbrev pub Removed : List Text → List Text → Type 0
  Removed = Changed (λ p rest. rest) required

  pub length-Removed : (ps qs : List Text) → Removed ps qs → suc (length qs) ≡ length ps
  length-Removed _ _ (here p rest k) = refl
  length-Removed _ _ (later p rest changed c) = ap suc (length-Removed rest changed c)

  pub Removed-keeps :
      (ps qs : List Text) (r : Text)
      → Removed ps qs
      → contains required r ≡ true
      → contains ps r ≡ true
      → contains qs r ≡ true
  unfolding contains
  Removed-keeps _ _ r (here p rest k) h l = ground (arith, text_eq_iff p r)
  Removed-keeps _ _ r (later p rest changed c) h l =
      ground (arith, Removed-keeps rest changed r c h)

  Removed-only :
      (ps qs : List Text) (w : Text) → Removed ps qs → contains ps w ≡ false → contains qs w ≡ false
  unfolding contains
  Removed-only _ _ w (here p rest k) h = ground arith
  Removed-only _ _ w (later p rest changed c) h = ground (arith, Removed-only rest changed w c)

  pub Removed-Distinct : (ps qs : List Text) → Removed ps qs → Distinct ps → Distinct qs
  unfolding contains
  Removed-Distinct _ _ (here p rest k) d = d.1
  Removed-Distinct _ _ (later p rest changed c) d =
      (Removed-only rest changed p c d.0, Removed-Distinct rest changed c d.1)
