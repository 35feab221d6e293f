-- ===== src/Canvas/Placed.antt =====
-- The arrangement loses no path and shows none twice.
use mathlib.Core.List.{Perm, perm_middle, perm-append_left_iff, append-nil}
use mathlib.Core.List.Perm
use mural.Prelude.{
  ℕ, zero, suc, ◌+◌, ◌-◌, ◌≤◌, ◌<◌, min, ◌≡◌, refl, ap, subst, ◌∙◌, true, false, ◌&&◌, Option, none,
  some, List, [], ◌∷◌, ◌++◌, Text, leb, length, set, replicate, arith, tests, Bool-cases, inl, inr,
}
use mural.Canvas.Slots.{
  Slots, Grid, CanvasTileArrange, is_free, search_from, nearest_free_canvas_slot, place_all, filled,
  preferred_slot, arrange_canvas_tile_paths, canvas_walk_axis, is_horizontal, anchor_index_of,
}

-- The slots that are free.
abbrev free : Slots → ℕ
free [] = 0
free (none ∷ slots) = suc (free slots)
free (some p ∷ slots) = free slots

is_free-lt : (slots : Slots) (i : ℕ) → is_free slots i ≡ true → i < length slots
is_free-lt [] i h = absurd (cc)
is_free-lt (none ∷ slots) zero h = omega arith
is_free-lt (some p ∷ slots) zero h = omega arith
is_free-lt (none ∷ slots) (suc i) h = omega (arith, is_free-lt slots i h)
is_free-lt (some p ∷ slots) (suc i) h = omega (arith, is_free-lt slots i h)

filled-set :
    (slots : Slots) (i : ℕ) (p : Text)
    → is_free slots i ≡ true
    → Perm (filled (set slots i (some p))) (p ∷ filled slots)
unfolding filled
filled-set [] i p h = absurd (cc)
filled-set (none ∷ slots) zero p h = Perm.refl _
filled-set (some q ∷ slots) zero p h = absurd (cc)
filled-set (none ∷ slots) (suc i) p h = filled-set slots i p h
filled-set (some q ∷ slots) (suc i) p h =
    Perm.trans (Perm.cons q (filled-set slots i p h)) (Perm.swap p q (filled slots))

free-set :
    (slots : Slots) (i : ℕ) (p : Text)
    → is_free slots i ≡ true
    → suc (free (set slots i (some p))) ≡ free slots
free-set [] i p h = absurd (cc)
free-set (none ∷ slots) zero p h = refl
free-set (some q ∷ slots) zero p h = absurd (cc)
free-set (none ∷ slots) (suc i) p h = ap suc (free-set slots i p h)
free-set (some q ∷ slots) (suc i) p h = free-set slots i p h

-- Where one slot is free, it has an index.
some_free : (slots : Slots) → 0 < free slots → (i : ℕ) × (is_free slots i ≡ true)
some_free [] h = absurd (omega arith)
some_free (none ∷ slots) h = (0, refl)
some_free (some p ∷ slots) h = let (i, e) = some_free slots h in (suc i, e)

abbrev apart : ℕ → ℕ → ℕ
apart i at = (i - at) + (at - i)

-- A free slot that is at least `distance` away and not at that distance is further away.
further_away :
    (slots : Slots) (at distance i : ℕ)
    → is_free slots i ≡ true
    → (leb distance at && is_free slots (at - distance)) ≡ false
    → is_free slots (at + distance) ≡ false
    → distance ≤ apart i at
    → distance + 1 ≤ apart i at
further_away slots at distance i h e f l = elim (Bool-cases (leb (distance + 1) (apart i at))) [
  | inl k ↦ omega (tests, k)
  | inr k ↦ elim (Bool-cases (leb i at)) [
    | inl m ↦
        let here : at - distance ≡ i = omega (tests, k, m) in
        let le : leb distance at ≡ true = ground (arith, k, m) in absurd (cc (rw (le, here) at e))
    | inr m ↦ let here : at + distance ≡ i = omega (tests, k, m) in absurd (cc (rw here at f))
  ]
]

-- The search meets a free slot within its range of distances.
search_from-free :
    (rounds : ℕ) (slots : Slots) (at distance i : ℕ)
    → is_free slots i ≡ true
    → distance ≤ apart i at
    → apart i at < distance + rounds
    → is_free slots (search_from rounds slots at distance) ≡ true
unfolding search_from
search_from-free zero slots at distance i h l u = absurd (omega arith)
search_from-free (suc rounds) slots at distance i h l u =
    elim (Bool-cases (leb distance at && is_free slots (at - distance))) [
      | inl e ↦ rw (e, search_from) (ground arith)
      | inr e ↦ elim (Bool-cases (is_free slots (at + distance))) [
        | inl f ↦ rw (e, f, search_from) f
        | inr f ↦
            rw (e, f, search_from)
              (search_from-free rounds slots at (distance + 1) i h
                (further_away slots at distance i h e f l) (omega arith))
      ]
    ]

nearest-free :
    (slots : Slots) (preferred : ℕ)
    → 0 < free slots
    → is_free slots (nearest_free_canvas_slot slots preferred) ≡ true
unfolding nearest_free_canvas_slot
nearest-free [] preferred h = absurd (omega arith)
nearest-free (s ∷ slots) preferred h =
    let at = min preferred (suc (length slots) - 1) in
    elim (Bool-cases (is_free (s ∷ slots) at)) [
      | inl e ↦ rw (e, nearest_free_canvas_slot) e
      | inr e ↦
          let (i, f) = some_free (s ∷ slots) h in
          let elsewhere : 1 ≤ apart i at = elim (Bool-cases (leb 1 (apart i at))) [
            | inl k ↦ omega (tests, k)
            | inr k ↦
                let here : at ≡ i = omega (tests, k) in
                let taken : is_free (s ∷ slots) i ≡ false =
                  subst (λ j. is_free (s ∷ slots) j ≡ false) here e in
                absurd (cc)
          ] in
          rw (e, nearest_free_canvas_slot)
            (search_from-free (suc (length slots) - 1) (s ∷ slots) at 1 i f elsewhere
              (omega (arith, is_free-lt (s ∷ slots) i f)))
    ]

module _ (spec : CanvasTileArrange) (grid : Grid) (anchor : Option ℕ) (len : ℕ) where
  place_all-perm :
      (index : ℕ) (paths : List Text) (slots : Slots)
      → length paths ≤ free slots
      → Perm (filled (place_all spec grid anchor len index paths slots)) (paths ++ filled slots)
  unfolding place_all
  place_all-perm index [] slots h = Perm.refl _
  place_all-perm index (p ∷ paths) slots h =
      let slot = nearest_free_canvas_slot slots (preferred_slot spec grid anchor len index) in
      let e = nearest-free slots (preferred_slot spec grid anchor len index) (omega arith) in
      Perm.trans
        (place_all-perm (index + 1) paths (set slots slot (some p))
          (omega (arith, free-set slots slot p e)))
        (Perm.trans ((perm-append_left_iff paths).1 (filled-set slots slot p e))
          (perm_middle paths (filled slots)))

free-replicate : (n : ℕ) → free (replicate n none) ≡ n
free-replicate zero = refl
free-replicate (suc n) = ap suc (free-replicate n)

filled-replicate : (n : ℕ) → filled (replicate n none) ≡ []
unfolding filled
filled-replicate zero = refl
filled-replicate (suc n) = filled-replicate n

-- Whatever grid and focus margin the overview has, arranging the tiles of a canvas permutes their
-- paths: none is lost, and none is shown more often than it was given.
pub arrange-perm :
    (paths : List Text) (spec : CanvasTileArrange)
    → Perm (arrange_canvas_tile_paths paths spec) paths
unfolding arrange_canvas_tile_paths
arrange-perm paths spec = elim (Bool-cases (leb (length paths) 1)) [
  | inl e ↦ rw (e, arrange_canvas_tile_paths) (Perm.refl paths)
  | inr e ↦
      let axis = canvas_walk_axis spec.pan_axis spec.output in
      let grid = spec.overview_grid (length paths) (is_horizontal axis) in
      let all : paths ++ filled (replicate (length paths) none) ≡ paths =
        ap (◌++◌ paths) (filled-replicate (length paths)) ∙ append-nil paths in
      rw (e, arrange_canvas_tile_paths)
        (subst (Perm _) all (
          place_all-perm spec grid (anchor_index_of paths spec) (length paths) 0 paths
            (replicate (length paths) none) (omega (arith, free-replicate (length paths)))))
]
