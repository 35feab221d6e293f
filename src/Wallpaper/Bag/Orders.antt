-- ===== src/Wallpaper/Bag/Orders.antt =====
-- The orders that `WallpaperControl::shuffle` of wallpaper.rs can give a list of paths.
use mathlib.Core.List.{Perm}
use mural.Prelude.{
  ℕ, zero, suc, ◌+◌, ◌-◌, ◌≤◌, ◌<◌, ◌≡◌, refl, sym, ap, subst, ◌∙◌, some, List, [], ◌∷◌, ◌++◌, Text,
  text_eq, text_eq_iff, arith, length, length-append, get_elem?, set, length-set, Bool-cases, inl,
  inr, ltb, tests,
}
use mural.Wallpaper.Rng.{SimpleRng, next_usize, next_usize-lt}
use mural.Wallpaper.Shuffle.{swap, swap-some, shuffle_down, shuffle}
use mural.Wallpaper.Bag.Edits.{
  get-append_left, get-append_at, set-append_left, set-append_at, append-one, last_of,
  occurrences-set, place_of, occurrences_self, length-perm, append_nil,
}
use mural.Wallpaper.Bag.Weights.{occurrences, occurrences-append, occurrences-perm}

-- The indices that the generator draws for index = k, …, 1.
abbrev pub draws : ℕ → SimpleRng → List ℕ
draws zero rng = []
draws (suc k) rng = let n = next_usize rng (suc k + 1) in n.0 ∷ draws k n.1

-- Each index is at most the one it is swapped with.
abbrev pub AreDraws : List ℕ → Type 0
AreDraws [] = Unit {0}
AreDraws (d ∷ ds) = (d ≤ length ds + 1) × AreDraws ds

-- The swaps of a list with the indices that were drawn.
abbrev pub swapped {ℓ} : {A : Type ℓ} → List ℕ → List A → List A
swapped [] xs = xs
swapped (d ∷ ds) xs = swapped ds (swap xs (length ds + 1) d)

length-draws : (k : ℕ) (rng : SimpleRng) → length (draws k rng) ≡ k
length-draws zero rng = refl
length-draws (suc k) rng = ap suc (length-draws k (next_usize rng (suc k + 1)).1)

draws-AreDraws : (k : ℕ) (rng : SimpleRng) → AreDraws (draws k rng)
draws-AreDraws zero rng = tt
draws-AreDraws (suc k) rng =
    let n = next_usize rng (suc k + 1) in
    (
      omega (arith, next_usize-lt rng (suc k + 1) (omega arith), length-draws k n.1),
      draws-AreDraws k n.1,
    )

shuffle_down-swapped :
    {A : Type 0} (k : ℕ) (rng : SimpleRng) (xs : List A)
    → (shuffle_down k rng xs).0 ≡ swapped (draws k rng) xs
unfolding shuffle_down
shuffle_down-swapped zero rng xs = refl
shuffle_down-swapped (suc k) rng xs =
    let n = next_usize rng (suc k + 1) in
    let e : length (draws k n.1) + 1 ≡ suc k = omega (arith, length-draws k n.1) in
    shuffle_down-swapped k n.1 (swap xs (suc k) n.0)
    ∙ ap (λ i. swapped (draws k n.1) (swap xs i n.0)) (sym e)

-- A swap of the entry at the end of the part in question with the entry `y` puts `y` there, and
-- moves `x` into what is in front of it.
record Swapped (xs : List Text) (x y : Text) (zs : List Text) (j : ℕ) : Type 0 where
  front : List Text
  same_length : length front ≡ length xs
  moved :
      (w : Text)
      → occurrences w front + occurrences w (y ∷ []) ≡ occurrences w xs + occurrences w (x ∷ [])
  result : swap (xs ++ (x ∷ zs)) (length xs) j ≡ front ++ (y ∷ zs)

swap_last :
    (xs : List Text) (x y : Text) (zs : List Text) (j : ℕ)
    → j ≤ length xs
    → get_elem? (xs ++ (x ∷ zs)) j ≡ some y
    → Swapped xs x y zs j
swap_last xs x y zs j h g = elim (Bool-cases (ltb j (length xs))) [
  | inl e ↦
      let inside : j < length xs = omega (tests, e) in
      let there : get_elem? xs j ≡ some y = sym (get-append_left xs (x ∷ zs) j inside) ∙ g in
      record {
        front = set xs j x;
        same_length = length-set xs j x;
        moved = λ w. occurrences-set w xs j y x there;
        result =
            swap-some (xs ++ (x ∷ zs)) (length xs) j x y (get-append_at xs x zs) g
            ∙ ap (λ l. set l j x) (set-append_at xs x y zs)
            ∙ set-append_left xs (y ∷ zs) j x inside;
      }
  | inr e ↦
      let last : j ≡ length xs = omega (tests, e, h) in
      let at : get_elem? (xs ++ (x ∷ zs)) (length xs) ≡ some y =
        ap (get_elem? (xs ++ (x ∷ zs))) (sym last) ∙ g in
      let same : x ≡ y = (let p = get-append_at xs x zs in cc) in
      record {
        front = xs;
        same_length = refl;
        moved = λ w. ap (λ v. occurrences w xs + occurrences w (v ∷ [])) (sym same);
        result =
            ap (swap (xs ++ (x ∷ zs)) (length xs)) last
            ∙ swap-some (xs ++ (x ∷ zs)) (length xs) (length xs) x y (get-append_at xs x zs) at
            ∙ ap (λ l. set l (length xs) x) (set-append_at xs x y zs)
            ∙ set-append_at xs y x zs
            ∙ ap (λ v. xs ++ (v ∷ zs)) same;
      }
]

-- Draws that turn a list into another, with what stands behind them.
record Reached (k : ℕ) (xs ys zs : List Text) : Type 0 where
  indices : List ℕ
  as_many : length indices ≡ k
  drawn : AreDraws indices
  turned : swapped indices (xs ++ zs) ≡ ys ++ zs

only : (xs : List Text) → length xs ≡ 1 → (a : Text) × (xs ≡ a ∷ [])
only [] h = absurd (omega arith)
only (x ∷ []) h = (x, refl)
only (x ∷ (y ∷ xs)) h = absurd (omega arith)

same_one : (x y : Text) → occurrences x (x ∷ []) ≡ occurrences x (y ∷ []) → y ≡ x
same_one x y h = elim (Bool-cases (text_eq y x)) [
  | inl e ↦ (text_eq_iff y x).0 e
  | inr e ↦ absurd (ground (arith, occurrences_self x, h, e))
]

-- The last entry of the second list is brought behind the others, which the rest of the draws turn.
reach_behind :
    (k : ℕ) (xs : List Text) (x : Text) (ys : List Text) (y : Text) (zs : List Text)
    → length xs ≡ suc k
    → ((w : Text)
        → occurrences w xs + occurrences w (x ∷ []) ≡ occurrences w ys + occurrences w (y ∷ []))
    → ((front : List Text)
        → length front ≡ suc k
        → ((w : Text) → occurrences w front ≡ occurrences w ys)
        → Reached k front ys (y ∷ zs))
    → Reached (suc k) (xs ++ (x ∷ [])) (ys ++ (y ∷ [])) zs
reach_behind k xs x ys y zs h same front_reached =
    let whole = xs ++ (x ∷ []) in
    let many : length whole ≡ suc (suc k) = omega (arith, length-append xs (x ∷ []), h) in
    let found =
      place_of y whole
        (omega (arith, same y, occurrences-append y xs (x ∷ []), occurrences_self y)) in
    let j = found.0 in
    let split : whole ++ zs ≡ xs ++ (x ∷ zs) = append-one xs x zs in
    let there : get_elem? (xs ++ (x ∷ zs)) j ≡ some y =
      ap (λ l. get_elem? l j) (sym split) ∙ get-append_left whole zs j found.1 ∙ found.2 in
    let s = swap_last xs x y zs j (omega (arith, found.1, h, many)) there in
    let r = front_reached s.front (s.same_length ∙ h) (λ w. omega (arith, s.moved w, same w)) in
    let end : length r.indices + 1 ≡ length xs = omega (arith, r.as_many, h) in
    record {
      indices = j ∷ r.indices;
      as_many = ap suc r.as_many;
      drawn = (omega (arith, found.1, many, r.as_many), r.drawn);
      turned =
          ap (λ n. swapped r.indices (swap (whole ++ zs) n j)) end
          ∙ ap (λ l. swapped r.indices (swap l (length xs) j)) split
          ∙ ap (swapped r.indices) s.result
          ∙ r.turned
          ∙ sym (append-one ys y zs);
    }

-- A list of paths is turned into each other list with the same paths.
reach :
    (k : ℕ) (xs ys zs : List Text)
    → length xs ≡ suc k
    → length ys ≡ suc k
    → ((w : Text) → occurrences w xs ≡ occurrences w ys)
    → Reached k xs ys zs
reach zero xs ys zs h i same =
    let p = only xs h in
    let q = only ys i in
    let one : q.0 ≡ p.0 =
      same_one p.0 q.0 (ap (occurrences p.0) (sym p.1) ∙ same p.0 ∙ ap (occurrences p.0) q.1) in
    record {
      indices = [];
      as_many = refl;
      drawn = tt;
      turned = ap (λ l. l ++ zs) (p.1 ∙ ap (λ v. v ∷ []) (sym one) ∙ sym q.1);
    }
reach (suc k) xs ys zs h i same =
    let a = last_of xs (omega arith) in
    let b = last_of ys (omega arith) in
    let front_a : length a.0 ≡ suc k =
      omega (arith, ap length a.2, length-append a.0 (a.1 ∷ []), h) in
    let front_b : length b.0 ≡ suc k =
      omega (arith, ap length b.2, length-append b.0 (b.1 ∷ []), i) in
    let r =
      reach_behind k a.0 a.1 b.0 b.1 zs front_a
        (λ w.
          sym (occurrences-append w a.0 (a.1 ∷ []))
          ∙ ap (occurrences w) (sym a.2)
          ∙ same w
          ∙ ap (occurrences w) b.2
          ∙ occurrences-append w b.0 (b.1 ∷ []))
        (λ front l same'. reach k front b.0 (b.1 ∷ zs) l front_b same') in
    subst (λ l. Reached (suc k) l ys zs) (sym a.2)
      (subst (λ l. Reached (suc k) (a.0 ++ (a.1 ∷ [])) l zs) (sym b.2) r)

-- Draws of the shuffle of `xs` that give `ys`.
abbrev pub Turns : List Text → List Text → Type 0
Turns xs ys = (ds : List ℕ) × (length ds ≡ length xs - 1) × AreDraws ds × (swapped ds xs ≡ ys)

reaches :
    (xs ys : List Text)
    → length xs ≡ length ys
    → ((w : Text) → occurrences w xs ≡ occurrences w ys)
    → Turns xs ys
reaches [] [] l same = ([], refl, tt, refl)
reaches [] (y ∷ ys) l same = absurd (omega arith)
reaches (x ∷ xs) [] l same = absurd (omega arith)
reaches (x ∷ xs) (y ∷ ys) l same =
    let r = reach (length xs) (x ∷ xs) (y ∷ ys) [] refl (sym l) same in
    (
      r.indices,
      omega (arith, r.as_many),
      r.drawn,
      ap (swapped r.indices) (sym (append_nil (x ∷ xs))) ∙ r.turned ∙ append_nil (y ∷ ys),
    )

-- For a list of n paths and a permutation of it: the shuffle swaps the indices n - 1, ..., 1 of the
-- list, each with an index that next_usize draws for it from 0 to itself, and some indices within
-- these bounds turn the list into the permutation. So no order of the list is out of reach of the
-- bounds.
pub shuffle-Turns :
    (rng : SimpleRng) (xs ys : List Text)
    → Perm xs ys
    → (AreDraws (draws (length xs - 1) rng)
        × ((shuffle rng xs).0 ≡ swapped (draws (length xs - 1) rng) xs))
      × Turns xs ys
unfolding shuffle
shuffle-Turns rng xs ys p = (
  (draws-AreDraws (length xs - 1) rng, shuffle_down-swapped (length xs - 1) rng xs),
  reaches xs ys (length-perm p) (λ w. occurrences-perm w p),
)
