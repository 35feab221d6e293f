-- ===== src/Wallpaper/Shuffle.antt =====
-- `WallpaperControl::shuffle` of wallpaper.rs: the Fisher-Yates loop.
pub mod Checked
use mathlib.Core.List.{Perm, perm-cons}
use mathlib.Core.List.Perm
use mathlib.Core.Option.{some-injective}
use mural.Prelude.{
  ℕ, zero, suc, ◌+◌, ◌-◌, ◌≡◌, refl, Option, none, some, List, [], ◌∷◌, arith, length, get_elem?,
  set, All, subst, length-set, ◌∙◌, Option-cases, inl, inr,
}
use mural.Wallpaper.Rng.{SimpleRng, next_usize}

module _ {ℓ} {A : Type ℓ} where
  -- `values.swap(i, j)`, where both are in range.
  swap_some : List A → ℕ → ℕ → Option A → Option A → List A
  swap_some xs i j (some a) (some b) = set (set xs i b) j a
  swap_some xs i j none b = xs
  swap_some xs i j (some a) none = xs

  unfoldable pub swap : List A → ℕ → ℕ → List A
  unfolding swap_some
  swap xs i j = swap_some xs i j (get_elem? xs i) (get_elem? xs j)

  -- The rounds for index = k, …, 1.
  unfoldable pub shuffle_down : ℕ → SimpleRng → List A → List A × SimpleRng
  shuffle_down zero rng xs = (xs, rng)
  shuffle_down (suc k) rng xs =
      let n = next_usize rng (suc k + 1) in shuffle_down k n.1 (swap xs (suc k) n.0)

  unfoldable pub shuffle : SimpleRng → List A → List A × SimpleRng
  unfolding shuffle_down
  shuffle rng xs = shuffle_down (length xs - 1) rng xs

  set-perm :
      (xs : List A) (i : ℕ) (u v : A) → get_elem? xs i ≡ some u → Perm (u ∷ set xs i v) (v ∷ xs)
  set-perm [] i u v h = absurd (cc)
  set-perm (x ∷ xs) zero u v h =
      Perm.trans (Perm.swap v u xs) (Perm.cons v (Perm.cons' (ground arith) Perm.rfl))
  set-perm (x ∷ xs) (suc i) u v h =
      Perm.trans (Perm.swap x u (set xs i v))
        (Perm.trans (Perm.cons x (set-perm xs i u v h)) (Perm.swap v x xs))

  get_elem?-set :
      (xs : List A) (i j : ℕ) (a b : A)
      → get_elem? xs i ≡ some a
      → get_elem? xs j ≡ some b
      → get_elem? (set xs i b) j ≡ some b
  get_elem?-set [] i j a b h k = cc
  get_elem?-set (x ∷ xs) zero zero a b h k = refl
  get_elem?-set (x ∷ xs) zero (suc j) a b h k = k
  get_elem?-set (x ∷ xs) (suc i) zero a b h k = k
  get_elem?-set (x ∷ xs) (suc i) (suc j) a b h k = get_elem?-set xs i j a b h k

  pub swap-some :
      (xs : List A) (i j : ℕ) (a b : A)
      → get_elem? xs i ≡ some a
      → get_elem? xs j ≡ some b
      → swap xs i j ≡ set (set xs i b) j a
  unfolding swap
  swap-some xs i j a b e f = rw (e, f, swap_some) refl

  pub swap-perm : (xs : List A) (i j : ℕ) → Perm (swap xs i j) xs
  unfolding swap
  swap-perm xs i j = elim (Option-cases (get_elem? xs i)) [
    | inl e ↦ rw (e, swap_some) (Perm.refl xs)
    | inr (a, e) ↦ elim (Option-cases (get_elem? xs j)) [
      | inl f ↦ rw (e, f, swap_some) (Perm.refl xs)
      | inr (b, f) ↦
          rw (e, f, swap_some)
            ((perm-cons b).0 (
              Perm.trans (set-perm (set xs i b) j b a (get_elem?-set xs i j a b e f))
                (set-perm xs i a b e)))
    ]
  ]

  shuffle_down-perm : (k : ℕ) (rng : SimpleRng) (xs : List A) → Perm (shuffle_down k rng xs).0 xs
  unfolding shuffle_down
  shuffle_down-perm zero rng xs = Perm.refl xs
  shuffle_down-perm (suc k) rng xs =
      let n = next_usize rng (suc k + 1) in
      Perm.trans (shuffle_down-perm k n.1 (swap xs (suc k) n.0)) (swap-perm xs (suc k) n.0)

  -- Whatever the state of the generator, the shuffled list is a permutation of the list.
  pub shuffle-perm : (rng : SimpleRng) (xs : List A) → Perm (shuffle rng xs).0 xs
  unfolding shuffle
  shuffle-perm rng xs = shuffle_down-perm (length xs - 1) rng xs

module _ {ℓ κ} {A : Type ℓ} (P : A → Type κ) where
  pub All-get_elem? : (xs : List A) (i : ℕ) (a : A) → All P xs → get_elem? xs i ≡ some a → P a
  All-get_elem? [] i a h e = absurd (cc)
  All-get_elem? (x ∷ xs) zero a h e = subst P (some-injective x a e) h.0
  All-get_elem? (x ∷ xs) (suc i) a h e = All-get_elem? xs i a h.1 e

  All-set : (xs : List A) (i : ℕ) (a : A) → All P xs → P a → All P (set xs i a)
  All-set [] i a h p = tt
  All-set (x ∷ xs) zero a h p = (p, h.1)
  All-set (x ∷ xs) (suc i) a h p = (h.0, All-set xs i a h.1 p)

  All-swap : (xs : List A) (i j : ℕ) → All P xs → All P (swap xs i j)
  unfolding swap
  All-swap xs i j h = elim (Option-cases (get_elem? xs i)) [
    | inl e ↦ rw (e, swap_some) h
    | inr (a, e) ↦ elim (Option-cases (get_elem? xs j)) [
      | inl f ↦ rw (e, f, swap_some) h
      | inr (b, f) ↦
          rw (e, f, swap_some)
            (All-set (set xs i b) j a (All-set xs i b h (All-get_elem? xs j b h f))
              (All-get_elem? xs i a h e))
    ]
  ]

  All-shuffle_down :
      (k : ℕ) (rng : SimpleRng) (xs : List A) → All P xs → All P (shuffle_down k rng xs).0
  unfolding shuffle_down
  All-shuffle_down zero rng xs h = h
  All-shuffle_down (suc k) rng xs h =
      let n = next_usize rng (suc k + 1) in
      All-shuffle_down k n.1 (swap xs (suc k) n.0) (All-swap xs (suc k) n.0 h)

  -- What holds of all entries still does after a shuffle.
  pub All-shuffle : (rng : SimpleRng) (xs : List A) → All P xs → All P (shuffle rng xs).0
  unfolding shuffle
  All-shuffle rng xs h = All-shuffle_down (length xs - 1) rng xs h

module _ {ℓ} {A : Type ℓ} where
  pub length-swap : (xs : List A) (i j : ℕ) → length (swap xs i j) ≡ length xs
  unfolding swap
  length-swap xs i j = elim (Option-cases (get_elem? xs i)) [
    | inl e ↦ rw (e, swap_some)
    | inr (a, e) ↦ elim (Option-cases (get_elem? xs j)) [
      | inl f ↦ rw (e, f, swap_some)
      | inr (b, f) ↦ rw (e, f, swap_some) (length-set (set xs i b) j a ∙ length-set xs i b)
    ]
  ]

  length-shuffle_down :
      (k : ℕ) (rng : SimpleRng) (xs : List A) → length (shuffle_down k rng xs).0 ≡ length xs
  unfolding shuffle_down
  length-shuffle_down zero rng xs = refl
  length-shuffle_down (suc k) rng xs =
      let n = next_usize rng (suc k + 1) in
      length-shuffle_down k n.1 (swap xs (suc k) n.0) ∙ length-swap xs (suc k) n.0

  pub length-shuffle : (rng : SimpleRng) (xs : List A) → length (shuffle rng xs).0 ≡ length xs
  unfolding shuffle
  length-shuffle rng xs = length-shuffle_down (length xs - 1) rng xs
