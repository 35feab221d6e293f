-- ===== src/Wallpaper/Shuffle/Checked.antt =====
-- `WallpaperControl::shuffle` of wallpaper.rs with the panic of `swap` written out.
use mural.Prelude.{
  ℕ, zero, suc, ◌+◌, ◌-◌, ◌≤◌, ◌<◌, ◌≡◌, refl, Option, none, some, List, [], ◌∷◌, arith, length,
  get_elem?, get_elem?-some, set,
}
use mural.Wallpaper.Rng.{SimpleRng, next_usize, next_usize-lt}
use mural.Wallpaper.Shuffle.{swap, shuffle_down, shuffle, length-swap}

module _ {ℓ} {A : Type ℓ} where
  -- `values.swap(i, j)`; an index out of range panics.
  checked_swap_some : List A → ℕ → ℕ → Option A → Option A → Option (List A)
  checked_swap_some xs i j (some a) (some b) = some (set (set xs i b) j a)
  checked_swap_some xs i j none b = none
  checked_swap_some xs i j (some a) none = none

  checked_swap : List A → ℕ → ℕ → Option (List A)
  unfolding checked_swap_some
  checked_swap xs i j = checked_swap_some xs i j (get_elem? xs i) (get_elem? xs j)

  -- The rounds for index = k, …, 1; none where a swap panics.
  checked_shuffle_down : ℕ → SimpleRng → List A → Option (List A × SimpleRng)
  unfolding checked_swap
  checked_shuffle_down zero rng xs = some (xs, rng)
  checked_shuffle_down (suc k) rng xs =
      let n = next_usize rng (suc k + 1) in
      elim (checked_swap xs (suc k) n.0) [ none ↦ none | some ys ↦ checked_shuffle_down k n.1 ys ]

  unfoldable pub checked_shuffle : SimpleRng → List A → Option (List A × SimpleRng)
  unfolding checked_shuffle_down
  checked_shuffle rng xs = checked_shuffle_down (length xs - 1) rng xs

  checked_swap-some :
      (xs : List A) (i j : ℕ)
      → i < length xs
      → j < length xs
      → checked_swap xs i j ≡ some (swap xs i j)
  unfolding checked_swap swap
  checked_swap-some xs i j h k =
      let a = get_elem?-some xs i h in let b = get_elem?-some xs j k in rw (a.1, b.1) refl

  checked_shuffle_down-some :
      (k : ℕ) (rng : SimpleRng) (xs : List A)
      → k + 1 ≤ length xs
      → checked_shuffle_down k rng xs ≡ some (shuffle_down k rng xs)
  unfolding checked_shuffle_down shuffle_down
  checked_shuffle_down-some zero rng xs h = refl
  checked_shuffle_down-some (suc k) rng xs h =
      let n = next_usize rng (suc k + 1) in
      let drawn : n.0 < suc k + 1 = next_usize-lt rng (suc k + 1) (omega arith) in
      let ys = swap xs (suc k) n.0 in
      rw (checked_shuffle_down, checked_swap-some xs (suc k) n.0 (omega arith) (omega arith))
        (checked_shuffle_down-some k n.1 ys (omega (arith, length-swap xs (suc k) n.0)))

  -- No swap of the shuffle panics, whatever the state of the generator, and the shuffle returns the
  -- list and the generator of the model whose swap cannot fail.
  pub checked_shuffle-some :
      (rng : SimpleRng) (xs : List A) → checked_shuffle rng xs ≡ some (shuffle rng xs)
  unfolding checked_shuffle shuffle
  checked_shuffle-some rng [] = refl
  checked_shuffle-some rng (x ∷ xs) =
      checked_shuffle_down-some (length (x ∷ xs) - 1) rng (x ∷ xs) (omega arith)
