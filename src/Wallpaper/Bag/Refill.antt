-- ===== src/Wallpaper/Bag/Refill.antt =====
-- What `rebuild_bag` and the refill make of the state: the bag holds the library, weighted.
use mathlib.Core.List.{Perm}
use mural.Prelude.{
  ℕ, zero, suc, ◌+◌, ◌-◌, ◌*◌, max, ◌∙◌, length-replicate, ◌≤◌, ◌<◌, ◌≡◌, refl, true, List, [], ◌∷◌,
  Text, contains, arith, length, length-append, replicate, All, All-append, leb, Bool-cases, inl,
  inr, tests, if◌then◌else◌,
}
use mural.Wallpaper.Shuffle.{All-shuffle, shuffle-perm, length-shuffle}
use mural.Wallpaper.Control.{Sys}
use mural.Wallpaper.Bag.Distinct.{contains-append_right, contains-perm}
use mural.Wallpaper.Bag.{sanitize_favorites, weighted, rebuild_bag, refill}

All-replicate {ℓ κ} : {A : Type ℓ} (P : A → Type κ) (n : ℕ) (a : A) → P a → All P (replicate n a)
All-replicate P zero a p = tt
All-replicate P (suc n) a p = (p, All-replicate P n a p)

module _ {κ} (P : Text → Type κ) where
  All-weighted : (n : ℕ) (favs ws : List Text) → All P ws → All P (weighted n favs ws)
  unfolding weighted
  All-weighted n favs [] h = tt
  All-weighted n favs (w ∷ ws) h = (
    h.0,
    All-append P (replicate (if contains favs w then n - 1 else 0) w) (weighted n favs ws)
        (All-replicate P _ w h.0) (All-weighted n favs ws h.1),
  )

  -- What holds of the whole library holds of the rebuilt bag.
  pub All-rebuild_bag : (s : Sys) → All P s.library → All P (rebuild_bag s).shuffle_bag
  unfolding rebuild_bag
  All-rebuild_bag s h =
      let t = sanitize_favorites s in
      All-shuffle P t.rng (weighted t.favorite_weight t.favorites t.library)
        (All-weighted t.favorite_weight t.favorites t.library h)

  pub All-refill : (s : Sys) → All P s.library → All P s.shuffle_bag → All P (refill s).shuffle_bag
  unfolding refill
  All-refill s h k = elim (Bool-cases (leb (length s.shuffle_bag) s.shuffle_pos)) [
    | inl e ↦ rw (e, refill) (All-rebuild_bag s h)
    | inr e ↦ rw (e, refill) k
  ]

-- The rebuilt bag is a permutation of the library with each favorite that is kept repeated as often
-- as favorite_weight asks.
pub rebuild_bag-perm :
    (s : Sys)
    → Perm
        (rebuild_bag s).shuffle_bag
        (weighted s.favorite_weight (rebuild_bag s).favorites s.library)
unfolding rebuild_bag
rebuild_bag-perm s =
    let t = sanitize_favorites s in
    shuffle-perm t.rng (weighted t.favorite_weight t.favorites t.library)

pub length-weighted-ge : (n : ℕ) (favs ws : List Text) → length ws ≤ length (weighted n favs ws)
unfolding weighted
length-weighted-ge n favs [] = omega arith
length-weighted-ge n favs (w ∷ ws) = omega (
  arith,
  length-weighted-ge n favs ws,
  length-append (replicate (if contains favs w then n - 1 else 0) w) (weighted n favs ws),
)

pub length-rebuild_bag-ge : (s : Sys) → length s.library ≤ length (rebuild_bag s).shuffle_bag
unfolding rebuild_bag
length-rebuild_bag-ge s =
    let t = sanitize_favorites s in
    omega (
      arith,
      length-shuffle t.rng (weighted t.favorite_weight t.favorites t.library),
      length-weighted-ge t.favorite_weight t.favorites t.library,
    )

pub pos-rebuild_bag : (s : Sys) → (rebuild_bag s).shuffle_pos ≡ 0
unfolding rebuild_bag
pos-rebuild_bag s = refl

-- With a library that is not empty, the refilled bag has a wallpaper to draw.
pub refill-lt :
    (s : Sys) → 0 < length s.library → (refill s).shuffle_pos < length (refill s).shuffle_bag
unfolding refill
refill-lt s h = elim (Bool-cases (leb (length s.shuffle_bag) s.shuffle_pos)) [
  | inl e ↦ rw (e, refill) (omega (arith, length-rebuild_bag-ge s, pos-rebuild_bag s))
  | inr e ↦ rw (e, refill) (omega (tests, e))
]

pub disk-refill : (s : Sys) → (refill s).disk ≡ s.disk
unfolding refill rebuild_bag
disk-refill s = ground arith

pub library-refill : (s : Sys) → (refill s).library ≡ s.library
unfolding refill rebuild_bag
library-refill s = ground arith

contains-weighted :
    (n : ℕ) (favs ws : List Text) (w : Text)
    → contains ws w ≡ true
    → contains (weighted n favs ws) w ≡ true
unfolding weighted contains
contains-weighted n favs [] w h = absurd (cc)
contains-weighted n favs (x ∷ ws) w h = ground (
  arith,
  contains-weighted n favs ws w,
  contains-append_right (replicate (if contains favs x then n - 1 else 0) x) (weighted n favs ws) w,
)

-- The rebuilt bag has every wallpaper of the library.
pub contains-rebuild_bag :
    (s : Sys) (w : Text)
    → contains s.library w ≡ true
    → contains (rebuild_bag s).shuffle_bag w ≡ true
contains-rebuild_bag s w h =
    contains-perm w (rebuild_bag-perm s)
    ∙ contains-weighted s.favorite_weight (rebuild_bag s).favorites s.library w h

-- At most as many rounds as a rebuilt bag has entries.
abbrev pub bag_bound : Sys → ℕ
bag_bound s = max 1 s.favorite_weight * length s.library

length-weighted-le :
    (n : ℕ) (favs ws : List Text) → length (weighted n favs ws) ≤ max 1 n * length ws
unfolding weighted
length-weighted-le n favs [] = omega arith
length-weighted-le n favs (w ∷ ws) =
    let copies = if contains favs w then n - 1 else 0 in
    let few : copies + 1 ≤ max 1 n = ground arith in
    let e : max 1 n * suc (length ws) ≡ max 1 n + max 1 n * length ws = omega arith in
    rw e (
      omega (
        arith,
        few,
        length-replicate copies w,
        length-weighted-le n favs ws,
        length-append (replicate copies w) (weighted n favs ws),
      ))

pub length-rebuild_bag-le : (s : Sys) → length (rebuild_bag s).shuffle_bag ≤ bag_bound s
unfolding rebuild_bag
length-rebuild_bag-le s =
    let t = sanitize_favorites s in
    omega (
      arith,
      length-shuffle t.rng (weighted t.favorite_weight t.favorites t.library),
      length-weighted-le t.favorite_weight t.favorites t.library,
    )

pub bag_bound-refill : (s : Sys) → bag_bound (refill s) ≡ bag_bound s
unfolding refill rebuild_bag
bag_bound-refill s = ground arith
