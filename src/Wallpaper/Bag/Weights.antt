-- ===== src/Wallpaper/Bag/Weights.antt =====
-- How often a wallpaper is in the bag that `rebuild_bag` makes.
use mathlib.Core.List.{Permᴰ, Perm}
use mathlib.Core.Logic.{∥∥₁_elim}
use mural.Prelude.{
  ℕ, zero, suc, ◌+◌, ◌-◌, ◌*◌, max, ◌≡◌, refl, ap, ◌∙◌, Bool, false, ◌&&◌, List, [], ◌∷◌, ◌++◌,
  Text, text_eq, text_eq_iff, contains, arith, replicate, Bool-cases, inl, inr, if◌then◌else◌,
}
use mural.Disk.{is_file}
use mural.Path.{sort}
use mural.Path.Members.{contains-sort, contains-dedup}
use mural.Wallpaper.Control.{Sys, filter}
use mural.Wallpaper.Bag.Refill.{rebuild_bag-perm}
use mural.Wallpaper.Bag.{sanitize_favorites, weighted, rebuild_bag}

-- How often a text occurs in a list.
abbrev pub occurrences : Text → List Text → ℕ
occurrences w [] = 0
occurrences w (x ∷ xs) = (if text_eq x w then 1 else 0) + occurrences w xs

occurrences-permᴰ :
    (w : Text) {xs ys : List Text} → Permᴰ xs ys → occurrences w xs ≡ occurrences w ys
occurrences-permᴰ w Permᴰ.nil = refl
occurrences-permᴰ w (Permᴰ.cons e d) = cc (occurrences-permᴰ w d)
occurrences-permᴰ w (Permᴰ.swap {a = a} {b = b} {l = l} e f) = rw (e, f) (omega arith)
occurrences-permᴰ w (Permᴰ.trans d e) = occurrences-permᴰ w d ∙ occurrences-permᴰ w e

pub occurrences-perm :
    (w : Text) {xs ys : List Text} → Perm xs ys → occurrences w xs ≡ occurrences w ys
occurrences-perm w p = ∥∥₁_elim p (hlevel) (occurrences-permᴰ w)

pub occurrences-append :
    (w : Text) (xs ys : List Text) → occurrences w (xs ++ ys) ≡ occurrences w xs + occurrences w ys
occurrences-append w [] ys = omega arith
occurrences-append w (x ∷ xs) ys = omega (arith, occurrences-append w xs ys)

occurrences-replicate :
    (w x : Text) (n : ℕ) → occurrences w (replicate n x) ≡ (if text_eq x w then n else 0)
occurrences-replicate w x zero = ground arith
occurrences-replicate w x (suc n) = ground (arith, occurrences-replicate w x n)

occurrences-none : (w : Text) (xs : List Text) → contains xs w ≡ false → occurrences w xs ≡ 0
unfolding contains
occurrences-none w [] h = refl
occurrences-none w (x ∷ xs) h = ground (arith, occurrences-none w xs)

-- How often each entry of the library comes into the bag.
abbrev weight_of : ℕ → Bool → ℕ
weight_of n favorite = if favorite then max 1 n else 1

occurrences-weighted :
    (n : ℕ) (favs ws : List Text) (w : Text)
    → occurrences w (weighted n favs ws) ≡ occurrences w ws * weight_of n (contains favs w)
unfolding weighted
occurrences-weighted n favs [] w = omega arith
occurrences-weighted n favs (x ∷ ws) w = elim (Bool-cases (text_eq x w)) [
  | inl e ↦
      let same : x ≡ w = (text_eq_iff x w).0 e in
      let copies = if contains favs x then n - 1 else 0 in
      let copied : occurrences w (replicate copies x) ≡ copies =
        occurrences-replicate w x copies ∙ (rw e refl) in
      let k = weight_of n (contains favs w) in
      let once : 1 + copies ≡ k = rw same (ground arith) in
      let more : (1 + occurrences w ws) * k ≡ k + occurrences w ws * k = omega arith in
      rw (e, more)
        (omega (
          arith,
          once,
          occurrences-append w (replicate copies x) (weighted n favs ws),
          copied,
          occurrences-weighted n favs ws w,
        ))
  | inr e ↦
      let copies = if contains favs x then n - 1 else 0 in
      let copied : occurrences w (replicate copies x) ≡ 0 =
        occurrences-replicate w x copies ∙ (rw e refl) in
      rw e (
        omega (
          arith,
          occurrences-append w (replicate copies x) (weighted n favs ws),
          copied,
          occurrences-weighted n favs ws w,
        ))
]

contains-filter :
    (p : Text → Bool) (ws : List Text) (w : Text)
    → contains (filter p ws) w ≡ (contains ws w && p w)
unfolding contains filter
contains-filter p [] w = refl
contains-filter p (x ∷ ws) w = elim (Bool-cases (text_eq x w)) [
  | inl e ↦
      let same : p x ≡ p w = ap p ((text_eq_iff x w).0 e) in ground (arith, contains-filter p ws w)
  | inr e ↦ ground (arith, contains-filter p ws w)
]

-- The favorites that are kept.
contains-kept :
    (s : Sys) (w : Text)
    → contains (sanitize_favorites s).favorites w
      ≡ (contains s.favorites w && (contains s.library w && is_file s.disk w))
unfolding sanitize_favorites
contains-kept s w =
    let p : Text → Bool = λ v. contains s.library v && is_file s.disk v in
    contains-dedup (sort (filter p s.favorites)) w
    ∙ contains-sort (filter p s.favorites) w
    ∙ contains-filter p s.favorites w

-- The rebuilt bag has each wallpaper as often as the library has it, and a favorite that is a file
-- favorite_weight times as often, but at least once.
pub occurrences-rebuild_bag :
    (s : Sys) (w : Text)
    → occurrences w (rebuild_bag s).shuffle_bag
      ≡ occurrences w s.library
        * (if contains s.favorites w && is_file s.disk w then max 1 s.favorite_weight else 1)
unfolding rebuild_bag
occurrences-rebuild_bag s w =
    let kept = contains (sanitize_favorites s).favorites w in
    occurrences-perm w (rebuild_bag-perm s)
    ∙ occurrences-weighted s.favorite_weight (sanitize_favorites s).favorites s.library w
    ∙ elim (Bool-cases (contains s.library w)) [
      | inl e ↦
          let same : kept ≡ (contains s.favorites w && is_file s.disk w) =
            ground (arith, contains-kept s w) in
          ap (λ b. occurrences w s.library * weight_of s.favorite_weight b) same
      | inr e ↦ rw (occurrences-none w s.library e) (omega arith)
    ]
