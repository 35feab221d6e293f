-- ===== src/Wallpaper/Bag/Picks.antt =====
-- What `bag_next_n` returns when it returns.
use mural.Prelude.{
  ℕ, zero, suc, ◌+◌, ◌≤◌, ◌≡◌, Bool, false, not, ◌&&◌, Option, List, [], ◌∷◌, ◌++◌, Text, contains,
  arith, length, length-append, All, All-append, ltb, Bool-cases, inl, inr, tests, sat_add,
  get_elem?, Option-cases,
}
use mural.Exec.{ok, continue-eq-ok}
use mural.Wallpaper.Control.{Sys}
use mural.Wallpaper.Bag.Distinct.{Distinct, Distinct-append}
use mural.Wallpaper.Bag.{
  excluded, judge, draw, refill, pick_loop, available, fill_empty, rebuild_bag, bag_next_n,
}

module _ (exclude : Option Text) (allow_duplicates : Bool) where
  abbrev pub Picks : List Text → Type 0
  Picks ws = All (λ w. excluded exclude w ≡ false) ws × (allow_duplicates ≡ false → Distinct ws)

  Picks-append :
      (ws : List Text) (v : Text)
      → Picks ws
      → excluded exclude v ≡ false
      → (not allow_duplicates && contains ws v) ≡ false
      → Picks (ws ++ (v ∷ []))
  Picks-append ws v p e d = (
    All-append (λ w. excluded exclude w ≡ false) ws (v ∷ []) p.0 (e, tt),
    λ a. Distinct-append ws v (p.1 a) (ground arith),
  )

  judge-Picks :
      (wall : Text) (picked : List Text) (attempts : ℕ) (s : Sys) (r : List Text × ℕ)
      → (judge exclude allow_duplicates wall picked attempts s).0 ≡ ok r
      → Picks picked
      → Picks r.0 × (length r.0 ≤ length picked + 1)
  unfolding judge
  judge-Picks wall picked attempts s r h p =
      ground (arith, Picks-append picked wall p, length-append picked (wall ∷ []))

  draw-Picks :
      (picked : List Text) (attempts : ℕ) (s : Sys) (r : List Text × ℕ)
      → (draw exclude allow_duplicates picked attempts s).0 ≡ ok r
      → Picks picked
      → Picks r.0 × (length r.0 ≤ length picked + 1)
  unfolding draw
  draw-Picks picked attempts s r h p =
      elim (Option-cases (get_elem? (refill s).shuffle_bag (refill s).shuffle_pos)) [
        | inl e ↦ absurd (cc (rw (e, draw) at h))
        | inr (wall, e) ↦ judge-Picks wall picked (sat_add attempts 1) _ r (rw (e, draw) at h) p
      ]

  pick_loop-Picks :
      (fuel count : ℕ) (picked : List Text) (attempts : ℕ) (s : Sys) (ws : List Text)
      → (pick_loop exclude allow_duplicates fuel count picked attempts s).0 ≡ ok ws
      → Picks picked
      → length picked ≤ count
      → Picks ws × (length ws ≡ count)
  unfolding pick_loop
  pick_loop-Picks zero count picked attempts s ws h p le = cc
  pick_loop-Picks (suc fuel) count picked attempts s ws h p le =
      elim (Bool-cases (ltb (length picked) count)) [
        | inl less ↦
            let r = draw exclude allow_duplicates picked attempts s in
            let (p', drawn, rest) =
              continue-eq-ok r.0 (λ q. pick_loop exclude allow_duplicates fuel count q.0 q.1) r.1
                (rw (less, pick_loop) at h) in
            let next = draw-Picks picked attempts s p' drawn p in
            pick_loop-Picks fuel count p'.0 p'.1 r.1 ws rest next.0 (omega (tests, less, next.1))
        | inr done ↦ ground arith
      ]

library-fill_empty : (s : Sys) → (fill_empty s).library ≡ s.library
unfolding fill_empty rebuild_bag
library-fill_empty s = ground arith

-- If bag_next_n returns wallpapers, they are count in number, none is the excluded one, and they
-- are distinct when at least count wallpapers of the library are not excluded.
pub bag_next_n-Picks :
    (fuel count : ℕ) (exclude : Option Text) (s : Sys) (ws : List Text)
    → (bag_next_n fuel count exclude s).0 ≡ ok ws
    → (length ws ≡ count)
      × All (λ w. excluded exclude w ≡ false) ws
      × (count ≤ available exclude s.library → Distinct ws)
unfolding bag_next_n
bag_next_n-Picks fuel count exclude s ws h =
    let unique = available exclude (fill_empty s).library in
    let picks = pick_loop-Picks exclude (ltb unique count) fuel count [] 0 (fill_empty s) ws in
    let ran : (pick_loop exclude (ltb unique count) fuel count [] 0 (fill_empty s)).0 ≡ ok ws =
      ground arith in
    let r = picks ran (tt, λ _. tt) (omega arith) in
    (r.1, r.0.0, λ enough. r.0.1 (rw (library-fill_empty s) (ground arith)))
