-- ===== src/Wallpaper/Bag/Keeps.antt =====
-- The bag, the scan and the writes leave the map of layouts alone.
use mural.Prelude.{
  ℕ, zero, suc, ◌≡◌, Bool, Option, List, [], Text, arith, length, ltb, Bool-cases, inl, inr,
  get_elem?, Option-cases, sat_add,
}
use mural.Exec.{Exec}
use mural.Exec.Keeps.{Keeps, Keeps-continue, keeps_rules, Keeps-modify}
use mural.Disk.{Disk}
use mural.Wallpaper.Layout.{LayoutState}
use mural.Wallpaper.Control.{Sys, on_disk, persist_core_state}
use mural.Wallpaper.Bag.{
  judge, draw, refill, pick_loop, bag_next_n, rescan_top_level, adopt_library, rebuild_bag,
  fill_empty, advance, available,
}

abbrev pub Layouts : Type 0
Layouts = List (Text × LayoutState)

-- The map of layouts is `m`.
abbrev pub Same : Layouts → Sys → Type 0
Same m s = s.layouts ≡ m

module _ (m : Layouts) where
  pub on_disk-Same : {A : Type 0} (f : Sys → Exec Disk A) → Keeps (Same m) (on_disk f)
  on_disk-Same f = record { at = λ s p. p }

  pub persist_core_state-Same : Keeps (Same m) persist_core_state
  unfolding persist_core_state
  persist_core_state-Same = search (keeps_rules, on_disk-Same)

  pub rebuild_bag-Same : (s : Sys) → Same m s → Same m (rebuild_bag s)
  unfolding rebuild_bag
  rebuild_bag-Same s p = p

  refill-Same : (s : Sys) → Same m s → Same m (refill s)
  unfolding refill
  refill-Same s p = ground arith

  adopt_library-Same : (library : List Text) (s : Sys) → Same m s → Same m (adopt_library library s)
  unfolding adopt_library
  adopt_library-Same library s p = ground arith

  pub rescan_top_level-Same : Keeps (Same m) rescan_top_level
  unfolding rescan_top_level
  rescan_top_level-Same =
      search (keeps_rules, on_disk-Same, Keeps-modify, adopt_library-Same, persist_core_state-Same)

  module _ (exclude : Option Text) (allow : Bool) where
    judge-Same :
        (wall : Text) (picked : List Text) (attempts : ℕ)
        → Keeps (Same m) (judge exclude allow wall picked attempts)
    unfolding judge
    judge-Same wall picked attempts = record {
      at = λ s p. ground (arith, rescan_top_level-Same.at s p);
    }

    draw-Same :
        (picked : List Text) (attempts : ℕ) → Keeps (Same m) (draw exclude allow picked attempts)
    unfolding draw
    draw-Same picked attempts = record {
      at = λ s p. elim (Option-cases (get_elem? (refill s).shuffle_bag (refill s).shuffle_pos)) [
        | inl e ↦ rw (e, draw) (refill-Same s p)
        | inr (wall, e) ↦
            rw (e, draw)
              ((judge-Same wall picked (sat_add attempts 1)).at (advance (refill s))
                (refill-Same s p))
      ];
    }

    pick_loop-Same :
        (fuel count : ℕ) (picked : List Text) (attempts : ℕ)
        → Keeps (Same m) (pick_loop exclude allow fuel count picked attempts)
    unfolding pick_loop
    pick_loop-Same zero count picked attempts = record { at = λ s p. p }
    pick_loop-Same (suc fuel) count picked attempts = record {
      at = λ s p. elim (Bool-cases (ltb (length picked) count)) [
        | inl less ↦
            rw (less, pick_loop)
              (Keeps-continue (draw exclude allow picked attempts s).0
                (λ q. pick_loop exclude allow fuel count q.0 q.1)
                (draw exclude allow picked attempts s).1 (λ q. pick_loop-Same fuel count q.0 q.1)
                ((draw-Same picked attempts).at s p))
        | inr done ↦ rw (done, pick_loop) p
      ];
    }

  fill_empty-Same : (s : Sys) → Same m s → Same m (fill_empty s)
  unfolding fill_empty
  fill_empty-Same s p = ground (arith, rebuild_bag-Same s p)

  pub bag_next_n-Same :
      (fuel count : ℕ) (exclude : Option Text) → Keeps (Same m) (bag_next_n fuel count exclude)
  unfolding bag_next_n
  bag_next_n-Same fuel count exclude = record {
    at = λ s p.
        let t = fill_empty s in
        let unique = available exclude t.library in
        ground (
          arith,
          fill_empty-Same s p,
          (pick_loop-Same exclude (ltb unique count) fuel count [] 0).at t (fill_empty-Same s p),
        );
  }
