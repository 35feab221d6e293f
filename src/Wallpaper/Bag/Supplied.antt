-- ===== src/Wallpaper/Bag/Supplied.antt =====
-- `bag_next_n` leaves a bag and a library from which it can draw again.
use mural.Prelude.{
  ℕ, zero, suc, ◌+◌, ◌*◌, ◌≤◌, ◌<◌, ◌≡◌, true, Bool, none, List, [], Text, arith, length, ltb, leb,
  Bool-cases, inl, inr, sat_add, subst, sym,
}
use mural.Wallpaper.Control.{Sys}
use mural.Disk.{is_file}
use mural.Wallpaper.Layout.{is_empty}
use mural.Wallpaper.Bag.{refill, rebuild_bag, pick_loop, fill_empty, available, bag_next_n}
use mural.Wallpaper.Bag.Refill.{
  library-refill, bag_bound, length-rebuild_bag-le, bag_bound-refill, All-rebuild_bag,
}
use mural.Wallpaper.Bag.Distinct.{Distinct}
use mural.Wallpaper.Bag.Total.{IsHealthy, IsHealthy-drawn, drawn, kept, Next-of, Returns}
use mural.Wallpaper.Bag.Ends.{bag_next_n-Returns}

-- Every path is a file, no path of the library comes twice, and the bag, as it is and as it will be
-- rebuilt, has at most `cap` entries.
pub record IsSupplied (cap : ℕ) (s : Sys) : Type 0 where
  pub healthy : IsHealthy s
  pub distinct : Distinct s.library
  pub bag : length s.shuffle_bag ≤ cap
  pub rebuilt : bag_bound s ≤ cap

module _ (cap : ℕ) where
  length-refill-le : (s : Sys) → IsSupplied cap s → length (refill s).shuffle_bag ≤ cap
  unfolding refill
  length-refill-le s v = elim (Bool-cases (leb (length s.shuffle_bag) s.shuffle_pos)) [
    | inl e ↦ rw (e, refill) (omega (arith, length-rebuild_bag-le s, v.rebuilt))
    | inr e ↦ rw (e, refill) v.bag
  ]

  IsSupplied-drawn : (s : Sys) → IsSupplied cap s → IsSupplied cap (drawn s)
  IsSupplied-drawn s v = record {
    healthy = IsHealthy-drawn s v.healthy;
    distinct = subst Distinct (sym (library-refill s)) v.distinct;
    bag = length-refill-le s v;
    rebuilt = omega (arith, bag_bound-refill s, v.rebuilt);
  }

  pick_loop-IsSupplied :
      (allow : Bool) (fuel count : ℕ) (picked : List Text) (attempts : ℕ) (s : Sys)
      → IsSupplied cap s
      → IsSupplied cap (pick_loop none allow fuel count picked attempts s).1
  unfolding pick_loop
  pick_loop-IsSupplied allow zero count picked attempts s v = v
  pick_loop-IsSupplied allow (suc fuel) count picked attempts s v =
      elim (Bool-cases (ltb (length picked) count)) [
        | inl less ↦
            let n = Next-of allow s v.healthy in
            rw (less, n.round picked attempts, pick_loop)
              (pick_loop-IsSupplied allow fuel count (kept allow picked n.wall) (sat_add attempts 1)
                (drawn s) (IsSupplied-drawn s v))
        | inr done ↦ rw (done, pick_loop) v
      ]

  IsSupplied-rebuild_bag : (s : Sys) → IsSupplied cap s → IsSupplied cap (rebuild_bag s)
  unfolding rebuild_bag
  IsSupplied-rebuild_bag s v = record {
    healthy = record {
      some_left = v.healthy.some_left;
      in_library = v.healthy.in_library;
      in_bag = All-rebuild_bag (λ w. is_file s.disk w ≡ true) s v.healthy.in_library;
    };
    distinct = v.distinct;
    bag = omega (arith, length-rebuild_bag-le s, v.rebuilt);
    rebuilt = v.rebuilt;
  }

  IsSupplied-fill_empty : (s : Sys) → IsSupplied cap s → IsSupplied cap (fill_empty s)
  unfolding fill_empty
  IsSupplied-fill_empty s v = elim (Bool-cases (is_empty s.shuffle_bag)) [
    | inl e ↦ rw (e, fill_empty) (IsSupplied-rebuild_bag s v)
    | inr e ↦ rw (e, fill_empty) v
  ]

  pub bag_next_n-IsSupplied :
      (fuel count : ℕ) (s : Sys)
      → IsSupplied cap s
      → IsSupplied cap (bag_next_n fuel count none s).1
  unfolding bag_next_n
  bag_next_n-IsSupplied fuel count s v =
      let t = fill_empty s in
      ground (
        arith,
        IsSupplied-fill_empty s v,
        pick_loop-IsSupplied (ltb (available none t.library) count) fuel count [] 0 t
            (IsSupplied-fill_empty s v),
      )

  pub bag_next_n-supply :
      (fuel count : ℕ) (s : Sys)
      → IsSupplied cap s
      → 3 * cap + count < fuel
      → Returns (bag_next_n fuel count none s).0
  bag_next_n-supply fuel count s v f =
      bag_next_n-Returns fuel count s v.healthy v.distinct (omega (arith, v.bag, v.rebuilt, f))
