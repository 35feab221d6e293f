-- ===== src/Wallpaper/Bag/Hang.antt =====
-- A state in which the loop of `bag_next_n` never ends: fewer wallpapers than outputs are left, and
-- the permission to pick one twice was decided when there were more.
use mural.Prelude.{
  ℕ, zero, suc, ◌<◌, ◌≡◌, refl, subst, sym, true, false, Option, List, [], ◌∷◌, Text, contains,
  length, All, lt→ltb, get_elem?-some, sat_add,
}
use mural.Exec.{ok, running}
use mural.Disk.{is_file}
use mural.Wallpaper.Shuffle.{All-get_elem?}
use mural.Wallpaper.Control.{Sys}
use mural.Wallpaper.Bag.{excluded, judge, draw, refill, advance, pick_loop}
use mural.Wallpaper.Bag.Refill.{All-refill, refill-lt, disk-refill, library-refill}

module _ (exclude : Option Text) where
  -- Drawing `w` adds nothing to `picked`, and is no reason to rescan either.
  pub record IsStale (picked : List Text) (s : Sys) (w : Text) : Type 0 where
    pub allowed : excluded exclude w ≡ false
    pub on_disk : is_file s.disk w ≡ true
    pub taken : contains picked w ≡ true

  pub record IsExhausted (picked : List Text) (s : Sys) : Type 0 where
    pub some_left : 0 < length s.library
    pub in_library : All (IsStale picked s) s.library
    pub in_bag : All (IsStale picked s) s.shuffle_bag

  abbrev drawn : Sys → Sys
  drawn s = advance (refill s)

  IsStale-drawn :
      (picked : List Text) (s : Sys) (ws : List Text)
      → All (IsStale picked s) ws
      → All (IsStale picked (drawn s)) ws
  IsStale-drawn picked s [] h = tt
  IsStale-drawn picked s (w ∷ ws) h = (
    record { allowed = h.0.allowed; on_disk = rw (disk-refill s) h.0.on_disk; taken = h.0.taken },
    IsStale-drawn picked s ws h.1,
  )

  IsExhausted-drawn :
      (picked : List Text) (s : Sys) → IsExhausted picked s → IsExhausted picked (drawn s)
  IsExhausted-drawn picked s h = record {
    some_left = rw (library-refill s) h.some_left;
    in_library =
        IsStale-drawn picked s (refill s).library
          (subst (All (IsStale picked s)) (sym (library-refill s)) h.in_library);
    in_bag =
        IsStale-drawn picked s (refill s).shuffle_bag
          (All-refill (IsStale picked s) s h.in_library h.in_bag);
  }

  judge-stale :
      (wall : Text) (picked : List Text) (attempts : ℕ) (s : Sys)
      → IsStale picked s wall
      → judge exclude false wall picked attempts s ≡ (ok (picked, attempts), s)
  unfolding judge
  judge-stale wall picked attempts s h = rw (h.allowed, h.on_disk, h.taken)

  draw-stale :
      (picked : List Text) (attempts : ℕ) (s : Sys)
      → IsExhausted picked s
      → draw exclude false picked attempts s ≡ (ok (picked, sat_add attempts 1), drawn s)
  unfolding draw
  draw-stale picked attempts s h =
      let (wall, e) =
        get_elem?-some (refill s).shuffle_bag (refill s).shuffle_pos (refill-lt s h.some_left) in
      rw (e, draw)
        (judge-stale wall picked (sat_add attempts 1) (drawn s) (
          All-get_elem? (IsStale picked (drawn s)) (refill s).shuffle_bag (refill s).shuffle_pos
            wall (IsExhausted-drawn picked s h).in_bag e))

  -- Where the library is not empty and every wallpaper of the bag and the library is on disk, not
  -- excluded and already picked, while more are wanted and none may be picked twice, the loop of
  -- bag_next_n is still running after any number of rounds.
  pub pick_loop-running :
      (fuel count : ℕ) (picked : List Text) (attempts : ℕ) (s : Sys)
      → IsExhausted picked s
      → length picked < count
      → (pick_loop exclude false fuel count picked attempts s).0 ≡ running
  unfolding pick_loop
  pick_loop-running zero count picked attempts s h less = refl
  pick_loop-running (suc fuel) count picked attempts s h less =
      rw (lt→ltb _ _ less, draw-stale picked attempts s h, pick_loop)
        (pick_loop-running fuel count picked (sat_add attempts 1) (drawn s)
          (IsExhausted-drawn picked s h) less)
