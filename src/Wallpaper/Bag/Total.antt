-- ===== src/Wallpaper/Bag/Total.antt =====
-- `bag_next_n` returns when every path of the library and the bag is a file: how many rounds its
-- loop takes.
use mural.Prelude.{
  ℕ, zero, suc, ◌+◌, ◌≤◌, ◌<◌, ◌≡◌, Bool, true, false, not, ◌&&◌, ◌||◌, none, some, List, [], ◌∷◌,
  ◌++◌, Text, text_eq, text_eq_iff, contains, arith, length, length-append, drop, All, ltb,
  Bool-cases, inl, inr, tests, if◌then◌else◌, get_elem?, get_elem?-some, sat_add,
}
use mural.Exec.{Outcome, ok}
use mural.Disk.{Disk, is_file}
use mural.Wallpaper.Shuffle.{All-get_elem?}
use mural.Wallpaper.Control.{Sys}
use mural.Wallpaper.Bag.{judge, draw, refill, advance, pick_loop}
use mural.Wallpaper.Bag.Refill.{All-refill, refill-lt, disk-refill, library-refill}
use mural.Wallpaper.Bag.Distinct.{contains-append}

abbrev pub AllFiles : Disk → List Text → Type 0
AllFiles d ws = All (λ w. is_file d w ≡ true) ws

-- Nothing that can be drawn is missing, and something can be.
pub record IsHealthy (s : Sys) : Type 0 where
  pub some_left : 0 < length s.library
  pub in_library : AllFiles s.disk s.library
  pub in_bag : AllFiles s.disk s.shuffle_bag

abbrev pub drawn : Sys → Sys
drawn s = advance (refill s)

pub IsHealthy-refill : (s : Sys) → IsHealthy s → IsHealthy (refill s)
IsHealthy-refill s h = record {
  some_left = rw (library-refill s) h.some_left;
  in_library = rw (disk-refill s, library-refill s) h.in_library;
  in_bag = rw (disk-refill s) (All-refill (λ w. is_file s.disk w ≡ true) s h.in_library h.in_bag);
}

pub IsHealthy-drawn : (s : Sys) → IsHealthy s → IsHealthy (drawn s)
IsHealthy-drawn s h =
    let t = IsHealthy-refill s h in
    record { some_left = t.some_left; in_library = t.in_library; in_bag = t.in_bag }

abbrev pub kept : Bool → List Text → Text → List Text
kept allow picked wall = if not allow && contains picked wall then picked else picked ++ (wall ∷ [])

module _ (allow : Bool) where
  judge-file :
      (wall : Text) (picked : List Text) (attempts : ℕ) (s : Sys)
      → is_file s.disk wall ≡ true
      → judge none allow wall picked attempts s ≡ (ok (kept allow picked wall, attempts), s)
  unfolding judge
  judge-file wall picked attempts s h = ground arith

  -- The wallpaper that the next round draws.
  pub record Next (s : Sys) : Type 0 where
    pub wall : Text
    pub there : get_elem? (refill s).shuffle_bag (refill s).shuffle_pos ≡ some wall
    pub round :
        (picked : List Text) (attempts : ℕ)
        → draw none allow picked attempts s
          ≡ (ok (kept allow picked wall, sat_add attempts 1), drawn s)

  pub Next-of : (s : Sys) → IsHealthy s → Next s
  unfolding draw
  Next-of s h =
      let (wall, e) =
        get_elem?-some (refill s).shuffle_bag (refill s).shuffle_pos (refill-lt s h.some_left) in
      record {
        wall = wall;
        there = e;
        round = λ picked attempts.
            rw (e, draw)
              (judge-file wall picked (sat_add attempts 1) (drawn s) (
                All-get_elem? (λ w. is_file (refill s).disk w ≡ true) (refill s).shuffle_bag
                  (refill s).shuffle_pos wall (IsHealthy-refill s h).in_bag e));
      }

abbrev pub Returns : Outcome (List Text) → Type 0
Returns o = (ws : List Text) × (o ≡ ok ws)

-- When repetition is allowed, each round picks a wallpaper.
pub pick_loop-allowed :
    (fuel count : ℕ) (picked : List Text) (attempts : ℕ) (s : Sys)
    → IsHealthy s
    → length picked ≤ count
    → count < length picked + fuel
    → Returns (pick_loop none true fuel count picked attempts s).0
unfolding pick_loop
pick_loop-allowed zero count picked attempts s h room enough = absurd (omega arith)
pick_loop-allowed (suc fuel) count picked attempts s h room enough =
    elim (Bool-cases (ltb (length picked) count)) [
      | inl less ↦
          let n = Next-of true s h in
          rw (less, n.round picked attempts, pick_loop)
            (pick_loop-allowed fuel count (picked ++ (n.wall ∷ [])) (sat_add attempts 1) (drawn s)
              (IsHealthy-drawn s h) (omega (tests, less, length-append picked (n.wall ∷ [])))
              (omega (arith, length-append picked (n.wall ∷ []))))
      | inr done ↦ (picked, rw (done, pick_loop))
    ]

-- What is left of the bag.
abbrev pub rest : Sys → List Text
rest s = drop s.shuffle_pos s.shuffle_bag

-- Each wallpaper of the library is picked, or comes in what is left of the bag.
abbrev pub IsPass : List Text → Sys → List Text → Type 0
IsPass picked s ws = All (λ w. (contains picked w || contains (rest s) w) ≡ true) ws

pub drop-get_elem? :
    {A : Type 0} (xs : List A) (i : ℕ) (a : A)
    → get_elem? xs i ≡ some a
    → drop i xs ≡ a ∷ drop (i + 1) xs
drop-get_elem? [] i a e = absurd (cc)
drop-get_elem? (x ∷ xs) zero a e = ground arith
drop-get_elem? (x ∷ xs) (suc i) a e =
    let f : suc i + 1 ≡ suc (i + 1) = omega arith in rw f (drop-get_elem? xs i a e)

pub IsPass-picked :
    (picked : List Text) (s : Sys) (ws : List Text)
    → rest s ≡ []
    → IsPass picked s ws
    → All (λ w. contains picked w ≡ true) ws
unfolding contains
IsPass-picked picked s [] e h = tt
IsPass-picked picked s (w ∷ ws) e h = (ground (arith, rw e at h.0), IsPass-picked picked s ws e h.1)

contains-kept :
    (picked : List Text) (wall w : Text)
    → contains (kept false picked wall) w ≡ (contains picked w || text_eq wall w)
contains-kept picked wall w = ground (arith, contains-append picked wall w, text_eq_iff wall w)

-- Drawing from a bag that is not used up moves one entry from the bag to the picked ones.
pub IsPass-kept :
    (picked : List Text) (s t : Sys) (wall : Text) (ws : List Text)
    → rest s ≡ wall ∷ rest t
    → IsPass picked s ws
    → IsPass (kept false picked wall) t ws
unfolding contains
IsPass-kept picked s t wall [] e h = tt
IsPass-kept picked s t wall (w ∷ ws) e h =
    (ground (arith, contains-kept picked wall w, rw e at h.0), IsPass-kept picked s t wall ws e h.1)
