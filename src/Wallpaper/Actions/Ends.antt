-- ===== src/Wallpaper/Actions/Ends.antt =====
-- How many rounds `ensure_window` takes when the bag gives what it asks for.
use mural.Prelude.{
  ℕ, zero, suc, ◌+◌, ◌-◌, ◌*◌, ◌≤◌, ◌<◌, ◌≡◌, refl, true, none, List, [], ◌∷◌, Text, arith, length,
  length-append, Bool-cases, inl, inr, le_mul,
}
use mural.Exec.{ok}
use mural.Wallpaper.Layout.{LayoutState, append_set}
use mural.Wallpaper.Layout.Window.{length-append_set}
use mural.Wallpaper.Bag.{bag_next_n}
use mural.Wallpaper.Bag.Supplied.{IsSupplied, bag_next_n-IsSupplied, bag_next_n-supply}
use mural.Wallpaper.Actions.{Work, is_covered, from_one, ensure_window}
use mural.Wallpaper.Actions.Covered.{
  IsRoomy, Extended-of_supply, Extended-IsRoomy, fields-append_set,
}

-- The index points at a row, and the offset into it; at least two rows are kept.
pub record IsPlaced (l : LayoutState) : Type 0 where
  pub started : 1 ≤ l.idx
  pub inside : l.offset < l.out_count
  pub several : 2 ≤ l.max_history

idx-append_set :
    (l : LayoutState) (selection : List Text) (n : ℕ)
    → IsPlaced l
    → l.idx + 1 ≤ length l.history + suc n
    → (1 ≤ (append_set l selection).idx)
      × ((append_set l selection).idx + 1 ≤ length (append_set l selection).history + n)
unfolding append_set
idx-append_set l selection n p h = ground (
  arith,
  length-append_set l selection,
  length-append l.history (selection ∷ []),
  p.several,
  p.started,
)

IsPlaced-append_set :
    (l : LayoutState) (selection : List Text)
    → IsPlaced l
    → 1 ≤ (append_set l selection).idx
    → IsPlaced (from_one (append_set l selection))
IsPlaced-append_set l selection p started =
    let f = fields-append_set l selection in ground (arith, f, p.inside, p.several)

idx-from_one : (l : LayoutState) → 1 ≤ l.idx → from_one l ≡ l
idx-from_one l h = ground arith

-- The loop ends once a row follows the row of the index.
row_behind :
    (cap : ℕ) (l : LayoutState)
    → IsRoomy cap l
    → IsPlaced l
    → l.idx + 1 ≤ length l.history
    → is_covered l ≡ true
row_behind cap l v p h =
    let few : length l.history * l.out_count ≤ cap * l.out_count =
      le_mul (length l.history) cap l.out_count v.kept in
    let rows : (l.idx - 1 + 2) * l.out_count ≤ length l.history * l.out_count =
      le_mul (l.idx - 1 + 2) (length l.history) l.out_count (omega (arith, h, p.started)) in
    ground (arith, few, rows, p.inside, v.room)

module _ (fuel cap most : ℕ) where
  -- If the bag and the library are supplied within cap, with fuel beyond 3 * cap + out_count for
  -- each draw, the history has full rows within a number that does not overflow, max_history is at
  -- least 2, the index is at least 1, the offset is below out_count, and the history has, with the
  -- rounds added, a row behind the index, then ensure_window succeeds within one round more.
  pub ensure_window-Ends :
      (rounds : ℕ) (w : Work)
      → IsSupplied cap w.sys
      → 3 * cap + w.layout.out_count < fuel
      → IsRoomy most w.layout
      → IsPlaced w.layout
      → w.layout.idx + 1 ≤ length w.layout.history + rounds
      → (ensure_window fuel (suc rounds) w).0 ≡ ok tt
  unfolding ensure_window
  ensure_window-Ends zero w s f v p h =
      let done = row_behind most w.layout v p (omega (arith, h)) in rw (done, ensure_window) refl
  ensure_window-Ends (suc rounds) w s f v p h = elim (Bool-cases (is_covered w.layout)) [
    | inl done ↦ rw (done, ensure_window) refl
    | inr more ↦
        let drawn = bag_next_n-supply cap fuel w.layout.out_count w.sys s f in
        let x = Extended-of_supply fuel w drawn.0 drawn.1 in
        let l = append_set w.layout x.selection in
        let nearer = idx-append_set w.layout x.selection rounds p h in
        let w' : Work = record {
          sys = (bag_next_n fuel w.layout.out_count none w.sys).1;
          layout = from_one l;
        } in
        let same = idx-from_one l nearer.0 in
        let counts = fields-append_set w.layout x.selection in
        rw (more, x.after, ensure_window)
          (ensure_window-Ends rounds w' (bag_next_n-IsSupplied cap fuel w.layout.out_count w.sys s)
            (rw (same, counts.0) f) (Extended-IsRoomy fuel most w x v)
            (IsPlaced-append_set w.layout x.selection p nearer.0) (rw same nearer.1))
  ]
