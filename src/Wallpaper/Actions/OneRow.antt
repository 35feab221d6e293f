-- ===== src/Wallpaper/Actions/OneRow.antt =====
-- A history of one row, a window that begins inside it: every row that `ensure_window` appends pushes
-- the last one out.
use mural.Prelude.{
  ℕ, zero, suc, ◌+◌, ◌*◌, ◌≤◌, ◌<◌, ◌≡◌, ◌≢◌, false, none, List, Text, arith, length, usize_max,
  le_mul, ◌∷◌, [], refl, true,
}
use mural.Exec.{ok, continue-eq-ok, ◌>>◌}
use mural.Wallpaper.Layout.{LayoutState, append_set, is_empty}
use mural.Wallpaper.Layout.Window.{length-append_set}
use mural.Wallpaper.Bag.{bag_next_n}
use mural.Wallpaper.Actions.{
  Work, is_covered, from_one, extend_once, ensure_window, run_shift, shift_forward, window,
  change_layout,
}
use mural.Wallpaper.Actions.Covered.{Extended-of_ok, fields-append_set}
use mural.Wallpaper.Actions.Return.{initialized}

-- The only row is current, and the window begins behind its first entry.
pub record IsWedged (l : LayoutState) : Type 0 where
  pub one_row : l.max_history ≡ 1
  pub kept : length l.history ≤ 1
  pub first : l.idx ≡ 1
  pub inside : 0 < l.offset
  pub room : l.offset + l.out_count < usize_max

idx-append_set :
    (l : LayoutState) (selection : List Text) → l.idx ≡ 1 → (append_set l selection).idx ≡ 1
unfolding append_set
idx-append_set l selection h = ground arith

IsWedged-append_set :
    (l : LayoutState) (selection : List Text)
    → IsWedged l
    → IsWedged (from_one (append_set l selection))
IsWedged-append_set l selection v =
    let f = fields-append_set l selection in
    ground (arith, f, length-append_set l selection, idx-append_set l selection)

not_covered : (l : LayoutState) → IsWedged l → is_covered l ≡ false
not_covered l v =
    let few : length l.history * l.out_count ≤ 1 * l.out_count =
      le_mul (length l.history) 1 l.out_count v.kept in
    ground arith

-- With max_history 1, at most one row kept, the index at 1, a positive offset and no overflow,
-- ensure_window does not succeed, whatever its fuel and whatever the bag gives.
pub ensure_window-ne-ok :
    (fuel rounds : ℕ) (w : Work) → IsWedged w.layout → (ensure_window fuel rounds w).0 ≢ ok tt
unfolding ensure_window
ensure_window-ne-ok fuel zero w v h = cc
ensure_window-ne-ok fuel (suc rounds) w v h =
    let more = not_covered w.layout v in
    let r =
      continue-eq-ok (extend_once fuel w).0 (λ u (x : Work). ensure_window fuel rounds x)
        (extend_once fuel w).1 (rw (more, ensure_window) at h) in
    let x = Extended-of_ok fuel w r.1 in
    let w' : Work = record {
      sys = (bag_next_n fuel w.layout.out_count none w.sys).1;
      layout = from_one (append_set w.layout x.selection);
    } in
    ensure_window-ne-ok fuel rounds w' (IsWedged-append_set w.layout x.selection v)
      (rw x.after at r.2)

-- A history of one row that is shown from its first entry on.
pub record IsSingle (l : LayoutState) : Type 0 where
  pub one_row : l.max_history ≡ 1
  pub full : length l.history ≡ 1
  pub first : l.idx ≡ 1
  pub at_start : l.offset ≡ 0
  pub several : 2 ≤ l.out_count
  pub room : l.out_count + 1 < usize_max

IsWedged-shift_forward : (fuel : ℕ) (l : LayoutState) → IsSingle l → IsWedged (shift_forward fuel l)
unfolding shift_forward
IsWedged-shift_forward fuel l v =
    ground (arith, v.one_row, v.full, v.first, v.at_start, v.several, v.room)

not_empty : (rows : List (List Text)) → length rows ≡ 1 → is_empty rows ≡ false
not_empty [] h = cc
not_empty (row ∷ rows) h = refl

-- With max_history 1, a history of one row shown from its first entry on, at least two outputs and
-- no overflow, a shift forward gives no selection, whatever its fuel and whatever the bag gives.
pub run_shift-ne-ok :
    (fuel rounds : ℕ) (w : Work) (selection : List Text)
    → IsSingle w.layout
    → (run_shift fuel rounds true w).0 ≢ ok selection
unfolding run_shift
run_shift-ne-ok fuel rounds w selection v h =
    let a : ((change_layout (shift_forward fuel) >> (ensure_window fuel rounds >> window)) w).0
        ≡ ok selection =
      rw (initialized fuel w (not_empty w.layout.history v.full)) at h in
    let r =
      continue-eq-ok
        (ensure_window fuel rounds (record w { layout = shift_forward fuel w.layout })).0
        (λ u (x : Work). window x)
        (ensure_window fuel rounds (record w { layout = shift_forward fuel w.layout })).1 a in
    ensure_window-ne-ok fuel rounds (record w { layout = shift_forward fuel w.layout })
      (IsWedged-shift_forward fuel w.layout v) r.1
