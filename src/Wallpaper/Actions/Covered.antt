-- ===== src/Wallpaper/Actions/Covered.antt =====
-- What `ensure_window` leaves when it returns: a window that is shown in full.
use mural.Prelude.{
  ℕ, zero, suc, ◌-◌, ◌*◌, ◌≤◌, ◌<◌, ◌≡◌, true, none, List, [], ◌∷◌, ◌++◌, Text, arith, length,
  leb→le, Bool-cases, inl, inr, usize_max, le_mul,
}
use mural.Exec.{ok, continue-eq-ok}
use mural.Wallpaper.Layout.{LayoutState, append_set}
use mural.Wallpaper.Layout.Rows.{Rows, Rows-append, Rows-drop}
use mural.Wallpaper.Layout.Window.{IsShown, length-append_set}
use mural.Wallpaper.Bag.{bag_next_n}
use mural.Wallpaper.Bag.Picks.{bag_next_n-Picks}
use mural.Wallpaper.Actions.{Work, is_covered, from_one, extend_once, ensure_window, change_layout}

-- A history of full rows, with room for as many as `max_history` allows.
pub record IsRoomy (cap : ℕ) (l : LayoutState) : Type 0 where
  pub rows : Rows l.out_count l.history
  pub kept : length l.history ≤ cap
  pub limit : l.max_history ≤ cap
  pub room : cap * l.out_count < usize_max

append_set-Rows :
    (l : LayoutState) (selection : List Text)
    → Rows l.out_count l.history
    → length selection ≡ l.out_count
    → Rows l.out_count (append_set l selection).history
unfolding append_set
append_set-Rows l selection r full = ground (
  arith,
  Rows-append l.out_count l.history (selection ∷ []) r (full, tt),
  Rows-drop l.out_count (length (l.history ++ (selection ∷ [])) - l.max_history)
      (l.history ++ (selection ∷ [])),
)

pub fields-append_set :
    (l : LayoutState) (selection : List Text)
    → ((append_set l selection).out_count ≡ l.out_count)
      × ((append_set l selection).max_history ≡ l.max_history)
      × ((append_set l selection).offset ≡ l.offset)
unfolding append_set
fields-append_set l selection = ground arith

from_one-IsRoomy : (cap : ℕ) (l : LayoutState) → IsRoomy cap l → IsRoomy cap (from_one l)
from_one-IsRoomy cap l v = ground arith

append_set-IsRoomy :
    (cap : ℕ) (l : LayoutState) (selection : List Text)
    → IsRoomy cap l
    → length selection ≡ l.out_count
    → IsRoomy cap (append_set l selection)
append_set-IsRoomy cap l selection v full =
    let f = fields-append_set l selection in
    record {
      rows = rw f.0 (append_set-Rows l selection v.rows full);
      kept = omega (arith, length-append_set l selection, v.limit);
      limit = rw f.1 v.limit;
      room = rw f.0 v.room;
    }

-- A round that returned appended what the bag gave.
pub record Extended (fuel : ℕ) (w : Work) : Type 0 where
  pub selection : List Text
  pub supply : (bag_next_n fuel w.layout.out_count none w.sys).0 ≡ ok selection
  pub after : extend_once fuel w ≡ (
    ok tt,
    record {
      sys = (bag_next_n fuel w.layout.out_count none w.sys).1;
      layout = from_one (append_set w.layout selection);
    },
  )

pub Extended-of_supply :
    (fuel : ℕ) (w : Work) (selection : List Text)
    → (bag_next_n fuel w.layout.out_count none w.sys).0 ≡ ok selection
    → Extended fuel w
unfolding extend_once
Extended-of_supply fuel w selection e = record {
  selection = selection;
  supply = e;
  after = rw (e, extend_once);
}

pub Extended-of_ok : (fuel : ℕ) (w : Work) → (extend_once fuel w).0 ≡ ok tt → Extended fuel w
unfolding extend_once
Extended-of_ok fuel w h =
    let inverted =
      continue-eq-ok (bag_next_n fuel w.layout.out_count none w.sys).0
        (λ selection (v : Work). change_layout (λ l. from_one (append_set l selection)) v)
        (record w { sys = (bag_next_n fuel w.layout.out_count none w.sys).1 }) h in
    Extended-of_supply fuel w inverted.0 inverted.1

module _ (fuel cap : ℕ) where
  pub Extended-IsRoomy :
      (w : Work) (x : Extended fuel w)
      → IsRoomy cap w.layout
      → IsRoomy cap (from_one (append_set w.layout x.selection))
  Extended-IsRoomy w x v = from_one-IsRoomy cap (append_set w.layout x.selection) (
      append_set-IsRoomy cap w.layout x.selection v
        (bag_next_n-Picks fuel w.layout.out_count none w.sys x.selection x.supply).0)

  started-from_one : (l : LayoutState) → 1 ≤ (from_one l).idx
  started-from_one l = ground arith

  -- The saturated test of the loop is exact where nothing overflows.
  IsShown-of_covered :
      (l : LayoutState) → IsRoomy cap l → 1 ≤ l.idx → is_covered l ≡ true → IsShown l
  IsShown-of_covered l v started c =
      let few : length l.history * l.out_count ≤ cap * l.out_count =
        le_mul (length l.history) cap l.out_count v.kept in
      record {
        rows = v.rows;
        started = started;
        covered = omega (arith, leb→le _ _ c, few, v.room);
        fits = omega (arith, few, v.room);
      }

  -- For a history of full rows within a cap that does not overflow, and an index of at least 1: if
  -- ensure_window returns, the history is such again and the window lies within it.
  pub ensure_window-IsShown :
      (rounds : ℕ) (w : Work)
      → IsRoomy cap w.layout
      → 1 ≤ w.layout.idx
      → (ensure_window fuel rounds w).0 ≡ ok tt
      → IsRoomy cap (ensure_window fuel rounds w).1.layout
        × IsShown (ensure_window fuel rounds w).1.layout
  unfolding ensure_window
  ensure_window-IsShown zero w v started h = cc
  ensure_window-IsShown (suc rounds) w v started h = elim (Bool-cases (is_covered w.layout)) [
    | inl done ↦ rw (done, ensure_window) (v, IsShown-of_covered w.layout v started done)
    | inr more ↦
        let r =
          continue-eq-ok (extend_once fuel w).0 (λ u (x : Work). ensure_window fuel rounds x)
            (extend_once fuel w).1 (rw (more, ensure_window) at h) in
        let x = Extended-of_ok fuel w r.1 in
        let l = append_set w.layout x.selection in
        let w' : Work = record {
          sys = (bag_next_n fuel w.layout.out_count none w.sys).1;
          layout = from_one l;
        } in
        rw (more, x.after, ensure_window)
          (ensure_window-IsShown rounds w' (Extended-IsRoomy w x v) (started-from_one l)
            (rw x.after at r.2))
  ]
