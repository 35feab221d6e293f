-- ===== src/Wallpaper/Actions.antt =====
-- What the wallpaper actions of wallpaper.rs do with a layout that was taken from the map: the
-- methods with a `layout: &mut LayoutState` argument, and the guards before them.
pub mod Covered
pub mod OneRow
pub mod Ends
pub mod Return
pub mod Keeps
use mural.Prelude.{
  ℕ, zero, suc, ◌+◌, ◌-◌, ◌≤◌, Bool, true, false, ◌&&◌, ◌||◌, not, Option, none, some, List, [],
  ◌∷◌, ◌++◌, Text, ltb, leb, if◌then◌else◌, length, set, sat_add, sat_mul, wrap, usize_max, ◌==◌,
}
use mural.Exec.{
  Outcome, ok, err, Exec, pure, raise, gets, modify, guard, ◌>>=◌, ◌>>◌, continue, Label,
  index_out_of_range,
}
use mural.Disk.{is_file}
use mural.Wallpaper.Layout.{
  LayoutState, is_empty, get_window, append_set, trim_history, prune_history, push_selection,
}
use mural.Wallpaper.Control.{Sys}
use mural.Wallpaper.Bag.{bag_next_n}

-- `self` and the borrowed layout.
pub record Work : Type 0 where
  pub sys : Sys
  pub layout : LayoutState

abbrev pub on_sys : {A : Type 0} → Exec Sys A → Exec Work A
on_sys m w = let r = m w.sys in (r.0, record w { sys = r.1 })

abbrev pub change_layout : (LayoutState → LayoutState) → Exec Work (Unit {0})
change_layout f w = (ok tt, record w { layout = f w.layout })

abbrev pub window : Exec Work (List Text)
window w = (ok (get_window w.layout), w)

unfoldable pub validate_output_index : ℕ → ℕ → Label → Outcome (Unit {0})
validate_output_index outputs index label =
    if leb outputs index then err (index_out_of_range label (outputs - 1)) else ok tt

module _ (fuel : ℕ) where
  unfoldable pub make_random_selection : ℕ → Exec Sys (List Text)
  make_random_selection count = bag_next_n fuel count none

  first : List Text → Exec Sys Text
  first [] s = (Outcome.running, s)
  first (w ∷ ws) s = (ok w, s)

  -- `remove(0)` of the one wallpaper that was drawn.
  unfoldable pub make_random_one : Option Text → Exec Sys Text
  unfolding first
  make_random_one exclude = do picked ← bag_next_n fuel 1 exclude; first picked

  unfoldable pub ensure_initialized : Exec Work (Unit {0})
  unfolding make_random_selection
  ensure_initialized w =
      if is_empty w.layout.history
      then (do
        selection ← on_sys (make_random_selection w.layout.out_count)
        change_layout (λ l. record (append_set l selection) { idx = 1; offset = 0 }))
          w
      else (ok tt, w)

abbrev pub window_end : LayoutState → ℕ
window_end l = sat_add (sat_add (sat_mul (l.idx - 1) l.out_count) l.offset) l.out_count

abbrev pub is_covered : LayoutState → Bool
is_covered l = leb (window_end l) (sat_mul (length l.history) l.out_count)

abbrev pub stay : Text → List Text × Bool → Exec Sys (List Text × Bool)
stay wall r s = (ok (wall ∷ r.0, r.1), s)

abbrev pub renew : Text → List Text × Bool → Exec Sys (List Text × Bool)
renew wall r s = (ok (wall ∷ r.0, true), s)

-- `if layout.idx < 1 { layout.idx = 1; layout.offset = 0; }`
abbrev pub from_one : LayoutState → LayoutState
from_one l = if ltb l.idx 1 then record l { idx = 1; offset = 0 } else l

module _ (fuel : ℕ) where
  unfoldable pub extend_once : Exec Work (Unit {0})
  unfolding make_random_selection
  extend_once w =
      (do
        selection ← on_sys (make_random_selection fuel w.layout.out_count)
        change_layout (λ l. from_one (append_set l selection)))
        w

  -- The fuel counts the rounds of this loop; each draw has `fuel` rounds of its own.
  unfoldable pub ensure_window : ℕ → Exec Work (Unit {0})
  unfolding extend_once
  ensure_window zero w = (Outcome.running, w)
  ensure_window (suc rounds) w = elim (is_covered w.layout) [
    | true ↦ (ok tt, w)
    | false ↦ let r = extend_once w in continue r.0 (λ u. ensure_window rounds) r.1
  ]

  unfoldable pub run_next_back : ℕ → Bool → Exec Work (List Text)
  unfolding ensure_initialized ensure_window
  run_next_back rounds true = do
    ensure_initialized fuel
    change_layout (λ l. if ltb l.idx 1 then record l { idx = 1 } else l)
    change_layout (λ l. if ltb 1 l.idx then record l { idx = l.idx - 1 } else l)
    window
  run_next_back rounds false = do
    ensure_initialized fuel
    change_layout (λ l. if ltb l.idx 1 then record l { idx = 1 } else l)
    more ← gets (λ w. ltb w.layout.idx (length w.layout.history))
    change_layout (λ l. record l { idx = wrap (l.idx + 1) })
    if more then pure tt else ensure_window rounds
    window

  unfoldable pub shift_forward : LayoutState → LayoutState
  shift_forward l = from_one (
      if leb l.out_count (wrap (l.offset + 1))
      then record l { offset = 0; idx = wrap (l.idx + 1) }
      else record l { offset = wrap (l.offset + 1) })

  unfoldable pub shift_back : LayoutState → LayoutState
  shift_back l =
      if ltb 0 l.offset
      then record l { offset = l.offset - 1 }
      else if ltb 1 l.idx
      then record l { idx = l.idx - 1; offset = wrap (l.out_count + usize_max) }
      else l

  unfoldable pub run_shift : ℕ → Bool → Exec Work (List Text)
  unfolding ensure_initialized ensure_window shift_forward shift_back
  run_shift rounds true = do
    ensure_initialized fuel
    change_layout shift_forward
    ensure_window rounds
    window
  run_shift rounds false = do ensure_initialized fuel; change_layout shift_back; window

  unfoldable pub run_replace : ℕ → ℕ → Option Text → Exec Work (List Text)
  unfolding ensure_initialized ensure_window make_random_one
  run_replace rounds index exclude = do
    ensure_initialized fuel
    ensure_window rounds
    current ← window
    replacement ← on_sys (make_random_one fuel exclude)
    let selection = set current index replacement
    change_layout (λ l. push_selection l selection)
    pure selection

  -- Each entry that is empty or still a file stays, any other is drawn anew; the flag tells whether
  -- one was.
  heal_entries : List Text → Exec Sys (List Text × Bool)
  unfolding make_random_one
  heal_entries [] s = (ok ([], false), s)
  heal_entries (wall ∷ walls) s =
      if is_empty wall || is_file s.disk wall
      then (do r ← heal_entries walls; stay wall r) s
      else (do drawn ← make_random_one fuel none; r ← heal_entries walls; renew drawn r) s

  -- A healed window that stands on one row replaces it, any other becomes a row of its own.
  record_healed : List Text → LayoutState → LayoutState
  record_healed healed l =
      if l.offset == 0 && (leb 1 l.idx && leb l.idx (length l.history))
      then record l { history = set l.history (l.idx - 1) healed }
      else push_selection l healed

  unfoldable pub heal_selection : List Text → Exec Work (List Text)
  unfolding heal_entries record_healed
  heal_selection selection = do
    r ← on_sys (heal_entries selection)
    change_layout (λ l. if r.1 then record_healed r.0 l else l)
    pure r.0
