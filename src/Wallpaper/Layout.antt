-- ===== src/Wallpaper/Layout.antt =====
-- `LayoutState` of wallpaper.rs: the wallpaper history of one set of outputs, and the window on it.
pub mod Rows
pub mod Window
pub mod Entry
use mathlib.Core.List.{flatten}
use mural.Prelude.{
  ℕ, ◌+◌, ◌-◌, ◌*◌, max, Bool, true, false, ◌&&◌, ◌||◌, not, List, [], ◌∷◌, ◌++◌, Text, length,
  take, drop, ltb, leb, if◌then◌else◌, sat_add, sat_mul, wrap,
}
use mural.Exec.{Outcome, ok, err, no_history, incomplete_history}

pub record LayoutState : Type 0 where
  pub layout_dir : Text
  pub out_count : ℕ
  pub max_history : ℕ
  pub history : List (List Text)
  pub idx : ℕ
  pub offset : ℕ

abbrev pub is_empty {ℓ} : {A : Type ℓ} → List A → Bool
is_empty [] = true
is_empty (x ∷ xs) = false

unfoldable pub window_start : LayoutState → ℕ
window_start l = sat_add (sat_mul (l.idx - 1) l.out_count) l.offset

unfoldable pub flattened_history : LayoutState → List Text
flattened_history l = flatten l.history

-- The start is computed with plain `*` and `+`.
unfoldable pub get_window : LayoutState → List Text
unfolding flattened_history
get_window l =
    take l.out_count
      (drop (wrap (wrap ((l.idx - 1) * l.out_count) + l.offset)) (flattened_history l))

unfoldable pub current_selection : LayoutState → Bool → Outcome (List Text)
unfolding get_window
current_selection l allow_extend =
    if is_empty l.history || ltb l.idx 1
    then err no_history
    else (let end = wrap (wrap (wrap ((l.idx - 1) * l.out_count) + l.offset) + l.out_count) in
        if not allow_extend && ltb (wrap (length l.history * l.out_count)) end
        then err incomplete_history
        else ok (get_window l))

unfoldable pub trim_history : LayoutState → LayoutState
trim_history l =
    if ltb l.idx (length l.history) then record l { history = take l.idx l.history } else l

unfoldable pub prune_history : LayoutState → LayoutState
prune_history l =
    if leb (length l.history) l.max_history
    then l
    else (let drop_count = length l.history - l.max_history in
        record l {
          history = drop drop_count l.history;
          idx = if ltb 0 l.idx then max (l.idx - drop_count) 1 else l.idx;
        })

unfoldable pub append_set : LayoutState → List Text → LayoutState
unfolding prune_history
append_set l selection = prune_history (record l { history = l.history ++ (selection ∷ []) })

-- `trim_history`, `history.push(selection)`, `idx = history.len()`, `offset = 0`, `prune_history`:
-- how `run_replace` and `heal_selection` enter a selection of their own.
unfoldable pub push_selection : LayoutState → List Text → LayoutState
unfolding trim_history prune_history
push_selection l selection =
    let history = (trim_history l).history ++ (selection ∷ []) in
    prune_history (record l { history = history; idx = length history; offset = 0 })
