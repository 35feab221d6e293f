-- ===== src/Wallpaper/Preview.antt =====
-- The windows on the history and the bag that wallpaper.rs shows on the canvas, and the entry of a
-- single new file: the methods that only read, and `add_top_level_file`.
pub mod Window
use mural.Prelude.{
  ℕ, zero, suc, ◌+◌, ◌-◌, ◌*◌, ◌/◌, ◌%◌, max, min, Bool, true, false, ◌&&◌, ◌||◌, not, Option, none,
  some, List, [], ◌∷◌, ◌++◌, Text, text_eq, contains, leb, ltb, if◌then◌else◌, ◌==◌, length,
  get_elem?, take, drop, sat_add,
}
use mural.Exec.{
  Outcome, ok, err, Exec, pure, modify, ◌>>=◌, ◌>>◌, continue, Error, no_canvas_history,
  no_positions, current_not_in_history, target_not_in_history, too_few_tiles, does_not_fit,
}
use mural.Path.{sort}
use mural.Wallpaper.Layout.{LayoutState, is_empty, flattened_history}
use mural.Wallpaper.Control.{Control, Sys, filter, is_eligible, persist_core_state}
use mural.Wallpaper.Bag.{peek_bag_forward}
use mural.Wallpaper.Change.{PreparedWallpaperChange}

-- `count` entries from `index` on, around the end of the bag.
around : List Text → ℕ → ℕ → List Text
around bag index zero = []
around bag index (suc count) =
    let rest = around bag (index + 1) count in
    elim (get_elem? bag (index % length bag)) [ none ↦ rest | some wall ↦ wall ∷ rest ]

unfoldable pub peek_bag_window : Control → ℕ → List Text
unfolding around
peek_bag_window c count =
    if is_empty c.shuffle_bag
    then take count c.library
    else (let len = length c.shuffle_bag in
        around c.shuffle_bag (min (c.shuffle_pos - count / 2) len) (min count len))

-- The last entry that is not required is overwritten, if there is one.
replace_last : List Text → Text → List Text → Option (List Text)
replace_last required path [] = none
replace_last required path (w ∷ ws) = elim (replace_last required path ws) [
  | some rest ↦ some (w ∷ rest)
  | none ↦ if contains required w then none else some (path ∷ ws)
]

require_path : ℕ → List Text → Text → List Text → List Text
unfolding replace_last
require_path target_len required path preview =
    if is_empty path || contains preview path
    then preview
    else if ltb (length preview) target_len
    then preview ++ (path ∷ [])
    else elim (replace_last required path preview) [ none ↦ preview | some changed ↦ changed ]

require_all : ℕ → List Text → List Text → List Text → List Text
unfolding require_path
require_all target_len required [] preview = preview
require_all target_len required (path ∷ paths) preview =
    require_all target_len required paths (require_path target_len required path preview)

unfoldable pub preview_window : Control → List Text → ℕ → List Text
unfolding require_all
preview_window c required tile_count =
    let target_len = max (max tile_count (length required)) 1 in
    let preview = require_all target_len required required (peek_bag_window c target_len) in
    take target_len (if is_empty preview then filter (λ p. not (is_empty p)) required else preview)

-- `usize::abs_diff`
abbrev pub abs_diff : ℕ → ℕ → ℕ
abs_diff a b = (a - b) + (b - a)

nearer : ℕ → ℕ → Option ℕ → ℕ
nearer anchor index none = index
nearer anchor index (some later) =
    if leb (abs_diff index anchor) (abs_diff later anchor) then index else later

closest_from : ℕ → List Text → Text → ℕ → Option ℕ
unfolding nearer
closest_from index [] path anchor = none
closest_from index (p ∷ paths) path anchor =
    let later = closest_from (index + 1) paths path anchor in
    if text_eq p path then some (nearer anchor index later) else later

-- Of two entries at one distance the first is taken.
unfoldable pub closest_path_index : List Text → Text → ℕ → Option ℕ
unfolding closest_from
closest_path_index paths path anchor = closest_from 0 paths path anchor

unfoldable pub push_unique : List Text → Text → List Text
push_unique paths path = if contains paths path then paths else paths ++ (path ∷ [])

-- What must be shown: a range of the history, and paths.
pub record Needed : Type 0 where
  pub range_start : ℕ
  pub range_end : ℕ
  pub paths : List Text

unfoldable pub widen : Needed → ℕ → Text → Needed
unfolding push_unique
widen n index path = record {
  range_start = min n.range_start index;
  range_end = max n.range_end (sat_add index 1);
  paths = push_unique n.paths path;
}

-- One of the two loops over paths that must be in the history.
unfoldable pub need_all : (Text → Error) → List Text → ℕ → List Text → Needed → Outcome Needed
unfolding widen
need_all missing flat anchor [] n = ok n
need_all missing flat anchor (path ∷ paths) n =
    if is_empty path
    then need_all missing flat anchor paths n
    else elim (closest_path_index flat path anchor) [
      | none ↦ err (missing path)
      | some index ↦ need_all missing flat anchor paths (widen n index path)
    ]

unfoldable pub first_missing : List Text → List Text → Option Text
first_missing preview [] = none
first_missing preview (p ∷ ps) = if contains preview p then first_missing preview ps else some p

pub record CanvasPreviewWindow : Type 0 where
  pub paths : List Text
  pub start_index : ℕ

-- The range of the two windows, cut at the end of the history.
unfoldable pub window_range : List Text → ℕ → ℕ → ℕ → Needed
window_range flat output_count before_start after_start =
    let before = min before_start (length flat) in
    let before_end = min (sat_add before output_count) (length flat) in
    let after = min after_start (length flat) in
    let after_end = min (sat_add after output_count) (length flat) in
    let start = min before after in
    record { range_start = start; range_end = max (max before_end after_end) start; paths = [] }

-- Place the needed range in the middle of the tiles, and fill up from the bag.
unfoldable pub place : Control → List Text → ℕ → Needed → Outcome CanvasPreviewWindow
unfolding first_missing
place c flat tile_count n =
    let required_len = n.range_end - n.range_start in
    if ltb tile_count required_len
    then err (too_few_tiles required_len tile_count)
    else (let preview_start = n.range_start - (tile_count - required_len) / 2 in
        let shown = take tile_count (drop preview_start flat) in
        let preview = shown ++ peek_bag_forward c (tile_count - length shown) in
        elim (first_missing preview n.paths) [
          | some path ↦ err (does_not_fit path)
          | none ↦ ok (record { paths = preview; start_index = preview_start })
        ])

-- Both loops, and what follows them.
unfoldable pub preview_from :
    Control
    → PreparedWallpaperChange
    → List Text
    → ℕ
    → List Text
    → ℕ
    → ℕ
    → Outcome CanvasPreviewWindow
unfolding need_all place window_range
preview_from c prepared current tile_count flat before_start after_start =
    let n0 = window_range flat (max prepared.layout.out_count 1) before_start after_start in
    elim (need_all current_not_in_history flat (min before_start (length flat)) current n0) [
      | err e ↦ err e
      | Outcome.running ↦ Outcome.running
      | ok n1 ↦
          elim (need_all target_not_in_history flat (min after_start (length flat))
            prepared.selection n1) [
              | err e ↦ err e
              | Outcome.running ↦ Outcome.running
              | ok n2 ↦ place c flat tile_count n2
            ]
    ]

unfoldable pub canvas_preview_window_for_prepared_change :
    Control → PreparedWallpaperChange → List Text → ℕ → Outcome CanvasPreviewWindow
unfolding preview_from
canvas_preview_window_for_prepared_change c prepared current tile_count =
    let flat = flattened_history prepared.layout in
    if is_empty flat then err no_canvas_history else elim prepared.canvas_before_start [
      | none ↦ err no_positions
      | some before_start ↦ elim prepared.canvas_after_start [
        | none ↦ err no_positions
        | some after_start ↦
            preview_from c prepared current (max tile_count 1) flat before_start after_start
      ]
    ]

-- A file that is new to the library joins it and the end of the bag.
unfoldable pub add_top_level_file : Text → Exec Sys Bool
add_top_level_file path s =
    if not (is_eligible s.wall_dir s.quarantine_dir s.disk path) || contains s.library path
    then (ok false, s)
    else (do
      modify (λ t. record t {
        control = record t.control {
          library = sort (t.library ++ (path ∷ []));
          shuffle_bag = t.shuffle_bag ++ (path ∷ []);
        };
      })
      persist_core_state
      pure true)
        s
