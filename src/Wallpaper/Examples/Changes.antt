-- ===== src/Wallpaper/Examples/Changes.antt =====
-- Changes of wallpaper on two outputs, and the theorems on them at concrete inputs.
use mathlib.Core.List.{flatten}
use mural.Prelude.{
  ◌≤◌, ◌≡◌, ◌≢◌, refl, true, false, none, some, List, [], ◌∷◌, Text, text, text_eq, contains, arith,
  length,
}
use mural.Exec.{ok}
use mural.Disk.{is_file, lookup}
use mural.Path.{sort, dedup}
use mural.Wallpaper.Rng.{next_usize}
use mural.Wallpaper.Shuffle.{shuffle, swap}
use mural.Wallpaper.Layout.{LayoutState, get_window, append_set, window_start, flattened_history}
use mural.Wallpaper.Layout.Window.{IsShown}
use mural.Wallpaper.Control.{Sys, filter}
use mural.Wallpaper.Actions.{
  Work, ensure_window, heal_selection, run_next_back, ensure_initialized, run_shift, shift_forward,
}
use mural.Wallpaper.Actions.Covered.{IsRoomy, ensure_window-IsShown}
use mural.Wallpaper.Actions.Ends.{ensure_window-Ends}
use mural.Wallpaper.Actions.Return.{run_next_back-run_next_back, run_shift-run_shift}
use mural.Wallpaper.Actions.OneRow.{ensure_window-ne-ok, run_shift-ne-ok}
use mural.Wallpaper.Bag.{bag_next_n, peek_bag_forward}
use mural.Wallpaper.Change.{
  ActiveOutput, PreparedWallpaperChange, next, get_layout, layout_key, remove_layout, take_layout,
  entries, as_str,
}
use mural.Wallpaper.Change.Prepare.{prepare_wallpaper_change, prepare_with, validate, draft, select}
use mural.Wallpaper.Change.Finish.{rollback_wallpaper_change}
use mural.Wallpaper.Change.Rollback.{prepare-rollback}
use mural.Wallpaper.Preview.{canvas_preview_window_for_prepared_change, closest_path_index}
use mural.Wallpaper.Preview.Window.{AllShown, canvas_preview-shows}
use mural.Wallpaper.Examples.{
  a_jpg, b_png, c_webp, control_of, three, healthy, healthy-IsHealthy, three-Distinct, shown,
  shown-IsShown,
}

-- A window that begins one row behind the end of the history.
abbrev behind : LayoutState
behind = record shown { idx = 4; offset = 0; max_history = 3 }

abbrev behind_work : Work
behind_work = record { sys = healthy; layout = behind }

behind_covered : (ensure_window 9 3 behind_work).0 ≡ ok tt
unfolding ensure_window bag_next_n is_file filter text_eq lookup contains shuffle dedup sort swap
    next_usize append_set
behind_covered = refl

behind-IsRoomy : IsRoomy 3 behind
behind-IsRoomy = record {
  rows = shown-IsShown.rows;
  kept = omega arith;
  limit = omega arith;
  room = omega arith;
}

ensure_window-IsShown_example :
    IsRoomy 3 (ensure_window 9 3 behind_work).1.layout
    × IsShown (ensure_window 9 3 behind_work).1.layout
ensure_window-IsShown_example =
    ensure_window-IsShown 9 3 3 behind_work behind-IsRoomy (omega arith) behind_covered

ensure_window-Ends_example : (ensure_window 40 3 behind_work).0 ≡ ok tt
ensure_window-Ends_example =
    ensure_window-Ends 40 12 3 2 behind_work
      (record {
        healthy = healthy-IsHealthy;
        distinct = three-Distinct;
        bag = omega arith;
        rebuilt = omega arith;
      })
      (omega arith) behind-IsRoomy
      (record { started = omega arith; inside = omega arith; several = omega arith }) (omega arith)

-- The window begins inside the first of three rows.
abbrev early_work : Work
early_work = record { sys = healthy; layout = record shown { idx = 1; offset = 1 } }

abbrev early_selection : List Text
early_selection = b_png ∷ b_png ∷ []

run_next_back-run_next_back_example :
    run_next_back 9 9 true (run_next_back 9 9 false early_work).1 ≡ (ok early_selection, early_work)
unfolding get_window flatten
run_next_back-run_next_back_example =
    run_next_back-run_next_back 9 9 early_work
      (record {
        filled = refl;
        started = omega arith;
        index = omega arith;
        inside = omega arith;
        outputs = omega arith;
      })
      (omega arith)

run_shift-run_shift_example :
    run_shift 9 9 false (run_shift 9 9 true early_work).1 ≡ (ok early_selection, early_work)
unfolding shift_forward get_window flatten
run_shift-run_shift_example =
    run_shift-run_shift 9 8 early_work
      (record {
        filled = refl;
        started = omega arith;
        index = omega arith;
        inside = omega arith;
        outputs = omega arith;
      })
      refl

-- The same outputs with a history of one row, after one shift forward.
abbrev wedged : LayoutState
wedged = record shown { history = (a_jpg ∷ b_png ∷ []) ∷ []; max_history = 1; idx = 1; offset = 1 }

ensure_window-ne-ok_example :
    (ensure_window 9 1000 (record { sys = healthy; layout = wedged })).0 ≢ ok tt
ensure_window-ne-ok_example =
    ensure_window-ne-ok 9 1000 (record { sys = healthy; layout = wedged })
      (record {
        one_row = refl;
        kept = omega arith;
        first = refl;
        inside = omega arith;
        room = omega arith;
      })

-- The same history, shown from its first entry on.
abbrev single : LayoutState
single = record wedged { offset = 0 }

run_shift-ne-ok_example :
    (run_shift 9 1000 true (record { sys = healthy; layout = single })).0 ≢ ok (b_png ∷ c_webp ∷ [])
run_shift-ne-ok_example =
    run_shift-ne-ok 9 1000 (record { sys = healthy; layout = single }) (b_png ∷ c_webp ∷ [])
      (record {
        one_row = refl;
        full = refl;
        first = refl;
        at_start = refl;
        several = omega arith;
        room = omega arith;
      })

abbrev outputs : List ActiveOutput
outputs = record { name = text "A" } ∷ record { name = text "B" } ∷ []

abbrev early : LayoutState
early = record shown { idx = 1; offset = 1; max_history = 3 }

-- The layout of the two outputs is in the map.
abbrev with_early : Sys
with_early = record healthy {
  control = record (control_of three (b_png ∷ a_jpg ∷ [])) {
    layouts = (text "C", shown) ∷ (text "A+B", early) ∷ [];
  };
}

abbrev change : PreparedWallpaperChange
change = record {
  action = text "next";
  entries =
      record { index = 0; output = text "A"; path = c_webp; favorite = false }
      ∷ record { index = 1; output = text "B"; path = c_webp; favorite = false }
      ∷ [];
  selection = c_webp ∷ c_webp ∷ [];
  canvas_before_start = some 1;
  canvas_after_start = some 3;
  layout_key = text "A+B";
  layout_before = early;
  layout = record early { idx = 2 };
  quarantine = none;
  shuffle_pos_before = 0;
  shuffle_bag_len_before = 2;
}

change_prepared : (prepare_wallpaper_change 9 9 next outputs true with_early).0 ≡ ok change
unfolding prepare_wallpaper_change is_file filter text_eq lookup contains take_layout layout_key
    ensure_initialized ensure_window run_next_back heal_selection get_window entries validate draft
    prepare_with select remove_layout window_start flatten as_str get_layout
change_prepared = refl

early_cached : get_layout (layout_key outputs) with_early.layouts ≡ some early
unfolding get_layout layout_key text_eq
early_cached = refl

prepare-rollback_example :
    get_layout
      (text "A+B")
      (rollback_wallpaper_change change
        (prepare_wallpaper_change 9 9 next outputs true with_early).1).layouts
    ≡ get_layout (text "A+B") with_early.layouts
prepare-rollback_example =
    prepare-rollback 9 9 next outputs true with_early
      (prepare_wallpaper_change 9 9 next outputs true with_early).1 early change (text "A+B")
      early_cached change_prepared refl

abbrev preview : List Text
preview = b_png ∷ b_png ∷ c_webp ∷ c_webp ∷ a_jpg ∷ []

preview_computed :
    canvas_preview_window_for_prepared_change with_early.control change (b_png ∷ b_png ∷ []) 5
    ≡ ok (record { paths = preview; start_index = 1 })
unfolding canvas_preview_window_for_prepared_change closest_path_index text_eq contains
    flattened_history flatten peek_bag_forward
preview_computed = refl

canvas_preview-shows_example :
    AllShown preview (b_png ∷ b_png ∷ [])
    × AllShown preview (c_webp ∷ c_webp ∷ [])
    × (length preview ≤ 5)
canvas_preview-shows_example =
    canvas_preview-shows with_early.control change (b_png ∷ b_png ∷ []) 5
      (record { paths = preview; start_index = 1 }) preview_computed
