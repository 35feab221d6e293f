-- ===== src/Wallpaper/Change.antt =====
-- The public operations of `WallpaperControl` in wallpaper.rs on the layouts of the active outputs:
-- preparing a change, committing it or rolling it back, and the favorites.
pub mod Prepare
pub mod Finish
pub mod Layouts
pub mod Rollback
use mural.Prelude.{
  ℕ, zero, suc, ◌+◌, ◌-◌, min, Bool, true, false, not, ◌||◌, Option, none, some, List, [], ◌∷◌,
  ◌++◌, map, Text, text, text_eq, contains, retain_ne, ltb, leb, ◌==◌, if◌then◌else◌, length,
  get_elem?,
}
use mural.Exec.{
  Outcome, ok, err, Exec, pure, raise, gets, modify, guard, lift, ◌>>=◌, ◌>>◌, continue, Label,
  Error, no_active_outputs, locate_failed, does_not_render, favorite_missing, no_file_name,
}
use mural.Path.{file_name, join, sort, extension, split_last, dot}
use mural.Disk.{Disk, is_file, path_exists, create_dir_all, rename}
use mural.Wallpaper.Layout.{LayoutState, is_empty, get_window, current_selection, window_start}
use mural.Decimal.{print_usize}
use mural.Wallpaper.Control.{Control, Sys, on_disk, persist_core_state}
use mural.Wallpaper.Bag.{rebuild_bag, rescan_top_level, RescanStats}
use mural.Wallpaper.Storage.{load, write}
use mural.Wallpaper.Actions.{
  Work, on_sys, change_layout, window, validate_output_index, ensure_initialized, ensure_window,
  run_next_back, run_shift, run_replace, heal_selection,
}

-- The actions of `WallpaperAction`.
pub data WallpaperAction : Type 0 where
  next back shift_forward shift_back favorites current rescan : WallpaperAction
  replace quarantine favorite unfavorite : ℕ → WallpaperAction

unfoldable pub as_str : WallpaperAction → Text
as_str next = text "next"
as_str back = text "back"
as_str shift_forward = text "shift-forward"
as_str shift_back = text "shift-back"
as_str favorites = text "favorites"
as_str current = text "current"
as_str rescan = text "rescan"
as_str (replace i) = text "replace"
as_str (quarantine i) = text "quarantine"
as_str (favorite i) = text "favorite"
as_str (unfavorite i) = text "unfavorite"

pub record ActiveOutput : Type 0 where
  pub name : Text

pub record WallpaperEntry : Type 0 where
  pub index : ℕ
  pub output : Text
  pub path : Text
  pub favorite : Bool

pub record WallpaperResponse : Type 0 where
  pub action : Text
  pub message : Text
  pub entries : List WallpaperEntry
  pub favorites : List Text

pub record QuarantineMove : Type 0 where
  pub source : Text
  pub destination : Text
  pub moved : Bool

pub record PreparedWallpaperChange : Type 0 where
  pub action : Text
  pub entries : List WallpaperEntry
  pub selection : List Text
  pub canvas_before_start : Option ℕ
  pub canvas_after_start : Option ℕ
  pub layout_key : Text
  pub layout_before : LayoutState
  pub layout : LayoutState
  pub quarantine : Option QuarantineMove
  pub shuffle_pos_before : ℕ
  pub shuffle_bag_len_before : ℕ

-- `names.join("+")`
unfoldable pub layout_key : List ActiveOutput → Text
layout_key [] = []
layout_key (o ∷ []) = o.name
layout_key (o ∷ (p ∷ os)) = o.name ++ (b'+' ∷ layout_key (p ∷ os))

abbrev pub Layouts : Type 0
Layouts = List (Text × LayoutState)

unfoldable pub get_layout : Text → Layouts → Option LayoutState
get_layout k [] = none
get_layout k ((j, l) ∷ m) = if text_eq j k then some l else get_layout k m

unfoldable pub remove_layout : Text → Layouts → Layouts
remove_layout k [] = []
remove_layout k ((j, l) ∷ m) =
    let rest = remove_layout k m in if text_eq j k then rest else (j, l) ∷ rest

unfoldable pub insert_layout : Text → LayoutState → Layouts → Layouts
unfolding remove_layout
insert_layout k l m = (k, l) ∷ remove_layout k m

abbrev with_layouts : (Layouts → Layouts) → Sys → Sys
with_layouts f s = record s { control = record s.control { layouts = f s.layouts } }

-- `self.layouts.insert(key, layout)`
unfoldable pub put_back : Text → LayoutState → Sys → Sys
unfolding insert_layout
put_back k l = with_layouts (insert_layout k l)

unfoldable pub take_layout : List ActiveOutput → Exec Sys (Text × LayoutState)
unfolding layout_key get_layout remove_layout
take_layout outputs s =
    if is_empty outputs
    then (err no_active_outputs, s)
    else (let key = layout_key outputs in
        elim (get_layout key s.layouts) [
          | some l ↦ (ok (key, l), with_layouts (remove_layout key) s)
          | none ↦
              (do
                l ← on_disk (λ t.
                    load (join t.state_dir (text "layout-" ++ key)) (length outputs) t.max_history)
                pure (key, l))
                s
        ])

entries_from : ℕ → List Text → List ActiveOutput → List Text → List WallpaperEntry
entries_from i favs [] walls = []
entries_from i favs (o ∷ os) [] = []
entries_from i favs (o ∷ os) (w ∷ ws) =
    record { index = i; output = o.name; path = w; favorite = contains favs w }
    ∷ entries_from (i + 1) favs os ws

unfoldable pub entries : Control → List ActiveOutput → List Text → List WallpaperEntry
unfolding entries_from
entries c outputs selection = entries_from 0 c.favorites outputs selection
