-- ===== src/Wallpaper/Change/Finish.antt =====
-- What follows a prepared change in wallpaper.rs: the move to quarantine, the commit, and the
-- rollback; and the operations that render nothing.
use mural.Prelude.{
  ℕ, min, Bool, true, false, Option, none, some, List, [], ◌∷◌, ◌++◌, Text, text, contains,
  retain_ne, ◌==◌, if◌then◌else◌, length, get_elem?,
}
use mural.Exec.{
  Outcome, ok, err, running, Exec, pure, gets, modify, lift, ◌>>=◌, ◌>>◌, Label, locate_failed,
  favorite_missing,
}
use mural.Path.{sort}
use mural.Disk.{is_file, create_dir_all, rename}
use mural.Wallpaper.Layout.{LayoutState, get_window, current_selection}
use mural.Decimal.{print_usize}
use mural.Wallpaper.Control.{Control, Sys, on_disk, persist_core_state}
use mural.Wallpaper.Bag.{rebuild_bag, rescan_top_level}
use mural.Wallpaper.Storage.{write, tab}
use mural.Wallpaper.Actions.{Work, validate_output_index, ensure_window}
use mural.Wallpaper.Change.{
  ActiveOutput, QuarantineMove, PreparedWallpaperChange, WallpaperResponse, take_layout, put_back,
  entries,
}

unfoldable pub move_file :
    PreparedWallpaperChange → Option QuarantineMove → Exec Sys PreparedWallpaperChange
move_file p none s = (ok p, s)
move_file p (some m) s =
    if is_file s.disk m.source
    then (do
      on_disk (λ t. create_dir_all t.quarantine_dir)
      on_disk (λ t. rename m.source m.destination)
      pure (record p { quarantine = some (record m { moved = true }) }))
        s
    else (ok p, s)

-- The change comes back with its plan marked as moved.
unfoldable pub move_quarantine : PreparedWallpaperChange → Exec Sys PreparedWallpaperChange
unfolding move_file
move_quarantine p = move_file p p.quarantine

move_back : Option QuarantineMove → Sys → Sys
move_back none s = s
move_back (some m) s =
    if m.moved then record s { disk = (rename m.destination m.source s.disk).1 } else s

-- A rename that fails is only reported.
unfoldable pub rollback_quarantine : PreparedWallpaperChange → Sys → Sys
unfolding move_back
rollback_quarantine p s = move_back p.quarantine s

-- The position in the bag, if the bag has kept its length.
unfoldable pub restore_pos : PreparedWallpaperChange → Sys → Sys
restore_pos p t =
    if length t.shuffle_bag == p.shuffle_bag_len_before
    then record t {
      control = record t.control { shuffle_pos = min p.shuffle_pos_before (length t.shuffle_bag) };
    }
    else t

unfoldable pub rollback_wallpaper_change : PreparedWallpaperChange → Sys → Sys
rollback_wallpaper_change p s =
    put_back p.layout_key p.layout_before (restore_pos p (rollback_quarantine p s))

-- The lists of a control without the wallpaper that was moved away.
unfoldable pub forget : Option QuarantineMove → Control → Control
forget none c = c
forget (some m) c = record c {
  library = retain_ne m.source c.library;
  favorites = retain_ne m.source c.favorites;
  shuffle_bag = retain_ne m.source c.shuffle_bag;
}

unfoldable pub commit_wallpaper_change : PreparedWallpaperChange → Exec Sys WallpaperResponse
unfolding forget
commit_wallpaper_change p = do
  modify (λ s. record s { control = forget p.quarantine s.control })
  on_disk (λ s. write p.layout)
  modify (put_back p.layout_key p.layout)
  persist_core_state
  pure (record { action = p.action; message = []; entries = p.entries; favorites = [] })

unfoldable pub favorites_response : Exec Sys WallpaperResponse
favorites_response =
    gets (λ s. record {
      action = text "favorites";
      message = [];
      entries = [];
      favorites = s.favorites;
    })

unfoldable pub rescan_response : Exec Sys WallpaperResponse
rescan_response = do
  stats ← rescan_top_level
  gets (λ s. record {
    action = text "rescan";
    message =
        text "library\t"
        ++ (print_usize (length s.library)
            ++ (text "\tadded\t"
                ++ (print_usize stats.added ++ (text "\tremoved\t" ++ print_usize stats.removed))));
    entries = [];
    favorites = [];
  })

-- The layout goes back into the map whether or not it shows a selection.
unfoldable pub current_response : List ActiveOutput → Exec Sys WallpaperResponse
current_response outputs = do
  taken ← take_layout outputs
  modify (put_back taken.0 taken.1)
  selection ← lift (current_selection taken.1 false)
  gets (λ s. record {
    action = text "current";
    message = [];
    entries = entries s.control outputs selection;
    favorites = [];
  })

-- Put the layout back and fail.
fail_with : Text → Work → Outcome WallpaperResponse → Outcome WallpaperResponse × Sys
fail_with key w o = (o, put_back key w.layout w.sys)

mark : Bool → Text → Control → Control
mark true target c =
    if contains c.favorites target
    then c
    else record c { favorites = sort (c.favorites ++ (target ∷ [])) }
mark false target c = record c { favorites = retain_ne target c.favorites }

abbrev verb : Bool → Text
verb true = text "favorite"
verb false = text "unfavorite"

marked :
    List ActiveOutput
    → ℕ
    → Bool
    → Text
    → Text
    → List Text
    → LayoutState
    → Exec Sys WallpaperResponse
unfolding mark
marked outputs index favorite key target selection l = do
  modify (λ s. rebuild_bag (record s { control = mark favorite target s.control }))
  on_disk (λ s. write l)
  modify (put_back key l)
  persist_core_state
  gets (λ s. record {
    action = verb favorite;
    message = verb favorite ++ (tab ∷ (print_usize index ++ (tab ∷ target)));
    entries = entries s.control outputs selection;
    favorites = [];
  })

favorite_target :
    List ActiveOutput
    → ℕ
    → Bool
    → Text
    → List Text
    → Work
    → Option Text
    → Outcome WallpaperResponse × Sys
unfolding marked fail_with
favorite_target outputs index favorite key selection w none = (err (locate_failed index), w.sys)
favorite_target outputs index favorite key selection w (some target) =
    if favorite
    then (if is_file w.sys.disk target
        then marked outputs index favorite key target selection w.layout w.sys
        else fail_with key w (err (favorite_missing target)))
    else marked outputs index favorite key target selection w.layout w.sys

with_window :
    List ActiveOutput
    → ℕ
    → Bool
    → Text
    → Outcome (Unit {0}) × Work
    → Outcome WallpaperResponse × Sys
unfolding favorite_target fail_with
with_window outputs index favorite key (ok _, w) =
    let selection = get_window w.layout in
    favorite_target outputs index favorite key selection w (get_elem? selection index)
with_window outputs index favorite key (err e, w) = fail_with key w (err e)
with_window outputs index favorite key (running, w) = (running, w.sys)

with_history :
    ℕ
    → ℕ
    → List ActiveOutput
    → ℕ
    → Bool
    → Text
    → LayoutState
    → Outcome (List Text)
    → Exec Sys WallpaperResponse
unfolding with_window fail_with
with_history fuel rounds outputs index favorite key l (ok _) s =
    with_window outputs index favorite key
      (ensure_window fuel rounds (record { sys = s; layout = l }))
with_history fuel rounds outputs index favorite key l (err e) s =
    fail_with key (record { sys = s; layout = l }) (err e)
with_history fuel rounds outputs index favorite key l running s = (running, s)

unfoldable pub favorite_action : ℕ → ℕ → List ActiveOutput → ℕ → Bool → Exec Sys WallpaperResponse
unfolding with_history
favorite_action fuel rounds outputs index favorite = do
  lift (
      validate_output_index (length outputs) index
        (if favorite then Label.favorite else Label.unfavorite))
  taken ← take_layout outputs
  with_history fuel rounds outputs index favorite taken.0 taken.1 (current_selection taken.1 true)
