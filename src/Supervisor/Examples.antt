-- ===== src/Supervisor/Examples.antt =====
-- A renderer that fails, a disk without room for the quarantine, and the theorems on them.
use mural.Prelude.{
  ◌≡◌, refl, ◌⊎◌, false, ◌||◌, Text, none, some, List, [], ◌∷◌, text, text_eq, contains,
}
use mathlib.Core.List.{flatten}
use mural.Exec.{ok, err, Error, message, create_dir_failed}
use mural.Disk.{
  path_exists, is_file, lookup, create_dir_all, write_file, rename, temporary, atomic_write_text,
  atomic_write_lines,
}
use mural.Wallpaper.Layout.{LayoutState, get_window, window_start, push_selection}
use mural.Wallpaper.Control.{filter, persist_core_state}
use mural.Wallpaper.Bag.{bag_next_n}
use mural.Wallpaper.Actions.{
  ensure_window, heal_selection, run_next_back, ensure_initialized, run_replace,
}
use mural.Wallpaper.Change.{
  ActiveOutput, PreparedWallpaperChange, WallpaperAction, get_layout, layout_key, remove_layout,
  take_layout, entries, as_str, put_back,
}
use mural.Wallpaper.Change.Prepare.{
  prepare_wallpaper_change, prepare_with, validate, draft, select, prepare_quarantine_move,
  unique_destination,
}
use mural.Wallpaper.Change.Finish.{move_quarantine, move_file, commit_wallpaper_change}
use mural.Wallpaper.Examples.{a_jpg, b_png, c_webp, control_of, three, healthy, shown, disk_of}
use mural.Path.{text_lt, join, parent, file_name}
use mural.Wallpaper.Storage.{write}
use mural.Protocol.Words.General.{fill, ease_out_cubic}
use mural.Protocol.Messages.{Transition, WallpaperRequest}
use mural.ActionMap.{ActionMap}
use mural.Supervisor.{
  Daemon, Parts, render_wallpaper_action, finish_change, validate_image_paths, request_outputs,
  all_active_outputs_power_off, validate_render_wallpaper_action, choose_transition,
  render_or_roll_back, render_prepared_change,
}
use mural.Supervisor.Commits.{commit_wallpaper_change-kept}
use mural.Wallpaper.Bag.Distinct.{Distinct}
use mural.Supervisor.Neighborhood.{
  world_neighborhood_centers, world_neighborhood_centers-once, in_entries, push_entries, push_all,
  push_unique_string, push_current, start_of,
}
use mural.Supervisor.Lost.{render_wallpaper_action-lost}
use mural.Supervisor.Restores.{
  preparation, CommitFailed, render_wallpaper_action-Restored, prepared_daemon,
}

abbrev fade : Transition
fade = Transition.fade 900 ease_out_cubic

abbrev gone : Error
gone = message (text "renderer request failed: broken pipe")

abbrev faded : ActionMap
faded = record {
  next = fade;
  back = fade;
  shift_forward = fade;
  shift_back = fade;
  replace = fade;
  quarantine = fade;
  startup = Transition.cut;
}

-- Every request to the renderer fails.
abbrev no_renderer : Parts (Unit {0})
no_renderer = record {
  actions = faded;
  scale_mode = fill;
  world_fallback_transition = none;
  renderer_request = λ request d. (err gone, d);
  canvas_render_request = λ p t mode outputs d. (err gone, d);
  world_render_request = λ p t mode outputs d. (err gone, d);
  validate_world_cache = λ es health d. (none, d);
  world_route_warmup_message = λ e es health d. ([], d);
  schedule_world_neighborhood_warmup = λ es health d. d;
}

abbrev outputs : List ActiveOutput
outputs = record { name = text "A" } ∷ record { name = text "B" } ∷ []

abbrev early : LayoutState
early = record shown { idx = 1; offset = 1; max_history = 3 }

abbrev daemon : Daemon (Unit {0})
daemon = record {
  sys = record healthy {
    control = record (control_of three (b_png ∷ a_jpg ∷ [])) { layouts = (text "A+B", early) ∷ [] };
  };
  rest = tt;
}

abbrev request : WallpaperRequest
request = record { action = WallpaperAction.next; transition = some fade; scale_mode = none }

abbrev change : PreparedWallpaperChange
change = record {
  action = text "next";
  entries =
      record { index = 0; output = text "A"; path = c_webp; favorite = false }
      ∷ record { index = 1; output = text "B"; path = c_webp; favorite = false }
      ∷ [];
  selection = c_webp ∷ c_webp ∷ [];
  canvas_before_start = none;
  canvas_after_start = none;
  layout_key = text "A+B";
  layout_before = early;
  layout = record early { idx = 2 };
  quarantine = none;
  shuffle_pos_before = 0;
  shuffle_bag_len_before = 2;
}

change_prepared : (preparation no_renderer 9 9 request outputs daemon).0 ≡ ok change
unfolding prepare_wallpaper_change is_file filter text_eq lookup contains take_layout layout_key
    ensure_initialized ensure_window run_next_back heal_selection get_window entries validate draft
    prepare_with select remove_layout window_start flatten as_str get_layout
change_prepared = refl

early_cached : get_layout (layout_key outputs) daemon.sys.layouts ≡ some early
unfolding get_layout layout_key text_eq
early_cached = refl

paths_there :
    validate_image_paths
      (preparation no_renderer 9 9 request outputs daemon).1.disk
      (request_outputs change.entries)
    ≡ ok tt
unfolding validate_image_paths request_outputs prepare_wallpaper_change is_file filter text_eq
    lookup contains take_layout layout_key ensure_initialized ensure_window run_next_back
    heal_selection get_window entries validate draft prepare_with select remove_layout window_start
    flatten as_str get_layout text_lt
paths_there = refl

not_rendered : (render_wallpaper_action no_renderer 9 9 request outputs [] daemon).0 ≡ err gone
unfolding render_wallpaper_action validate_render_wallpaper_action all_active_outputs_power_off
    finish_change choose_transition move_quarantine render_or_roll_back render_prepared_change
    validate_image_paths request_outputs prepare_wallpaper_change is_file filter text_eq lookup
    contains take_layout layout_key ensure_initialized ensure_window run_next_back heal_selection
    get_window entries validate draft prepare_with select remove_layout window_start flatten as_str
    get_layout text_lt
not_rendered = refl

nothing_off : all_active_outputs_power_off outputs [] ≡ false
unfolding all_active_outputs_power_off
nothing_off = refl

in_range : validate_render_wallpaper_action WallpaperAction.next 2 ≡ ok tt
unfolding validate_render_wallpaper_action
in_range = refl

render_wallpaper_action-Restored_example :
    (get_layout
        (layout_key outputs)
        (render_wallpaper_action no_renderer 9 9 request outputs [] daemon).1.sys.layouts
      ≡ some early)
    ⊎ CommitFailed no_renderer change fade fill []
        (prepared_daemon no_renderer 9 9 request outputs daemon)
        gone
        (render_wallpaper_action no_renderer 9 9 request outputs [] daemon).1
render_wallpaper_action-Restored_example =
    render_wallpaper_action-Restored no_renderer 9 9 request outputs [] daemon early change gone
      in_range nothing_off early_cached change_prepared refl paths_there not_rendered

-- The directory of the quarantine cannot be made.
abbrev sealed : Daemon (Unit {0})
sealed = record {
  sys = record daemon.sys {
    disk = record (disk_of three) { denied = λ p. text_eq p (text "/w/.quarantine") };
  };
  rest = tt;
}

abbrev remove : WallpaperRequest
remove = record { action = WallpaperAction.quarantine 0; transition = some fade; scale_mode = none }

-- The change that is prepared draws another wallpaper for the output.
abbrev quarantined : PreparedWallpaperChange
quarantined = record change {
  action = text "quarantine";
  entries =
      record { index = 0; output = text "A"; path = a_jpg; favorite = false }
      ∷ record { index = 1; output = text "B"; path = b_png; favorite = false }
      ∷ [];
  selection = a_jpg ∷ b_png ∷ [];
  layout = record early {
    history = (a_jpg ∷ b_png ∷ []) ∷ (a_jpg ∷ b_png ∷ []) ∷ [];
    idx = 2;
    offset = 0;
  };
  quarantine =
      some (record { source = b_png; destination = text "/w/.quarantine/b.png"; moved = false });
}

quarantine_prepared : (preparation no_renderer 9 9 remove outputs sealed).0 ≡ ok quarantined
unfolding prepare_wallpaper_change is_file filter text_eq lookup contains take_layout layout_key
    ensure_initialized ensure_window run_next_back heal_selection get_window entries validate draft
    prepare_with select remove_layout window_start flatten as_str get_layout prepare_quarantine_move
    bag_next_n run_replace file_name unique_destination path_exists join push_selection
quarantine_prepared = refl

sealed_paths :
    validate_image_paths
      (preparation no_renderer 9 9 remove outputs sealed).1.disk
      (request_outputs quarantined.entries)
    ≡ ok tt
unfolding prepare_wallpaper_change is_file filter text_eq lookup contains take_layout layout_key
    ensure_initialized ensure_window run_next_back heal_selection get_window entries validate draft
    prepare_with select remove_layout window_start flatten as_str get_layout prepare_quarantine_move
    bag_next_n run_replace file_name unique_destination path_exists join push_selection
    validate_image_paths request_outputs text_lt
sealed_paths = refl

not_moved :
    (move_quarantine quarantined (preparation no_renderer 9 9 remove outputs sealed).1).0
    ≡ err (create_dir_failed (text "/w/.quarantine"))
unfolding prepare_wallpaper_change is_file filter text_eq lookup contains take_layout layout_key
    ensure_initialized ensure_window run_next_back heal_selection get_window entries validate draft
    prepare_with select remove_layout window_start flatten as_str get_layout prepare_quarantine_move
    bag_next_n run_replace file_name unique_destination path_exists join push_selection
    move_quarantine move_file create_dir_all
not_moved = refl

removal_in_range : validate_render_wallpaper_action (WallpaperAction.quarantine 0) 2 ≡ ok tt
unfolding validate_render_wallpaper_action
removal_in_range = refl

render_wallpaper_action-lost_example :
    ((render_wallpaper_action no_renderer 9 9 remove outputs [] sealed).0
      ≡ err (create_dir_failed (text "/w/.quarantine")))
    × (get_layout
          (layout_key outputs)
          (render_wallpaper_action no_renderer 9 9 remove outputs [] sealed).1.sys.layouts
        ≡ none)
render_wallpaper_action-lost_example =
    render_wallpaper_action-lost no_renderer 9 9 remove outputs [] sealed early quarantined
      (create_dir_failed (text "/w/.quarantine")) removal_in_range nothing_off early_cached
      quarantine_prepared refl sealed_paths not_moved

kept :
    (commit_wallpaper_change change daemon.sys).0
    ≡ ok (record { action = text "next"; message = []; entries = change.entries; favorites = [] })
unfolding commit_wallpaper_change write atomic_write_lines atomic_write_text parent join text_eq
    create_dir_all contains persist_core_state write_file rename lookup temporary file_name put_back
kept = refl

commit_wallpaper_change-kept_example :
    get_layout change.layout_key (commit_wallpaper_change change daemon.sys).1.layouts
    ≡ some change.layout
commit_wallpaper_change-kept_example =
    commit_wallpaper_change-kept change daemon.sys
      (record { action = text "next"; message = []; entries = change.entries; favorites = [] }) kept

world_neighborhood_centers-once_example :
    Distinct (world_neighborhood_centers change.entries [] (a_jpg ∷ c_webp ∷ []))
    × ((w : Text)
        → contains (world_neighborhood_centers change.entries [] (a_jpg ∷ c_webp ∷ [])) w
          ≡ (in_entries change.entries [] w || contains (a_jpg ∷ c_webp ∷ []) w))
world_neighborhood_centers-once_example =
    world_neighborhood_centers-once change.entries [] (a_jpg ∷ c_webp ∷ [])

-- Two entries with one image and two near future paths have two centers.
centers : world_neighborhood_centers change.entries [] (a_jpg ∷ c_webp ∷ []) ≡ c_webp ∷ a_jpg ∷ []
unfolding world_neighborhood_centers push_entries push_all push_unique_string push_current start_of
    contains text_eq
centers = refl
