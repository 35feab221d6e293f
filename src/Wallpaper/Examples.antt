-- ===== src/Wallpaper/Examples.antt =====
-- Runs of the wallpaper library on small states, and each theorem at a concrete input.
mod Changes
mod Files
use mathlib.Core.List.{Perm, flatten}
use mathlib.Core.List.Perm
use mural.Wallpaper.Bag.Orders.{draws, AreDraws, swapped, Turns, shuffle-Turns}
use mural.Prelude.{
  ℕ, ◌+◌, ◌*◌, max, ◌&&◌, if◌then◌else◌, ◌≤◌, ◌<◌, ◌≡◌, refl, Bool, true, false, Option, none, some,
  List, [], ◌∷◌, ◌++◌, map, Text, text, text_eq, contains, arith, length, All,
}
use mural.Exec.{Outcome, ok, err, running}
use mural.Disk.{Disk, is_file, lookup}
use mural.Wallpaper.Rng.{SimpleRng, next_usize}
use mural.Path.{sort, dedup}
use mural.Wallpaper.Shuffle.{shuffle, swap}
use mural.Wallpaper.Shuffle.Checked.{checked_shuffle, checked_shuffle-some}
use mural.Wallpaper.Bag.Weights.{occurrences, occurrences-rebuild_bag}
use mural.Wallpaper.Layout.{LayoutState, get_window, prune_history, push_selection}
use mural.Wallpaper.Layout.Window.{IsShown, window-prune_history}
use mural.Wallpaper.Layout.Entry.{window-push_selection}
use mural.Wallpaper.Control.{Control, Sys, filter}
use mural.Wallpaper.Bag.{excluded, available, bag_next_n, pick_loop, rebuild_bag}
use mural.Wallpaper.Bag.Distinct.{Distinct}
use mural.Wallpaper.Bag.Picks.{bag_next_n-Picks}
use mural.Wallpaper.Bag.Hang.{IsExhausted, pick_loop-running}
use mural.Wallpaper.Bag.Total.{IsHealthy, Returns}
use mural.Wallpaper.Bag.Ends.{bag_next_n-Returns}

abbrev pub a_jpg : Text
a_jpg = text "/w/a.jpg"

abbrev pub b_png : Text
b_png = text "/w/b.png"

abbrev pub c_webp : Text
c_webp = text "/w/c.webp"

abbrev pub disk_of : List Text → Disk
disk_of names = record {
  files = map (λ p. (p, [])) names;
  dirs = text "/w" ∷ text "/s" ∷ [];
  denied = λ p. false;
  pid = text "7";
}

abbrev pub control_of : List Text → List Text → Control
control_of library bag = record {
  wall_dir = text "/w";
  state_dir = text "/s";
  quarantine_dir = text "/w/.quarantine";
  favorite_weight = 4;
  max_history = 3;
  library = library;
  favorites = [];
  shuffle_bag = bag;
  shuffle_pos = 0;
  layouts = [];
  rng = record { state = 1 };
}

abbrev pub three : List Text
three = a_jpg ∷ b_png ∷ c_webp ∷ []

-- Every path of the library is a file.
abbrev pub healthy : Sys
healthy = record { control = control_of three (b_png ∷ a_jpg ∷ []); disk = disk_of three }

-- `b_png` and `c_webp` were deleted behind the daemon's back.
abbrev deleted : Sys
deleted = record { control = control_of three three; disk = disk_of (a_jpg ∷ []) }

abbrev pub shown : LayoutState
shown = record {
  layout_dir = text "/s/layout-A+B";
  out_count = 2;
  max_history = 2;
  history = (a_jpg ∷ b_png ∷ []) ∷ (b_png ∷ c_webp ∷ []) ∷ (c_webp ∷ a_jpg ∷ []) ∷ [];
  idx = 2;
  offset = 1;
}

pub shown-IsShown : IsShown shown
shown-IsShown = record {
  rows = omega arith;
  started = omega arith;
  covered = omega arith;
  fits = omega arith;
}

window_shown : get_window shown ≡ c_webp ∷ c_webp ∷ []
unfolding get_window flatten
window_shown = refl

window-prune_history_example :
    (get_window (prune_history shown) ≡ get_window shown) × IsShown (prune_history shown)
window-prune_history_example = window-prune_history shown shown-IsShown (omega arith)

window-push_selection_example :
    (get_window (push_selection shown (a_jpg ∷ a_jpg ∷ [])) ≡ a_jpg ∷ a_jpg ∷ [])
    × IsShown (push_selection shown (a_jpg ∷ a_jpg ∷ []))
window-push_selection_example =
    window-push_selection shown (a_jpg ∷ a_jpg ∷ []) (omega arith) refl (omega arith) (omega arith)

turned_round : Perm three (c_webp ∷ b_png ∷ a_jpg ∷ [])
turned_round =
    Perm.trans (Perm.swap b_png a_jpg (c_webp ∷ [])) (
      Perm.trans (Perm.cons b_png (Perm.swap c_webp a_jpg []))
        (Perm.swap c_webp b_png (a_jpg ∷ [])))

shuffle-Turns_example :
    (AreDraws (draws 2 (record { state = 5 }))
      × ((shuffle (record { state = 5 }) three).0 ≡ swapped (draws 2 (record { state = 5 })) three))
    × Turns three (c_webp ∷ b_png ∷ a_jpg ∷ [])
shuffle-Turns_example =
    shuffle-Turns (record { state = 5 }) three (c_webp ∷ b_png ∷ a_jpg ∷ []) turned_round

checked_shuffle-some_example :
    checked_shuffle (record { state = 5 }) three ≡ some (shuffle (record { state = 5 }) three)
checked_shuffle-some_example = checked_shuffle-some (record { state = 5 }) three

-- `b_png` is a favorite.
abbrev favoring : Sys
favoring = record healthy {
  control = record (control_of three (b_png ∷ a_jpg ∷ [])) { favorites = b_png ∷ [] };
}

occurrences-rebuild_bag_example :
    occurrences b_png (rebuild_bag favoring).shuffle_bag
    ≡ occurrences b_png three
      * (if contains favoring.favorites b_png && is_file favoring.disk b_png then max 1 4 else 1)
occurrences-rebuild_bag_example = occurrences-rebuild_bag favoring b_png

four_times : occurrences b_png (rebuild_bag favoring).shuffle_bag ≡ 4
unfolding contains is_file lookup text_eq
four_times = occurrences-rebuild_bag favoring b_png

two_picked : (bag_next_n 9 2 (some b_png) healthy).0 ≡ ok (a_jpg ∷ c_webp ∷ [])
unfolding bag_next_n is_file filter text_eq lookup contains shuffle dedup sort swap next_usize
two_picked = refl

bag_next_n-Picks_example :
    (length (a_jpg ∷ c_webp ∷ []) ≡ 2)
    × All (λ w. excluded (some b_png) w ≡ false) (a_jpg ∷ c_webp ∷ [])
    × (2 ≤ available (some b_png) three → Distinct (a_jpg ∷ c_webp ∷ []))
bag_next_n-Picks_example =
    bag_next_n-Picks 9 2 (some b_png) healthy (a_jpg ∷ c_webp ∷ []) two_picked

pub healthy-IsHealthy : IsHealthy healthy
unfolding is_file text_eq lookup
healthy-IsHealthy = record {
  some_left = omega arith;
  in_library = (refl, (refl, (refl, tt)));
  in_bag = (refl, (refl, tt));
}

pub three-Distinct : Distinct three
unfolding contains text_eq
three-Distinct = (refl, (refl, (refl, tt)))

bag_next_n-Returns_example : Returns (bag_next_n 40 3 none healthy).0
bag_next_n-Returns_example =
    bag_next_n-Returns 40 3 healthy healthy-IsHealthy three-Distinct (omega arith)

-- The state that the loop comes to once the deleted files are found missing.
abbrev exhausted : Sys
exhausted = record { control = control_of (a_jpg ∷ []) (a_jpg ∷ []); disk = disk_of (a_jpg ∷ []) }

exhausted-IsExhausted : IsExhausted none (a_jpg ∷ []) exhausted
unfolding is_file text_eq lookup contains
exhausted-IsExhausted = record {
  some_left = omega arith;
  in_library = (record { allowed = refl; on_disk = refl; taken = refl }, tt);
  in_bag = (record { allowed = refl; on_disk = refl; taken = refl }, tt);
}

pick_loop-running_example : (pick_loop none false 1000 2 (a_jpg ∷ []) 0 exhausted).0 ≡ running
pick_loop-running_example =
    pick_loop-running none 1000 2 (a_jpg ∷ []) 0 exhausted exhausted-IsExhausted (omega arith)

-- Two files of three are gone, and two outputs want a wallpaper: 200 rounds do not suffice.
deleted_runs_on : (bag_next_n 200 2 none deleted).0 ≡ running
unfolding bag_next_n is_file filter text_eq lookup contains shuffle dedup sort swap next_usize
    mural.Wallpaper.Bag.rescan_top_level mural.Wallpaper.Control.scan_top_level_library
    mural.Disk.is_dir mural.Disk.read_dir mural.Wallpaper.Control.persist_core_state
    mural.Disk.atomic_write_lines mural.Disk.atomic_write_text mural.Path.parent mural.Path.join
    mural.Wallpaper.Control.is_eligible mural.Path.starts_with
    mural.Wallpaper.Control.is_supported_wallpaper mural.Path.extension
    mural.Path.to_ascii_lowercase mural.Disk.create_dir_all mural.Disk.write_file mural.Disk.rename
    mural.Disk.remove mural.Disk.temporary mural.Path.file_name
deleted_runs_on = refl
