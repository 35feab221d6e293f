-- ===== src/Wallpaper/Change/Prepare.antt =====
-- `prepare_wallpaper_change` and `prepare_startup_display` of wallpaper.rs, and the plan of a move
-- to quarantine.
pub mod Layouts
use mural.Prelude.{
  ℕ, zero, suc, ◌+◌, Bool, true, false, Option, none, some, List, [], ◌∷◌, ◌++◌, Text, text, ltb,
  if◌then◌else◌, length, get_elem?,
}
use mural.Exec.{
  Outcome, ok, err, Exec, pure, raise, gets, lift, ◌>>=◌, ◌>>◌, continue, Label, no_active_outputs,
  locate_failed, does_not_render, no_file_name,
}
use mural.Path.{file_name, join, split_last, dot}
use mural.Disk.{Disk, is_file, path_exists}
use mural.Wallpaper.Layout.{LayoutState, is_empty, window_start}
use mural.Decimal.{print_usize}
use mural.Wallpaper.Control.{Sys}
use mural.Wallpaper.Actions.{
  Work, on_sys, window, validate_output_index, ensure_initialized, ensure_window, run_next_back,
  run_shift, run_replace, heal_selection,
}
use mural.Wallpaper.Change.{
  WallpaperAction, next, back, shift_forward, shift_back, replace, quarantine, as_str, ActiveOutput,
  QuarantineMove, PreparedWallpaperChange, take_layout, entries,
}

-- `stem.SUFFIX.ext` for the file name `stem.ext`, `name.SUFFIX` for one with no extension.
unfoldable pub suffixed : Text → ℕ → Text
suffixed name suffix = elim (split_last dot name) [
  | none ↦ name ++ (dot ∷ print_usize suffix)
  | some (stem, ext) ↦
      if is_empty stem
      then name ++ (dot ∷ print_usize suffix)
      else stem ++ (dot ∷ (print_usize suffix ++ (dot ∷ ext)))
]

unique_from : ℕ → Disk → Text → Text → ℕ → Outcome Text
unique_from zero d dir name suffix = Outcome.running
unique_from (suc fuel) d dir name suffix =
    let candidate = join dir (suffixed name suffix) in
    elim (path_exists d candidate) [
      | true ↦ unique_from fuel d dir name (suffix + 1)
      | false ↦ ok candidate
    ]

unfoldable pub unique_destination : ℕ → Disk → Text → Text → Outcome Text
unfolding unique_from
unique_destination fuel d dir name =
    if path_exists d (join dir name) then unique_from fuel d dir name 1 else ok (join dir name)

unfoldable pub prepare_quarantine_move : ℕ → Text → Exec Sys (Option QuarantineMove)
prepare_quarantine_move fuel target s =
    if is_file s.disk target
    then elim (file_name target) [
      | none ↦ (err (no_file_name target), s)
      | some name ↦
          (do
            destination ← lift (unique_destination fuel s.disk s.quarantine_dir name)
            pure (some (record { source = target; destination = destination; moved = false })))
            s
    ]
    else (ok none, s)

-- Run the body on a layout that was taken; an error drops the layout.
abbrev with_layout : {A : Type 0} → A → Exec Work (A × LayoutState)
with_layout a w = (ok (a, w.layout), w)

abbrev borrowing : {A : Type 0} → LayoutState → Exec Work A → Exec Sys (A × LayoutState)
borrowing l m s = let r = (m >>= with_layout) (record { sys = s; layout = l }) in (r.0, r.1.sys)

abbrev start : Exec Work (Option ℕ)
start w = (ok (some (window_start w.layout)), w)

abbrev pub Draft : Type 0
Draft = List Text × Option QuarantineMove × Option ℕ × Option ℕ

prepared :
    Text
    → List ActiveOutput
    → Text
    → LayoutState
    → Sys
    → Draft × LayoutState
    → Sys
    → PreparedWallpaperChange
prepared action outputs key before s ((healed, move, canvas_before, canvas_after), l) t = record {
  action = action;
  entries = entries t.control outputs healed;
  selection = healed;
  canvas_before_start = canvas_before;
  canvas_after_start = canvas_after;
  layout_key = key;
  layout_before = before;
  layout = l;
  quarantine = move;
  shuffle_pos_before = s.shuffle_pos;
  shuffle_bag_len_before = length s.shuffle_bag;
}

-- What both operations do once the layout is taken.
unfoldable pub prepare_with :
    Text
    → List ActiveOutput
    → Exec Work Draft
    → Text × LayoutState
    → Exec Sys PreparedWallpaperChange
unfolding prepared
prepare_with action outputs body (key, before) s =
    (do r ← borrowing before body; gets (prepared action outputs key before s r)) s

module _ (fuel rounds : ℕ) where
  quarantine_target : ℕ → Option Text → Exec Work (List Text × Option QuarantineMove)
  quarantine_target index none = raise (locate_failed index)
  quarantine_target index (some target) = do
    move ← on_sys (prepare_quarantine_move fuel target)
    selection ← run_replace fuel rounds index (some target)
    pure (selection, move)

  unmoved : Exec Work (List Text) → Exec Work (List Text × Option QuarantineMove)
  unmoved m = do selection ← m; pure (selection, none)

  -- The `match action` that makes the selection.
  unfoldable pub select : WallpaperAction → Exec Work (List Text × Option QuarantineMove)
  unfolding quarantine_target unmoved
  select next = unmoved (run_next_back fuel rounds false)
  select back = unmoved (run_next_back fuel rounds true)
  select shift_forward = unmoved (run_shift fuel rounds true)
  select shift_back = unmoved (run_shift fuel rounds false)
  select (replace index) = unmoved (run_replace fuel rounds index none)
  select (quarantine index) = do
    ensure_initialized fuel
    ensure_window fuel rounds
    current ← window
    quarantine_target index (get_elem? current index)
  select _ = raise does_not_render

  -- The guards on the index, before the layout is taken.
  unfoldable pub validate : WallpaperAction → ℕ → Outcome (Unit {0})
  unfolding validate_output_index
  validate (replace index) outputs = validate_output_index outputs index Label.replace
  validate (quarantine index) outputs = validate_output_index outputs index Label.quarantine
  validate _ outputs = ok tt

  capture_before : Bool → Exec Work (Option ℕ)
  capture_before false = pure none
  capture_before true = do ensure_initialized fuel; ensure_window fuel rounds; start

  capture_after : Bool → Exec Work (Option ℕ)
  capture_after false = pure none
  capture_after true = start

  complete : ℕ → List Text → Exec Work (List Text)
  complete output_count selection =
      if ltb (length selection) output_count
      then (do ensure_window fuel rounds; window)
      else pure selection

  -- From the captured positions to the healed selection.
  unfoldable pub draft : WallpaperAction → ℕ → Bool → Exec Work Draft
  unfolding select capture_before capture_after complete
  draft action output_count capture = do
    before ← capture_before capture
    r ← select action
    selection ← complete output_count r.0
    healed ← heal_selection fuel selection
    after ← capture_after capture
    pure (healed, r.1, before, after)

  unfoldable pub startup_draft : Exec Work Draft
  startup_draft = do
    ensure_initialized fuel
    ensure_window fuel rounds
    selection ← window
    healed ← heal_selection fuel selection
    at ← start
    pure (healed, none, at, at)

  unfoldable pub prepare_wallpaper_change :
      WallpaperAction → List ActiveOutput → Bool → Exec Sys PreparedWallpaperChange
  prepare_wallpaper_change action outputs capture =
      if is_empty outputs then raise no_active_outputs else (do
        lift (validate action (length outputs))
        taken ← take_layout outputs
        prepare_with (as_str action) outputs (draft action (length outputs) capture) taken)

  unfoldable pub prepare_startup_display : List ActiveOutput → Exec Sys PreparedWallpaperChange
  prepare_startup_display outputs = if is_empty outputs then raise no_active_outputs else (do
    taken ← take_layout outputs
    prepare_with (text "startup") outputs startup_draft taken)
