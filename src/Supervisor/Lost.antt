-- ===== src/Supervisor/Lost.antt =====
-- A change whose file cannot be moved to quarantine in `render_wallpaper_action`.
use mural.Prelude.{
  ℕ, ◌≡◌, refl, ap, ◌∙◌, true, false, none, some, List, text_eq, text_eq_iff, arith,
}
use mural.Exec.{ok, err, Error}
use mural.Wallpaper.Layout.{LayoutState}
use mural.Wallpaper.Control.{Sys}
use mural.Prelude.{length}
use mural.Protocol.Messages.{WallpaperRequest}
use mural.Wallpaper.Change.Prepare.Layouts.{prepare-Prepares}
use mural.Wallpaper.Change.{
  ActiveOutput, layout_key, PreparedWallpaperChange, get_layout, remove_layout,
}
use mural.Wallpaper.Change.Finish.{move_quarantine, move_file}
use mural.Wallpaper.Change.Layouts.{get-remove_layout}
use mural.Protocol.Words.General.{ScaleMode}
use mural.Protocol.Messages.{Transition}
use mural.Protocol.Responses.{HealthOutput}
use mural.Supervisor.{
  Daemon, Parts, is_canvas, transition_of, mode_of, render_wallpaper_action,
  validate_render_wallpaper_action, all_active_outputs_power_off, is_world, choose_transition,
  finish_change, validate_image_paths, request_outputs,
}
use mural.Supervisor.Restores.{preparation, prepared_daemon}

-- The layouts are no part of what a move to quarantine changes.
layouts-move_quarantine :
    (p : PreparedWallpaperChange) (s : Sys) → (move_quarantine p s).1.layouts ≡ s.layouts
unfolding move_quarantine move_file
layouts-move_quarantine p s = elim p.quarantine as (λ q. (move_file p q s).1.layouts ≡ s.layouts) [
  | none ↦ refl
  | some m ↦ ground arith
]

finish_change-layouts :
    {R : Type 0} (x : Parts R) (p : PreparedWallpaperChange) (t : Transition) (mode : ScaleMode)
    (health : List HealthOutput) (d : Daemon R) (e : Error)
    → is_world t ≡ false
    → validate_image_paths d.sys.disk (request_outputs p.entries) ≡ ok tt
    → (move_quarantine p d.sys).0 ≡ err e
    → ((finish_change x p t mode health d).0 ≡ err e)
      × ((finish_change x p t mode health d).1.sys.layouts ≡ d.sys.layouts)
unfolding finish_change choose_transition
finish_change-layouts x p t mode health d e plain paths fails =
    (rw (paths, plain, fails) refl, rw (paths, plain, fails) (layouts-move_quarantine p d.sys))

-- Where the layout of the outputs is in the map, the action is in range, not every output is off, a
-- change is prepared, its images are files and it is not shown as a world: if the move of its file
-- to quarantine fails, render_wallpaper_action fails with that error, and the layout, which was in
-- the map before, is not in the map behind it.
pub render_wallpaper_action-lost :
    {R : Type 0} (x : Parts R) (fuel rounds : ℕ) (request : WallpaperRequest)
    (outputs : List ActiveOutput) (health : List HealthOutput) (d : Daemon R) (before : LayoutState)
    (p : PreparedWallpaperChange) (e : Error)
    → validate_render_wallpaper_action request.action (length outputs) ≡ ok tt
    → all_active_outputs_power_off outputs health ≡ false
    → get_layout (layout_key outputs) d.sys.layouts ≡ some before
    → (preparation x fuel rounds request outputs d).0 ≡ ok p
    → is_world (transition_of x request) ≡ false
    → validate_image_paths
        (preparation x fuel rounds request outputs d).1.disk
        (request_outputs p.entries)
      ≡ ok tt
    → (move_quarantine p (preparation x fuel rounds request outputs d).1).0 ≡ err e
    → ((render_wallpaper_action x fuel rounds request outputs health d).0 ≡ err e)
      × (get_layout
            (layout_key outputs)
            (render_wallpaper_action x fuel rounds request outputs health d).1.sys.layouts
          ≡ none)
unfolding render_wallpaper_action
render_wallpaper_action-lost x fuel rounds request outputs health d before p e valid on cached made
      plain paths fails =
    let t = transition_of x request in
    let mode = mode_of x request in
    let d' = prepared_daemon x fuel rounds request outputs d in
    let key = layout_key outputs in
    let q =
      prepare-Prepares fuel rounds request.action outputs (is_canvas t) d.sys before p cached
        made in
    let whole : render_wallpaper_action x fuel rounds request outputs health d
        ≡ finish_change x p t mode health d' =
      rw (valid, on, made) refl in
    let end = finish_change-layouts x p t mode health d' e plain paths fails in
    let same : text_eq key key ≡ true = (text_eq_iff key key).1 refl in
    let gone : get_layout key (remove_layout key d.sys.layouts) ≡ none =
      get-remove_layout key key d.sys.layouts ∙ (rw same refl) in
    (
      ap (λ u. u.0) whole ∙ end.0,
      ap (λ u. get_layout key u.1.sys.layouts) whole ∙ ap (get_layout key) (end.1 ∙ q.taken) ∙ gone,
    )
