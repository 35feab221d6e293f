-- ===== src/Supervisor/Commits.antt =====
-- What a rendered change leaves behind in `render_wallpaper_action`.
use mural.Prelude.{◌≡◌, refl, ◌∙◌, true, some, [], text_eq, text_eq_iff}
use mural.Exec.{Outcome, ok, err, running, continue, Exec, pure, modify, ◌>>◌}
use mural.Wallpaper.Control.{Sys, on_disk, persist_core_state}
use mural.Wallpaper.Storage.{write}
use mural.Wallpaper.Change.{PreparedWallpaperChange, WallpaperResponse, get_layout, put_back}
use mural.Exec.Keeps.{Keeps, keeps_rules, Keeps-bind, Keeps-pure}
use mural.Disk.{Disk}
use mural.Wallpaper.Change.Layouts.{get-insert_layout}
use mural.Wallpaper.Change.Finish.{forget, commit_wallpaper_change}

abbrev Has : PreparedWallpaperChange → Sys → Type 0
Has p s = get_layout p.layout_key s.layouts ≡ some p.layout

on_disk-Keeps :
    {A : Type 0} (p : PreparedWallpaperChange) (m : Sys → Exec Disk A) → Keeps (Has p) (on_disk m)
on_disk-Keeps p m = record { at = λ s h. h }

persist-Keeps : (p : PreparedWallpaperChange) → Keeps (Has p) persist_core_state
unfolding persist_core_state
persist-Keeps p = search (keeps_rules, on_disk-Keeps)

put_back-Has : (p : PreparedWallpaperChange) (s : Sys) → Has p (put_back p.layout_key p.layout s)
unfolding put_back
put_back-Has p s =
    let same : text_eq p.layout_key p.layout_key ≡ true =
      (text_eq_iff p.layout_key p.layout_key).1 refl in
    get-insert_layout p.layout_key p.layout_key p.layout s.layouts ∙ (rw same refl)

-- The steps of the commit behind the write of the layout.
abbrev saved : PreparedWallpaperChange → WallpaperResponse → Exec Sys WallpaperResponse
saved p response = modify (put_back p.layout_key p.layout) >> persist_core_state >> pure response

saved-Has : (p : PreparedWallpaperChange) (r : WallpaperResponse) (s : Sys) → Has p (saved p r s).1
saved-Has p r s =
    (Keeps-bind persist_core_state (λ u. pure r) (persist-Keeps p) (λ u. Keeps-pure r)).at
      (put_back p.layout_key p.layout s) (put_back-Has p s)

written :
    (p : PreparedWallpaperChange) (r response : WallpaperResponse) (o : Outcome (Unit {0}))
    (s : Sys)
    → (continue o (λ u. saved p r) s).0 ≡ ok response
    → Has p (continue o (λ u. saved p r) s).1
written p r response (ok u) s h = saved-Has p r s
written p r response (err e) s h = absurd cc
written p r response running s h = absurd cc

-- A commit that returns a response leaves the prepared layout in the map under its key.
pub commit_wallpaper_change-kept :
    (p : PreparedWallpaperChange) (s : Sys) (response : WallpaperResponse)
    → (commit_wallpaper_change p s).0 ≡ ok response
    → get_layout p.layout_key (commit_wallpaper_change p s).1.layouts ≡ some p.layout
unfolding commit_wallpaper_change
commit_wallpaper_change-kept p s response h =
    let t = record s { control = forget p.quarantine s.control } in
    let w = on_disk (λ u. write p.layout) t in
    written p (record { action = p.action; message = []; entries = p.entries; favorites = [] })
      response w.0 w.1 h
