-- ===== src/Wallpaper/Change/Rollback.antt =====
-- A prepared change that is rolled back leaves the layouts as they were.
use mural.Prelude.{ℕ, ◌≡◌, ◌∙◌, Bool, some, List, Text, text_eq, text_eq_iff, arith, if◌then◌else◌}
use mural.Exec.{ok}
use mural.Wallpaper.Layout.{LayoutState}
use mural.Wallpaper.Control.{Sys}
use mural.Wallpaper.Change.{
  WallpaperAction, ActiveOutput, PreparedWallpaperChange, layout_key, get_layout, put_back,
}
use mural.Wallpaper.Change.Layouts.{get-remove_layout, get-insert_layout}
use mural.Wallpaper.Change.Prepare.{prepare_wallpaper_change}
use mural.Wallpaper.Change.Prepare.Layouts.{prepare-Prepares}
use mural.Wallpaper.Change.Finish.{rollback_quarantine, restore_pos, rollback_wallpaper_change}

layouts-rollback_quarantine :
    (p : PreparedWallpaperChange) (s : Sys) → (rollback_quarantine p s).layouts ≡ s.layouts
unfolding rollback_quarantine
layouts-rollback_quarantine p s = ground arith

layouts-restore_pos :
    (p : PreparedWallpaperChange) (s : Sys) → (restore_pos p s).layouts ≡ s.layouts
unfolding restore_pos
layouts-restore_pos p s = ground arith

-- After a rollback the layout that was taken is back, and every other one is untouched.
pub get-rollback :
    (p : PreparedWallpaperChange) (s : Sys) (j : Text)
    → get_layout j (rollback_wallpaper_change p s).layouts
      ≡ (if text_eq p.layout_key j then some p.layout_before else get_layout j s.layouts)
unfolding rollback_wallpaper_change put_back
get-rollback p s j =
    let e : (restore_pos p (rollback_quarantine p s)).layouts ≡ s.layouts =
      layouts-restore_pos p (rollback_quarantine p s) ∙ layouts-rollback_quarantine p s in
    get-insert_layout p.layout_key j p.layout_before
      (restore_pos p (rollback_quarantine p s)).layouts
    ∙ rw e

-- If the layout of the outputs is in the map and a wallpaper change is prepared, then rolling it
-- back, after any steps that leave the map alone, finds under every key what the map held before.
pub prepare-rollback :
    (fuel rounds : ℕ) (action : WallpaperAction) (outputs : List ActiveOutput) (capture : Bool)
    (s t : Sys) (before : LayoutState) (p : PreparedWallpaperChange) (j : Text)
    → get_layout (layout_key outputs) s.layouts ≡ some before
    → (prepare_wallpaper_change fuel rounds action outputs capture s).0 ≡ ok p
    → t.layouts ≡ (prepare_wallpaper_change fuel rounds action outputs capture s).1.layouts
    → get_layout j (rollback_wallpaper_change p t).layouts ≡ get_layout j s.layouts
prepare-rollback fuel rounds action outputs capture s t before p j cached h same =
    let x = prepare-Prepares fuel rounds action outputs capture s before p cached h in
    ground (
      arith,
      get-rollback p t j,
      x.key,
      x.layout_before,
      x.taken,
      get-remove_layout (layout_key outputs) j s.layouts,
      text_eq_iff (layout_key outputs) j,
    )
