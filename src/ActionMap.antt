-- ===== src/ActionMap.antt =====
-- crates/mural-core/src/actions.rs: the transition that the configuration gives each action.
use mural.Prelude.{Option, none, some}
use mural.Wallpaper.Change.{WallpaperAction}
use mural.Protocol.Messages.{Transition}

pub data ActionKind : Type 0 where
  next back shift_forward shift_back replace quarantine startup : ActionKind

unfoldable pub from_wallpaper_action : WallpaperAction → Option ActionKind
from_wallpaper_action WallpaperAction.next = some ActionKind.next
from_wallpaper_action WallpaperAction.back = some ActionKind.back
from_wallpaper_action WallpaperAction.shift_forward = some ActionKind.shift_forward
from_wallpaper_action WallpaperAction.shift_back = some ActionKind.shift_back
from_wallpaper_action (WallpaperAction.replace i) = some ActionKind.replace
from_wallpaper_action (WallpaperAction.quarantine i) = some ActionKind.quarantine
from_wallpaper_action action = none

pub record ActionMap : Type 0 where
  pub next : Transition
  pub back : Transition
  pub shift_forward : Transition
  pub shift_back : Transition
  pub replace : Transition
  pub quarantine : Transition
  pub startup : Transition

-- `ActionMap::profile`; an `ActionProfile` has no field but its transition.
unfoldable pub profile : ActionMap → ActionKind → Transition
profile actions ActionKind.next = actions.next
profile actions ActionKind.back = actions.back
profile actions ActionKind.shift_forward = actions.shift_forward
profile actions ActionKind.shift_back = actions.shift_back
profile actions ActionKind.replace = actions.replace
profile actions ActionKind.quarantine = actions.quarantine
profile actions ActionKind.startup = actions.startup

unfoldable pub transition_for_wallpaper_action : ActionMap → WallpaperAction → Transition
transition_for_wallpaper_action actions action = elim (from_wallpaper_action action) [
  | none ↦ Transition.cut
  | some kind ↦ profile actions kind
]
