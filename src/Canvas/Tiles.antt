-- ===== src/Canvas/Tiles.antt =====
-- `canvas_tile_paths` of transitions/canvas/layout.rs: the wallpapers on the tiles of a canvas.
use mural.Prelude.{
  ℕ, zero, suc, max, min, true, false, Option, none, some, List, [], ◌∷◌, ◌++◌, Text, contains, leb,
  ltb, if◌then◌else◌, length,
}
use mural.Wallpaper.Layout.{is_empty}
use mural.Protocol.Transitions.{max_canvas_tile_count}

-- `tile_count.clamp(1, MAX_CANVAS_TILE_COUNT)`
abbrev pub clamped : ℕ → ℕ
clamped tile_count = min (max tile_count 1) max_canvas_tile_count

abbrev old_or_empty : Option Text → Text
old_or_empty none = []
old_or_empty (some p) = p

abbrev if_named : Text → List Text → List Text
if_named [] ps = ps
if_named (c ∷ p) ps = (c ∷ p) ∷ ps

-- The old path and the target, unless they are empty.
abbrev pub required_paths : Option Text → Text → List Text
required_paths old target = if_named (old_or_empty old) (if_named target [])

-- A path joins the list unless it is there.
abbrev pub join_new : List Text → Text → List Text
join_new paths path = if contains paths path then paths else paths ++ (path ∷ [])

-- The loop over the preview, which stops at the tile count.
unfoldable pub gather : ℕ → List Text → List Text → List Text
gather n [] paths = paths
gather n (p ∷ preview) paths = elim (is_empty p) [
  | true ↦ gather n preview paths
  | false ↦ elim (leb n (length (join_new paths p))) [
    | true ↦ join_new paths p
    | false ↦ gather n preview (join_new paths p)
  ]
]

-- The last path that is not required is changed by `f`, if there is one (`rposition`).
unfoldable pub at_last_other :
    (Text → List Text → List Text) → List Text → List Text → Option (List Text)
at_last_other f required [] = none
at_last_other f required (p ∷ paths) = elim (at_last_other f required paths) [
  | some changed ↦ some (p ∷ changed)
  | none ↦ if contains required p then none else some (f p paths)
]

unfoldable pub or_push : List Text → Text → Option (List Text) → List Text
or_push paths path (some changed) = changed
or_push paths path none = paths ++ (path ∷ [])

unfoldable pub require : ℕ → List Text → List Text → Text → List Text
unfolding or_push at_last_other
require n required paths path =
    if contains paths path
    then paths
    else if ltb (length paths) n
    then paths ++ (path ∷ [])
    else or_push paths path (at_last_other (λ p rest. path ∷ rest) required paths)

unfoldable pub require_each : ℕ → List Text → List Text → List Text → List Text
unfolding require
require_each n required [] paths = paths
require_each n required (r ∷ rs) paths = require_each n required rs (require n required paths r)

abbrev pub tail : List Text → List Text
tail [] = []
tail (p ∷ ps) = ps

unfoldable pub or_tail : List Text → Option (List Text) → List Text
or_tail paths (some changed) = changed
or_tail paths none = tail paths

unfoldable pub remove_one : List Text → List Text → List Text
unfolding or_tail at_last_other
remove_one required paths = or_tail paths (at_last_other (λ p rest. rest) required paths)

-- The last loop removes a path a round, so the length of the list is enough fuel.
unfoldable pub shrink : ℕ → ℕ → List Text → List Text → List Text
unfolding remove_one
shrink zero n required paths = paths
shrink (suc fuel) n required paths = elim (ltb n (length paths)) [
  | true ↦ shrink fuel n required (remove_one required paths)
  | false ↦ paths
]

unfoldable pub canvas_tile_paths : List Text → Option Text → Text → ℕ → List Text
unfolding gather require_each shrink
canvas_tile_paths preview old target tile_count =
    let n = clamped tile_count in
    let required = required_paths old target in
    let paths = require_each n required required (gather n preview []) in
    shrink (length paths) n required paths
