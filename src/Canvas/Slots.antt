-- ===== src/Canvas/Slots.antt =====
-- `arrange_canvas_tile_paths` of transitions/canvas/layout.rs, and the slots that it chooses.
use mural.Prelude.{
  ℕ, zero, suc, ◌+◌, ◌-◌, ◌*◌, ◌/◌, ◌%◌, ◌^◌, max, min, Bool, true, false, ◌&&◌, Option, none, some,
  List, [], ◌∷◌, Text, text_eq, leb, ltb, ◌==◌, if◌then◌else◌, length, set, replicate, sat_add,
  sat_mul,
}
use mural.Wallpaper.Layout.{is_empty}
use mural.Protocol.Words.Canvas.{CanvasPanAxis, CanvasWalk, CanvasMode, paged, strip, span}

pub record Size : Type 0 where
  pub width : ℕ
  pub height : ℕ

pub record Grid : Type 0 where
  pub columns : ℕ
  pub rows : ℕ

pub data CanvasAxis : Type 0 where
  horizontal vertical : CanvasAxis

abbrev pub is_horizontal : CanvasAxis → Bool
is_horizontal horizontal = true
is_horizontal vertical = false

unfoldable pub canvas_walk_axis : CanvasPanAxis → Size → CanvasAxis
canvas_walk_axis CanvasPanAxis.auto output =
    if leb output.height output.width then horizontal else vertical
canvas_walk_axis CanvasPanAxis.horizontal output = horizontal
canvas_walk_axis CanvasPanAxis.vertical output = vertical

-- The fields of `CanvasTileArrange` and of its layout that are read. The margin is
-- `canvas_focus_margin(overview_scale)`, and the grid that of `canvas_grid_for_overview_axis` for so
-- many paths: both compute with floating-point numbers.
pub record CanvasTileArrange : Type 0 where
  pub preview_start : ℕ
  pub old_path : Option Text
  pub target_path : Text
  pub mode : CanvasMode
  pub walk : CanvasWalk
  pub pan_axis : CanvasPanAxis
  pub output : Size
  pub pan_tiles : ℕ
  pub margin : ℕ
  pub overview_grid : ℕ → Bool → Grid

unfoldable pub canvas_focus_slot : Grid → ℕ → ℕ → CanvasAxis → ℕ
canvas_focus_slot grid margin pan_tiles axis =
    let columns = max grid.columns 1 in
    let rows = max grid.rows 1 in
    let far = sat_add margin (max pan_tiles 1) in
    let column = if is_horizontal axis then min far (columns - 1) else min margin (columns - 1) in
    let row = if is_horizontal axis then min margin (rows - 1) else min far (rows - 1) in
    sat_add (sat_mul row columns) column

-- An `isize`: so many slots ahead, or behind.
pub data Offset : Type 0 where
  ahead behind : ℕ → Offset

abbrev isize_max : ℕ
isize_max = 2 ^ 63 - 1

unfoldable pub natural_canvas_offset : ℕ → ℕ → ℕ → Offset
natural_canvas_offset index anchor_index len =
    if len == 0
    then ahead 0
    else (let forward = (index + len - anchor_index) % len in
        if ltb (len / 2) forward
        then behind (min (len - forward) isize_max)
        else ahead (min forward isize_max))

unfoldable pub add_canvas_slot_offset : ℕ → Offset → ℕ → ℕ
add_canvas_slot_offset anchor_slot (ahead n) stride =
    let anchor = if leb anchor_slot isize_max then anchor_slot else 0 in
    min (anchor + min (n * min stride isize_max) isize_max) isize_max
add_canvas_slot_offset anchor_slot (behind n) stride =
    let anchor = if leb anchor_slot isize_max then anchor_slot else 0 in
    anchor - min (n * min stride isize_max) (isize_max + 1)

unfoldable pub canvas_slot_for_offset : ℕ → Offset → Grid → ℕ → CanvasAxis → ℕ
unfolding add_canvas_slot_offset
canvas_slot_for_offset anchor_slot offset grid len axis =
    if len == 0
    then 0
    else min
        (add_canvas_slot_offset anchor_slot offset
          (if is_horizontal axis then 1 else max grid.columns 1))
        (len - 1)

unfoldable pub natural_canvas_slot : ℕ → Grid → ℕ → CanvasAxis → ℕ
natural_canvas_slot natural_index grid len axis =
    if len == 0
    then 0
    else (let local = natural_index % len in
        if is_horizontal axis
        then local
        else (let rows = max grid.rows 1 in
            sat_add (sat_mul (local % rows) (max grid.columns 1)) (local / rows)))

abbrev pub Slots : Type 0
Slots = List (Option Text)

-- Whether the slot is there and empty.
abbrev pub is_free : Slots → ℕ → Bool
is_free [] i = false
is_free (none ∷ slots) zero = true
is_free (some p ∷ slots) zero = false
is_free (s ∷ slots) (suc i) = is_free slots i

-- The rounds for so many distances, from `distance` on.
unfoldable pub search_from : ℕ → Slots → ℕ → ℕ → ℕ
search_from zero slots preferred distance = preferred
search_from (suc rounds) slots preferred distance =
    let further = search_from rounds slots preferred (distance + 1) in
    if leb distance preferred && is_free slots (preferred - distance)
    then preferred - distance
    else if is_free slots (preferred + distance)
    then preferred + distance
    else further

unfoldable pub nearest_free_canvas_slot : Slots → ℕ → ℕ
unfolding search_from
nearest_free_canvas_slot slots preferred =
    let at = min preferred (length slots - 1) in
    if is_empty slots
    then 0
    else if is_free slots at
    then at
    else search_from (length slots - 1) slots at 1

-- `position(|candidate| candidate == path)`
position_from : ℕ → List Text → Text → Option ℕ
position_from i [] path = none
position_from i (p ∷ ps) path =
    let further = position_from (i + 1) ps path in if text_eq p path then some i else further

unfoldable pub position : List Text → Text → Option ℕ
unfolding position_from
position paths path = position_from 0 paths path

or_else : Option ℕ → Option ℕ → Option ℕ
or_else (some i) o = some i
or_else none o = o

old_index : List Text → Option Text → Option ℕ
old_index paths none = none
old_index paths (some p) = if is_empty p then none else position paths p

unfoldable pub anchor_index_of : List Text → CanvasTileArrange → Option ℕ
unfolding or_else old_index
anchor_index_of paths spec =
    or_else (old_index paths spec.old_path) (position paths spec.target_path)

module _ (spec : CanvasTileArrange) (grid : Grid) (anchor_index : Option ℕ) (len : ℕ) where
  abbrev walk_axis : CanvasAxis
  walk_axis = canvas_walk_axis spec.pan_axis spec.output

  abbrev natural_slot : ℕ → ℕ
  natural_slot index = natural_canvas_slot index grid len walk_axis

  strip_slot : Option ℕ → ℕ → ℕ
  unfolding canvas_slot_for_offset canvas_focus_slot natural_canvas_offset
  strip_slot none index = natural_slot (sat_add spec.preview_start index)
  strip_slot (some anchor) index =
      canvas_slot_for_offset (canvas_focus_slot grid spec.margin spec.pan_tiles walk_axis)
        (natural_canvas_offset index anchor len) grid len walk_axis

  slot_in : CanvasMode → CanvasWalk → ℕ → ℕ
  unfolding strip_slot natural_canvas_slot
  slot_in span strip index = natural_slot index
  slot_in mode strip index = strip_slot anchor_index index
  slot_in mode paged index = natural_slot (sat_add spec.preview_start index)

  unfoldable pub preferred_slot : ℕ → ℕ
  unfolding slot_in
  preferred_slot index = slot_in spec.mode spec.walk index

  -- The loop over the paths, from `index` on.
  unfoldable pub place_all : ℕ → List Text → Slots → Slots
  unfolding preferred_slot nearest_free_canvas_slot
  place_all index [] slots = slots
  place_all index (path ∷ paths) slots =
      place_all (index + 1) paths
        (set slots (nearest_free_canvas_slot slots (preferred_slot index)) (some path))

-- `into_iter().flatten()`
unfoldable pub filled : Slots → List Text
filled [] = []
filled (none ∷ slots) = filled slots
filled (some p ∷ slots) = p ∷ filled slots

unfoldable pub arrange_canvas_tile_paths : List Text → CanvasTileArrange → List Text
unfolding place_all filled anchor_index_of canvas_walk_axis
arrange_canvas_tile_paths paths spec =
    if leb (length paths) 1
    then paths
    else (let axis = canvas_walk_axis spec.pan_axis spec.output in
        let grid = spec.overview_grid (length paths) (is_horizontal axis) in
        filled (
          place_all spec grid (anchor_index_of paths spec) (length paths) 0 paths
            (replicate (length paths) none)))
