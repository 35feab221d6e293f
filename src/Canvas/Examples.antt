-- ===== src/Canvas/Examples.antt =====
-- A canvas of five tiles, and each theorem at a concrete input.
use mathlib.Core.List.{Perm}
use mural.Prelude.{◌≡◌, refl, some, List, [], ◌∷◌, Text, text, text_eq, contains, arith}
use mural.Canvas.Slots.{CanvasTileArrange, arrange_canvas_tile_paths, position}
use mural.Protocol.Words.Canvas.{CanvasPanAxis, morph, strip}
use mural.Canvas.Placed.{arrange-perm}
use mural.Canvas.Tiles.{canvas_tile_paths, clamped, required_paths}
use mural.Canvas.Shown.{AreTiles, canvas_tile_paths-AreTiles}

abbrev a : Text
a = text "a"

abbrev b : Text
b = text "b"

abbrev c : Text
c = text "c"

abbrev old : Text
old = text "old"

abbrev target : Text
target = text "target"

abbrev spec : CanvasTileArrange
spec = record {
  preview_start = 9;
  old_path = some old;
  target_path = target;
  mode = morph;
  walk = strip;
  pan_axis = CanvasPanAxis.auto;
  output = record { width = 1920; height = 1080 };
  pan_tiles = 1;
  margin = 1;
  overview_grid = λ n horizontal. record { columns = 3; rows = 2 };
}

abbrev five : List Text
five = a ∷ (old ∷ (b ∷ (target ∷ (c ∷ []))))

-- The slot of the focus lies behind the last one, so the paths ahead crowd before it.
five_arranged : arrange_canvas_tile_paths five spec ≡ c ∷ (target ∷ (b ∷ (old ∷ (a ∷ []))))
unfolding arrange_canvas_tile_paths text_eq position
five_arranged = refl

arrange-perm_example : Perm (arrange_canvas_tile_paths five spec) five
arrange-perm_example = arrange-perm five spec

full_preview :
    canvas_tile_paths (a ∷ (a ∷ (b ∷ (c ∷ [])))) (some old) target 3 ≡ a ∷ (target ∷ (old ∷ []))
unfolding canvas_tile_paths contains text_eq
full_preview = refl

canvas_tile_paths-AreTiles_example :
    AreTiles
      (clamped 3)
      (required_paths (some old) target)
      (canvas_tile_paths (a ∷ (a ∷ (b ∷ (c ∷ [])))) (some old) target 3)
canvas_tile_paths-AreTiles_example =
    canvas_tile_paths-AreTiles (a ∷ (a ∷ (b ∷ (c ∷ [])))) (some old) target 3 (omega arith)

-- With one tile, the old wallpaper pushes the target out.
one_tile : canvas_tile_paths (target ∷ []) (some old) target 1 ≡ old ∷ []
unfolding canvas_tile_paths contains text_eq
one_tile = refl
