-- ===== src/Protocol/Words/Canvas.antt =====
-- `CanvasPanAxis`, `CanvasWalk` and `CanvasMode` of crates/mural-ipc/src/lib.rs.
use mural.Prelude.{◌≡◌, refl, true, [], ◌∷◌, Text, text, text_eq, All}
use mural.Exec.{Outcome, ok}
use mural.Json.Utf8.{is_scalar}
use mural.Protocol.Words.{Word, match_word}

pub data CanvasPanAxis : Type 0 where
  auto horizontal vertical : CanvasPanAxis

unfoldable pub canvas_pan_axis_text : CanvasPanAxis → Text
canvas_pan_axis_text CanvasPanAxis.auto = text "auto"
canvas_pan_axis_text CanvasPanAxis.horizontal = text "horizontal"
canvas_pan_axis_text CanvasPanAxis.vertical = text "vertical"

unfoldable pub parse_canvas_pan_axis : Text → Outcome CanvasPanAxis
unfolding match_word
parse_canvas_pan_axis =
    match_word
      ((text "auto", CanvasPanAxis.auto)
        ∷ (text "horizontal", CanvasPanAxis.horizontal)
        ∷ (text "vertical", CanvasPanAxis.vertical)
        ∷ [])
      (text "unknown canvas pan axis: ")

pub parse-canvas_pan_axis_text :
    (a : CanvasPanAxis) → parse_canvas_pan_axis (canvas_pan_axis_text a) ≡ ok a
unfolding parse_canvas_pan_axis canvas_pan_axis_text text_eq
parse-canvas_pan_axis_text CanvasPanAxis.auto = refl
parse-canvas_pan_axis_text CanvasPanAxis.horizontal = refl
parse-canvas_pan_axis_text CanvasPanAxis.vertical = refl

pub canvas_pan_axis_scalars :
    (a : CanvasPanAxis) → All (λ c. is_scalar c ≡ true) (canvas_pan_axis_text a)
unfolding canvas_pan_axis_text
canvas_pan_axis_scalars CanvasPanAxis.auto = (refl, (refl, (refl, (refl, tt))))
canvas_pan_axis_scalars CanvasPanAxis.horizontal =
    (refl, (refl, (refl, (refl, (refl, (refl, (refl, (refl, (refl, (refl, tt))))))))))
canvas_pan_axis_scalars CanvasPanAxis.vertical =
    (refl, (refl, (refl, (refl, (refl, (refl, (refl, (refl, tt))))))))

instance abbrev pub canvas_pan_axis_word : Word CanvasPanAxis
canvas_pan_axis_word = record {
  as_str = canvas_pan_axis_text;
  parse = parse_canvas_pan_axis;
  read_back = parse-canvas_pan_axis_text;
  scalars = canvas_pan_axis_scalars;
}

pub data CanvasWalk : Type 0 where
  paged strip : CanvasWalk

unfoldable pub canvas_walk_text : CanvasWalk → Text
canvas_walk_text CanvasWalk.paged = text "paged"
canvas_walk_text CanvasWalk.strip = text "strip"

unfoldable pub parse_canvas_walk : Text → Outcome CanvasWalk
unfolding match_word
parse_canvas_walk =
    match_word
      ((text "paged", CanvasWalk.paged)
        ∷ (text "page", CanvasWalk.paged)
        ∷ (text "grid", CanvasWalk.paged)
        ∷ (text "strip", CanvasWalk.strip)
        ∷ (text "line", CanvasWalk.strip)
        ∷ [])
      (text "unknown canvas walk: ")

pub parse-canvas_walk_text : (a : CanvasWalk) → parse_canvas_walk (canvas_walk_text a) ≡ ok a
unfolding parse_canvas_walk canvas_walk_text text_eq
parse-canvas_walk_text CanvasWalk.paged = refl
parse-canvas_walk_text CanvasWalk.strip = refl

pub canvas_walk_scalars : (a : CanvasWalk) → All (λ c. is_scalar c ≡ true) (canvas_walk_text a)
unfolding canvas_walk_text
canvas_walk_scalars CanvasWalk.paged = (refl, (refl, (refl, (refl, (refl, tt)))))
canvas_walk_scalars CanvasWalk.strip = (refl, (refl, (refl, (refl, (refl, tt)))))

instance abbrev pub canvas_walk_word : Word CanvasWalk
canvas_walk_word = record {
  as_str = canvas_walk_text;
  parse = parse_canvas_walk;
  read_back = parse-canvas_walk_text;
  scalars = canvas_walk_scalars;
}

pub data CanvasMode : Type 0 where
  clipped morph overlap collage span : CanvasMode

unfoldable pub canvas_mode_text : CanvasMode → Text
canvas_mode_text CanvasMode.clipped = text "clipped"
canvas_mode_text CanvasMode.morph = text "morph"
canvas_mode_text CanvasMode.overlap = text "overlap"
canvas_mode_text CanvasMode.collage = text "collage"
canvas_mode_text CanvasMode.span = text "span"

unfoldable pub parse_canvas_mode : Text → Outcome CanvasMode
unfolding match_word
parse_canvas_mode =
    match_word
      ((text "clipped", CanvasMode.clipped)
        ∷ (text "morph", CanvasMode.morph)
        ∷ (text "overlap", CanvasMode.overlap)
        ∷ (text "collage", CanvasMode.collage)
        ∷ (text "span", CanvasMode.span)
        ∷ [])
      (text "unknown canvas mode: ")

pub parse-canvas_mode_text : (a : CanvasMode) → parse_canvas_mode (canvas_mode_text a) ≡ ok a
unfolding parse_canvas_mode canvas_mode_text text_eq
parse-canvas_mode_text CanvasMode.clipped = refl
parse-canvas_mode_text CanvasMode.morph = refl
parse-canvas_mode_text CanvasMode.overlap = refl
parse-canvas_mode_text CanvasMode.collage = refl
parse-canvas_mode_text CanvasMode.span = refl

pub canvas_mode_scalars : (a : CanvasMode) → All (λ c. is_scalar c ≡ true) (canvas_mode_text a)
unfolding canvas_mode_text
canvas_mode_scalars CanvasMode.clipped = (refl, (refl, (refl, (refl, (refl, (refl, (refl, tt)))))))
canvas_mode_scalars CanvasMode.morph = (refl, (refl, (refl, (refl, (refl, tt)))))
canvas_mode_scalars CanvasMode.overlap = (refl, (refl, (refl, (refl, (refl, (refl, (refl, tt)))))))
canvas_mode_scalars CanvasMode.collage = (refl, (refl, (refl, (refl, (refl, (refl, (refl, tt)))))))
canvas_mode_scalars CanvasMode.span = (refl, (refl, (refl, (refl, tt))))

instance abbrev pub canvas_mode_word : Word CanvasMode
canvas_mode_word = record {
  as_str = canvas_mode_text;
  parse = parse_canvas_mode;
  read_back = parse-canvas_mode_text;
  scalars = canvas_mode_scalars;
}
