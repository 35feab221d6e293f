-- ===== src/Protocol/Transitions.antt =====
-- How crates/mural-ipc/src/lib.rs reads a transition, from its token or from an object.
use mural.Prelude.{
  ℕ, Option, none, some, [], ◌∷◌, ◌++◌, Text, text, text_eq, ltb, ◌==◌, if◌then◌else◌, usize_max,
}
use mural.Exec.{Outcome, ok}
use mural.Results.{◌>>=◌, ◌>>◌, fail, refuse_if, ok_or}
use mural.Json.Value.{JsonValue, Members}
use mural.Protocol.Words.{parse}
use mural.Protocol.Words.General.{
  Easing, ease_out_cubic, portal, push_direction_word, push_mode_word, easing_word,
}
use mural.Protocol.Words.Canvas.{
  CanvasPanAxis, CanvasWalk, CanvasMode, paged, collage, span, clipped, canvas_pan_axis_word,
  canvas_walk_word, canvas_mode_word,
}
use mural.Protocol.Registry.{TransitionKind, transition_descriptor}
use mural.Protocol.Messages.{Transition, CanvasTileCount}
use mural.Protocol.Fields.{
  as_object, get, quoted, field, required_string, optional_string, parse_json_uint, optional_usize,
  or_default, word_or,
}
use mural.Protocol.Float.{Float32, default_canvas_overview_scale, validate_canvas_overview_scale}

abbrev pub default_duration_ms : ℕ
default_duration_ms = 900

abbrev pub default_canvas_out_ms : ℕ
default_canvas_out_ms = 180

abbrev pub default_canvas_pan_ms : ℕ
default_canvas_pan_ms = 80

abbrev pub default_canvas_in_ms : ℕ
default_canvas_in_ms = 260

abbrev pub max_canvas_tile_count : ℕ
max_canvas_tile_count = 256

unfoldable pub validate_positive_milliseconds : ℕ → Text → Outcome (Unit {0})
validate_positive_milliseconds value name =
    refuse_if (value == 0) (field name (text " must be greater than zero"))

unfoldable pub validate_canvas_tile_count : ℕ → Text → Outcome (Unit {0})
validate_canvas_tile_count tile_count name =
    refuse_if (tile_count == 0) (name ++ text " must be greater than zero")
    >> refuse_if (ltb max_canvas_tile_count tile_count) (name ++ text " must be at most 256")

unfoldable pub validate_canvas_mode_walk : CanvasMode → CanvasWalk → Outcome (Unit {0})
validate_canvas_mode_walk collage paged = fail (
    text "canvas mode 'collage' requires canvas walk 'strip'; 'paged' is not valid for this layout")
validate_canvas_mode_walk span paged =
    fail
      (text "canvas mode 'span' requires canvas walk 'strip'; 'paged' is not valid for this layout")
validate_canvas_mode_walk mode walk = ok tt

-- `split_once(':')`
unfoldable pub split_colon : Text → Text × Option Text
split_colon [] = ([], none)
split_colon (c ∷ s) =
    let rest = split_colon s in if c == b':' then ([], some s) else (c ∷ rest.0, rest.1)

unfoldable pub no_suffix : Text → Option Text → Outcome (Unit {0})
no_suffix name none = ok tt
no_suffix name (some suffix) =
    fail (text "transition " ++ (quoted name ++ text " does not accept ':override'"))

unfoldable pub pan_axis_of : Option Text → Outcome CanvasPanAxis
pan_axis_of none = ok CanvasPanAxis.auto
pan_axis_of (some suffix) = parse suffix

unfoldable pub of_token : Text → Option Text → ℕ → Easing → TransitionKind → Outcome Transition
unfolding no_suffix validate_positive_milliseconds pan_axis_of
of_token name suffix duration easing TransitionKind.cut = no_suffix name suffix >> ok Transition.cut
of_token name suffix duration easing TransitionKind.fade =
    no_suffix name suffix
    >> (validate_positive_milliseconds duration (text "duration_ms")
        >> ok (Transition.fade duration easing))
of_token name suffix duration easing TransitionKind.world =
    no_suffix name suffix
    >> (validate_positive_milliseconds duration (text "duration_ms")
        >> ok (Transition.world duration easing))
of_token name suffix duration easing TransitionKind.push =
    validate_positive_milliseconds duration (text "duration_ms")
    >> (ok_or suffix (text "push transition requires a direction override")
        >>= parse
        >>= λ direction. ok (Transition.push direction duration easing portal))
of_token name suffix duration easing TransitionKind.canvas = pan_axis_of suffix >>= λ axis. ok (
    Transition.canvas (record {
      zoom_out_ms = default_canvas_out_ms;
      pan_ms = default_canvas_pan_ms;
      zoom_in_ms = default_canvas_in_ms;
      easing = easing;
      mode = clipped;
      walk = paged;
      pan_axis = axis;
      overview_scale = default_canvas_overview_scale;
      tile_count = CanvasTileCount.auto none;
    }))

unfoldable pub parse_cli_token : Text → ℕ → Easing → Outcome Transition
unfolding split_colon of_token transition_descriptor
parse_cli_token input duration easing =
    let (name, suffix) = split_colon input in
    ok_or (transition_descriptor name) (text "unknown transition: " ++ input) >>= λ d.
    of_token name suffix duration easing d.kind

unfoldable pub tile_count_of : Option ℕ → Option JsonValue → Outcome CanvasTileCount
tile_count_of max none = ok (CanvasTileCount.auto max)
tile_count_of max (some (JsonValue.string value)) =
    if text_eq value (text "auto")
    then ok (CanvasTileCount.auto max)
    else fail (field (text "tile_count") (text " must be auto or an integer, got " ++ value))
tile_count_of max (some (JsonValue.number number)) =
    parse_json_uint usize_max number (text "tile_count") >>= λ tile_count.
    validate_canvas_tile_count tile_count (text "canvas tile_count")
    >> ok (CanvasTileCount.fixed tile_count)
tile_count_of max (some v) = fail (field (text "tile_count") (text " must be auto or an integer"))

unfoldable pub check_max : Option ℕ → Outcome (Unit {0})
check_max none = ok tt
check_max (some max) = validate_canvas_tile_count max (text "canvas max_tile_count")

unfoldable pub parse_canvas_tile_count_policy : Members → Outcome CanvasTileCount
parse_canvas_tile_count_policy m = optional_usize m (text "max_tile_count") >>= λ max.
    check_max max >> tile_count_of max (get m (text "tile_count"))

module _ (f : Float32) where
  unfoldable pub as_f32 : Text → Option JsonValue → Outcome (Option ℕ)
  as_f32 key none = ok none
  as_f32 key (some (JsonValue.number s)) =
      ok_or (f.read s) (field key (text " must be a number")) >>= λ scale. ok (some scale)
  as_f32 key (some (JsonValue.string s)) =
      ok_or (f.read s) (field key (text " must be a number")) >>= λ scale. ok (some scale)
  as_f32 key (some v) = fail (field key (text " must be a number"))

  unfoldable pub optional_f32 : Members → Text → Outcome (Option ℕ)
  optional_f32 m key = as_f32 key (get m key)

  unfoldable pub canvas_of : Members → Easing → Outcome Transition
  canvas_of m easing =
      or_default (optional_usize m (text "zoom_out_ms")) default_canvas_out_ms >>= λ zoom_out_ms.
      or_default (optional_usize m (text "pan_ms")) default_canvas_pan_ms >>= λ pan_ms.
      or_default (optional_usize m (text "zoom_in_ms")) default_canvas_in_ms >>= λ zoom_in_ms.
      validate_positive_milliseconds zoom_out_ms (text "zoom_out_ms")
      >> (validate_positive_milliseconds pan_ms (text "pan_ms")
          >> (validate_positive_milliseconds zoom_in_ms (text "zoom_in_ms")
              >> (word_or (optional_string m (text "mode")) clipped >>= λ mode.
                  word_or (optional_string m (text "walk")) paged >>= λ walk.
                  word_or (optional_string m (text "pan_axis")) CanvasPanAxis.auto >>= λ pan_axis.
                  or_default (optional_f32 m (text "overview_scale")) default_canvas_overview_scale
                  >>= λ scale.
                      validate_canvas_overview_scale scale
                      >> (validate_canvas_mode_walk mode walk
                          >> (parse_canvas_tile_count_policy m >>= λ tile_count. ok (
                              Transition.canvas (record {
                                zoom_out_ms = zoom_out_ms;
                                pan_ms = pan_ms;
                                zoom_in_ms = zoom_in_ms;
                                easing = easing;
                                mode = mode;
                                walk = walk;
                                pan_axis = pan_axis;
                                overview_scale = scale;
                                tile_count = tile_count;
                              })))))))

  unfoldable pub of_kind : Members → ℕ → Easing → TransitionKind → Outcome Transition
  of_kind m duration easing TransitionKind.cut = ok Transition.cut
  of_kind m duration easing TransitionKind.fade =
      validate_positive_milliseconds duration (text "duration_ms")
      >> ok (Transition.fade duration easing)
  of_kind m duration easing TransitionKind.world =
      validate_positive_milliseconds duration (text "duration_ms")
      >> ok (Transition.world duration easing)
  of_kind m duration easing TransitionKind.push =
      validate_positive_milliseconds duration (text "duration_ms")
      >> (required_string m (text "direction") >>= parse >>= λ direction.
          word_or (optional_string m (text "mode")) portal >>= λ mode.
          ok (Transition.push direction duration easing mode))
  of_kind m duration easing TransitionKind.canvas = canvas_of m easing

  unfoldable pub parse_transition_object : Members → Outcome Transition
  parse_transition_object m = required_string m (text "type") >>= λ name.
      ok_or (transition_descriptor name) (text "unknown transition type: " ++ name) >>= λ d.
      or_default (optional_usize m (text "duration_ms")) default_duration_ms >>= λ duration.
      word_or (optional_string m (text "easing")) ease_out_cubic >>= λ easing.
      of_kind m duration easing d.kind

  unfoldable pub parse_transition : JsonValue → Outcome Transition
  parse_transition (JsonValue.string token) =
      parse_cli_token token default_duration_ms ease_out_cubic
  parse_transition v = as_object v >>= parse_transition_object
