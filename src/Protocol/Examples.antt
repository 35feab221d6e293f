-- ===== src/Protocol/Examples.antt =====
-- Small requests, and the theorems about the protocol at them.
use mural.Prelude.{◌≡◌, ◌↔◌, refl, true, false, some, [], ◌∷◌, Text, text, text_eq, arith}
use mural.Exec.{ok}
use mural.Results.{fail}
use mural.Path.{text_lt}
use mural.Json.Utf8.{utf8}
use mural.Json.Value.{JsonValue}
use mural.Protocol.Words.Canvas.{CanvasMode, CanvasWalk, CanvasPanAxis}
use mural.Protocol.Messages.{CanvasTransition, CanvasTileCount}
use mural.Protocol.TransitionFields.{IsCanvas}
use mural.Protocol.Float.{validate_canvas_overview_scale, format_overview_scale, trim_zeros}
use mural.Protocol.Transitions.{validate_canvas_mode_walk}
use mural.Protocol.Registry.{transition_descriptor}
use mural.Protocol.Accepted.{parse_transition-TransitionBounds}
use mural.Protocol.TokenBounds.{TransitionBounds}
use mural.Protocol.Transitions.{
  parse_transition, parse_cli_token, split_colon, of_token, no_suffix,
  validate_positive_milliseconds,
}
use mural.Protocol.Words.General.{ease_out_cubic, fill}
use mural.Protocol.Messages.{Transition, Request, Map}
use mural.Protocol.Float.{Float32}
use mural.Json.Writer.{object}
use mural.Protocol.Writer.{to_json, encode_string_map}
use mural.Protocol.Items.{all_scalar-IsScalars}
use mural.Protocol.RequestFields.{IsRequest, IsOutputs}
use mural.Protocol.RequestRoundTrip.{parse_request-to_json}
use mural.Protocol.Requests.{parse_request, parse_public_request}
use mural.Protocol.RequestParts.{reserved}
use mural.Protocol.FieldBounds.{RequestBounds}
use mural.Protocol.AcceptedRequests.{parse_request-RequestBounds}
use mural.Protocol.Public.{
  parse_public_request_iff, parse_public_request-refuses, is_renderer_control,
}

-- Every scale is a half.
abbrev halves : Float32
halves = record { format = λ bits. text "0.500000"; read = λ t. some 0x3f000000 }

abbrev outputs : Map Text
outputs = (text "DP-1", text "/walls/a.png") ∷ (text "HDMI-A-1", text "/walls/b.png") ∷ []

abbrev fade_set : Request
fade_set = Request.set (record {
  outputs = outputs;
  transition = Transition.fade 900 ease_out_cubic;
  scale_mode = fill;
  allow_partial = false;
})

outputs-IsOutputs : IsOutputs outputs
unfolding text_lt
outputs-IsOutputs = record {
  filled = refl;
  sorted = ((refl, tt), (tt, tt));
  valid = (
    (
      (all_scalar-IsScalars (text "DP-1") refl, refl),
      (all_scalar-IsScalars (text "/walls/a.png") refl, refl),
    ),
    (
      (
        (all_scalar-IsScalars (text "HDMI-A-1") refl, refl),
        (all_scalar-IsScalars (text "/walls/b.png") refl, refl),
      ),
      tt,
    ),
  );
}

fade_set-IsRequest : IsRequest halves fade_set
fade_set-IsRequest = record { outputs = outputs-IsOutputs; transition = (omega arith, omega arith) }

preload_text :
    to_json halves (Request.preload (record { outputs = (text "DP-1", text "a") ∷ [] }))
    ≡ text "{\"type\":\"preload\",\"outputs\":{\"DP-1\":\"a\"}}"
unfolding to_json object encode_string_map
preload_text = refl

abbrev canvas_set : Request
canvas_set = Request.render_canvas_set (record {
  outputs = outputs;
  transition = Transition.fade 900 ease_out_cubic;
  scale_mode = fill;
  allow_partial = true;
  preview_paths = text "/walls/a.png" ∷ text "/walls/c.png" ∷ [];
  preview_start = 12;
})

canvas_set-IsRequest : IsRequest halves canvas_set
canvas_set-IsRequest = record {
  outputs = outputs-IsOutputs;
  transition = (omega arith, omega arith);
  paths = (
    all_scalar-IsScalars (text "/walls/a.png") refl,
    (all_scalar-IsScalars (text "/walls/c.png") refl, tt),
  );
  start = omega arith;
}

abbrev half_canvas : CanvasTransition
half_canvas = record {
  zoom_out_ms = 180;
  pan_ms = 80;
  zoom_in_ms = 260;
  easing = ease_out_cubic;
  mode = CanvasMode.clipped;
  walk = CanvasWalk.paged;
  pan_axis = CanvasPanAxis.auto;
  overview_scale = 0x3f000000;
  tile_count = CanvasTileCount.fixed 9;
}

half_canvas-IsCanvas : IsCanvas halves half_canvas
unfolding validate_canvas_mode_walk validate_canvas_overview_scale format_overview_scale trim_zeros
half_canvas-IsCanvas = record {
  zoom_out = (omega arith, omega arith);
  pan = (omega arith, omega arith);
  zoom_in = (omega arith, omega arith);
  layout = refl;
  scale = refl;
  decimal = record {
    first = b'0';
    others = [];
    digit = b'5';
    digits = [];
    written = refl;
    integer = record { digits = ((omega arith, omega arith), tt); lead = λ e. refl };
    fraction = ((omega arith, omega arith), tt);
  };
  exact = refl;
  tiles = (omega arith, omega arith);
}

abbrev canvas_action : Request
canvas_action = Request.set (record {
  outputs = outputs;
  transition = Transition.canvas half_canvas;
  scale_mode = fill;
  allow_partial = false;
})

parse_request-to_json_example :
    parse_request halves (utf8 (to_json halves canvas_action)) ≡ ok canvas_action
parse_request-to_json_example =
    parse_request-to_json halves canvas_action
      (record { outputs = outputs-IsOutputs; transition = half_canvas-IsCanvas })

parse_request-RequestBounds_example : RequestBounds fade_set
parse_request-RequestBounds_example =
    parse_request-RequestBounds halves (utf8 (to_json halves fade_set)) fade_set
      (parse_request-to_json halves fade_set fade_set-IsRequest)

parse_public_request_iff_example :
    (parse_public_request halves (utf8 (to_json halves fade_set)) ≡ ok fade_set) ↔ (
      (parse_request halves (utf8 (to_json halves fade_set)) ≡ ok fade_set)
      × (is_renderer_control fade_set ≡ false))
parse_public_request_iff_example =
    parse_public_request_iff halves (utf8 (to_json halves fade_set)) fade_set

parse_public_request-refuses_example :
    parse_public_request halves (utf8 (to_json halves canvas_set))
    ≡ fail (reserved (text "renderer_canvas_set"))
parse_public_request-refuses_example =
    parse_public_request-refuses halves (utf8 (to_json halves canvas_set)) canvas_set
      (parse_request-to_json halves canvas_set canvas_set-IsRequest) refl

fade_read :
    parse_transition halves (JsonValue.string (text "fade"))
    ≡ ok (Transition.fade 900 ease_out_cubic)
unfolding parse_transition parse_cli_token split_colon of_token no_suffix
    validate_positive_milliseconds transition_descriptor text_eq
fade_read = refl

parse_transition-TransitionBounds_example : TransitionBounds (Transition.fade 900 ease_out_cubic)
parse_transition-TransitionBounds_example =
    parse_transition-TransitionBounds halves (JsonValue.string (text "fade"))
      (Transition.fade 900 ease_out_cubic) fade_read
