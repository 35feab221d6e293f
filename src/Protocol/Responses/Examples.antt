-- ===== src/Protocol/Responses/Examples.antt =====
-- Small responses, and the theorems about them.
use mural.Prelude.{ℕ, ◌≡◌, ◌≢◌, refl, true, false, none, some, List, [], ◌∷◌, text, arith}
use mural.Exec.{ok}
use mural.Results.{fail}
use mural.Json.Utf8.{utf8}
use mural.Wallpaper.Change.{WallpaperResponse}
use mural.Protocol.Words.General.{fill, ease_out_cubic}
use mural.Protocol.Messages.{Transition}
use mural.Protocol.Float.{Float32}
use mural.Protocol.Items.{all_scalar-IsScalars}
use mural.Protocol.Responses.{pos, negsuc, TransitionState, HealthOutput, HealthResponse, Response}
use mural.Protocol.Responses.Writer.{response_to_json}
use mural.Protocol.Responses.Parsers.{
  response_is_error, response_error_message, parse_wallpaper_response, parse_health_response,
}
use mural.Protocol.Responses.Items.{IsWallpaper}
use mural.Protocol.Responses.Back.{
  parse_wallpaper_response-response_to_json, response_error_message-response_to_json,
}
use mural.Protocol.Responses.Errors.{response_error_message-parsers, response_is_error-parsers}
use mural.Protocol.Responses.HealthItems.{IsHealth, IsHealthOutput}
use mural.Protocol.Responses.HealthBack.{parse_health_response-response_to_json}

abbrev halves : Float32
halves = record { format = λ bits. text "0.500000"; read = λ t. some 0x3f000000 }

abbrev failure : List ℕ
failure = utf8 (response_to_json halves (Response.error (text "no outputs")))

failure_message : response_error_message failure ≡ some (text "no outputs")
failure_message =
    response_error_message-response_to_json halves (text "no outputs")
      (all_scalar-IsScalars (text "no outputs") refl)

abbrev shown : WallpaperResponse
shown = record {
  action = text "next";
  message = [];
  entries =
      record { index = 0; output = text "DP-1"; path = text "/walls/a.png"; favorite = true } ∷ [];
  favorites = text "/walls/a.png" ∷ [];
}

shown-IsWallpaper : IsWallpaper shown
shown-IsWallpaper = record {
  action = all_scalar-IsScalars (text "next") refl;
  message = tt;
  entries = (
    (
      omega arith,
      all_scalar-IsScalars (text "DP-1") refl,
      all_scalar-IsScalars (text "/walls/a.png") refl,
    ),
    tt,
  );
  favorites = (all_scalar-IsScalars (text "/walls/a.png") refl, tt);
}

abbrev left_output : HealthOutput
left_output = record {
  name = text "DP-1";
  layout_x = negsuc 1919;
  layout_y = pos 0;
  width = pos 1920;
  height = pos 1080;
  power_state = text "on";
  render_state = text "ready";
  restore_pending = false;
  current_image = some (text "/walls/a.png");
  transition_target_image = none;
  scale_mode = fill;
  transition_state = TransitionState.running (Transition.fade 900 ease_out_cubic);
  queue_depth = 0;
  frame_callback_pending = true;
  render_pending = false;
}

abbrev healthy : HealthResponse
healthy = record {
  role = text "renderer";
  supervisor_pid = none;
  renderer_pid = some 4242;
  renderer_generation = 3;
  renderer_state = text "running";
  restart_count = 2;
  last_error = none;
  last_diagnostic = none;
  outputs = left_output ∷ [];
}

left_output-IsHealthOutput : IsHealthOutput halves left_output
left_output-IsHealthOutput = record {
  name = all_scalar-IsScalars (text "DP-1") refl;
  layout_x = omega arith;
  layout_y = omega arith;
  width = omega arith;
  height = omega arith;
  power_state = all_scalar-IsScalars (text "on") refl;
  render_state = all_scalar-IsScalars (text "ready") refl;
  current_image = all_scalar-IsScalars (text "/walls/a.png") refl;
  target_image = tt;
  state = (omega arith, omega arith);
  depth = omega arith;
}

healthy-IsHealth : IsHealth halves healthy
healthy-IsHealth = record {
  role = all_scalar-IsScalars (text "renderer") refl;
  supervisor_pid = tt;
  renderer_pid = omega arith;
  renderer_generation = omega arith;
  renderer_state = all_scalar-IsScalars (text "running") refl;
  restart_count = omega arith;
  last_error = tt;
  last_diagnostic = tt;
  outputs = (left_output-IsHealthOutput, tt);
}

parse_wallpaper_response-response_to_json_example :
    parse_wallpaper_response (utf8 (response_to_json halves (Response.wallpaper shown))) ≡ ok shown
parse_wallpaper_response-response_to_json_example =
    parse_wallpaper_response-response_to_json halves shown shown-IsWallpaper

parse_health_response-response_to_json_example :
    parse_health_response halves (utf8 (response_to_json halves (Response.health healthy)))
    ≡ ok healthy
parse_health_response-response_to_json_example =
    parse_health_response-response_to_json halves healthy healthy-IsHealth

response_error_message-parsers_example :
    (response_is_error failure ≡ true)
    × (parse_wallpaper_response failure ≡ fail (text "no outputs"))
    × (parse_health_response halves failure ≡ fail (text "no outputs"))
response_error_message-parsers_example =
    response_error_message-parsers halves failure (text "no outputs") failure_message

response_is_error-parsers_example :
    (parse_wallpaper_response failure ≢ ok shown)
    × (parse_health_response halves failure ≢ ok healthy)
response_is_error-parsers_example =
    response_is_error-parsers halves failure shown healthy
      (response_error_message-parsers_example.0)
