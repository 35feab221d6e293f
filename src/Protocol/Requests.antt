-- ===== src/Protocol/Requests.antt =====
-- How crates/mural-ipc/src/lib.rs reads a request.
use mural.Prelude.{
  ℕ, ◌+◌, Bool, true, false, Option, none, some, List, ◌++◌, text, text_eq, if◌then◌else◌, length,
}
use mural.Exec.{Outcome, ok}
use mural.Results.{◌>>=◌, fail, ok_or, map_ok}
use mural.Json.Value.{JsonValue, Members, parse_json}
use mural.Protocol.Words.{parse}
use mural.Protocol.Words.General.{ScaleMode, scale_mode_word}
use mural.Protocol.Words.Cache.{cache_warm_scope_word, cache_backend_word}
use mural.Protocol.Messages.{
  Transition, SetRequest, RenderCanvasSetRequest, RenderWorldSetRequest, WallpaperRequest, Request,
}
use mural.Protocol.Fields.{
  as_object, as_string, get, missing, required_string, optional_usize, optional_u32, required,
  or_default, optional_strings, required_outputs,
}
use mural.Protocol.Float.{Float32}
use mural.Protocol.Transitions.{parse_transition}
use mural.Protocol.RequestParts.{
  parse_wallpaper_action, scale_mode_of, allow_partial_of, parse_cache_request,
  parse_preload_request, parse_clear_request, parse_world_route_map, reserved,
}

module _ (f : Float32) where
  unfoldable pub transition_or_cut : Option JsonValue → Outcome Transition
  transition_or_cut none = ok Transition.cut
  transition_or_cut (some v) = parse_transition f v

  unfoldable pub required_transition : Members → Outcome Transition
  required_transition m =
      ok_or (get m (text "transition")) (missing (text "transition")) >>= parse_transition f

  -- A null counts as missing.
  unfoldable pub nullable_transition : Option JsonValue → Outcome (Option Transition)
  nullable_transition none = ok none
  nullable_transition (some JsonValue.null) = ok none
  nullable_transition (some v) = parse_transition f v >>= λ t. ok (some t)

  unfoldable pub nullable_scale_mode : Option JsonValue → Outcome (Option ScaleMode)
  nullable_scale_mode none = ok none
  nullable_scale_mode (some JsonValue.null) = ok none
  nullable_scale_mode (some v) = as_string v >>= parse >>= λ m. ok (some m)

  unfoldable pub parse_set_request : Members → Outcome SetRequest
  parse_set_request m = required_outputs m >>= λ outputs.
      transition_or_cut (get m (text "transition")) >>= λ transition.
      scale_mode_of m >>= λ scale_mode. allow_partial_of m >>= λ allow_partial. ok (record {
        outputs = outputs;
        transition = transition;
        scale_mode = scale_mode;
        allow_partial = allow_partial;
      })

  unfoldable pub parse_wallpaper_request : Members → Outcome WallpaperRequest
  parse_wallpaper_request m =
      ok_or (get m (text "action")) (missing (text "action"))
      >>= parse_wallpaper_action
      >>= λ action. nullable_transition (get m (text "transition")) >>= λ transition.
          nullable_scale_mode (get m (text "scale_mode")) >>= λ scale_mode.
          ok (record { action = action; transition = transition; scale_mode = scale_mode })

  unfoldable pub parse_render_canvas_set_request : Members → Outcome RenderCanvasSetRequest
  parse_render_canvas_set_request m = required_outputs m >>= λ outputs.
      required_transition m >>= λ transition. scale_mode_of m >>= λ scale_mode.
      allow_partial_of m >>= λ allow_partial.
      required optional_strings m (text "preview_paths") >>= λ preview_paths.
      or_default (optional_usize m (text "preview_start")) 0 >>= λ preview_start. ok (record {
        outputs = outputs;
        transition = transition;
        scale_mode = scale_mode;
        allow_partial = allow_partial;
        preview_paths = preview_paths;
        preview_start = preview_start;
      })

  unfoldable pub parse_render_world_set_request : Members → Outcome RenderWorldSetRequest
  parse_render_world_set_request m = required_outputs m >>= λ outputs.
      required_transition m >>= λ transition. scale_mode_of m >>= λ scale_mode.
      allow_partial_of m >>= λ allow_partial.
      required optional_usize m (text "library_count") >>= λ library_count.
      required optional_usize m (text "columns") >>= λ columns.
      required optional_usize m (text "fingerprint") >>= λ fingerprint.
      required optional_u32 m (text "thumbnail_edge") >>= λ thumbnail_edge.
      required optional_usize m (text "tile_cells") >>= λ tile_cells.
      parse_world_route_map m >>= λ routes. ok (record {
        outputs = outputs;
        transition = transition;
        scale_mode = scale_mode;
        allow_partial = allow_partial;
        library_count = library_count;
        columns = columns;
        fingerprint = fingerprint;
        thumbnail_edge = thumbnail_edge;
        tile_cells = tile_cells;
        routes = routes;
      })

  unfoldable pub parse_object_request : Bool → Members → Outcome Request
  parse_object_request allow_renderer_control m = required_string m (text "type") >>= λ kind.
      if text_eq kind (text "ping")
      then ok Request.ping
      else if text_eq kind (text "capabilities")
      then ok Request.capabilities
      else if text_eq kind (text "health")
      then ok Request.health
      else if text_eq kind (text "query")
      then ok Request.query
      else if text_eq kind (text "stop")
      then ok Request.stop
      else if text_eq kind (text "set")
      then map_ok Request.set (parse_set_request m)
      else if text_eq kind (text "preload")
      then map_ok Request.preload (parse_preload_request m)
      else if text_eq kind (text "clear")
      then map_ok Request.clear (parse_clear_request m)
      else if text_eq kind (text "wallpaper")
      then map_ok Request.wallpaper (parse_wallpaper_request m)
      else if text_eq kind (text "cache")
      then map_ok Request.cache (parse_cache_request m)
      else if text_eq kind (text "renderer_canvas_set")
      then (if allow_renderer_control
          then map_ok Request.render_canvas_set (parse_render_canvas_set_request m)
          else fail (reserved kind))
      else if text_eq kind (text "renderer_world_set")
      then (if allow_renderer_control
          then map_ok Request.render_world_set (parse_render_world_set_request m)
          else fail (reserved kind))
      else fail (text "unknown request type: " ++ kind)

  -- One more than the number of bytes is enough fuel for `parse_json`.
  unfoldable pub parse_request_with_renderer_control : List ℕ → Bool → Outcome Request
  parse_request_with_renderer_control input allow_renderer_control =
      parse_json (length input + 1) input
      >>= as_object
      >>= parse_object_request allow_renderer_control

  unfoldable pub parse_request : List ℕ → Outcome Request
  parse_request input = parse_request_with_renderer_control input true

  unfoldable pub parse_public_request : List ℕ → Outcome Request
  parse_public_request input = parse_request_with_renderer_control input false
