-- ===== src/Protocol/Writer.antt =====
-- How crates/mural-ipc/src/lib.rs writes a request as JSON.
use mural.Prelude.{ℕ, Option, none, some, List, [], ◌∷◌, map, Text, text}
use mural.Decimal.{print_usize}
use mural.Json.Writer.{json_string, object, encode_string_array, encode_bool}
use mural.Wallpaper.Change.{WallpaperAction, as_str}
use mural.Protocol.Words as Words
use mural.Protocol.Words.General.{
  push_direction_word, push_mode_word, easing_word, ScaleMode, scale_mode_word,
}
use mural.Protocol.Words.Cache.{cache_warm_scope_word, cache_backend_word}
use mural.Protocol.Words.Canvas.{canvas_pan_axis_word, canvas_walk_word, canvas_mode_word}
use mural.Protocol.Messages.{
  Transition, CanvasTileCount, WorldRouteFocus, CacheAction, Request, Map,
}
use mural.Protocol.Float.{Float32, format_overview_scale}

unfoldable pub encode_string_map : Map Text → Text
encode_string_map m = object (map (λ (e : Text × Text). (e.0, json_string e.1)) m)

abbrev pub word : {A : Type 0} ⦃w : Words.Word A⦄ → A → Text
word a = json_string (Words.as_str a)

unfoldable pub encode_focus : WorldRouteFocus → Text
encode_focus focus = object (
    (text "current_index", print_usize focus.current_index)
    ∷ (text "target_index", print_usize focus.target_index)
    ∷ (text "lod", print_usize focus.lod)
    ∷ [])

unfoldable pub encode_world_route_map : Map WorldRouteFocus → Text
encode_world_route_map m = object (map (λ (e : Text × WorldRouteFocus). (e.0, encode_focus e.1)) m)

indexed : WallpaperAction → ℕ → Text
indexed action index =
    object ((text "type", json_string (as_str action)) ∷ (text "index", print_usize index) ∷ [])

unfoldable pub encode_wallpaper_action : WallpaperAction → Text
unfolding indexed
encode_wallpaper_action (WallpaperAction.replace i) = indexed (WallpaperAction.replace i) i
encode_wallpaper_action (WallpaperAction.quarantine i) = indexed (WallpaperAction.quarantine i) i
encode_wallpaper_action (WallpaperAction.favorite i) = indexed (WallpaperAction.favorite i) i
encode_wallpaper_action (WallpaperAction.unfavorite i) = indexed (WallpaperAction.unfavorite i) i
encode_wallpaper_action action = json_string (as_str action)

unfoldable pub tile_count_fields : CanvasTileCount → List (Text × Text)
tile_count_fields (CanvasTileCount.auto none) = (text "tile_count", json_string (text "auto")) ∷ []
tile_count_fields (CanvasTileCount.auto (some max)) =
    (text "tile_count", json_string (text "auto")) ∷ (text "max_tile_count", print_usize max) ∷ []
tile_count_fields (CanvasTileCount.fixed n) = (text "tile_count", print_usize n) ∷ []

module _ (f : Float32) where
  unfoldable pub encode_transition : Transition → Text
  encode_transition Transition.cut = object ((text "type", json_string (text "cut")) ∷ [])
  encode_transition (Transition.fade duration_ms easing) = object (
      (text "type", json_string (text "fade"))
      ∷ (text "duration_ms", print_usize duration_ms)
      ∷ (text "easing", word easing)
      ∷ [])
  encode_transition (Transition.world duration_ms easing) = object (
      (text "type", json_string (text "world"))
      ∷ (text "duration_ms", print_usize duration_ms)
      ∷ (text "easing", word easing)
      ∷ [])
  encode_transition (Transition.push direction duration_ms easing mode) = object (
      (text "type", json_string (text "push"))
      ∷ (text "direction", word direction)
      ∷ (text "duration_ms", print_usize duration_ms)
      ∷ (text "easing", word easing)
      ∷ (text "mode", word mode)
      ∷ [])
  encode_transition (Transition.canvas c) = object (
      (text "type", json_string (text "canvas"))
      ∷ (text "zoom_out_ms", print_usize c.zoom_out_ms)
      ∷ (text "pan_ms", print_usize c.pan_ms)
      ∷ (text "zoom_in_ms", print_usize c.zoom_in_ms)
      ∷ (text "easing", word c.easing)
      ∷ (text "mode", word c.mode)
      ∷ (text "walk", word c.walk)
      ∷ (text "pan_axis", word c.pan_axis)
      ∷ (text "overview_scale", format_overview_scale f c.overview_scale)
      ∷ tile_count_fields c.tile_count)

  unfoldable pub encode_nullable_transition : Option Transition → Text
  encode_nullable_transition none = text "null"
  encode_nullable_transition (some t) = encode_transition t

  unfoldable pub encode_nullable_scale_mode : Option ScaleMode → Text
  encode_nullable_scale_mode none = text "null"
  encode_nullable_scale_mode (some m) = word m

  unfoldable pub cache_fields : CacheAction → List (Text × Text)
  cache_fields CacheAction.status = (text "action", json_string (text "status")) ∷ []
  cache_fields CacheAction.clear = (text "action", json_string (text "clear")) ∷ []
  cache_fields (CacheAction.warm scope workers backend) =
      (text "action", json_string (text "warm"))
      ∷ (text "scope", word scope)
      ∷ (text "workers", print_usize workers)
      ∷ (text "backend", word backend)
      ∷ []

  unfoldable pub of_type : Text → List (Text × Text) → Text
  of_type name fields = object ((text "type", json_string name) ∷ fields)

  unfoldable pub to_json : Request → Text
  unfolding of_type
  to_json Request.ping = of_type (text "ping") []
  to_json Request.capabilities = of_type (text "capabilities") []
  to_json Request.health = of_type (text "health") []
  to_json Request.query = of_type (text "query") []
  to_json Request.stop = of_type (text "stop") []
  to_json (Request.set r) = of_type (text "set") (
      (text "outputs", encode_string_map r.outputs)
      ∷ (text "transition", encode_transition r.transition)
      ∷ (text "scale_mode", word r.scale_mode)
      ∷ (text "allow_partial", encode_bool r.allow_partial)
      ∷ [])
  to_json (Request.preload r) =
      of_type (text "preload") ((text "outputs", encode_string_map r.outputs) ∷ [])
  to_json (Request.clear r) =
      of_type (text "clear")
        ((text "outputs", encode_string_array r.outputs) ∷ (text "color", json_string r.color) ∷ [])
  to_json (Request.wallpaper r) = of_type (text "wallpaper") (
      (text "action", encode_wallpaper_action r.action)
      ∷ (text "transition", encode_nullable_transition r.transition)
      ∷ (text "scale_mode", encode_nullable_scale_mode r.scale_mode)
      ∷ [])
  to_json (Request.cache r) = of_type (text "cache") (cache_fields r.action)
  to_json (Request.render_canvas_set r) = of_type (text "renderer_canvas_set") (
      (text "outputs", encode_string_map r.outputs)
      ∷ (text "transition", encode_transition r.transition)
      ∷ (text "scale_mode", word r.scale_mode)
      ∷ (text "allow_partial", encode_bool r.allow_partial)
      ∷ (text "preview_paths", encode_string_array r.preview_paths)
      ∷ (text "preview_start", print_usize r.preview_start)
      ∷ [])
  to_json (Request.render_world_set r) = of_type (text "renderer_world_set") (
      (text "outputs", encode_string_map r.outputs)
      ∷ (text "transition", encode_transition r.transition)
      ∷ (text "scale_mode", word r.scale_mode)
      ∷ (text "allow_partial", encode_bool r.allow_partial)
      ∷ (text "library_count", print_usize r.library_count)
      ∷ (text "columns", print_usize r.columns)
      ∷ (text "fingerprint", print_usize r.fingerprint)
      ∷ (text "thumbnail_edge", print_usize r.thumbnail_edge)
      ∷ (text "tile_cells", print_usize r.tile_cells)
      ∷ (text "routes", encode_world_route_map r.routes)
      ∷ [])
