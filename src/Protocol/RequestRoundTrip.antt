-- ===== src/Protocol/RequestRoundTrip.antt =====
-- A request is read back from its text.
use mural.Prelude.{text_eq, ◌≡◌, refl, true, Text, text, arith}
use mural.Exec.{ok}
use mural.Json.Value.{JsonValue, Members}
use mural.Protocol.Words.General.{fill, scale_mode_word}
use mural.Protocol.Words.Cache.{cache_warm_scope_word, cache_backend_word}
use mural.Protocol.Messages.{
  RenderCanvasSetRequest, RenderWorldSetRequest, PreloadRequest, ClearRequest, WallpaperRequest,
  CacheAction, CacheRequest, Request,
}
use mural.Protocol.Float.{Float32}
use mural.Protocol.Writer.{to_json}
use mural.Protocol.RequestFields.{
  IsOutputs, action_fields, IsCacheAction, IsRequest, IsCanvasSet, IsWorldSet,
}
use mural.Path.{text_lt}
use mural.Json.Utf8.{utf8}
use mural.Json.Value.{insert}
use mural.Json.Reads.{parse_json-Reads}
use mural.Protocol.Fields.{get, as_object}
use mural.Protocol.TransitionBack.{parse-transition_value}
use mural.Protocol.Requests.{
  required_transition, parse_wallpaper_request, parse_render_canvas_set_request,
  parse_render_world_set_request, parse_object_request, parse_request_with_renderer_control,
  parse_request,
}
use mural.Protocol.RequestParts.{parse_preload_request, parse_clear_request, parse_cache_request}
use mural.Protocol.Items.{usize_at, u32_at, string_at, required_at, word_at, bool_at, strings_at}
use mural.Protocol.RequestText.{request_fields, request_members, Reads-to_json}
use mural.Protocol.Fields.{required_string}
use mural.Protocol.RequestBack.{
  outputs_at, routes_at, action_back, warm-back, nullable_back, mode_back, set-back,
}

abbrev pub request_kind : Request → Text
request_kind Request.ping = text "ping"
request_kind Request.capabilities = text "capabilities"
request_kind Request.health = text "health"
request_kind Request.query = text "query"
request_kind Request.stop = text "stop"
request_kind (Request.set r) = text "set"
request_kind (Request.preload r) = text "preload"
request_kind (Request.clear r) = text "clear"
request_kind (Request.wallpaper r) = text "wallpaper"
request_kind (Request.cache r) = text "cache"
request_kind (Request.render_canvas_set r) = text "renderer_canvas_set"
request_kind (Request.render_world_set r) = text "renderer_world_set"

module _ (f : Float32) where
  preload-back :
      (r : PreloadRequest) (v : IsOutputs r.outputs)
      → parse_preload_request (request_members f (Request.preload r) v) ≡ ok r
  unfolding parse_preload_request request_fields insert get text_eq text_lt
  preload-back r v =
      let m = request_members f (Request.preload r) v in rw (outputs_at m r.outputs v refl) refl

  clear-back :
      (r : ClearRequest) (v : IsRequest f (Request.clear r))
      → parse_clear_request (request_members f (Request.clear r) v) ≡ ok r
  unfolding parse_clear_request request_fields insert get text_eq text_lt
  clear-back r v =
      let m = request_members f (Request.clear r) v in
      rw (strings_at m (text "outputs") r.outputs v.0 refl, string_at m (text "color") r.color refl)
        refl

  wallpaper-back :
      (r : WallpaperRequest) (v : IsRequest f (Request.wallpaper r))
      → parse_wallpaper_request f (request_members f (Request.wallpaper r) v) ≡ ok r
  unfolding parse_wallpaper_request request_fields insert get text_eq text_lt
  wallpaper-back r v =
      rw (action_back r.action v.0, nullable_back f r.transition v.1, mode_back f r.scale_mode) refl

  action_members : (a : CacheAction) → IsCacheAction a → Members
  action_members a v = request_members f (Request.cache (record { action = a })) v

  cache_action-back :
      (a : CacheAction) (v : IsCacheAction a)
      → (required_string (action_members a v) (text "type") ≡ ok (text "cache"))
        × (parse_cache_request (action_members a v) ≡ ok (record { action = a }))
  unfolding action_members parse_cache_request request_fields action_fields insert get text_eq
      text_lt
  cache_action-back CacheAction.status v =
      let m = action_members CacheAction.status v in
      (
        required_at m (text "type") (text "cache") refl,
        rw (required_at m (text "action") (text "status") refl) refl,
      )
  cache_action-back CacheAction.clear v =
      let m = action_members CacheAction.clear v in
      (
        required_at m (text "type") (text "cache") refl,
        rw (required_at m (text "action") (text "clear") refl) refl,
      )
  cache_action-back (CacheAction.warm scope workers backend) v =
      let m = action_members (CacheAction.warm scope workers backend) v in
      (
        required_at m (text "type") (text "cache") refl,
        rw
            (
              required_at m (text "action") (text "warm") refl,
              warm-back m scope workers backend v refl refl refl,
            )
            refl,
      )

  cache-back :
      (r : CacheRequest) (v : IsRequest f (Request.cache r))
      → parse_cache_request (request_members f (Request.cache r) v) ≡ ok r
  unfolding action_members
  cache-back r v = (cache_action-back r.action v).1

  canvas_set-back :
      (r : RenderCanvasSetRequest) (v : IsCanvasSet f r)
      → parse_render_canvas_set_request f (request_members f (Request.render_canvas_set r) v) ≡ ok r
  unfolding parse_render_canvas_set_request required_transition request_fields insert get text_eq
      text_lt
  canvas_set-back r v =
      let m = request_members f (Request.render_canvas_set r) v in
      rw
        (
          outputs_at m r.outputs v.outputs refl,
          parse-transition_value f r.transition v.transition,
          word_at m (text "scale_mode") r.scale_mode fill refl,
          bool_at m (text "allow_partial") r.allow_partial refl,
          strings_at m (text "preview_paths") r.preview_paths v.paths refl,
          usize_at m (text "preview_start") r.preview_start v.start refl,
        )
        refl

  world_set-back :
      (r : RenderWorldSetRequest) (v : IsWorldSet f r)
      → parse_render_world_set_request f (request_members f (Request.render_world_set r) v) ≡ ok r
  unfolding parse_render_world_set_request required_transition request_fields insert get text_eq
      text_lt
  world_set-back r v =
      let m = request_members f (Request.render_world_set r) v in
      rw
        (
          outputs_at m r.outputs v.outputs refl,
          parse-transition_value f r.transition v.transition,
          word_at m (text "scale_mode") r.scale_mode fill refl,
          bool_at m (text "allow_partial") r.allow_partial refl,
          usize_at m (text "library_count") r.library_count v.library refl,
          usize_at m (text "columns") r.columns v.columns refl,
          usize_at m (text "fingerprint") r.fingerprint v.fingerprint refl,
          u32_at m (text "thumbnail_edge") r.thumbnail_edge v.edge refl,
          usize_at m (text "tile_cells") r.tile_cells v.cells refl,
          routes_at m r.routes v.routes refl,
        )
        refl

  pub kind_at :
      (r : Request) (v : IsRequest f r)
      → required_string (request_members f r v) (text "type") ≡ ok (request_kind r)
  unfolding action_members request_fields insert get text_eq text_lt
  kind_at Request.ping v =
      required_at (request_members f Request.ping v) (text "type") (text "ping") refl
  kind_at Request.capabilities v =
      required_at (request_members f Request.capabilities v) (text "type") (text "capabilities")
        refl
  kind_at Request.health v =
      required_at (request_members f Request.health v) (text "type") (text "health") refl
  kind_at Request.query v =
      required_at (request_members f Request.query v) (text "type") (text "query") refl
  kind_at Request.stop v =
      required_at (request_members f Request.stop v) (text "type") (text "stop") refl
  kind_at (Request.set r) v =
      required_at (request_members f (Request.set r) v) (text "type") (text "set") refl
  kind_at (Request.preload r) v =
      required_at (request_members f (Request.preload r) v) (text "type") (text "preload") refl
  kind_at (Request.clear r) v =
      required_at (request_members f (Request.clear r) v) (text "type") (text "clear") refl
  kind_at (Request.wallpaper r) v =
      required_at (request_members f (Request.wallpaper r) v) (text "type") (text "wallpaper") refl
  kind_at (Request.cache r) v = (cache_action-back r.action v).0
  kind_at (Request.render_canvas_set r) v =
      required_at (request_members f (Request.render_canvas_set r) v) (text "type")
        (text "renderer_canvas_set") refl
  kind_at (Request.render_world_set r) v =
      required_at (request_members f (Request.render_world_set r) v) (text "type")
        (text "renderer_world_set") refl

  object_request-back :
      (r : Request) (v : IsRequest f r) → parse_object_request f true (request_members f r v) ≡ ok r
  unfolding parse_object_request text_eq
  object_request-back Request.ping v = rw (kind_at Request.ping v) refl
  object_request-back Request.capabilities v = rw (kind_at Request.capabilities v) refl
  object_request-back Request.health v = rw (kind_at Request.health v) refl
  object_request-back Request.query v = rw (kind_at Request.query v) refl
  object_request-back Request.stop v = rw (kind_at Request.stop v) refl
  object_request-back (Request.set r) v = rw (kind_at (Request.set r) v, set-back f r v) refl
  object_request-back (Request.preload r) v =
      rw (kind_at (Request.preload r) v, preload-back r v) refl
  object_request-back (Request.clear r) v = rw (kind_at (Request.clear r) v, clear-back r v) refl
  object_request-back (Request.wallpaper r) v =
      rw (kind_at (Request.wallpaper r) v, wallpaper-back r v) refl
  object_request-back (Request.cache r) v = rw (kind_at (Request.cache r) v, cache-back r v) refl
  object_request-back (Request.render_canvas_set r) v =
      rw (kind_at (Request.render_canvas_set r) v, canvas_set-back r v) refl
  object_request-back (Request.render_world_set r) v =
      rw (kind_at (Request.render_world_set r) v, world_set-back r v) refl

  -- A request within the bounds of its fields is read back from its JSON: if its maps are sorted,
  -- named and not empty, its texts are Unicode scalar values, its transition is valid, its numbers
  -- fit and a warm has a worker, then parse_request of what to_json writes returns it. The scale of
  -- a canvas is assumed to be written as a decimal that is read back to the same scale.
  pub parse_request-to_json :
      (r : Request) (v : IsRequest f r) → parse_request f (utf8 (to_json f r)) ≡ ok r
  unfolding parse_request parse_request_with_renderer_control as_object
  parse_request-to_json r v =
      let o = JsonValue.object (request_members f r v) in
      rw
        (
          parse_json-Reads (to_json f r) o (Reads-to_json f r v) (omega arith),
          object_request-back r v,
        )
        refl
