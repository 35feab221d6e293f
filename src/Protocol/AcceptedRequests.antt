-- ===== src/Protocol/AcceptedRequests.antt =====
-- Whatever `parse_request` of crates/mural-ipc/src/lib.rs returns is within the bounds of its fields.
use mural.Prelude.{ℕ, ◌+◌, ◌≡◌, true, Option, none, some, List, ◌++◌, text, text_eq, length, arith}
use mural.Exec.{Outcome, ok}
use mural.Results.{◌>>=◌, ok_or, map_ok}
use mural.Results.Ensures.{
  Ensures, OnSome, ensures_ok, ensures_fail, ensures_if, ensures_then, ensures_bind, on_some,
  on_none,
}
use mural.Json.Value.{JsonValue, Members, parse_json}
use mural.Protocol.Words.General.{scale_mode_word}
use mural.Protocol.Words.Cache.{cache_warm_scope_word, cache_backend_word}
use mural.Protocol.Messages.{Transition, Request}
use mural.Protocol.Float.{Float32}
use mural.Protocol.Fields.{
  get, missing, as_object, required_string, optional_usize, optional_u32, optional_strings,
  or_default, required, required_outputs,
}
use mural.Protocol.Requests.{
  transition_or_cut, required_transition, nullable_transition, nullable_scale_mode,
  parse_set_request, parse_wallpaper_request, parse_render_canvas_set_request,
  parse_render_world_set_request, parse_object_request, parse_request_with_renderer_control,
  parse_request,
}
use mural.Protocol.RequestParts.{
  parse_wallpaper_action, scale_mode_of, allow_partial_of, parse_cache_request,
  parse_preload_request, parse_clear_request, parse_world_route_map,
}
use mural.Protocol.Transitions.{parse_transition}
use mural.Protocol.Accepted.{transition_ensures}
use mural.Protocol.TokenBounds.{TransitionBounds, usize_or_ensures}
use mural.Protocol.RequestBounds.{cache_bounds, parse_wallpaper_action-IsAction}
use mural.Protocol.FieldBounds.{
  RequestBounds, required_outputs-Outputs, required_usize_le, required_u32_le, routes_bounds,
}

ensures_map :
    {A : Type 0} {P : A → Type 0} {Q : Request → Type 0} (make : A → Request)
    → ((a : A) → P a → Q (make a))
    → (o : Outcome A) → Ensures o P
    → Ensures (map_ok make o) Q
ensures_map make h o g = ensures_bind o _ g (λ a p. ensures_ok (make a) (h a p))

module _ (f : Float32) where
  cut_or_bounds : (v : Option JsonValue) → Ensures (transition_or_cut f v) TransitionBounds
  unfolding transition_or_cut
  cut_or_bounds none = ensures_ok Transition.cut tt
  cut_or_bounds (some v) = transition_ensures f v

  required_transition_bounds : (m : Members) → Ensures (required_transition f m) TransitionBounds
  unfolding required_transition
  required_transition_bounds m =
      ensures_then (ok_or (get m (text "transition")) (missing (text "transition"))) _
        (λ v e. transition_ensures f v)

  set_bounds : (m : Members) → Ensures (parse_set_request f m) (λ r. RequestBounds (Request.set r))
  unfolding parse_set_request
  set_bounds m = ensures_bind (required_outputs m) _ (required_outputs-Outputs m) (λ outputs a.
      ensures_bind (transition_or_cut f (get m (text "transition"))) _
        (cut_or_bounds (get m (text "transition")))
        (λ t b. ensures_then (scale_mode_of m) _ (λ mode e.
          ensures_then (allow_partial_of m) _ (λ partial e'.
            ensures_ok
              (record {
                outputs = outputs;
                transition = t;
                scale_mode = mode;
                allow_partial = partial;
              })
              (a, b)))))

  preload_bounds :
      (m : Members) → Ensures (parse_preload_request m) (λ r. RequestBounds (Request.preload r))
  unfolding parse_preload_request
  preload_bounds m =
      ensures_bind (required_outputs m) _ (required_outputs-Outputs m)
        (λ outputs a. ensures_ok (record { outputs = outputs }) a)

  given :
      (v : JsonValue)
      → Ensures (parse_transition f v >>= λ t. ok (some t)) (OnSome TransitionBounds)
  given v =
      ensures_bind (parse_transition f v) _ (transition_ensures f v)
        (λ t h. ensures_ok (some t) (on_some t h))

  nullable_bounds :
      (v : Option JsonValue) → Ensures (nullable_transition f v) (OnSome TransitionBounds)
  unfolding nullable_transition
  nullable_bounds none = ensures_ok none on_none
  nullable_bounds (some JsonValue.null) = ensures_ok none on_none
  nullable_bounds (some (JsonValue.boolean b)) = given (JsonValue.boolean b)
  nullable_bounds (some (JsonValue.number b)) = given (JsonValue.number b)
  nullable_bounds (some (JsonValue.string b)) = given (JsonValue.string b)
  nullable_bounds (some (JsonValue.array b)) = given (JsonValue.array b)
  nullable_bounds (some (JsonValue.object b)) = given (JsonValue.object b)

  wallpaper_bounds :
      (m : Members)
      → Ensures (parse_wallpaper_request f m) (λ r. RequestBounds (Request.wallpaper r))
  unfolding parse_wallpaper_request
  wallpaper_bounds m =
      ensures_bind
        (ok_or (get m (text "action")) (missing (text "action")) >>= parse_wallpaper_action) _
        (ensures_then (ok_or (get m (text "action")) (missing (text "action"))) _
          (λ v e. parse_wallpaper_action-IsAction v))
        (λ action a.
          ensures_bind (nullable_transition f (get m (text "transition"))) _
            (nullable_bounds (get m (text "transition")))
            (λ t b. ensures_then (nullable_scale_mode f (get m (text "scale_mode"))) _ (λ mode e.
              ensures_ok (record { action = action; transition = t; scale_mode = mode }) (a, b))))

  canvas_set_bounds :
      (m : Members)
      → Ensures
          (parse_render_canvas_set_request f m)
          (λ r. RequestBounds (Request.render_canvas_set r))
  unfolding parse_render_canvas_set_request
  canvas_set_bounds m =
      ensures_bind (required_outputs m) _ (required_outputs-Outputs m) (λ outputs a.
        ensures_bind (required_transition f m) _ (required_transition_bounds m) (λ t b.
          ensures_then (scale_mode_of m) _ (λ mode e.
            ensures_then (allow_partial_of m) _ (λ partial e'.
              ensures_then (required optional_strings m (text "preview_paths")) _ (λ paths e''.
                ensures_bind (or_default (optional_usize m (text "preview_start")) 0) _
                  (usize_or_ensures m (text "preview_start") 0 (omega arith))
                  (λ start c.
                    ensures_ok
                      (record {
                        outputs = outputs;
                        transition = t;
                        scale_mode = mode;
                        allow_partial = partial;
                        preview_paths = paths;
                        preview_start = start;
                      })
                      (a, b, c)))))))

  world_set_bounds :
      (m : Members)
      → Ensures
          (parse_render_world_set_request f m)
          (λ r. RequestBounds (Request.render_world_set r))
  unfolding parse_render_world_set_request
  world_set_bounds m =
      ensures_bind (required_outputs m) _ (required_outputs-Outputs m) (λ outputs a.
        ensures_bind (required_transition f m) _ (required_transition_bounds m) (λ t b.
          ensures_then (scale_mode_of m) _ (λ mode e.
            ensures_then (allow_partial_of m) _ (λ partial e'.
              ensures_bind (required optional_usize m (text "library_count")) _
                (required_usize_le m (text "library_count"))
                (λ count c.
                  ensures_bind (required optional_usize m (text "columns")) _
                    (required_usize_le m (text "columns"))
                    (λ columns d.
                      ensures_bind (required optional_usize m (text "fingerprint")) _
                        (required_usize_le m (text "fingerprint"))
                        (λ print g.
                          ensures_bind (required optional_u32 m (text "thumbnail_edge")) _
                            (required_u32_le m (text "thumbnail_edge"))
                            (λ edge h.
                              ensures_bind (required optional_usize m (text "tile_cells")) _
                                (required_usize_le m (text "tile_cells"))
                                (λ cells i.
                                  ensures_bind (parse_world_route_map m) _ (routes_bounds m)
                                    (λ routes j.
                                      ensures_ok
                                        (record {
                                          outputs = outputs;
                                          transition = t;
                                          scale_mode = mode;
                                          allow_partial = partial;
                                          library_count = count;
                                          columns = columns;
                                          fingerprint = print;
                                          thumbnail_edge = edge;
                                          tile_cells = cells;
                                          routes = routes;
                                        })
                                        (a, b, c, d, g, h, i, j)))))))))))

  object_bounds : (m : Members) → Ensures (parse_object_request f true m) RequestBounds
  unfolding parse_object_request
  object_bounds m = ensures_then (required_string m (text "type")) _ (λ kind e.
      ensures_if (text_eq kind (text "ping")) _ _ (ensures_ok Request.ping tt) (
        ensures_if (text_eq kind (text "capabilities")) _ _ (ensures_ok Request.capabilities tt) (
          ensures_if (text_eq kind (text "health")) _ _ (ensures_ok Request.health tt) (
            ensures_if (text_eq kind (text "query")) _ _ (ensures_ok Request.query tt) (
              ensures_if (text_eq kind (text "stop")) _ _ (ensures_ok Request.stop tt) (
                ensures_if (text_eq kind (text "set")) _ _
                  (ensures_map Request.set (λ r h. h) (parse_set_request f m) (set_bounds m))
                  (ensures_if (text_eq kind (text "preload")) _ _
                    (ensures_map Request.preload (λ r h. h) (parse_preload_request m)
                      (preload_bounds m))
                    (ensures_if (text_eq kind (text "clear")) _ _
                      (ensures_then (parse_clear_request m) _
                        (λ r e. ensures_ok (Request.clear r) tt))
                      (ensures_if (text_eq kind (text "wallpaper")) _ _
                        (ensures_map Request.wallpaper (λ r h. h) (parse_wallpaper_request f m)
                          (wallpaper_bounds m))
                        (ensures_if (text_eq kind (text "cache")) _ _
                          (ensures_map Request.cache (λ r h. h) (parse_cache_request m)
                            (cache_bounds m))
                          (ensures_if (text_eq kind (text "renderer_canvas_set")) _ _
                            (ensures_map Request.render_canvas_set (λ r h. h)
                              (parse_render_canvas_set_request f m) (canvas_set_bounds m))
                            (ensures_if (text_eq kind (text "renderer_world_set")) _ _
                              (ensures_map Request.render_world_set (λ r h. h)
                                (parse_render_world_set_request f m) (world_set_bounds m))
                              (ensures_fail (text "unknown request type: " ++ kind))))))))))))))

  -- Whatever bytes it reads, a request that parse_request returns is within the bounds of its kind.
  -- The outputs of a set, a preload or a renderer request are not empty, and none has an empty name
  -- or image path. The routes of a world are not empty and named. Transitions have positive
  -- durations that fit 64 bits, and a canvas has a valid scale, a tile count between 1 and 256, and
  -- a walk that its mode allows. A cache is warmed by at least one worker. Indices and numbers fit
  -- their types. Nothing is claimed of the outputs of a clear request, nor of preview paths.
  pub parse_request-RequestBounds :
      (input : List ℕ) (r : Request) → parse_request f input ≡ ok r → RequestBounds r
  unfolding parse_request parse_request_with_renderer_control
  parse_request-RequestBounds input r e =
      let o = parse_json (length input + 1) input >>= as_object in
      (ensures_then o (λ m. parse_object_request f true m) (λ m e'. object_bounds m)).holds r e
