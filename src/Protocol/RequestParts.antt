-- ===== src/Protocol/RequestParts.antt =====
-- The parts of requests that crates/mural-ipc/src/lib.rs reads without a transition.
use mural.Prelude.{ℕ, Bool, false, Option, none, [], ◌++◌, Text, text, text_eq, ◌==◌, if◌then◌else◌}
use mural.Exec.{Outcome, ok}
use mural.Results.{◌>>=◌, ◌>>◌, fail, refuse_if, ok_or}
use mural.Json.Value.{JsonValue, Members}
use mural.Wallpaper.Change.{
  WallpaperAction, next, back, shift_forward, shift_back, favorites, current, rescan,
}
use mural.Protocol.Words.General.{ScaleMode, fill, scale_mode_word}
use mural.Protocol.Words.Cache.{
  CacheWarmScope, CacheBackend, cache_warm_scope_word, cache_backend_word,
}
use mural.Protocol.Messages.{
  WorldRouteFocus, PreloadRequest, ClearRequest, CacheAction, CacheRequest, Map,
}
use mural.Protocol.Fields.{
  as_object, get, missing, field, required_string, optional_string, optional_bool, optional_usize,
  required, or_default, word_or, collect_map, no_fields, no_text, optional_strings,
  required_outputs,
}

unfoldable pub required_index : Text → Option ℕ → Outcome ℕ
required_index action index = ok_or index (action ++ text " requires field 'index'")

-- `WallpaperAction::parse`, which knows one action by a second spelling.
unfoldable pub parse_action : Text → Option ℕ → Outcome WallpaperAction
parse_action action index =
    let indexed =
      λ (make : ℕ → WallpaperAction). required_index action index >>= λ i. ok (make i) in
    if text_eq action (text "next")
    then ok next
    else if text_eq action (text "back")
    then ok back
    else if text_eq action (text "shift-forward")
    then ok shift_forward
    else if text_eq action (text "shift-back")
    then ok shift_back
    else if text_eq action (text "replace")
    then indexed WallpaperAction.replace
    else if text_eq action (text "quarantine")
    then indexed WallpaperAction.quarantine
    else if text_eq action (text "quarentine")
    then indexed WallpaperAction.quarantine
    else if text_eq action (text "favorite")
    then indexed WallpaperAction.favorite
    else if text_eq action (text "unfavorite")
    then indexed WallpaperAction.unfavorite
    else if text_eq action (text "favorites")
    then ok favorites
    else if text_eq action (text "current")
    then ok current
    else if text_eq action (text "rescan")
    then ok rescan
    else fail (text "unknown wallpaper action: " ++ action)

unfoldable pub parse_wallpaper_action : JsonValue → Outcome WallpaperAction
parse_wallpaper_action (JsonValue.string action) = parse_action action none
parse_wallpaper_action v = as_object v >>= λ m. required_string m (text "type") >>= λ action.
    optional_usize m (text "index") >>= λ index. parse_action action index

abbrev pub scale_mode_of : Members → Outcome ScaleMode
scale_mode_of m = word_or (optional_string m (text "scale_mode")) fill

abbrev pub allow_partial_of : Members → Outcome Bool
allow_partial_of m = or_default (optional_bool m (text "allow_partial")) false

unfoldable pub validate_cache_workers : ℕ → Outcome (Unit {0})
validate_cache_workers workers =
    refuse_if (workers == 0) (text "cache workers must be greater than zero")

abbrev pub default_canvas_cache_workers : ℕ
default_canvas_cache_workers = 1

unfoldable pub warm_of : Members → Outcome CacheAction
warm_of m = word_or (optional_string m (text "scope")) CacheWarmScope.current >>= λ scope.
    or_default (optional_usize m (text "workers")) default_canvas_cache_workers >>= λ workers.
    validate_cache_workers workers
    >> (word_or (optional_string m (text "backend")) CacheBackend.auto >>= λ backend.
        ok (CacheAction.warm scope workers backend))

unfoldable pub parse_cache_request : Members → Outcome CacheRequest
parse_cache_request m = required_string m (text "action") >>= λ action.
    (if text_eq action (text "status")
      then ok CacheAction.status
      else if text_eq action (text "clear")
      then ok CacheAction.clear
      else if text_eq action (text "warm")
      then warm_of m
      else fail (text "unknown cache action: " ++ action))
    >>= λ a. ok (record { action = a })

unfoldable pub parse_preload_request : Members → Outcome PreloadRequest
parse_preload_request m = required_outputs m >>= λ outputs. ok (record { outputs = outputs })

unfoldable pub parse_clear_request : Members → Outcome ClearRequest
parse_clear_request m = or_default (optional_strings m (text "outputs")) [] >>= λ outputs.
    or_default (optional_string m (text "color")) (text "#000000") >>= λ color.
    ok (record { outputs = outputs; color = color })

unfoldable pub focus_of : Text → JsonValue → Outcome WorldRouteFocus
focus_of name v =
    refuse_if (no_text name) (text "output name must not be empty")
    >> (as_object v >>= λ focus.
        required optional_usize focus (text "current_index") >>= λ current_index.
        required optional_usize focus (text "target_index") >>= λ target_index.
        or_default (optional_usize focus (text "lod")) 0 >>= λ lod.
        ok (record { current_index = current_index; target_index = target_index; lod = lod }))

unfoldable pub parse_world_route_map : Members → Outcome (Map WorldRouteFocus)
parse_world_route_map m =
    ok_or (get m (text "routes")) (missing (text "routes")) >>= as_object >>= λ routes.
    refuse_if (no_fields routes) (field (text "routes") (text " must not be empty"))
    >> collect_map focus_of routes

abbrev pub reserved : Text → Text
reserved kind = text "request type is reserved for the internal renderer control channel: " ++ kind
