-- ===== src/Protocol/RequestBack.antt =====
-- What `to_json` writes of a request, `parse_request` reads back.
use mural.Prelude.{
  ℕ, text_eq, ◌==◌, ◌≡◌, refl, false, Option, none, some, [], ◌∷◌, Text, text, arith,
}
use mural.Exec.{ok}
use mural.Decimal.{print_usize}
use mural.Json.Value.{JsonValue, Members, no_members}
use mural.Json.Objects.{members_onto}
use mural.Wallpaper.Change.{WallpaperAction}
use mural.Protocol.Words.General.{ScaleMode, fill, scale_mode_word}
use mural.Protocol.Words.Cache.{
  CacheWarmScope, CacheBackend, cache_warm_scope_word, cache_backend_word,
}
use mural.Protocol.Words as Words
use mural.Protocol.Messages.{Transition, SetRequest, WorldRouteFocus, CacheAction, Request, Map}
use mural.Protocol.Fields.{no_text}
use mural.Protocol.Float.{Float32}
use mural.Protocol.Items.{all_scalar-IsScalars, at, string_item, usize_item}
use mural.Protocol.RequestFields.{
  IsOutputs, IsRoutes, routes_value, action_item, IsCacheAction, IsNullableTransition, IsSetRequest,
  nullable_item,
}
use mural.Path.{text_lt}
use mural.Json.Value.{insert}
use mural.Protocol.Fields.{get, as_object, as_string, required_outputs, output_path}
use mural.Protocol.TransitionBack.{parse-transition_value}
use mural.Protocol.Requests.{
  transition_or_cut, nullable_transition, nullable_scale_mode, parse_set_request,
}
use mural.Protocol.RequestParts.{
  parse_action, required_index, parse_wallpaper_action, focus_of, parse_world_route_map, warm_of,
  validate_cache_workers,
}
use mural.Protocol.Items.{usize_at, required_at, word_at, bool_at}
use mural.Protocol.Maps.{not_empty, collect_map-fields}
use mural.Protocol.RequestFields.{
  IsPath, path_item, outputs_value, IsFocus, focus_item, focus_fields, IsAction,
}
use mural.Protocol.RequestText.{request_fields, request_members, nullable_mode}

reads_path :
    (k t : Text) (p : IsPath t) → no_text k ≡ false → output_path k (path_item t p).means ≡ ok t
unfolding output_path as_string
reads_path k t p h = rw (h, p.1) refl

pub outputs_at :
    (m : Members) (o : Map Text) (v : IsOutputs o)
    → get m (text "outputs") ≡ some (outputs_value o v)
    → required_outputs m ≡ ok o
unfolding required_outputs as_object
outputs_at m [] v e = absurd (cc (v.filled))
outputs_at m (x ∷ xs) v e =
    rw
      (
        e,
        not_empty IsPath path_item x xs v.valid v.sorted,
        collect_map-fields IsPath path_item output_path reads_path (x ∷ xs) v.valid v.sorted,
      )
      refl

reads_focus :
    (k : Text) (r : WorldRouteFocus) (p : IsFocus r)
    → no_text k ≡ false
    → focus_of k (focus_item r p).means ≡ ok r
unfolding focus_of as_object insert get text_eq text_lt
reads_focus k r p h =
    let m = members_onto no_members (focus_fields r p) in
    rw
      (
        h,
        usize_at m (text "current_index") r.current_index p.0 refl,
        usize_at m (text "target_index") r.target_index p.1 refl,
        usize_at m (text "lod") r.lod p.2 refl,
      )
      refl

pub routes_at :
    (m : Members) (o : Map WorldRouteFocus) (v : IsRoutes o)
    → get m (text "routes") ≡ some (routes_value o v)
    → parse_world_route_map m ≡ ok o
unfolding parse_world_route_map as_object
routes_at m [] v e = absurd (cc (v.filled))
routes_at m (x ∷ xs) v e =
    rw
      (
        e,
        not_empty IsFocus focus_item x xs v.valid v.sorted,
        collect_map-fields IsFocus focus_item focus_of reads_focus (x ∷ xs) v.valid v.sorted,
      )
      refl

pub action_back :
    (a : WallpaperAction) (v : IsAction a) → parse_wallpaper_action (action_item a v).means ≡ ok a
unfolding parse_wallpaper_action parse_action required_index action_item as_object insert get
    text_eq text_lt
action_back (WallpaperAction.replace i) v =
    let m = members_onto no_members (
      at {d = 1} (text "type") refl
        (string_item (text "replace") (all_scalar-IsScalars (text "replace") refl))
      ∷ at (text "index") refl (usize_item i v)
      ∷ []) in
    rw (required_at m (text "type") (text "replace") refl, usize_at m (text "index") i v refl) refl
action_back (WallpaperAction.quarantine i) v =
    let m = members_onto no_members (
      at {d = 1} (text "type") refl
        (string_item (text "quarantine") (all_scalar-IsScalars (text "quarantine") refl))
      ∷ at (text "index") refl (usize_item i v)
      ∷ []) in
    rw (required_at m (text "type") (text "quarantine") refl, usize_at m (text "index") i v refl)
      refl
action_back (WallpaperAction.favorite i) v =
    let m = members_onto no_members (
      at {d = 1} (text "type") refl
        (string_item (text "favorite") (all_scalar-IsScalars (text "favorite") refl))
      ∷ at (text "index") refl (usize_item i v)
      ∷ []) in
    rw (required_at m (text "type") (text "favorite") refl, usize_at m (text "index") i v refl) refl
action_back (WallpaperAction.unfavorite i) v =
    let m = members_onto no_members (
      at {d = 1} (text "type") refl
        (string_item (text "unfavorite") (all_scalar-IsScalars (text "unfavorite") refl))
      ∷ at (text "index") refl (usize_item i v)
      ∷ []) in
    rw (required_at m (text "type") (text "unfavorite") refl, usize_at m (text "index") i v refl)
      refl
action_back WallpaperAction.next v = refl
action_back WallpaperAction.back v = refl
action_back WallpaperAction.shift_forward v = refl
action_back WallpaperAction.shift_back v = refl
action_back WallpaperAction.favorites v = refl
action_back WallpaperAction.current v = refl
action_back WallpaperAction.rescan v = refl

pub warm-back :
    (m : Members) (scope : CacheWarmScope) (workers : ℕ) (backend : CacheBackend)
    → IsCacheAction (CacheAction.warm scope workers backend)
    → get m (text "scope") ≡ some (JsonValue.string (Words.as_str scope))
    → get m (text "workers") ≡ some (JsonValue.number (print_usize workers))
    → get m (text "backend") ≡ some (JsonValue.string (Words.as_str backend))
    → warm_of m ≡ ok (CacheAction.warm scope workers backend)
unfolding warm_of validate_cache_workers
warm-back m scope workers backend v a b c =
    let some_worker : (workers == 0) ≡ false = ground arith in
    rw
      (
        word_at m (text "scope") scope CacheWarmScope.current a,
        usize_at m (text "workers") workers v.1 b,
        some_worker,
        word_at m (text "backend") backend CacheBackend.auto c,
      )
      refl

module _ (f : Float32) where
  pub nullable_back :
      (t : Option Transition) (v : IsNullableTransition f t)
      → nullable_transition f (some (nullable_item f t v).means) ≡ ok t
  unfolding nullable_transition nullable_item
  nullable_back none v = refl
  nullable_back (some t) v = rw (parse-transition_value f t v) refl

  pub mode_back :
      (m : Option ScaleMode) → nullable_scale_mode f (some (nullable_mode f m).means) ≡ ok m
  unfolding nullable_scale_mode as_string
  mode_back none = refl
  mode_back (some m) = rw (scale_mode_word.read_back m) refl

  pub set-back :
      (r : SetRequest) (v : IsSetRequest f r)
      → parse_set_request f (request_members f (Request.set r) v) ≡ ok r
  unfolding parse_set_request transition_or_cut request_fields insert get text_eq text_lt
  set-back r v =
      let m = request_members f (Request.set r) v in
      rw
        (
          outputs_at m r.outputs v.outputs refl,
          parse-transition_value f r.transition v.transition,
          word_at m (text "scale_mode") r.scale_mode fill refl,
          bool_at m (text "allow_partial") r.allow_partial refl,
        )
        refl
