-- ===== src/Protocol/RequestText.antt =====
-- The fields of a request are those that `to_json` writes.
use mural.Prelude.{◌≡◌, refl, true, Option, none, some, List, [], ◌∷◌, Text, text, arith}
use mural.Json.Value.{JsonValue, Members, no_members}
use mural.Json.Writer.{object}
use mural.Json.Reads.{Reads}
use mural.Json.Arrays.{Item}
use mural.Json.Objects.{Field, fields_of, members_onto, Reads-object}
use mural.Protocol.Words.General.{ScaleMode, scale_mode_word}
use mural.Protocol.Words.Cache.{cache_warm_scope_word, cache_backend_word}
use mural.Protocol.Messages.{Transition, WorldRouteFocus, CacheAction, Request, Map}
use mural.Protocol.Float.{Float32}
use mural.Protocol.Writer.{
  encode_world_route_map, encode_nullable_transition, encode_nullable_scale_mode, cache_fields,
  to_json,
}
use mural.Protocol.Items.{
  all_scalar, at, string_item, word_item, usize_item, bool_item, null_item, strings_item,
}
use mural.Protocol.RequestFields.{
  IsRoutes, routes_value, Reads-routes, action_item, written-action_item, action_fields,
  IsCacheAction, name_item, IsNullableTransition, IsRequest, outputs_field, transition_item,
  nullable_item,
}

module _ (f : Float32) where
  abbrev type_field : (name : Text) → all_scalar name ≡ true → Field 2
  type_field name h = at (text "type") refl (name_item name h)

  abbrev pub nullable_mode : Option ScaleMode → Item 2
  nullable_mode none = null_item
  nullable_mode (some m) = word_item m

  abbrev routes_item : (m : Map WorldRouteFocus) → IsRoutes m → Item 2
  routes_item m v = record {
    written = encode_world_route_map m;
    means = routes_value m v;
    reads = Reads-routes m v;
  }

  unfoldable pub request_fields : (r : Request) → IsRequest f r → List (Field 2)
  request_fields Request.ping v = type_field (text "ping") refl ∷ []
  request_fields Request.capabilities v = type_field (text "capabilities") refl ∷ []
  request_fields Request.health v = type_field (text "health") refl ∷ []
  request_fields Request.query v = type_field (text "query") refl ∷ []
  request_fields Request.stop v = type_field (text "stop") refl ∷ []
  request_fields (Request.set r) v =
      type_field (text "set") refl
      ∷ outputs_field f r.outputs v.outputs
      ∷ at (text "transition") refl (transition_item f r.transition v.transition)
      ∷ at (text "scale_mode") refl (word_item r.scale_mode)
      ∷ at (text "allow_partial") refl (bool_item r.allow_partial)
      ∷ []
  request_fields (Request.preload r) v =
      type_field (text "preload") refl ∷ outputs_field f r.outputs v ∷ []
  request_fields (Request.clear r) v =
      type_field (text "clear") refl
      ∷ at (text "outputs") refl (strings_item r.outputs v.0)
      ∷ at (text "color") refl (string_item r.color v.1)
      ∷ []
  request_fields (Request.wallpaper r) v =
      type_field (text "wallpaper") refl
      ∷ at (text "action") refl (action_item r.action v.0)
      ∷ at (text "transition") refl (nullable_item f r.transition v.1)
      ∷ at (text "scale_mode") refl (nullable_mode r.scale_mode)
      ∷ []
  request_fields (Request.cache r) v = type_field (text "cache") refl ∷ action_fields r.action v
  request_fields (Request.render_canvas_set r) v =
      type_field (text "renderer_canvas_set") refl
      ∷ outputs_field f r.outputs v.outputs
      ∷ at (text "transition") refl (transition_item f r.transition v.transition)
      ∷ at (text "scale_mode") refl (word_item r.scale_mode)
      ∷ at (text "allow_partial") refl (bool_item r.allow_partial)
      ∷ at (text "preview_paths") refl (strings_item r.preview_paths v.paths)
      ∷ at (text "preview_start") refl (usize_item r.preview_start v.start)
      ∷ []
  request_fields (Request.render_world_set r) v =
      type_field (text "renderer_world_set") refl
      ∷ outputs_field f r.outputs v.outputs
      ∷ at (text "transition") refl (transition_item f r.transition v.transition)
      ∷ at (text "scale_mode") refl (word_item r.scale_mode)
      ∷ at (text "allow_partial") refl (bool_item r.allow_partial)
      ∷ at (text "library_count") refl (usize_item r.library_count v.library)
      ∷ at (text "columns") refl (usize_item r.columns v.columns)
      ∷ at (text "fingerprint") refl (usize_item r.fingerprint v.fingerprint)
      ∷ at (text "thumbnail_edge") refl (usize_item r.thumbnail_edge (omega (arith, v.edge)))
      ∷ at (text "tile_cells") refl (usize_item r.tile_cells v.cells)
      ∷ at (text "routes") refl (routes_item r.routes v.routes)
      ∷ []

  written-nullable_item :
      (t : Option Transition) (v : IsNullableTransition f t)
      → (nullable_item f t v).written ≡ encode_nullable_transition f t
  unfolding nullable_item encode_nullable_transition
  written-nullable_item none v = refl
  written-nullable_item (some t) v = refl

  written-nullable_mode :
      (m : Option ScaleMode) → (nullable_mode m).written ≡ encode_nullable_scale_mode f m
  unfolding encode_nullable_scale_mode
  written-nullable_mode none = refl
  written-nullable_mode (some m) = refl

  fields_of-action_fields :
      (a : CacheAction) (v : IsCacheAction a) → fields_of (action_fields a v) ≡ cache_fields f a
  unfolding action_fields cache_fields
  fields_of-action_fields CacheAction.status v = refl
  fields_of-action_fields CacheAction.clear v = refl
  fields_of-action_fields (CacheAction.warm scope workers backend) v = refl

  fields_of-request_fields :
      (r : Request) (v : IsRequest f r) → object (fields_of (request_fields r v)) ≡ to_json f r
  unfolding request_fields to_json
  fields_of-request_fields (Request.wallpaper r) v =
      rw
        (
          written-action_item r.action v.0,
          written-nullable_item r.transition v.1,
          written-nullable_mode r.scale_mode,
        )
        refl
  fields_of-request_fields (Request.cache r) v = rw (fields_of-action_fields r.action v) refl
  fields_of-request_fields Request.ping v = refl
  fields_of-request_fields Request.capabilities v = refl
  fields_of-request_fields Request.health v = refl
  fields_of-request_fields Request.query v = refl
  fields_of-request_fields Request.stop v = refl
  fields_of-request_fields (Request.set r) v = refl
  fields_of-request_fields (Request.preload r) v = refl
  fields_of-request_fields (Request.clear r) v = refl
  fields_of-request_fields (Request.render_canvas_set r) v = refl
  fields_of-request_fields (Request.render_world_set r) v = refl

  abbrev pub request_members : (r : Request) → IsRequest f r → Members
  request_members r v = members_onto no_members (request_fields r v)

  pub Reads-to_json :
      (r : Request) (v : IsRequest f r)
      → Reads 3 (to_json f r) (JsonValue.object (request_members r v))
  Reads-to_json r v = rw (← fields_of-request_fields r v) (Reads-object (request_fields r v))
