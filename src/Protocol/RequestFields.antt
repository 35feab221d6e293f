-- ===== src/Protocol/RequestFields.antt =====
-- What is written of a request, field by field, and the value that it is read as.
use mural.Prelude.{
  ℕ, ◌≤◌, ◌≡◌, refl, true, false, Option, none, some, List, [], ◌∷◌, Text, text, arith, All,
  usize_max, Bool,
}
use mural.Json.Value.{JsonValue, no_members}
use mural.Json.Writer.{object, json_string}
use mural.Json.Reads.{Reads, Reads-deeper}
use mural.Json.Arrays.{Item}
use mural.Json.Objects.{Field, fields_of, members_onto, Reads-object}
use mural.Wallpaper.Change.{WallpaperAction, as_str}
use mural.Protocol.Words.General.{scale_mode_word}
use mural.Protocol.Words.Cache.{cache_warm_scope_word, cache_backend_word}
use mural.Protocol.Messages.{
  Transition, SetRequest, RenderCanvasSetRequest, WorldRouteFocus, RenderWorldSetRequest,
  CacheAction, Request, Map,
}
use mural.Protocol.Fields.{no_text, u32_max}
use mural.Protocol.Float.{Float32}
use mural.Protocol.Writer.{
  encode_string_map, encode_focus, encode_world_route_map, encode_wallpaper_action,
  encode_transition,
}
use mural.Protocol.Items.{
  IsScalars, all_scalar, all_scalar-IsScalars, at, string_item, word_item, usize_item, null_item,
}
use mural.Protocol.Maps.{IsSorted, AllValid, fields, Reads-map}
use mural.Protocol.TransitionFields.{IsTransition, transition_value, Reads-encode_transition}

-- A text one deeper than a transition.
abbrev pub deep : {d : ℕ} (t : Text) (v : JsonValue) → Reads d t v → d ≤ 2 → Item 2
deep t v r h = record { written = t; means = v; reads = Reads-deeper 2 h r }

abbrev pub IsPath : Text → Type 0
IsPath t = IsScalars t × (no_text t ≡ false)

abbrev pub path_item : (t : Text) → IsPath t → Item 1
path_item t h = string_item t h.0

abbrev pub is_filled : {V : Type 0} → Map V → Bool
is_filled [] = false
is_filled (e ∷ es) = true

-- A map from outputs to paths that the reader accepts.
pub record IsOutputs (m : Map Text) : Type 0 where
  pub filled : is_filled m ≡ true
  pub sorted : IsSorted m
  pub valid : AllValid IsPath path_item m

abbrev pub outputs_value : (m : Map Text) → IsOutputs m → JsonValue
outputs_value m v = JsonValue.object (members_onto no_members (fields IsPath path_item m v.valid))

pub Reads-outputs :
    (m : Map Text) (v : IsOutputs m) → Reads 2 (encode_string_map m) (outputs_value m v)
unfolding encode_string_map
Reads-outputs m v = Reads-map IsPath path_item json_string (λ t p. refl) m v.valid

abbrev pub IsFocus : WorldRouteFocus → Type 0
IsFocus r = (r.current_index ≤ usize_max) × (r.target_index ≤ usize_max) × (r.lod ≤ usize_max)

abbrev pub focus_fields : (r : WorldRouteFocus) → IsFocus r → List (Field 0)
focus_fields r v =
    at (text "current_index") refl (usize_item r.current_index v.0)
    ∷ at (text "target_index") refl (usize_item r.target_index v.1)
    ∷ at (text "lod") refl (usize_item r.lod v.2)
    ∷ []

abbrev pub focus_item : (r : WorldRouteFocus) → IsFocus r → Item 1
focus_item r v = record {
  written = object (fields_of (focus_fields r v));
  means = JsonValue.object (members_onto no_members (focus_fields r v));
  reads = Reads-object (focus_fields r v);
}

pub record IsRoutes (m : Map WorldRouteFocus) : Type 0 where
  pub filled : is_filled m ≡ true
  pub sorted : IsSorted m
  pub valid : AllValid IsFocus focus_item m

abbrev pub routes_value : (m : Map WorldRouteFocus) → IsRoutes m → JsonValue
routes_value m v = JsonValue.object (members_onto no_members (fields IsFocus focus_item m v.valid))

writes_focus : (r : WorldRouteFocus) (v : IsFocus r) → (focus_item r v).written ≡ encode_focus r
unfolding encode_focus
writes_focus r v = refl

pub Reads-routes :
    (m : Map WorldRouteFocus) (v : IsRoutes m)
    → Reads 2 (encode_world_route_map m) (routes_value m v)
unfolding encode_world_route_map
Reads-routes m v = Reads-map IsFocus focus_item encode_focus writes_focus m v.valid

abbrev pub IsAction : WallpaperAction → Type 0
IsAction (WallpaperAction.replace i) = i ≤ usize_max
IsAction (WallpaperAction.quarantine i) = i ≤ usize_max
IsAction (WallpaperAction.favorite i) = i ≤ usize_max
IsAction (WallpaperAction.unfavorite i) = i ≤ usize_max
IsAction action = Unit {0}

abbrev pub indexed_item : (name : Text) → all_scalar name ≡ true → (i : ℕ) → i ≤ usize_max → Item 2
indexed_item name h i l =
    let fs : List (Field 1) =
      at (text "type") refl (string_item name (all_scalar-IsScalars name h))
      ∷ at (text "index") refl (usize_item i l)
      ∷ [] in
    record {
      written = object (fields_of fs);
      means = JsonValue.object (members_onto no_members fs);
      reads = Reads-object fs;
    }

abbrev pub name_item : (name : Text) → all_scalar name ≡ true → Item 2
name_item name h = string_item name (all_scalar-IsScalars name h)

unfoldable pub action_item : (a : WallpaperAction) → IsAction a → Item 2
action_item (WallpaperAction.replace i) v = indexed_item (text "replace") refl i v
action_item (WallpaperAction.quarantine i) v = indexed_item (text "quarantine") refl i v
action_item (WallpaperAction.favorite i) v = indexed_item (text "favorite") refl i v
action_item (WallpaperAction.unfavorite i) v = indexed_item (text "unfavorite") refl i v
action_item WallpaperAction.next v = name_item (text "next") refl
action_item WallpaperAction.back v = name_item (text "back") refl
action_item WallpaperAction.shift_forward v = name_item (text "shift-forward") refl
action_item WallpaperAction.shift_back v = name_item (text "shift-back") refl
action_item WallpaperAction.favorites v = name_item (text "favorites") refl
action_item WallpaperAction.current v = name_item (text "current") refl
action_item WallpaperAction.rescan v = name_item (text "rescan") refl

pub written-action_item :
    (a : WallpaperAction) (v : IsAction a) → (action_item a v).written ≡ encode_wallpaper_action a
unfolding action_item encode_wallpaper_action as_str
written-action_item (WallpaperAction.replace i) v = refl
written-action_item (WallpaperAction.quarantine i) v = refl
written-action_item (WallpaperAction.favorite i) v = refl
written-action_item (WallpaperAction.unfavorite i) v = refl
written-action_item WallpaperAction.next v = refl
written-action_item WallpaperAction.back v = refl
written-action_item WallpaperAction.shift_forward v = refl
written-action_item WallpaperAction.shift_back v = refl
written-action_item WallpaperAction.favorites v = refl
written-action_item WallpaperAction.current v = refl
written-action_item WallpaperAction.rescan v = refl

abbrev pub IsCacheAction : CacheAction → Type 0
IsCacheAction (CacheAction.warm scope workers backend) = (1 ≤ workers) × (workers ≤ usize_max)
IsCacheAction action = Unit {0}

unfoldable pub action_fields : (a : CacheAction) → IsCacheAction a → List (Field 2)
action_fields CacheAction.status v = at (text "action") refl (name_item (text "status") refl) ∷ []
action_fields CacheAction.clear v = at (text "action") refl (name_item (text "clear") refl) ∷ []
action_fields (CacheAction.warm scope workers backend) v =
    at (text "action") refl (name_item (text "warm") refl)
    ∷ at (text "scope") refl (word_item scope)
    ∷ at (text "workers") refl (usize_item workers v.1)
    ∷ at (text "backend") refl (word_item backend)
    ∷ []

module _ (f : Float32) where
  -- What the reader accepts, and numbers within the types of their fields.
  pub record IsSetRequest (r : SetRequest) : Type 0 where
    pub outputs : IsOutputs r.outputs
    pub transition : IsTransition f r.transition

  pub record IsCanvasSet (r : RenderCanvasSetRequest) : Type 0 where
    pub outputs : IsOutputs r.outputs
    pub transition : IsTransition f r.transition
    pub paths : All IsScalars r.preview_paths
    pub start : r.preview_start ≤ usize_max

  pub record IsWorldSet (r : RenderWorldSetRequest) : Type 0 where
    pub outputs : IsOutputs r.outputs
    pub transition : IsTransition f r.transition
    pub library : r.library_count ≤ usize_max
    pub columns : r.columns ≤ usize_max
    pub fingerprint : r.fingerprint ≤ usize_max
    pub edge : r.thumbnail_edge ≤ u32_max
    pub cells : r.tile_cells ≤ usize_max
    pub routes : IsRoutes r.routes

  abbrev pub IsNullableTransition : Option Transition → Type 0
  IsNullableTransition none = Unit {0}
  IsNullableTransition (some t) = IsTransition f t

  abbrev pub IsRequest : Request → Type 0
  IsRequest (Request.set r) = IsSetRequest r
  IsRequest (Request.preload r) = IsOutputs r.outputs
  IsRequest (Request.clear r) = All IsScalars r.outputs × IsScalars r.color
  IsRequest (Request.wallpaper r) = IsAction r.action × IsNullableTransition r.transition
  IsRequest (Request.cache r) = IsCacheAction r.action
  IsRequest (Request.render_canvas_set r) = IsCanvasSet r
  IsRequest (Request.render_world_set r) = IsWorldSet r
  IsRequest r = Unit {0}

  abbrev pub outputs_field : (m : Map Text) → IsOutputs m → Field 2
  outputs_field m v = at (text "outputs") refl (record {
    written = encode_string_map m;
    means = outputs_value m v;
    reads = Reads-outputs m v;
  })

  abbrev pub transition_item : (t : Transition) → IsTransition f t → Item 2
  transition_item t v =
      deep (encode_transition f t) (transition_value f t v) (Reads-encode_transition f t v)
        (omega arith)

  unfoldable pub nullable_item : (t : Option Transition) → IsNullableTransition t → Item 2
  nullable_item none v = null_item
  nullable_item (some t) v = transition_item t v
