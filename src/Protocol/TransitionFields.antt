-- ===== src/Protocol/TransitionFields.antt =====
-- What is written of a transition, field by field, and the value that it is read as.
use mural.Prelude.{ℕ, ◌≤◌, ◌≡◌, refl, true, none, some, List, [], ◌∷◌, Text, text, arith, usize_max}
use mural.Exec.{ok}
use mural.Json.Value.{JsonValue, no_members}
use mural.Json.Writer.{object}
use mural.Json.Reads.{Reads, Decimal, Reads-Decimal}
use mural.Json.Arrays.{Item}
use mural.Json.Objects.{Field, fields_of, members_onto, Reads-object}
use mural.Protocol.Words.General.{easing_word, push_direction_word, push_mode_word}
use mural.Protocol.Words.Canvas.{canvas_pan_axis_word, canvas_walk_word, canvas_mode_word}
use mural.Protocol.Messages.{Transition, CanvasTransition, CanvasTileCount}
use mural.Protocol.Float.{Float32, format_overview_scale, validate_canvas_overview_scale}
use mural.Protocol.Transitions.{validate_positive_milliseconds, validate_canvas_mode_walk}
use mural.Protocol.Writer.{encode_transition, tile_count_fields}
use mural.Protocol.Items.{all_scalar, all_scalar-IsScalars, at, string_item, word_item, usize_item}

-- A number of milliseconds that the protocol accepts.
abbrev pub IsTime : ℕ → Type 0
IsTime n = (1 ≤ n) × (n ≤ usize_max)

abbrev pub IsTileCount : CanvasTileCount → Type 0
IsTileCount (CanvasTileCount.auto none) = Unit {0}
IsTileCount (CanvasTileCount.auto (some n)) = (1 ≤ n) × (n ≤ 256)
IsTileCount (CanvasTileCount.fixed n) = (1 ≤ n) × (n ≤ 256)

pub positive : (n : ℕ) (name : Text) → IsTime n → validate_positive_milliseconds n name ≡ ok tt
unfolding validate_positive_milliseconds
positive n name h = ground arith

abbrev kind_field : {d : ℕ} (kind : Text) → all_scalar kind ≡ true → Field d
kind_field kind h = at (text "type") refl (string_item kind (all_scalar-IsScalars kind h))

abbrev time_field : {d : ℕ} (key : Text) → all_scalar key ≡ true → (n : ℕ) → IsTime n → Field d
time_field key h n t = at key h (usize_item n t.1)

unfoldable pub tile_fields : (c : CanvasTileCount) → IsTileCount c → List (Field 0)
tile_fields (CanvasTileCount.auto none) v =
    at (text "tile_count") refl
      (string_item (text "auto") (all_scalar-IsScalars (text "auto") refl))
    ∷ []
tile_fields (CanvasTileCount.auto (some n)) v =
    at (text "tile_count") refl
      (string_item (text "auto") (all_scalar-IsScalars (text "auto") refl))
    ∷ at (text "max_tile_count") refl (usize_item n (omega arith))
    ∷ []
tile_fields (CanvasTileCount.fixed n) v =
    at (text "tile_count") refl (usize_item n (omega arith)) ∷ []

fields_of-tile_fields :
    (c : CanvasTileCount) (v : IsTileCount c) → fields_of (tile_fields c v) ≡ tile_count_fields c
unfolding tile_fields tile_count_fields
fields_of-tile_fields (CanvasTileCount.auto none) v = refl
fields_of-tile_fields (CanvasTileCount.auto (some n)) v = refl
fields_of-tile_fields (CanvasTileCount.fixed n) v = refl

module _ (f : Float32) where
  -- The scale is written with six digits at most, and read back from these only if they give it.
  pub record IsCanvas (c : CanvasTransition) : Type 0 where
    pub zoom_out : IsTime c.zoom_out_ms
    pub pan : IsTime c.pan_ms
    pub zoom_in : IsTime c.zoom_in_ms
    pub layout : validate_canvas_mode_walk c.mode c.walk ≡ ok tt
    pub scale : validate_canvas_overview_scale c.overview_scale ≡ ok tt
    pub decimal : Decimal (format_overview_scale f c.overview_scale)
    pub exact : f.read (format_overview_scale f c.overview_scale) ≡ some c.overview_scale
    pub tiles : IsTileCount c.tile_count

  -- Valid, and with a scale that the reader gets back.
  abbrev pub IsTransition : Transition → Type 0
  IsTransition Transition.cut = Unit {0}
  IsTransition (Transition.fade duration easing) = IsTime duration
  IsTransition (Transition.world duration easing) = IsTime duration
  IsTransition (Transition.push direction duration easing mode) = IsTime duration
  IsTransition (Transition.canvas c) = IsCanvas c

  abbrev scale_item : (c : CanvasTransition) → IsCanvas c → Item 0
  scale_item c v = record {
    written = format_overview_scale f c.overview_scale;
    means = JsonValue.number (format_overview_scale f c.overview_scale);
    reads = Reads-Decimal 0 (format_overview_scale f c.overview_scale) v.decimal;
  }

  unfoldable pub canvas_fields :
      (c : CanvasTransition) → IsCanvas c → (t : CanvasTileCount) → IsTileCount t → List (Field 0)
  canvas_fields c v t w =
      kind_field (text "canvas") refl
      ∷ time_field (text "zoom_out_ms") refl c.zoom_out_ms v.zoom_out
      ∷ time_field (text "pan_ms") refl c.pan_ms v.pan
      ∷ time_field (text "zoom_in_ms") refl c.zoom_in_ms v.zoom_in
      ∷ at (text "easing") refl (word_item c.easing)
      ∷ at (text "mode") refl (word_item c.mode)
      ∷ at (text "walk") refl (word_item c.walk)
      ∷ at (text "pan_axis") refl (word_item c.pan_axis)
      ∷ at (text "overview_scale") refl (scale_item c v)
      ∷ tile_fields t w

  unfoldable pub transition_fields : (t : Transition) → IsTransition t → List (Field 0)
  unfolding canvas_fields
  transition_fields Transition.cut v = kind_field (text "cut") refl ∷ []
  transition_fields (Transition.fade duration easing) v =
      kind_field (text "fade") refl
      ∷ time_field (text "duration_ms") refl duration v
      ∷ at (text "easing") refl (word_item easing)
      ∷ []
  transition_fields (Transition.world duration easing) v =
      kind_field (text "world") refl
      ∷ time_field (text "duration_ms") refl duration v
      ∷ at (text "easing") refl (word_item easing)
      ∷ []
  transition_fields (Transition.push direction duration easing mode) v =
      kind_field (text "push") refl
      ∷ at (text "direction") refl (word_item direction)
      ∷ time_field (text "duration_ms") refl duration v
      ∷ at (text "easing") refl (word_item easing)
      ∷ at (text "mode") refl (word_item mode)
      ∷ []
  transition_fields (Transition.canvas c) v = canvas_fields c v c.tile_count v.tiles

  abbrev pub transition_value : (t : Transition) → IsTransition t → JsonValue
  transition_value t v = JsonValue.object (members_onto no_members (transition_fields t v))

  fields_of-transition_fields :
      (t : Transition) (v : IsTransition t)
      → object (fields_of (transition_fields t v)) ≡ encode_transition f t
  unfolding transition_fields encode_transition
  fields_of-transition_fields Transition.cut v = refl
  fields_of-transition_fields (Transition.fade duration easing) v = refl
  fields_of-transition_fields (Transition.world duration easing) v = refl
  fields_of-transition_fields (Transition.push direction duration easing mode) v = refl
  fields_of-transition_fields (Transition.canvas c) v =
      rw (fields_of-tile_fields c.tile_count v.tiles) refl

  pub Reads-encode_transition :
      (t : Transition) (v : IsTransition t) → Reads 1 (encode_transition f t) (transition_value t v)
  Reads-encode_transition t v =
      rw (← fields_of-transition_fields t v) (Reads-object (transition_fields t v))
