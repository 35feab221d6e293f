-- ===== src/Protocol/Responses/HealthItems.antt =====
-- The fields of a health response, as `to_json` writes them.
use mural.Prelude.{
  ℕ, ◌+◌, ◌-◌, ◌^◌, ◌≤◌, ◌≡◌, refl, true, Option, none, some, List, [], ◌∷◌, map, Text, text,
  usize_max, All, arith,
}
use mural.Json.Value.{JsonValue, no_members}
use mural.Json.Writer.{object, bracketed}
use mural.Json.Reads.{Reads, Reads-negative}
use mural.Json.Arrays.{Item, written, values_of, Reads-array}
use mural.Json.Objects.{Field, fields_of, members_onto, Reads-object}
use mural.Protocol.Words.General.{scale_mode_word}
use mural.Protocol.Fields.{u32_max}
use mural.Protocol.Items.{
  IsScalars, all_scalar, all_scalar-IsScalars, at, string_item, usize_item, bool_item, null_item,
  word_item,
}
use mural.Protocol.Float.{Float32}
use mural.Protocol.TransitionFields.{IsTransition, transition_value, Reads-encode_transition}
use mural.Protocol.Writer.{encode_transition}
use mural.Protocol.Responses.{
  ℤ, pos, negsuc, TransitionState, HealthOutput, HealthResponse, Response,
}
use mural.Protocol.Responses.Writer.{
  print_i32, encode_optional_u32, encode_optional_string, encode_transition_state,
  encode_health_output, response_to_json,
}

abbrev pub IsI32 : ℤ → Type 0
IsI32 (pos n) = n ≤ 2 ^ 31 - 1
IsI32 (negsuc n) = n ≤ 2 ^ 31 - 1

pub Reads-print_i32 :
    (d : ℕ) (z : ℤ) → IsI32 z → Reads d (print_i32 z) (JsonValue.number (print_i32 z))
unfolding print_i32
Reads-print_i32 d (pos n) h = (usize_item {d = d} n (omega arith)).reads
Reads-print_i32 d (negsuc n) h = Reads-negative d (n + 1) (omega arith)

abbrev pub i32_item : {d : ℕ} (z : ℤ) → IsI32 z → Item d
i32_item {d} z h = record {
  written = print_i32 z;
  means = JsonValue.number (print_i32 z);
  reads = Reads-print_i32 d z h;
}

abbrev pub OptionIs : {A : Type 0} → (A → Type 0) → Option A → Type 0
OptionIs P none = Unit {0}
OptionIs P (some a) = P a

unfoldable pub optional_string_item : {d : ℕ} (o : Option Text) → OptionIs IsScalars o → Item d
optional_string_item none h = null_item
optional_string_item (some s) h = string_item s h

written-optional_string_item :
    (d : ℕ) (o : Option Text) (h : OptionIs IsScalars o)
    → (optional_string_item {d = d} o h).written ≡ encode_optional_string o
unfolding optional_string_item encode_optional_string
written-optional_string_item d none h = refl
written-optional_string_item d (some s) h = refl

unfoldable pub optional_u32_item : {d : ℕ} (o : Option ℕ) → OptionIs (λ n. n ≤ u32_max) o → Item d
optional_u32_item none h = null_item
optional_u32_item (some n) h = usize_item n (omega (arith, h))

written-optional_u32_item :
    (d : ℕ) (o : Option ℕ) (h : OptionIs (λ n. n ≤ u32_max) o)
    → (optional_u32_item {d = d} o h).written ≡ encode_optional_u32 o
unfolding optional_u32_item encode_optional_u32
written-optional_u32_item d none h = refl
written-optional_u32_item d (some n) h = refl

abbrev pub literal_field :
    {d : ℕ} (key value : Text) → all_scalar key ≡ true → all_scalar value ≡ true → Field d
literal_field key value k v = at key k (string_item value (all_scalar-IsScalars value v))

module _ (f : Float32) where
  abbrev pub IsState : TransitionState → Type 0
  IsState TransitionState.idle = Unit {0}
  IsState (TransitionState.running t) = IsTransition f t

  unfoldable pub state_fields : (s : TransitionState) → IsState s → List (Field 1)
  state_fields TransitionState.idle v = literal_field (text "state") (text "idle") refl refl ∷ []
  state_fields (TransitionState.running t) v =
      literal_field (text "state") (text "running") refl refl
      ∷ at (text "transition") refl (record {
        written = encode_transition f t;
        means = transition_value f t v;
        reads = Reads-encode_transition f t v;
      })
      ∷ []

  fields_of-state_fields :
      (s : TransitionState) (v : IsState s)
      → object (fields_of (state_fields s v)) ≡ encode_transition_state f s
  unfolding state_fields encode_transition_state
  fields_of-state_fields TransitionState.idle v = refl
  fields_of-state_fields (TransitionState.running t) v = refl

  abbrev pub state_item : (s : TransitionState) → IsState s → Item 2
  state_item s v = record {
    written = object (fields_of (state_fields s v));
    means = JsonValue.object (members_onto no_members (state_fields s v));
    reads = Reads-object (state_fields s v);
  }

  pub record IsHealthOutput (o : HealthOutput) : Type 0 where
    pub name : IsScalars o.name
    pub layout_x : IsI32 o.layout_x
    pub layout_y : IsI32 o.layout_y
    pub width : IsI32 o.width
    pub height : IsI32 o.height
    pub power_state : IsScalars o.power_state
    pub render_state : IsScalars o.render_state
    pub current_image : OptionIs IsScalars o.current_image
    pub target_image : OptionIs IsScalars o.transition_target_image
    pub state : IsState o.transition_state
    pub depth : o.queue_depth ≤ usize_max

  abbrev pub output_fields : (o : HealthOutput) → IsHealthOutput o → List (Field 2)
  output_fields o v =
      at (text "name") refl (string_item o.name v.name)
      ∷ at (text "layout_x") refl (i32_item o.layout_x v.layout_x)
      ∷ at (text "layout_y") refl (i32_item o.layout_y v.layout_y)
      ∷ at (text "width") refl (i32_item o.width v.width)
      ∷ at (text "height") refl (i32_item o.height v.height)
      ∷ at (text "power_state") refl (string_item o.power_state v.power_state)
      ∷ at (text "render_state") refl (string_item o.render_state v.render_state)
      ∷ at (text "restore_pending") refl (bool_item o.restore_pending)
      ∷ at (text "current_image") refl (optional_string_item o.current_image v.current_image)
      ∷ at (text "transition_target_image") refl
          (optional_string_item o.transition_target_image v.target_image)
      ∷ at (text "scale_mode") refl (word_item o.scale_mode)
      ∷ at (text "transition_state") refl (state_item o.transition_state v.state)
      ∷ at (text "queue_depth") refl (usize_item o.queue_depth v.depth)
      ∷ at (text "frame_callback_pending") refl (bool_item o.frame_callback_pending)
      ∷ at (text "render_pending") refl (bool_item o.render_pending)
      ∷ []

  fields_of-output_fields :
      (o : HealthOutput) (v : IsHealthOutput o)
      → object (fields_of (output_fields o v)) ≡ encode_health_output f o
  unfolding encode_health_output
  fields_of-output_fields o v =
      rw
        (
          written-optional_string_item 2 o.current_image v.current_image,
          written-optional_string_item 2 o.transition_target_image v.target_image,
          fields_of-state_fields o.transition_state v.state,
        )
        refl

  abbrev pub output_items : (os : List HealthOutput) → All IsHealthOutput os → List (Item 3)
  output_items [] v = []
  output_items (o ∷ os) v =
      record {
        written = object (fields_of (output_fields o v.0));
        means = JsonValue.object (members_onto no_members (output_fields o v.0));
        reads = Reads-object (output_fields o v.0);
      }
      ∷ output_items os v.1

  written-output_items :
      (os : List HealthOutput) (v : All IsHealthOutput os)
      → written (output_items os v) ≡ map (encode_health_output f) os
  written-output_items [] v = refl
  written-output_items (o ∷ os) v =
      rw (fields_of-output_fields o v.0, written-output_items os v.1) refl

  -- Texts are Unicode scalar values, numbers fit their types, and transitions are read back.
  pub record IsHealth (h : HealthResponse) : Type 0 where
    pub role : IsScalars h.role
    pub supervisor_pid : OptionIs (λ n. n ≤ u32_max) h.supervisor_pid
    pub renderer_pid : OptionIs (λ n. n ≤ u32_max) h.renderer_pid
    pub renderer_generation : h.renderer_generation ≤ usize_max
    pub renderer_state : IsScalars h.renderer_state
    pub restart_count : h.restart_count ≤ usize_max
    pub last_error : OptionIs IsScalars h.last_error
    pub last_diagnostic : OptionIs IsScalars h.last_diagnostic
    pub outputs : All IsHealthOutput h.outputs

  abbrev pub outputs_item : (os : List HealthOutput) → All IsHealthOutput os → Item 4
  outputs_item os v = record {
    written = bracketed (written (output_items os v));
    means = JsonValue.array (values_of (output_items os v));
    reads = Reads-array (output_items os v);
  }

  abbrev pub health_fields : (h : HealthResponse) → IsHealth h → List (Field 4)
  health_fields h v =
      literal_field (text "status") (text "ok") refl refl
      ∷ literal_field (text "type") (text "health") refl refl
      ∷ at (text "role") refl (string_item h.role v.role)
      ∷ at (text "supervisor_pid") refl (optional_u32_item h.supervisor_pid v.supervisor_pid)
      ∷ at (text "renderer_pid") refl (optional_u32_item h.renderer_pid v.renderer_pid)
      ∷ at (text "renderer_generation") refl
          (usize_item h.renderer_generation v.renderer_generation)
      ∷ at (text "renderer_state") refl (string_item h.renderer_state v.renderer_state)
      ∷ at (text "restart_count") refl (usize_item h.restart_count v.restart_count)
      ∷ at (text "last_error") refl (optional_string_item h.last_error v.last_error)
      ∷ at (text "last_diagnostic") refl (optional_string_item h.last_diagnostic v.last_diagnostic)
      ∷ at (text "outputs") refl (outputs_item h.outputs v.outputs)
      ∷ []

  fields_of-health_fields :
      (h : HealthResponse) (v : IsHealth h)
      → object (fields_of (health_fields h v)) ≡ response_to_json f (Response.health h)
  unfolding response_to_json
  fields_of-health_fields h v =
      rw
        (
          written-optional_u32_item 4 h.supervisor_pid v.supervisor_pid,
          written-optional_u32_item 4 h.renderer_pid v.renderer_pid,
          written-optional_string_item 4 h.last_error v.last_error,
          written-optional_string_item 4 h.last_diagnostic v.last_diagnostic,
          written-output_items h.outputs v.outputs,
        )
        refl

  pub Reads-health :
      (h : HealthResponse) (v : IsHealth h)
      → Reads 5
          (response_to_json f (Response.health h))
          (JsonValue.object (members_onto no_members (health_fields h v)))
  Reads-health h v = rw (← fields_of-health_fields h v) (Reads-object (health_fields h v))
