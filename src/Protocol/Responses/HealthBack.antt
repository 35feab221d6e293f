-- ===== src/Protocol/Responses/HealthBack.antt =====
-- What `to_json` writes of a health response, `parse_health_response` reads back.
use mural.Prelude.{
  ℕ, suc, ◌+◌, ◌-◌, ◌^◌, ◌≤◌, ◌≡◌, ◌==◌, ◌∙◌, refl, ap, sym, false, Option, none, some, List, [],
  ◌∷◌, Text, text, text_eq, All, arith, usize_max,
}
use mural.Path.{text_lt}
use mural.Exec.{ok}
use mural.Decimal.{print_usize, parse_uint, after_plus, some_digits}
use mural.Decimal.Back.{print_usize-Digits}
use mural.Json.Utf8.{utf8}
use mural.Json.Value.{JsonValue, Members, no_members, insert}
use mural.Json.Reads.{parse_json-Reads}
use mural.Json.Arrays.{values_of}
use mural.Json.Objects.{members_onto}
use mural.Protocol.Words.General.{fill, scale_mode_word}
use mural.Protocol.Float.{Float32}
use mural.Protocol.TransitionBack.{parse-transition_value}
use mural.Protocol.Fields.{
  as_object, as_string, get, collect, optional_u32, as_u32, is_fractional, u32_max,
}
use mural.Protocol.Items.{
  IsScalars, usize_at, u32_at, string_at, required_at, bool_at, word_at, digits-plain,
}
use mural.Protocol.Responses.{
  ℤ, pos, negsuc, TransitionState, HealthOutput, HealthResponse, Response,
}
use mural.Protocol.Responses.Writer.{print_i32, response_to_json}
use mural.Protocol.Responses.Parsers.{
  check_status, check_type, array_or_empty, nullable, optional_nullable_string, parse_i32, as_i32,
  optional_i32, transition_state_of, parse_health_output, health_response_of, parse_health_response,
}
use mural.Protocol.Responses.HealthItems.{
  IsI32, OptionIs, optional_string_item, optional_u32_item, IsState, state_fields, state_item,
  IsHealthOutput, output_fields, output_items, IsHealth, health_fields, Reads-health,
}

some_digits-print_usize :
    (max n : ℕ) → n ≤ max → n ≤ usize_max → some_digits max (print_usize n) ≡ some n
unfolding parse_uint after_plus
some_digits-print_usize max n h k =
    let x = print_usize-Digits n k in
    let plus : (x.first == b'+') ≡ false = ground (arith, x.digits.0) in
    let whole : after_plus (x.first ∷ x.others) ≡ x.first ∷ x.others = rw plus refl in
    rw x.written (ap (some_digits max) (sym whole) ∙ x.read max h)

minus-plain : (n : ℕ) → n ≤ usize_max → is_fractional (b'-' ∷ print_usize n) ≡ false
unfolding is_fractional
minus-plain n h =
    let x = print_usize-Digits n h in rw x.written (digits-plain (x.first ∷ x.others) x.digits)

as_i32-print_i32 :
    (key : Text) (z : ℤ) → IsI32 z → as_i32 key (JsonValue.number (print_i32 z)) ≡ ok z
unfolding as_i32 parse_i32 print_i32
as_i32-print_i32 key (pos n) h =
    let x = print_usize-Digits n (omega arith) in
    let sign : (x.first == b'-') ≡ false = ground (arith, x.digits.0) in
    rw (x.written, digits-plain (x.first ∷ x.others) x.digits, sign, x.read (2 ^ 31 - 1) h) refl
as_i32-print_i32 key (negsuc n) h =
    let one : n + 1 ≡ suc n = omega arith in
    rw
      (
        minus-plain (n + 1) (omega arith),
        some_digits-print_usize (2 ^ 31) (n + 1) (omega arith) (omega arith),
        one,
      )
      refl

module _ (m : Members) (key : Text) where
  i32_at :
      (z : ℤ)
      → IsI32 z
      → get m key ≡ some (JsonValue.number (print_i32 z))
      → optional_i32 m key ≡ ok (some z)
  unfolding optional_i32
  i32_at z h e = rw (e, as_i32-print_i32 key z h) refl

  nullable_at :
      (d : ℕ) (o : Option Text) (h : OptionIs IsScalars o)
      → get m key ≡ some (optional_string_item {d = d} o h).means
      → optional_nullable_string m key ≡ ok o
  unfolding optional_nullable_string nullable optional_string_item as_string
  nullable_at d none h e = rw e refl
  nullable_at d (some s) h e = rw e refl

  pid_at :
      (d : ℕ) (o : Option ℕ) (h : OptionIs (λ n. n ≤ u32_max) o)
      → get m key ≡ some (optional_u32_item {d = d} o h).means
      → optional_u32 m key ≡ ok o
  unfolding optional_u32 optional_u32_item as_u32
  pid_at d none h e = rw (e, optional_u32) refl
  pid_at d (some n) h e = u32_at m key n h e

module _ (f : Float32) where
  state-back :
      (s : TransitionState) (v : IsState f s)
      → transition_state_of f (some (state_item f s v).means) ≡ ok s
  unfolding transition_state_of state_fields as_object insert get text_eq text_lt
  state-back TransitionState.idle v =
      rw
        (required_at (members_onto no_members (state_fields f TransitionState.idle v))
          (text "state") (text "idle") refl)
        refl
  state-back (TransitionState.running t) v =
      rw
        (
          required_at (members_onto no_members (state_fields f (TransitionState.running t) v))
              (text "state") (text "running") refl,
          parse-transition_value f t v,
        )
        refl

  output-back :
      (o : HealthOutput) (v : IsHealthOutput f o)
      → parse_health_output f (JsonValue.object (members_onto no_members (output_fields f o v)))
        ≡ ok o
  unfolding parse_health_output as_object insert get text_eq text_lt
  output-back o v =
      let m = members_onto no_members (output_fields f o v) in
      rw
        (
          required_at m (text "name") o.name refl,
          i32_at m (text "layout_x") o.layout_x v.layout_x refl,
          i32_at m (text "layout_y") o.layout_y v.layout_y refl,
          i32_at m (text "width") o.width v.width refl,
          i32_at m (text "height") o.height v.height refl,
          string_at m (text "power_state") o.power_state refl,
          string_at m (text "render_state") o.render_state refl,
          bool_at m (text "restore_pending") o.restore_pending refl,
          nullable_at m (text "current_image") 2 o.current_image v.current_image refl,
          nullable_at m (text "transition_target_image") 2 o.transition_target_image v.target_image
              refl,
          word_at m (text "scale_mode") o.scale_mode fill refl,
          state-back o.transition_state v.state,
          usize_at m (text "queue_depth") o.queue_depth v.depth refl,
          bool_at m (text "frame_callback_pending") o.frame_callback_pending refl,
          bool_at m (text "render_pending") o.render_pending refl,
        )
        refl

  collect-outputs :
      (os : List HealthOutput) (v : All (IsHealthOutput f) os)
      → collect (parse_health_output f) (values_of (output_items f os v)) ≡ ok os
  unfolding collect
  collect-outputs [] v = refl
  collect-outputs (o ∷ os) v = rw (output-back o v.0, collect-outputs os v.1) refl

  health_response_of-fields :
      (h : HealthResponse) (v : IsHealth f h)
      → health_response_of f (members_onto no_members (health_fields f h v)) ≡ ok h
  unfolding health_response_of check_status check_type array_or_empty insert get text_eq text_lt
  health_response_of-fields h v =
      let m = members_onto no_members (health_fields f h v) in
      rw
        (
          required_at m (text "status") (text "ok") refl,
          required_at m (text "type") (text "health") refl,
          collect-outputs h.outputs v.outputs,
          required_at m (text "role") h.role refl,
          pid_at m (text "supervisor_pid") 4 h.supervisor_pid v.supervisor_pid refl,
          pid_at m (text "renderer_pid") 4 h.renderer_pid v.renderer_pid refl,
          usize_at m (text "renderer_generation") h.renderer_generation v.renderer_generation refl,
          string_at m (text "renderer_state") h.renderer_state refl,
          usize_at m (text "restart_count") h.restart_count v.restart_count refl,
          nullable_at m (text "last_error") 4 h.last_error v.last_error refl,
          nullable_at m (text "last_diagnostic") 4 h.last_diagnostic v.last_diagnostic refl,
        )
        refl

  -- A health response is read back if its texts are Unicode scalar values, its numbers fit their
  -- types, negative positions included, and the transitions its outputs run are valid:
  -- parse_health_response of what to_json writes returns it. The scale of a canvas that runs is
  -- assumed to be written as a decimal that is read back to the same scale.
  pub parse_health_response-response_to_json :
      (h : HealthResponse) (v : IsHealth f h)
      → parse_health_response f (utf8 (response_to_json f (Response.health h))) ≡ ok h
  unfolding parse_health_response as_object
  parse_health_response-response_to_json h v =
      let o = JsonValue.object (members_onto no_members (health_fields f h v)) in
      rw
        (
          parse_json-Reads (response_to_json f (Response.health h)) o (Reads-health f h v)
              (omega arith),
          health_response_of-fields h v,
        )
        refl
