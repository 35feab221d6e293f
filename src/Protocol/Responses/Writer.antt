-- ===== src/Protocol/Responses/Writer.antt =====
-- `Response::to_json` and the encoders that it uses.
use mural.Prelude.{
  ℕ, ◌+◌, ◌/◌, ◌%◌, ◌^◌, Option, none, some, List, [], ◌∷◌, ◌++◌, map, Text, text, ◌==◌,
  if◌then◌else◌,
}
use mural.Decimal.{print_usize}
use mural.Json.Writer.{json_string, object, bracketed, encode_string_array, encode_bool}
use mural.Wallpaper.Change.{WallpaperEntry}
use mural.Protocol.Words.General.{scale_mode_word}
use mural.Protocol.Float.{Float32, trim_zeros}
use mural.Protocol.Registry.{
  TransitionClass, immediate, pairwise, scene, TransitionParameterType, TransitionParameterDefault,
  TransitionParameterDescriptor,
}
use mural.Protocol.Writer.{word, encode_transition}
use mural.Protocol.Responses.{
  ℤ, pos, negsuc, TransitionState, OutputState, HealthOutput, DaemonMode, supervisor, standalone,
  TransitionCapability, Response,
}

unfoldable pub print_i32 : ℤ → Text
print_i32 (pos n) = print_usize n
print_i32 (negsuc n) = b'-' ∷ print_usize (n + 1)

unfoldable pub encode_optional_u32 : Option ℕ → Text
encode_optional_u32 none = text "null"
encode_optional_u32 (some n) = print_usize n

unfoldable pub encode_optional_string : Option Text → Text
encode_optional_string none = text "null"
encode_optional_string (some s) = json_string s

unfoldable pub encode_wallpaper_entry : WallpaperEntry → Text
encode_wallpaper_entry entry = object (
    (text "index", print_usize entry.index)
    ∷ (text "output", json_string entry.output)
    ∷ (text "favorite", encode_bool entry.favorite)
    ∷ (text "path", json_string entry.path)
    ∷ [])

unfoldable pub encode_wallpaper_entries : List WallpaperEntry → Text
encode_wallpaper_entries entries = bracketed (map encode_wallpaper_entry entries)

class_text : TransitionClass → Text
class_text immediate = text "immediate"
class_text pairwise = text "pairwise"
class_text scene = text "scene"

type_text : TransitionParameterType → Text
type_text TransitionParameterType.integer = text "integer"
type_text TransitionParameterType.number = text "number"
type_text TransitionParameterType.enum = text "enum"
type_text TransitionParameterType.integer_or_enum = text "integer-or-enum"

mode_text : DaemonMode → Text
mode_text supervisor = text "supervisor"
mode_text standalone = text "standalone"

-- The fraction of a number in millionths has no zeros at its end.
drop_one : Text → Text
drop_one [] = []
drop_one (c ∷ s) = s

print_millionths : ℕ → Text
unfolding drop_one trim_zeros
print_millionths n =
    if n % 10 ^ 6 == 0
    then print_usize (n / 10 ^ 6)
    else trim_zeros
        (print_usize (n / 10 ^ 6) ++ (b'.' ∷ drop_one (print_usize (10 ^ 6 + n % 10 ^ 6))))

encode_parameter_value : Option TransitionParameterDefault → Text
unfolding print_millionths
encode_parameter_value none = text "null"
encode_parameter_value (some (TransitionParameterDefault.integer n)) = print_usize n
encode_parameter_value (some (TransitionParameterDefault.millionths n)) = print_millionths n
encode_parameter_value (some (TransitionParameterDefault.string s)) = json_string s

encode_parameter : TransitionParameterDescriptor → Text
unfolding type_text encode_parameter_value encode_optional_string
encode_parameter p = object (
    (text "name", json_string p.name)
    ∷ (text "type", json_string (type_text p.value_type))
    ∷ (text "allowed_values", encode_string_array p.allowed_values)
    ∷ (text "required", encode_bool p.required)
    ∷ (text "default", encode_parameter_value p.default_value)
    ∷ (text "constraint", encode_optional_string p.constraint)
    ∷ [])

encode_capability : TransitionCapability → Text
unfolding class_text encode_parameter
encode_capability t = object (
    (text "name", json_string t.name)
    ∷ (text "class", json_string (class_text t.class))
    ∷ (
      text "scopes",
      object (
          (text "explicit_set", encode_bool t.scopes.explicit_set)
          ∷ (text "wallpaper_actions", encode_bool t.scopes.wallpaper_actions)
          ∷ []),
    )
    ∷ (text "experimental", encode_bool t.experimental)
    ∷ (text "requirements", encode_string_array t.requirements)
    ∷ (text "parameters", bracketed (map encode_parameter t.parameters))
    ∷ [])

unfoldable pub encode_transition_capabilities : List TransitionCapability → Text
unfolding encode_capability
encode_transition_capabilities transitions = bracketed (map encode_capability transitions)

module _ (f : Float32) where
  unfoldable pub encode_transition_state : TransitionState → Text
  encode_transition_state TransitionState.idle =
      object ((text "state", json_string (text "idle")) ∷ [])
  encode_transition_state (TransitionState.running t) = object (
      (text "state", json_string (text "running"))
      ∷ (text "transition", encode_transition f t)
      ∷ [])

  unfoldable pub encode_output : OutputState → Text
  encode_output o = object (
      (text "name", json_string o.name)
      ∷ (text "current_image", encode_optional_string o.current_image)
      ∷ (text "scale_mode", word o.scale_mode)
      ∷ (text "transition_state", encode_transition_state o.transition_state)
      ∷ (text "queue_depth", print_usize o.queue_depth)
      ∷ [])

  unfoldable pub encode_health_output : HealthOutput → Text
  encode_health_output o = object (
      (text "name", json_string o.name)
      ∷ (text "layout_x", print_i32 o.layout_x)
      ∷ (text "layout_y", print_i32 o.layout_y)
      ∷ (text "width", print_i32 o.width)
      ∷ (text "height", print_i32 o.height)
      ∷ (text "power_state", json_string o.power_state)
      ∷ (text "render_state", json_string o.render_state)
      ∷ (text "restore_pending", encode_bool o.restore_pending)
      ∷ (text "current_image", encode_optional_string o.current_image)
      ∷ (text "transition_target_image", encode_optional_string o.transition_target_image)
      ∷ (text "scale_mode", word o.scale_mode)
      ∷ (text "transition_state", encode_transition_state o.transition_state)
      ∷ (text "queue_depth", print_usize o.queue_depth)
      ∷ (text "frame_callback_pending", encode_bool o.frame_callback_pending)
      ∷ (text "render_pending", encode_bool o.render_pending)
      ∷ [])

  abbrev succeeded : Text → List (Text × Text) → List (Text × Text)
  succeeded kind fields =
      (text "status", json_string (text "ok")) ∷ (text "type", json_string kind) ∷ fields

  unfoldable pub response_to_json : Response → Text
  unfolding mode_text
  response_to_json (Response.pong version) =
      object (succeeded (text "pong") ((text "version", print_usize version) ∷ []))
  response_to_json (Response.capabilities c) = object (
      succeeded (text "capabilities") (
        (text "schema_version", print_usize c.schema_version)
        ∷ (text "protocol_version", print_usize c.protocol_version)
        ∷ (text "daemon_mode", json_string (mode_text c.daemon_mode))
        ∷ (text "transitions", encode_transition_capabilities c.transitions)
        ∷ []))
  response_to_json (Response.ack message) =
      object (succeeded (text "ack") ((text "message", json_string message) ∷ []))
  response_to_json (Response.health h) = object (
      succeeded (text "health") (
        (text "role", json_string h.role)
        ∷ (text "supervisor_pid", encode_optional_u32 h.supervisor_pid)
        ∷ (text "renderer_pid", encode_optional_u32 h.renderer_pid)
        ∷ (text "renderer_generation", print_usize h.renderer_generation)
        ∷ (text "renderer_state", json_string h.renderer_state)
        ∷ (text "restart_count", print_usize h.restart_count)
        ∷ (text "last_error", encode_optional_string h.last_error)
        ∷ (text "last_diagnostic", encode_optional_string h.last_diagnostic)
        ∷ (text "outputs", bracketed (map encode_health_output h.outputs))
        ∷ []))
  response_to_json (Response.query q) =
      object
        (succeeded (text "query") ((text "outputs", bracketed (map encode_output q.outputs)) ∷ []))
  response_to_json (Response.wallpaper w) = object (
      succeeded (text "wallpaper") (
        (text "action", json_string w.action)
        ∷ (text "message", json_string w.message)
        ∷ (text "entries", encode_wallpaper_entries w.entries)
        ∷ (text "favorites", encode_string_array w.favorites)
        ∷ []))
  response_to_json (Response.cache c) = object (
      succeeded (text "cache") (
        (text "action", json_string c.action)
        ∷ (text "message", json_string c.message)
        ∷ (text "ready", print_usize c.ready)
        ∷ (text "pending", print_usize c.pending)
        ∷ (text "scheduled", print_usize c.scheduled)
        ∷ (text "failed", print_usize c.failed)
        ∷ (text "backend", json_string c.backend)
        ∷ []))
  response_to_json (Response.error message) =
      object
        ((text "status", json_string (text "error")) ∷ (text "message", json_string message) ∷ [])
