-- ===== src/Protocol/Responses/Parsers.antt =====
-- How crates/mural-ipc/src/lib.rs reads a response.
use mural.Prelude.{
  ℕ, zero, suc, ◌+◌, ◌-◌, ◌^◌, Bool, false, Option, none, some, List, [], ◌∷◌, ◌++◌, Text, text,
  text_eq, ◌==◌, if◌then◌else◌, length,
}
use mural.Exec.{Outcome, ok, err, running}
use mural.Results.{◌>>=◌, ◌>>◌, fail, refuse_if, ok_or}
use mural.Decimal.{parse_uint, some_digits}
use mural.Json.Value.{JsonValue, Members, parse_json}
use mural.Wallpaper.Change.{WallpaperEntry, WallpaperResponse}
use mural.Protocol.Words.General.{fill, scale_mode_word}
use mural.Protocol.Float.{Float32}
use mural.Protocol.Fields.{
  as_object, as_string, get, missing, field, optional, required_string, optional_string,
  optional_bool, optional_usize, optional_u32, required, or_default, word_or, collect,
  is_fractional,
}
use mural.Protocol.Transitions.{parse_transition}
use mural.Protocol.Responses.{ℤ, pos, negsuc, TransitionState, HealthOutput, HealthResponse}

-- `.ok().and_then(|json| json.into_object().ok())`, then `f`.
abbrev pub from_object : {A : Type 0} → A → (Members → A) → Outcome Members → A
from_object a f (ok m) = f m
from_object a f (err e) = a
from_object a f running = a

unfoldable pub string_of : Option JsonValue → Option Text
string_of (some (JsonValue.string s)) = some s
string_of v = none

unfoldable pub is_error_status : Option Text → Bool
is_error_status none = false
is_error_status (some status) = text_eq status (text "error")

unfoldable pub is_error_object : Members → Bool
is_error_object m = is_error_status (string_of (get m (text "status")))

unfoldable pub response_is_error : List ℕ → Bool
response_is_error input =
    from_object false is_error_object (parse_json (length input + 1) input >>= as_object)

-- The status is removed before the message is looked up, under another key.
unfoldable pub error_message_of : Members → Option Text
error_message_of m = if is_error_object m then string_of (get m (text "message")) else none

unfoldable pub response_error_message : List ℕ → Option Text
response_error_message input =
    from_object none error_message_of (parse_json (length input + 1) input >>= as_object)

-- The head that the parsers of responses share: the status, then the type.
unfoldable pub check_status : Members → Text → Outcome (Unit {0})
check_status m failed = required_string m (text "status") >>= λ status.
    if text_eq status (text "ok")
    then ok tt
    else if text_eq status (text "error")
    then or_default (optional_string m (text "message")) failed >>= fail
    else fail (text "unknown response status: " ++ status)

unfoldable pub check_type : Members → Text → Outcome (Unit {0})
check_type m kind = required_string m (text "type") >>= λ response_type.
    if text_eq response_type kind
    then ok tt
    else fail (text "expected " ++ (kind ++ (text " response, got " ++ response_type)))

-- An array, which counts as empty where it is missing.
unfoldable pub array_or_empty :
    {A : Type 0} → (JsonValue → Outcome A) → Text → Option JsonValue → Outcome (List A)
array_or_empty read key none = ok []
array_or_empty read key (some (JsonValue.array vs)) = collect read vs
array_or_empty read key (some v) = fail (field key (text " must be an array"))

unfoldable pub parse_wallpaper_entry : JsonValue → Outcome WallpaperEntry
parse_wallpaper_entry v = as_object v >>= λ m. required optional_usize m (text "index") >>= λ index.
    required_string m (text "output") >>= λ output.
    or_default (optional_bool m (text "favorite")) false >>= λ favorite.
    required_string m (text "path") >>= λ path.
    ok (record { index = index; output = output; path = path; favorite = favorite })

unfoldable pub wallpaper_response_of : Members → Outcome WallpaperResponse
wallpaper_response_of m =
    check_status m (text "wallpaper request failed")
    >> (check_type m (text "wallpaper")
        >> (array_or_empty parse_wallpaper_entry (text "entries") (get m (text "entries"))
            >>= λ entries.
                array_or_empty as_string (text "favorites") (get m (text "favorites"))
                >>= λ favorites. required_string m (text "action") >>= λ action.
                    or_default (optional_string m (text "message")) [] >>= λ message. ok (record {
                      action = action;
                      message = message;
                      entries = entries;
                      favorites = favorites;
                    })))

unfoldable pub parse_wallpaper_response : List ℕ → Outcome WallpaperResponse
parse_wallpaper_response input =
    parse_json (length input + 1) input >>= as_object >>= wallpaper_response_of

unfoldable pub nullable : Option JsonValue → Outcome (Option Text)
nullable none = ok none
nullable (some JsonValue.null) = ok none
nullable (some v) = as_string v >>= λ s. ok (some s)

unfoldable pub optional_nullable_string : Members → Text → Outcome (Option Text)
unfolding nullable
optional_nullable_string m key = nullable (get m key)

-- `str::parse::<i32>`
unfoldable pub signed : Option ℕ → Option ℤ
signed none = none
signed (some zero) = some (pos 0)
signed (some (suc n)) = some (negsuc n)

unfoldable pub unsigned : Option ℕ → Option ℤ
unsigned none = none
unsigned (some n) = some (pos n)

unfoldable pub parse_i32 : Text → Option ℤ
unfolding signed unsigned
parse_i32 [] = none
parse_i32 (c ∷ s) =
    if c == b'-'
    then signed (some_digits (2 ^ 31) s)
    else unsigned (parse_uint (2 ^ 31 - 1) (c ∷ s))

-- `parse_json_i32`
unfoldable pub as_i32 : Text → JsonValue → Outcome ℤ
as_i32 key (JsonValue.number number) =
    refuse_if (is_fractional number) (field key (text " must be an integer"))
    >> ok_or (parse_i32 number) (field key (text " is out of range"))
as_i32 key v = fail (field key (text " must be an integer"))

unfoldable pub optional_i32 : Members → Text → Outcome (Option ℤ)
optional_i32 m key = optional (as_i32 key) (get m key)

module _ (f : Float32) where
  unfoldable pub transition_state_of : Option JsonValue → Outcome TransitionState
  transition_state_of none = ok TransitionState.idle
  transition_state_of (some v) = as_object v >>= λ m. required_string m (text "state") >>= λ state.
      if text_eq state (text "idle")
      then ok TransitionState.idle
      else if text_eq state (text "running")
      then ok_or (get m (text "transition")) (missing (text "transition"))
        >>= parse_transition f
        >>= (λ t. ok (TransitionState.running t))
      else fail (text "unknown transition state: " ++ state)

  unfoldable pub parse_health_output : JsonValue → Outcome HealthOutput
  parse_health_output v = as_object v >>= λ m. required_string m (text "name") >>= λ name.
      or_default (optional_i32 m (text "layout_x")) (pos 0) >>= λ layout_x.
      or_default (optional_i32 m (text "layout_y")) (pos 0) >>= λ layout_y.
      or_default (optional_i32 m (text "width")) (pos 0) >>= λ width.
      or_default (optional_i32 m (text "height")) (pos 0) >>= λ height.
      or_default (optional_string m (text "power_state")) (text "unknown") >>= λ power_state.
      or_default (optional_string m (text "render_state")) (text "unknown") >>= λ render_state.
      or_default (optional_bool m (text "restore_pending")) false >>= λ restore_pending.
      optional_nullable_string m (text "current_image") >>= λ current_image.
      optional_nullable_string m (text "transition_target_image") >>= λ target_image.
      word_or (optional_string m (text "scale_mode")) fill >>= λ scale_mode.
      transition_state_of (get m (text "transition_state")) >>= λ transition_state.
      or_default (optional_usize m (text "queue_depth")) 0 >>= λ queue_depth.
      or_default (optional_bool m (text "frame_callback_pending")) false >>= λ frame_pending.
      or_default (optional_bool m (text "render_pending")) false >>= λ render_pending. ok (record {
        name = name;
        layout_x = layout_x;
        layout_y = layout_y;
        width = width;
        height = height;
        power_state = power_state;
        render_state = render_state;
        restore_pending = restore_pending;
        current_image = current_image;
        transition_target_image = target_image;
        scale_mode = scale_mode;
        transition_state = transition_state;
        queue_depth = queue_depth;
        frame_callback_pending = frame_pending;
        render_pending = render_pending;
      })

  unfoldable pub health_response_of : Members → Outcome HealthResponse
  health_response_of m =
      check_status m (text "health request failed")
      >> (check_type m (text "health")
          >> (array_or_empty parse_health_output (text "outputs") (get m (text "outputs"))
              >>= λ outputs. required_string m (text "role") >>= λ role.
                  optional_u32 m (text "supervisor_pid") >>= λ supervisor_pid.
                  optional_u32 m (text "renderer_pid") >>= λ renderer_pid.
                  or_default (optional_usize m (text "renderer_generation")) 0 >>= λ generation.
                  or_default (optional_string m (text "renderer_state")) (text "unknown")
                  >>= λ renderer_state.
                      or_default (optional_usize m (text "restart_count")) 0 >>= λ restart_count.
                      optional_nullable_string m (text "last_error") >>= λ last_error.
                      optional_nullable_string m (text "last_diagnostic") >>= λ last_diagnostic.
                      ok (record {
                        role = role;
                        supervisor_pid = supervisor_pid;
                        renderer_pid = renderer_pid;
                        renderer_generation = generation;
                        renderer_state = renderer_state;
                        restart_count = restart_count;
                        last_error = last_error;
                        last_diagnostic = last_diagnostic;
                        outputs = outputs;
                      })))

  unfoldable pub parse_health_response : List ℕ → Outcome HealthResponse
  parse_health_response input =
      parse_json (length input + 1) input >>= as_object >>= health_response_of
