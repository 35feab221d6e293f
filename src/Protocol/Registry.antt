-- ===== src/Protocol/Registry.antt =====
-- crates/mural-ipc/src/transition_registry.rs
use mural.Prelude.{
  ℕ, Bool, true, false, Option, none, some, List, [], ◌∷◌, Text, text, text_eq, if◌then◌else◌,
}

pub data TransitionKind : Type 0 where
  cut fade push canvas world : TransitionKind

pub data TransitionClass : Type 0 where
  immediate pairwise scene : TransitionClass

pub record TransitionScopes : Type 0 where
  pub explicit_set : Bool
  pub wallpaper_actions : Bool

pub data TransitionParameterType : Type 0 where
  integer number enum integer_or_enum : TransitionParameterType

-- The only fraction among the defaults is given in millionths.
pub data TransitionParameterDefault : Type 0 where
  integer millionths : ℕ → TransitionParameterDefault
  string : Text → TransitionParameterDefault

pub record TransitionParameterDescriptor : Type 0 where
  pub name : Text
  pub value_type : TransitionParameterType
  pub allowed_values : List Text
  pub required : Bool
  pub default_value : Option TransitionParameterDefault
  pub constraint : Option Text

pub record TransitionDescriptor : Type 0 where
  pub kind : TransitionKind
  pub name : Text
  pub class : TransitionClass
  pub scopes : TransitionScopes
  pub experimental : Bool
  pub requirements : List Text
  pub parameters : List TransitionParameterDescriptor

abbrev pub all_public_scopes : TransitionScopes
all_public_scopes = record { explicit_set = true; wallpaper_actions = true }

abbrev pub wallpaper_action_scope : TransitionScopes
wallpaper_action_scope = record { explicit_set = false; wallpaper_actions = true }

-- An optional integer number of milliseconds.
abbrev pub milliseconds : Text → ℕ → TransitionParameterDescriptor
milliseconds name default = record {
  name = name;
  value_type = TransitionParameterType.integer;
  allowed_values = [];
  required = false;
  default_value = some (TransitionParameterDefault.integer default);
  constraint = some (text "positive integer milliseconds");
}

-- An optional word.
abbrev pub choice : Text → List Text → Text → Option Text → TransitionParameterDescriptor
choice name values default constraint = record {
  name = name;
  value_type = TransitionParameterType.enum;
  allowed_values = values;
  required = false;
  default_value = some (TransitionParameterDefault.string default);
  constraint = constraint;
}

abbrev pub duration_parameter : TransitionParameterDescriptor
duration_parameter = milliseconds (text "duration_ms") 900

abbrev pub easing_parameter : TransitionParameterDescriptor
easing_parameter =
    choice (text "easing") (text "linear" ∷ text "ease-out-cubic" ∷ text "ease-in-out-cubic" ∷ [])
      (text "ease-out-cubic") none

abbrev pub push_parameters : List TransitionParameterDescriptor
push_parameters =
    record {
      name = text "direction";
      value_type = TransitionParameterType.enum;
      allowed_values = text "up" ∷ text "down" ∷ text "left" ∷ text "right" ∷ [];
      required = true;
      default_value = none;
      constraint = none;
    }
    ∷ duration_parameter
    ∷ easing_parameter
    ∷ choice (text "mode") (text "portal" ∷ text "screen" ∷ text "pan" ∷ []) (text "portal")
        (some (text "pan is experimental"))
    ∷ []

abbrev pub canvas_parameters : List TransitionParameterDescriptor
canvas_parameters =
    milliseconds (text "zoom_out_ms") 180
    ∷ milliseconds (text "pan_ms") 80
    ∷ milliseconds (text "zoom_in_ms") 260
    ∷ easing_parameter
    ∷ choice (text "mode")
        (text "clipped" ∷ text "morph" ∷ text "overlap" ∷ text "collage" ∷ text "span" ∷ [])
        (text "clipped") (some (text "collage and span require walk=strip"))
    ∷ choice (text "walk") (text "paged" ∷ text "strip" ∷ []) (text "paged") none
    ∷ choice (text "pan_axis") (text "auto" ∷ text "horizontal" ∷ text "vertical" ∷ [])
        (text "auto") none
    ∷ record {
      name = text "overview_scale";
      value_type = TransitionParameterType.number;
      allowed_values = [];
      required = false;
      default_value = some (TransitionParameterDefault.millionths 333333);
      constraint = some (text "greater than 0 and at most 1");
    }
    ∷ record {
      name = text "tile_count";
      value_type = TransitionParameterType.integer_or_enum;
      allowed_values = text "auto" ∷ [];
      required = false;
      default_value = some (TransitionParameterDefault.string (text "auto"));
      constraint = some (text "fixed integer range 1..=256");
    }
    ∷ record {
      name = text "max_tile_count";
      value_type = TransitionParameterType.integer;
      allowed_values = [];
      required = false;
      default_value = none;
      constraint = some (text "integer range 1..=256; applies to tile_count=auto");
    }
    ∷ []

abbrev pub transition_registry : List TransitionDescriptor
transition_registry =
    record {
      kind = TransitionKind.cut;
      name = text "cut";
      class = immediate;
      scopes = all_public_scopes;
      experimental = false;
      requirements = [];
      parameters = [];
    }
    ∷ record {
      kind = TransitionKind.fade;
      name = text "fade";
      class = pairwise;
      scopes = all_public_scopes;
      experimental = false;
      requirements = [];
      parameters = duration_parameter ∷ easing_parameter ∷ [];
    }
    ∷ record {
      kind = TransitionKind.push;
      name = text "push";
      class = pairwise;
      scopes = all_public_scopes;
      experimental = false;
      requirements = [];
      parameters = push_parameters;
    }
    ∷ record {
      kind = TransitionKind.canvas;
      name = text "canvas";
      class = scene;
      scopes = wallpaper_action_scope;
      experimental = false;
      requirements = text "wallpaper action history" ∷ [];
      parameters = canvas_parameters;
    }
    ∷ record {
      kind = TransitionKind.world;
      name = text "world";
      class = scene;
      scopes = all_public_scopes;
      experimental = true;
      requirements =
          text "supervisor planning" ∷ text "wallpaper library" ∷ text "ready cache coverage" ∷ [];
      parameters = duration_parameter ∷ easing_parameter ∷ [];
    }
    ∷ []

find_descriptor : List TransitionDescriptor → Text → Option TransitionDescriptor
find_descriptor [] name = none
find_descriptor (d ∷ ds) name = if text_eq d.name name then some d else find_descriptor ds name

unfoldable pub transition_descriptor : Text → Option TransitionDescriptor
unfolding find_descriptor
transition_descriptor name = find_descriptor transition_registry name
