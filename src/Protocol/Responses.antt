-- ===== src/Protocol/Responses.antt =====
-- The responses of crates/mural-ipc/src/lib.rs: `Response` with its records, as `to_json` writes
-- them and as the clients read them.
pub mod Writer
pub mod Parsers
pub mod Items
pub mod Back
pub mod Errors
pub mod HealthItems
pub mod HealthBack
mod Examples
use mural.Prelude.{
  ℕ, Bool, true, false, Option, none, some, List, Text, map, text, ◌&&◌, if◌then◌else◌,
}
use mural.Wallpaper.Change.{WallpaperResponse}
use mural.Protocol.Words.General.{ScaleMode}
use mural.Protocol.Messages.{Transition}
use mural.Protocol.Registry.{
  TransitionKind, TransitionClass, TransitionScopes, TransitionParameterType,
  TransitionParameterDefault, TransitionParameterDescriptor, TransitionDescriptor,
  transition_registry,
}

-- An i32, by its sign.
pub data ℤ : Type 0 where
  pos negsuc : ℕ → ℤ

pub data TransitionState : Type 0 where
  idle : TransitionState
  running : Transition → TransitionState

pub record OutputState : Type 0 where
  pub name : Text
  pub current_image : Option Text
  pub scale_mode : ScaleMode
  pub transition_state : TransitionState
  pub queue_depth : ℕ

pub record QueryResponse : Type 0 where
  pub outputs : List OutputState

pub record HealthOutput : Type 0 where
  pub name : Text
  pub layout_x : ℤ
  pub layout_y : ℤ
  pub width : ℤ
  pub height : ℤ
  pub power_state : Text
  pub render_state : Text
  pub restore_pending : Bool
  pub current_image : Option Text
  pub transition_target_image : Option Text
  pub scale_mode : ScaleMode
  pub transition_state : TransitionState
  pub queue_depth : ℕ
  pub frame_callback_pending : Bool
  pub render_pending : Bool

pub record HealthResponse : Type 0 where
  pub role : Text
  pub supervisor_pid : Option ℕ
  pub renderer_pid : Option ℕ
  pub renderer_generation : ℕ
  pub renderer_state : Text
  pub restart_count : ℕ
  pub last_error : Option Text
  pub last_diagnostic : Option Text
  pub outputs : List HealthOutput

pub record CacheResponse : Type 0 where
  pub action : Text
  pub message : Text
  pub ready : ℕ
  pub pending : ℕ
  pub scheduled : ℕ
  pub failed : ℕ
  pub backend : Text

pub data DaemonMode : Type 0 where
  supervisor standalone : DaemonMode

-- The texts of a descriptor are copied, so a capability is a descriptor with its own scopes.
pub record TransitionCapability : Type 0 where
  pub name : Text
  pub class : TransitionClass
  pub scopes : TransitionScopes
  pub experimental : Bool
  pub requirements : List Text
  pub parameters : List TransitionParameterDescriptor

pub record CapabilitiesResponse : Type 0 where
  pub schema_version : ℕ
  pub protocol_version : ℕ
  pub daemon_mode : DaemonMode
  pub transitions : List TransitionCapability

abbrev pub is_world : TransitionKind → Bool
is_world TransitionKind.world = true
is_world kind = false

abbrev pub is_standalone : DaemonMode → Bool
is_standalone standalone = true
is_standalone supervisor = false

unfoldable pub from_descriptor : DaemonMode → TransitionDescriptor → TransitionCapability
from_descriptor daemon_mode descriptor = record {
  name = descriptor.name;
  class = descriptor.class;
  scopes =
      if is_standalone daemon_mode && is_world descriptor.kind
      then record { explicit_set = false; wallpaper_actions = false }
      else descriptor.scopes;
  experimental = descriptor.experimental;
  requirements = descriptor.requirements;
  parameters = descriptor.parameters;
}

-- `CapabilitiesResponse::current`
unfoldable pub current_capabilities : DaemonMode → CapabilitiesResponse
unfolding from_descriptor
current_capabilities daemon_mode = record {
  schema_version = 1;
  protocol_version = 1;
  daemon_mode = daemon_mode;
  transitions = map (from_descriptor daemon_mode) transition_registry;
}

pub data Response : Type 0 where
  pong : ℕ → Response
  capabilities : CapabilitiesResponse → Response
  ack error : Text → Response
  health : HealthResponse → Response
  query : QueryResponse → Response
  wallpaper : WallpaperResponse → Response
  cache : CacheResponse → Response
