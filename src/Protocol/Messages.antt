-- ===== src/Protocol/Messages.antt =====
-- `Transition` and `Request` of crates/mural-ipc/src/lib.rs, with the records that they carry.
use mural.Prelude.{ℕ, Bool, Option, List, Text}
use mural.Wallpaper.Change.{WallpaperAction}
use mural.Protocol.Words.General.{PushDirection, PushMode, Easing, ScaleMode}
use mural.Protocol.Words.Cache.{CacheWarmScope, CacheBackend}
use mural.Protocol.Words.Canvas.{CanvasPanAxis, CanvasWalk, CanvasMode}

pub data CanvasTileCount : Type 0 where
  auto : Option ℕ → CanvasTileCount
  fixed : ℕ → CanvasTileCount

-- `overview_scale` is the bit pattern of an f32.
pub record CanvasTransition : Type 0 where
  pub zoom_out_ms : ℕ
  pub pan_ms : ℕ
  pub zoom_in_ms : ℕ
  pub easing : Easing
  pub mode : CanvasMode
  pub walk : CanvasWalk
  pub pan_axis : CanvasPanAxis
  pub overview_scale : ℕ
  pub tile_count : CanvasTileCount

pub data Transition : Type 0 where
  cut : Transition
  fade world : ℕ → Easing → Transition
  push : PushDirection → ℕ → Easing → PushMode → Transition
  canvas : CanvasTransition → Transition

-- A `BTreeMap<String, V>`: its entries in the order of the keys.
abbrev pub Map : Type 0 → Type 0
Map V = List (Text × V)

pub record SetRequest : Type 0 where
  pub outputs : Map Text
  pub transition : Transition
  pub scale_mode : ScaleMode
  pub allow_partial : Bool

pub record RenderCanvasSetRequest : Type 0 where
  pub outputs : Map Text
  pub transition : Transition
  pub scale_mode : ScaleMode
  pub allow_partial : Bool
  pub preview_paths : List Text
  pub preview_start : ℕ

pub record WorldRouteFocus : Type 0 where
  pub current_index : ℕ
  pub target_index : ℕ
  pub lod : ℕ

pub record RenderWorldSetRequest : Type 0 where
  pub outputs : Map Text
  pub transition : Transition
  pub scale_mode : ScaleMode
  pub allow_partial : Bool
  pub library_count : ℕ
  pub columns : ℕ
  pub fingerprint : ℕ
  pub thumbnail_edge : ℕ
  pub tile_cells : ℕ
  pub routes : Map WorldRouteFocus

pub record PreloadRequest : Type 0 where
  pub outputs : Map Text

pub record ClearRequest : Type 0 where
  pub outputs : List Text
  pub color : Text

pub record WallpaperRequest : Type 0 where
  pub action : WallpaperAction
  pub transition : Option Transition
  pub scale_mode : Option ScaleMode

pub data CacheAction : Type 0 where
  status clear : CacheAction
  warm : CacheWarmScope → ℕ → CacheBackend → CacheAction

pub record CacheRequest : Type 0 where
  pub action : CacheAction

pub data Request : Type 0 where
  ping capabilities health query stop : Request
  set : SetRequest → Request
  preload : PreloadRequest → Request
  clear : ClearRequest → Request
  wallpaper : WallpaperRequest → Request
  cache : CacheRequest → Request
  render_canvas_set : RenderCanvasSetRequest → Request
  render_world_set : RenderWorldSetRequest → Request
