-- ===== src/Protocol/TokenBounds.antt =====
-- Numbers that crates/mural-ipc/src/lib.rs has accepted, and the transitions of its tokens.
use mural.Prelude.{ℕ, ◌≤◌, ◌≡◌, refl, Option, none, some, Text, text, text_eq, usize_max, arith}
use mural.Exec.{ok}
use mural.Results.{◌>>=◌, ◌>>◌, ok_or}
use mural.Results.Ensures.{Ensures, ensures_ok, ensures_fail, ensures_if, ensures_then}
use mural.Decimal.Bounds.{parse_uint_le}
use mural.Json.Value.{JsonValue, Members}
use mural.Protocol.Words.{parse}
use mural.Protocol.Words.General.{Easing, portal, push_direction_word, push_mode_word, easing_word}
use mural.Protocol.Words.Canvas.{
  CanvasPanAxis, clipped, paged, canvas_pan_axis_word, canvas_walk_word, canvas_mode_word,
}
use mural.Protocol.Messages.{Transition, CanvasTransition, CanvasTileCount}
use mural.Protocol.Registry.{TransitionKind}
use mural.Protocol.Float.{validate_canvas_overview_scale, default_canvas_overview_scale}
use mural.Protocol.Fields.{get, optional, optional_usize, or_default, parse_json_uint, as_uint}
use mural.Protocol.Transitions.{
  validate_positive_milliseconds, validate_canvas_tile_count, validate_canvas_mode_walk, no_suffix,
  pan_axis_of, of_token, tile_count_of, check_max, parse_canvas_tile_count_policy,
  default_canvas_out_ms, default_canvas_pan_ms, default_canvas_in_ms,
}
use mural.Protocol.TransitionFields.{IsTime, IsTileCount}

-- The bounds that the protocol sets on a canvas transition.
pub record CanvasBounds (c : CanvasTransition) : Type 0 where
  pub zoom_out : IsTime c.zoom_out_ms
  pub pan : IsTime c.pan_ms
  pub zoom_in : IsTime c.zoom_in_ms
  pub layout : validate_canvas_mode_walk c.mode c.walk ≡ ok tt
  pub scale : validate_canvas_overview_scale c.overview_scale ≡ ok tt
  pub tiles : IsTileCount c.tile_count

abbrev pub TransitionBounds : Transition → Type 0
TransitionBounds Transition.cut = Unit {0}
TransitionBounds (Transition.fade duration easing) = IsTime duration
TransitionBounds (Transition.world duration easing) = IsTime duration
TransitionBounds (Transition.push direction duration easing mode) = IsTime duration
TransitionBounds (Transition.canvas c) = CanvasBounds c

pub as_uint_le : (max n : ℕ) (key : Text) (v : JsonValue) → as_uint max key v ≡ ok n → n ≤ max
unfolding as_uint parse_json_uint
as_uint_le max n key (JsonValue.number s) e = let l = parse_uint_le max n s in ground (arith, l)
as_uint_le max n key JsonValue.null e = absurd cc
as_uint_le max n key (JsonValue.boolean b) e = absurd cc
as_uint_le max n key (JsonValue.string s) e = absurd cc
as_uint_le max n key (JsonValue.array vs) e = absurd cc
as_uint_le max n key (JsonValue.object m) e = absurd cc

pub usize_or_le :
    (m : Members) (key : Text) (n k : ℕ)
    → n ≤ usize_max
    → or_default (optional_usize m key) n ≡ ok k
    → k ≤ usize_max
unfolding optional_usize
usize_or_le m key n k h e =
    elim (get m key)
        as (λ o. or_default (optional (as_uint usize_max key) o) n ≡ ok k → k ≤ usize_max) [
          | none ↦ λ e. ground arith
          | some v ↦ λ e. let l = as_uint_le usize_max k key v in ground (arith, l)
        ]
      e

pub milliseconds_positive :
    (n : ℕ) (name : Text) → validate_positive_milliseconds n name ≡ ok tt → 1 ≤ n
unfolding validate_positive_milliseconds
milliseconds_positive n name e = ground (arith, e)

pub tile_count_bounds :
    (n : ℕ) (name : Text) → validate_canvas_tile_count n name ≡ ok tt → (1 ≤ n) × (n ≤ 256)
unfolding validate_canvas_tile_count
tile_count_bounds n name e = ground (arith, e)

pub usize_or_ensures :
    (m : Members) (key : Text) (n : ℕ)
    → n ≤ usize_max
    → Ensures (or_default (optional_usize m key) n) (λ k. k ≤ usize_max)
usize_or_ensures m key n h = record { holds = λ k e. usize_or_le m key n k h e }

pub tile_count_of_bounds :
    (max : Option ℕ) (v : Option JsonValue)
    → IsTileCount (CanvasTileCount.auto max)
    → Ensures (tile_count_of max v) IsTileCount
unfolding tile_count_of
tile_count_of_bounds max none h = ensures_ok (CanvasTileCount.auto max) h
tile_count_of_bounds max (some (JsonValue.string s)) h =
    ensures_if (text_eq s (text "auto")) _ _ (ensures_ok (CanvasTileCount.auto max) h)
      (ensures_fail _)
tile_count_of_bounds max (some (JsonValue.number s)) h =
    ensures_then (parse_json_uint usize_max s (text "tile_count")) _ (λ n e.
      ensures_then (validate_canvas_tile_count n (text "canvas tile_count")) _
        (λ u e'. ensures_ok (CanvasTileCount.fixed n) (tile_count_bounds n _ e')))
tile_count_of_bounds max (some JsonValue.null) h = ensures_fail _
tile_count_of_bounds max (some (JsonValue.boolean b)) h = ensures_fail _
tile_count_of_bounds max (some (JsonValue.array vs)) h = ensures_fail _
tile_count_of_bounds max (some (JsonValue.object m)) h = ensures_fail _

pub check_max_bounds :
    (max : Option ℕ) → check_max max ≡ ok tt → IsTileCount (CanvasTileCount.auto max)
unfolding check_max
check_max_bounds none e = tt
check_max_bounds (some n) e = tile_count_bounds n _ e

pub policy_bounds : (m : Members) → Ensures (parse_canvas_tile_count_policy m) IsTileCount
unfolding parse_canvas_tile_count_policy
policy_bounds m = ensures_then (optional_usize m (text "max_tile_count")) _ (λ max e.
    ensures_then (check_max max) _
      (λ u e'. tile_count_of_bounds max (get m (text "tile_count")) (check_max_bounds max e')))

pub timed :
    (n : ℕ) (make : ℕ → Transition)
    → ((n : ℕ) → IsTime n → TransitionBounds (make n))
    → n ≤ usize_max
    → Ensures
        (validate_positive_milliseconds n (text "duration_ms") >> ok (make n))
        TransitionBounds
timed n make h l =
    ensures_then (validate_positive_milliseconds n (text "duration_ms")) _
      (λ u e. ensures_ok (make n) (h n (milliseconds_positive n (text "duration_ms") e, l)))

abbrev pub default_canvas : Easing → CanvasPanAxis → CanvasTransition
default_canvas easing axis = record {
  zoom_out_ms = default_canvas_out_ms;
  pan_ms = default_canvas_pan_ms;
  zoom_in_ms = default_canvas_in_ms;
  easing = easing;
  mode = clipped;
  walk = paged;
  pan_axis = axis;
  overview_scale = default_canvas_overview_scale;
  tile_count = CanvasTileCount.auto none;
}

pub default_canvas-Bounds :
    (easing : Easing) (axis : CanvasPanAxis) → CanvasBounds (default_canvas easing axis)
unfolding validate_canvas_mode_walk validate_canvas_overview_scale
default_canvas-Bounds easing axis = record {
  zoom_out = (omega arith, omega arith);
  pan = (omega arith, omega arith);
  zoom_in = (omega arith, omega arith);
  layout = refl;
  scale = refl;
  tiles = tt;
}

pub of_token_bounds :
    (name : Text) (suffix : Option Text) (n : ℕ) (easing : Easing) (kind : TransitionKind)
    → n ≤ usize_max
    → Ensures (of_token name suffix n easing kind) TransitionBounds
unfolding of_token
of_token_bounds name suffix n easing TransitionKind.cut l =
    ensures_then (no_suffix name suffix) _ (λ u e. ensures_ok Transition.cut tt)
of_token_bounds name suffix n easing TransitionKind.fade l =
    ensures_then (no_suffix name suffix) _
      (λ u e. timed n (λ d. Transition.fade d easing) (λ d h. h) l)
of_token_bounds name suffix n easing TransitionKind.world l =
    ensures_then (no_suffix name suffix) _
      (λ u e. timed n (λ d. Transition.world d easing) (λ d h. h) l)
of_token_bounds name suffix n easing TransitionKind.push l =
    ensures_then (validate_positive_milliseconds n (text "duration_ms")) _ (λ u e.
      ensures_then (ok_or suffix (text "push transition requires a direction override") >>= parse) _
        (λ d e'.
          ensures_ok (Transition.push d n easing portal)
            (milliseconds_positive n (text "duration_ms") e, l)))
of_token_bounds name suffix n easing TransitionKind.canvas l =
    ensures_then (pan_axis_of suffix) _ (λ axis e.
      ensures_ok (Transition.canvas (default_canvas easing axis))
        (default_canvas-Bounds easing axis))
