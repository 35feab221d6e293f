-- ===== src/Protocol/TransitionBack.antt =====
-- What is written of a transition is read back.
use mural.Prelude.{
  ℕ, ◌≤◌, ◌≡◌, refl, false, none, some, ◌++◌, Text, text, text_eq, arith, usize_max, ◌∙◌, ltb, ◌==◌,
}
use mural.Exec.{ok}
use mural.Results.{◌>>=◌, ok_or}
use mural.Path.{text_lt}
use mural.Decimal.{print_usize}
use mural.Json.Value.{JsonValue, Members, no_members, insert}
use mural.Json.Objects.{members_onto}
use mural.Protocol.Words.{as_str}
use mural.Protocol.Words.General.{
  Easing, ease_out_cubic, portal, PushDirection, PushMode, easing_word, push_direction_word,
  push_mode_word,
}
use mural.Protocol.Words.Canvas.{
  CanvasPanAxis, clipped, paged, canvas_pan_axis_word, canvas_walk_word, canvas_mode_word,
}
use mural.Protocol.Registry.{transition_descriptor}
use mural.Protocol.Messages.{Transition, CanvasTransition, CanvasTileCount}
use mural.Protocol.Fields.{get, as_object}
use mural.Protocol.Float.{Float32, format_overview_scale}
use mural.Protocol.Transitions.{
  validate_canvas_tile_count, parse_canvas_tile_count_policy, tile_count_of, check_max,
  optional_f32, as_f32, canvas_of, of_kind, parse_transition_object, parse_transition,
}
use mural.Protocol.Items.{
  parse_json_uint-print_usize, usize_missing, string_missing, usize_at, required_at, word_at,
}
use mural.Protocol.TransitionFields.{
  IsTime, IsTileCount, positive, tile_fields, IsCanvas, IsTransition, transition_fields,
  canvas_fields, transition_value,
}

module _ (f : Float32) where
  timed-back :
      (m : Members) (kind : Text) (duration : ℕ) (easing : Easing)
      → IsTime duration
      → get m (text "type") ≡ some (JsonValue.string kind)
      → get m (text "duration_ms") ≡ some (JsonValue.number (print_usize duration))
      → get m (text "easing") ≡ some (JsonValue.string (as_str easing))
      → parse_transition_object f m ≡ (
          ok_or (transition_descriptor kind) (text "unknown transition type: " ++ kind) >>= λ d.
          of_kind f m duration easing d.kind)
  unfolding parse_transition_object
  timed-back m kind duration easing t a b c =
      rw
        (
          required_at m (text "type") kind a,
          usize_at m (text "duration_ms") duration t.1 b,
          word_at m (text "easing") easing ease_out_cubic c,
        )
        refl

  cut-back :
      (v : IsTransition f Transition.cut)
      → parse_transition_object f (members_onto no_members (transition_fields f Transition.cut v))
        ≡ ok Transition.cut
  unfolding parse_transition_object of_kind transition_descriptor transition_fields insert get
      text_eq text_lt
  cut-back v =
      let m = members_onto no_members (transition_fields f Transition.cut v) in
      rw
        (
          required_at m (text "type") (text "cut") refl,
          usize_missing m (text "duration_ms") refl,
          string_missing m (text "easing") refl,
        )
        refl

  fade-back :
      (duration : ℕ) (easing : Easing) (v : IsTime duration)
      → parse_transition f (transition_value f (Transition.fade duration easing) v)
        ≡ ok (Transition.fade duration easing)
  unfolding parse_transition as_object of_kind transition_descriptor transition_fields insert get
      text_eq text_lt
  fade-back duration easing v =
      let m = members_onto no_members (transition_fields f (Transition.fade duration easing) v) in
      timed-back m (text "fade") duration easing v refl refl refl
      ∙ (rw (positive duration (text "duration_ms") v) refl)

  world-back :
      (duration : ℕ) (easing : Easing) (v : IsTime duration)
      → parse_transition f (transition_value f (Transition.world duration easing) v)
        ≡ ok (Transition.world duration easing)
  unfolding parse_transition as_object of_kind transition_descriptor transition_fields insert get
      text_eq text_lt
  world-back duration easing v =
      let m = members_onto no_members (transition_fields f (Transition.world duration easing) v) in
      timed-back m (text "world") duration easing v refl refl refl
      ∙ (rw (positive duration (text "duration_ms") v) refl)

  push-back :
      (direction : PushDirection) (duration : ℕ) (easing : Easing) (mode : PushMode)
      (v : IsTime duration)
      → parse_transition f (transition_value f (Transition.push direction duration easing mode) v)
        ≡ ok (Transition.push direction duration easing mode)
  unfolding parse_transition as_object of_kind transition_descriptor transition_fields insert get
      text_eq text_lt
  push-back direction duration easing mode v =
      let m =
        members_onto no_members
          (transition_fields f (Transition.push direction duration easing mode) v) in
      timed-back m (text "push") duration easing v refl refl refl
      ∙ (rw
          (
            positive duration (text "duration_ms") v,
            required_at m (text "direction") (as_str direction) refl,
            push_direction_word.read_back direction,
            word_at m (text "mode") mode portal refl,
          )
          refl)

  -- What is found at the fields of a canvas transition, apart from the tile count.
  record Found (m : Members) (c : CanvasTransition) : Type 0 where
    kind : get m (text "type") ≡ some (JsonValue.string (text "canvas"))
    duration : get m (text "duration_ms") ≡ none
    easing : get m (text "easing") ≡ some (JsonValue.string (as_str c.easing))
    zoom_out : get m (text "zoom_out_ms") ≡ some (JsonValue.number (print_usize c.zoom_out_ms))
    pan : get m (text "pan_ms") ≡ some (JsonValue.number (print_usize c.pan_ms))
    zoom_in : get m (text "zoom_in_ms") ≡ some (JsonValue.number (print_usize c.zoom_in_ms))
    mode : get m (text "mode") ≡ some (JsonValue.string (as_str c.mode))
    walk : get m (text "walk") ≡ some (JsonValue.string (as_str c.walk))
    axis : get m (text "pan_axis") ≡ some (JsonValue.string (as_str c.pan_axis))
    scale :
        get m (text "overview_scale")
        ≡ some (JsonValue.number (format_overview_scale f c.overview_scale))

  scale_at :
      (m : Members) (c : CanvasTransition)
      → IsCanvas f c
      → Found m c
      → optional_f32 f m (text "overview_scale") ≡ ok (some c.overview_scale)
  unfolding optional_f32 as_f32
  scale_at m c v x = rw (x.scale, v.exact) refl

  canvas_of-Found :
      (m : Members) (c : CanvasTransition)
      → IsCanvas f c
      → Found m c
      → parse_canvas_tile_count_policy m ≡ ok c.tile_count
      → canvas_of f m c.easing ≡ ok (Transition.canvas c)
  unfolding canvas_of
  canvas_of-Found m c v x tiles =
      rw
        (
          usize_at m (text "zoom_out_ms") c.zoom_out_ms v.zoom_out.1 x.zoom_out,
          usize_at m (text "pan_ms") c.pan_ms v.pan.1 x.pan,
          usize_at m (text "zoom_in_ms") c.zoom_in_ms v.zoom_in.1 x.zoom_in,
          positive c.zoom_out_ms (text "zoom_out_ms") v.zoom_out,
          positive c.pan_ms (text "pan_ms") v.pan,
          positive c.zoom_in_ms (text "zoom_in_ms") v.zoom_in,
          word_at m (text "mode") c.mode clipped x.mode,
          word_at m (text "walk") c.walk paged x.walk,
          word_at m (text "pan_axis") c.pan_axis CanvasPanAxis.auto x.axis,
          scale_at m c v x,
          v.scale,
          v.layout,
          tiles,
        )
        refl

  canvas-Found :
      (m : Members) (c : CanvasTransition)
      → IsCanvas f c
      → Found m c
      → parse_canvas_tile_count_policy m ≡ ok c.tile_count
      → parse_transition_object f m ≡ ok (Transition.canvas c)
  unfolding parse_transition_object of_kind transition_descriptor text_eq
  canvas-Found m c v x tiles =
      rw
        (
          required_at m (text "type") (text "canvas") x.kind,
          usize_missing m (text "duration_ms") x.duration,
          word_at m (text "easing") c.easing ease_out_cubic x.easing,
        )
        (canvas_of-Found m c v x tiles)

  tile_count_valid :
      (n : ℕ) (name : Text) → 1 ≤ n → n ≤ 256 → validate_canvas_tile_count n name ≡ ok tt
  unfolding validate_canvas_tile_count
  tile_count_valid n name h k =
      let a : (n == 0) ≡ false = ground arith in
      let b : ltb 256 n ≡ false = ground arith in rw (a, b) refl

  tiles_back :
      (m : Members) (t : CanvasTileCount) (v : IsTileCount t)
      → get m (text "max_tile_count")
        ≡ get (members_onto no_members (tile_fields t v)) (text "max_tile_count")
      → get m (text "tile_count")
        ≡ get (members_onto no_members (tile_fields t v)) (text "tile_count")
      → parse_canvas_tile_count_policy m ≡ ok t
  unfolding parse_canvas_tile_count_policy tile_fields tile_count_of check_max insert get text_eq
      text_lt
  tiles_back m (CanvasTileCount.auto none) v a b =
      rw (usize_missing m (text "max_tile_count") a, b) refl
  tiles_back m (CanvasTileCount.auto (some n)) v a b =
      rw
        (
          usize_at m (text "max_tile_count") n (omega arith) a,
          tile_count_valid n (text "canvas max_tile_count") v.0 v.1,
          b,
        )
        refl
  tiles_back m (CanvasTileCount.fixed n) v a b =
      rw
        (
          usize_missing m (text "max_tile_count") a,
          b,
          parse_json_uint-print_usize usize_max n (text "tile_count") (omega arith) (omega arith),
          tile_count_valid n (text "canvas tile_count") v.0 v.1,
        )
        refl

  abbrev canvas_members :
      (c : CanvasTransition) → IsCanvas f c → (t : CanvasTileCount) → IsTileCount t → Members
  canvas_members c v t w = members_onto no_members (canvas_fields f c v t w)

  found :
      (c : CanvasTransition) (v : IsCanvas f c) (t : CanvasTileCount) (w : IsTileCount t)
      → Found (canvas_members c v t w) c
  unfolding canvas_fields tile_fields insert get text_eq text_lt
  found c v (CanvasTileCount.auto none) w = record {
    kind = refl;
    duration = refl;
    easing = refl;
    zoom_out = refl;
    pan = refl;
    zoom_in = refl;
    mode = refl;
    walk = refl;
    axis = refl;
    scale = refl;
  }
  found c v (CanvasTileCount.auto (some n)) w = record {
    kind = refl;
    duration = refl;
    easing = refl;
    zoom_out = refl;
    pan = refl;
    zoom_in = refl;
    mode = refl;
    walk = refl;
    axis = refl;
    scale = refl;
  }
  found c v (CanvasTileCount.fixed n) w = record {
    kind = refl;
    duration = refl;
    easing = refl;
    zoom_out = refl;
    pan = refl;
    zoom_in = refl;
    mode = refl;
    walk = refl;
    axis = refl;
    scale = refl;
  }

  tiles_found :
      (c : CanvasTransition) (v : IsCanvas f c) (t : CanvasTileCount) (w : IsTileCount t)
      → parse_canvas_tile_count_policy (canvas_members c v t w) ≡ ok t
  unfolding canvas_fields tile_fields insert get text_eq text_lt
  tiles_found c v (CanvasTileCount.auto none) w =
      tiles_back (canvas_members c v (CanvasTileCount.auto none) w) (CanvasTileCount.auto none) w
        refl refl
  tiles_found c v (CanvasTileCount.auto (some n)) w =
      tiles_back (canvas_members c v (CanvasTileCount.auto (some n)) w)
        (CanvasTileCount.auto (some n)) w refl refl
  tiles_found c v (CanvasTileCount.fixed n) w =
      tiles_back (canvas_members c v (CanvasTileCount.fixed n) w) (CanvasTileCount.fixed n) w refl
        refl

  canvas-back :
      (c : CanvasTransition) (v : IsCanvas f c)
      → parse_transition f (transition_value f (Transition.canvas c) v) ≡ ok (Transition.canvas c)
  unfolding parse_transition as_object transition_fields
  canvas-back c v =
      let m = canvas_members c v c.tile_count v.tiles in
      canvas-Found m c v (found c v c.tile_count v.tiles) (tiles_found c v c.tile_count v.tiles)

  cut-parsed :
      (v : Unit {0}) → parse_transition f (transition_value f Transition.cut v) ≡ ok Transition.cut
  unfolding parse_transition as_object
  cut-parsed v = cut-back v

  -- The value that is written of a transition is read as the transition.
  pub parse-transition_value :
      (t : Transition) (v : IsTransition f t) → parse_transition f (transition_value f t v) ≡ ok t
  parse-transition_value Transition.cut v = cut-parsed v
  parse-transition_value (Transition.fade duration easing) v = fade-back duration easing v
  parse-transition_value (Transition.world duration easing) v = world-back duration easing v
  parse-transition_value (Transition.push direction duration easing mode) v =
      push-back direction duration easing mode v
  parse-transition_value (Transition.canvas c) v = canvas-back c v
