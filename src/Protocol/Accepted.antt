-- ===== src/Protocol/Accepted.antt =====
-- What `parse_transition` of crates/mural-ipc/src/lib.rs has accepted is within the bounds of its
-- fields.
use mural.Prelude.{ℕ, ◌≤◌, ◌≡◌, ◌++◌, Text, text, usize_max, arith}
use mural.Exec.{ok}
use mural.Results.{◌>>=◌, ok_or}
use mural.Results.Ensures.{Ensures, ensures_ok, ensures_then, ensures_bind}
use mural.Json.Value.{JsonValue, Members}
use mural.Protocol.Words.{parse}
use mural.Protocol.Words.General.{
  Easing, portal, ease_out_cubic, push_direction_word, push_mode_word, easing_word,
}
use mural.Protocol.Words.Canvas.{
  CanvasPanAxis, clipped, paged, canvas_pan_axis_word, canvas_walk_word, canvas_mode_word,
}
use mural.Protocol.Messages.{Transition}
use mural.Protocol.Registry.{TransitionKind, transition_descriptor}
use mural.Protocol.Float.{Float32, validate_canvas_overview_scale, default_canvas_overview_scale}
use mural.Protocol.Fields.{
  as_object, required_string, optional_usize, optional_string, or_default, word_or,
}
use mural.Protocol.Transitions.{
  validate_positive_milliseconds, validate_canvas_mode_walk, parse_cli_token,
  parse_canvas_tile_count_policy, optional_f32, canvas_of, of_kind, parse_transition_object,
  parse_transition, split_colon, default_duration_ms, default_canvas_out_ms, default_canvas_pan_ms,
  default_canvas_in_ms,
}
use mural.Protocol.TokenBounds.{
  TransitionBounds, milliseconds_positive, usize_or_ensures, policy_bounds, timed, of_token_bounds,
}

module _ (f : Float32) where
  canvas_of_bounds :
      (m : Members) (easing : Easing) → Ensures (canvas_of f m easing) TransitionBounds
  unfolding canvas_of
  canvas_of_bounds m easing =
      let time = λ (key : Text) (n : ℕ) (l : n ≤ usize_max). usize_or_ensures m key n l in
      ensures_bind (or_default (optional_usize m (text "zoom_out_ms")) default_canvas_out_ms) _
        (time (text "zoom_out_ms") default_canvas_out_ms (omega arith))
        (λ zoom_out_ms a.
          ensures_bind (or_default (optional_usize m (text "pan_ms")) default_canvas_pan_ms) _
            (time (text "pan_ms") default_canvas_pan_ms (omega arith))
            (λ pan_ms b.
              ensures_bind (or_default (optional_usize m (text "zoom_in_ms")) default_canvas_in_ms)
                _ (time (text "zoom_in_ms") default_canvas_in_ms (omega arith))
                (λ zoom_in_ms c.
                  ensures_then (validate_positive_milliseconds zoom_out_ms (text "zoom_out_ms")) _
                    (λ u a'.
                      ensures_then (validate_positive_milliseconds pan_ms (text "pan_ms")) _
                        (λ u b'.
                          ensures_then
                            (validate_positive_milliseconds zoom_in_ms (text "zoom_in_ms")) _
                            (λ u c'.
                              ensures_then (word_or (optional_string m (text "mode")) clipped) _
                                (λ mode d.
                                  ensures_then (word_or (optional_string m (text "walk")) paged) _
                                    (λ walk d'.
                                      ensures_then
                                        (word_or (optional_string m (text "pan_axis"))
                                          CanvasPanAxis.auto)
                                        _
                                        (λ axis d''.
                                          ensures_then
                                            (or_default (optional_f32 f m (text "overview_scale"))
                                              default_canvas_overview_scale)
                                            _
                                            (λ scale g.
                                              ensures_then (validate_canvas_overview_scale scale) _
                                                (λ u g'.
                                                  ensures_then (validate_canvas_mode_walk mode walk)
                                                    _
                                                    (λ u g''.
                                                      ensures_bind
                                                        (parse_canvas_tile_count_policy m) _
                                                        (policy_bounds m)
                                                        (λ tiles h.
                                                          ensures_ok (Transition.canvas _) (record {
                                                            zoom_out = (
                                                            milliseconds_positive zoom_out_ms _ a',
                                                            a,
                                                            );
                                                            pan =
                                                            (milliseconds_positive pan_ms _ b', b);
                                                            zoom_in = (
                                                            milliseconds_positive zoom_in_ms _ c',
                                                            c,
                                                            );
                                                            layout = g'';
                                                            scale = g';
                                                            tiles = h;
                                                          }))))))))))))))

  of_kind_bounds :
      (m : Members) (n : ℕ) (easing : Easing) (kind : TransitionKind)
      → n ≤ usize_max
      → Ensures (of_kind f m n easing kind) TransitionBounds
  unfolding of_kind
  of_kind_bounds m n easing TransitionKind.cut l = ensures_ok Transition.cut tt
  of_kind_bounds m n easing TransitionKind.fade l =
      timed n (λ d. Transition.fade d easing) (λ d h. h) l
  of_kind_bounds m n easing TransitionKind.world l =
      timed n (λ d. Transition.world d easing) (λ d h. h) l
  of_kind_bounds m n easing TransitionKind.push l =
      ensures_then (validate_positive_milliseconds n (text "duration_ms")) _ (λ u e.
        ensures_then (required_string m (text "direction") >>= parse) _ (λ direction e'.
          ensures_then (word_or (optional_string m (text "mode")) portal) _ (λ mode e''.
            ensures_ok (Transition.push direction n easing mode)
              (milliseconds_positive n (text "duration_ms") e, l))))
  of_kind_bounds m n easing TransitionKind.canvas l = canvas_of_bounds m easing

  object_bounds : (m : Members) → Ensures (parse_transition_object f m) TransitionBounds
  unfolding parse_transition_object
  object_bounds m = ensures_then (required_string m (text "type")) _ (λ name a.
      ensures_then (ok_or (transition_descriptor name) (text "unknown transition type: " ++ name)) _
        (λ d b.
          ensures_bind (or_default (optional_usize m (text "duration_ms")) default_duration_ms) _
            (usize_or_ensures m (text "duration_ms") default_duration_ms (omega arith))
            (λ duration l.
              ensures_then (word_or (optional_string m (text "easing")) ease_out_cubic) _
                (λ easing e. of_kind_bounds m duration easing d.kind l))))

  pub transition_ensures : (v : JsonValue) → Ensures (parse_transition f v) TransitionBounds
  unfolding parse_transition parse_cli_token
  transition_ensures (JsonValue.string token) =
      let (name, suffix) = split_colon token in
      ensures_then (ok_or (transition_descriptor name) (text "unknown transition: " ++ token)) _
        (λ d e. of_token_bounds name suffix default_duration_ms ease_out_cubic d.kind (omega arith))
  transition_ensures (JsonValue.object m) =
      ensures_then (as_object (JsonValue.object m)) _ (λ o e. object_bounds o)
  transition_ensures JsonValue.null =
      ensures_then (as_object JsonValue.null) _ (λ o e. object_bounds o)
  transition_ensures (JsonValue.boolean b) =
      ensures_then (as_object (JsonValue.boolean b)) _ (λ o e. object_bounds o)
  transition_ensures (JsonValue.number n) =
      ensures_then (as_object (JsonValue.number n)) _ (λ o e. object_bounds o)
  transition_ensures (JsonValue.array vs) =
      ensures_then (as_object (JsonValue.array vs)) _ (λ o e. object_bounds o)

  -- A transition that parse_transition returns, from a token or from an object, has positive
  -- durations that fit 64 bits; a canvas has a valid scale, a tile count between 1 and 256, and a
  -- walk that its mode allows.
  pub parse_transition-TransitionBounds :
      (v : JsonValue) (t : Transition) → parse_transition f v ≡ ok t → TransitionBounds t
  parse_transition-TransitionBounds v t e = (transition_ensures v).holds t e
