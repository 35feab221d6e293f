-- ===== src/Protocol/Words/General.antt =====
-- `PushDirection`, `PushMode`, `Easing` and `ScaleMode` of crates/mural-ipc/src/lib.rs.
use mural.Prelude.{◌≡◌, refl, true, [], ◌∷◌, Text, text, text_eq, All}
use mural.Exec.{Outcome, ok}
use mural.Json.Utf8.{is_scalar}
use mural.Protocol.Words.{Word, match_word}

pub data PushDirection : Type 0 where
  up down left right : PushDirection

unfoldable pub push_direction_text : PushDirection → Text
push_direction_text PushDirection.up = text "up"
push_direction_text PushDirection.down = text "down"
push_direction_text PushDirection.left = text "left"
push_direction_text PushDirection.right = text "right"

unfoldable pub parse_push_direction : Text → Outcome PushDirection
unfolding match_word
parse_push_direction =
    match_word
      ((text "up", PushDirection.up)
        ∷ (text "down", PushDirection.down)
        ∷ (text "left", PushDirection.left)
        ∷ (text "right", PushDirection.right)
        ∷ [])
      (text "unknown push direction: ")

pub parse-push_direction_text :
    (a : PushDirection) → parse_push_direction (push_direction_text a) ≡ ok a
unfolding parse_push_direction push_direction_text text_eq
parse-push_direction_text PushDirection.up = refl
parse-push_direction_text PushDirection.down = refl
parse-push_direction_text PushDirection.left = refl
parse-push_direction_text PushDirection.right = refl

pub push_direction_scalars :
    (a : PushDirection) → All (λ c. is_scalar c ≡ true) (push_direction_text a)
unfolding push_direction_text
push_direction_scalars PushDirection.up = (refl, (refl, tt))
push_direction_scalars PushDirection.down = (refl, (refl, (refl, (refl, tt))))
push_direction_scalars PushDirection.left = (refl, (refl, (refl, (refl, tt))))
push_direction_scalars PushDirection.right = (refl, (refl, (refl, (refl, (refl, tt)))))

instance abbrev pub push_direction_word : Word PushDirection
push_direction_word = record {
  as_str = push_direction_text;
  parse = parse_push_direction;
  read_back = parse-push_direction_text;
  scalars = push_direction_scalars;
}

pub data PushMode : Type 0 where
  portal screen pan : PushMode

unfoldable pub push_mode_text : PushMode → Text
push_mode_text PushMode.portal = text "portal"
push_mode_text PushMode.screen = text "screen"
push_mode_text PushMode.pan = text "pan"

unfoldable pub parse_push_mode : Text → Outcome PushMode
unfolding match_word
parse_push_mode =
    match_word
      ((text "portal", PushMode.portal)
        ∷ (text "screen", PushMode.screen)
        ∷ (text "pan", PushMode.pan)
        ∷ [])
      (text "unknown push mode: ")

pub parse-push_mode_text : (a : PushMode) → parse_push_mode (push_mode_text a) ≡ ok a
unfolding parse_push_mode push_mode_text text_eq
parse-push_mode_text PushMode.portal = refl
parse-push_mode_text PushMode.screen = refl
parse-push_mode_text PushMode.pan = refl

pub push_mode_scalars : (a : PushMode) → All (λ c. is_scalar c ≡ true) (push_mode_text a)
unfolding push_mode_text
push_mode_scalars PushMode.portal = (refl, (refl, (refl, (refl, (refl, (refl, tt))))))
push_mode_scalars PushMode.screen = (refl, (refl, (refl, (refl, (refl, (refl, tt))))))
push_mode_scalars PushMode.pan = (refl, (refl, (refl, tt)))

instance abbrev pub push_mode_word : Word PushMode
push_mode_word = record {
  as_str = push_mode_text;
  parse = parse_push_mode;
  read_back = parse-push_mode_text;
  scalars = push_mode_scalars;
}

pub data Easing : Type 0 where
  linear ease_out_cubic ease_in_out_cubic : Easing

unfoldable pub easing_text : Easing → Text
easing_text Easing.linear = text "linear"
easing_text Easing.ease_out_cubic = text "ease-out-cubic"
easing_text Easing.ease_in_out_cubic = text "ease-in-out-cubic"

unfoldable pub parse_easing : Text → Outcome Easing
unfolding match_word
parse_easing =
    match_word
      ((text "linear", Easing.linear)
        ∷ (text "ease-out-cubic", Easing.ease_out_cubic)
        ∷ (text "ease-in-out-cubic", Easing.ease_in_out_cubic)
        ∷ [])
      (text "unknown easing: ")

pub parse-easing_text : (a : Easing) → parse_easing (easing_text a) ≡ ok a
unfolding parse_easing easing_text text_eq
parse-easing_text Easing.linear = refl
parse-easing_text Easing.ease_out_cubic = refl
parse-easing_text Easing.ease_in_out_cubic = refl

pub easing_scalars : (a : Easing) → All (λ c. is_scalar c ≡ true) (easing_text a)
unfolding easing_text
easing_scalars Easing.linear = (refl, (refl, (refl, (refl, (refl, (refl, tt))))))
easing_scalars Easing.ease_out_cubic = (
  refl,
  (
    refl,
    (
      refl,
      (refl, (refl, (refl, (refl, (refl, (refl, (refl, (refl, (refl, (refl, (refl, tt))))))))))),
    ),
  ),
)
easing_scalars Easing.ease_in_out_cubic = (
  refl,
  (
    refl,
    (
      refl,
      (
        refl,
        (
          refl,
          (
            refl,
            (
              refl,
              (refl, (refl, (refl, (refl, (refl, (refl, (refl, (refl, (refl, (refl, tt)))))))))),
            ),
          ),
        ),
      ),
    ),
  ),
)

instance abbrev pub easing_word : Word Easing
easing_word = record {
  as_str = easing_text;
  parse = parse_easing;
  read_back = parse-easing_text;
  scalars = easing_scalars;
}

pub data ScaleMode : Type 0 where
  fill fit center stretch : ScaleMode

unfoldable pub scale_mode_text : ScaleMode → Text
scale_mode_text ScaleMode.fill = text "fill"
scale_mode_text ScaleMode.fit = text "fit"
scale_mode_text ScaleMode.center = text "center"
scale_mode_text ScaleMode.stretch = text "stretch"

unfoldable pub parse_scale_mode : Text → Outcome ScaleMode
unfolding match_word
parse_scale_mode =
    match_word
      ((text "fill", ScaleMode.fill)
        ∷ (text "fit", ScaleMode.fit)
        ∷ (text "center", ScaleMode.center)
        ∷ (text "stretch", ScaleMode.stretch)
        ∷ [])
      (text "unknown scale mode: ")

pub parse-scale_mode_text : (a : ScaleMode) → parse_scale_mode (scale_mode_text a) ≡ ok a
unfolding parse_scale_mode scale_mode_text text_eq
parse-scale_mode_text ScaleMode.fill = refl
parse-scale_mode_text ScaleMode.fit = refl
parse-scale_mode_text ScaleMode.center = refl
parse-scale_mode_text ScaleMode.stretch = refl

pub scale_mode_scalars : (a : ScaleMode) → All (λ c. is_scalar c ≡ true) (scale_mode_text a)
unfolding scale_mode_text
scale_mode_scalars ScaleMode.fill = (refl, (refl, (refl, (refl, tt))))
scale_mode_scalars ScaleMode.fit = (refl, (refl, (refl, tt)))
scale_mode_scalars ScaleMode.center = (refl, (refl, (refl, (refl, (refl, (refl, tt))))))
scale_mode_scalars ScaleMode.stretch = (refl, (refl, (refl, (refl, (refl, (refl, (refl, tt)))))))

instance abbrev pub scale_mode_word : Word ScaleMode
scale_mode_word = record {
  as_str = scale_mode_text;
  parse = parse_scale_mode;
  read_back = parse-scale_mode_text;
  scalars = scale_mode_scalars;
}
