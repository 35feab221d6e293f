-- ===== src/Protocol/Float.antt =====
-- The f32 of `overview_scale`. A number is its bit pattern, so that comparisons are computed;
-- formatting and parsing, which are those of `core`, are a parameter.
use mural.Prelude.{
  ℕ, ◌/◌, ◌%◌, ◌^◌, Bool, false, ◌&&◌, ◌||◌, not, Option, [], ◌∷◌, Text, text, ltb, ◌==◌,
  if◌then◌else◌,
}
use mural.Exec.{Outcome}
use mural.Results.{refuse_if}

pub record Float32 : Type 0 where
  -- `format!("{scale:.6}")`
  pub format : ℕ → Text
  -- `str::parse::<f32>`
  pub read : Text → Option ℕ

abbrev pub one : ℕ
one = 0x3f800000

-- 1.0 / 3.0
abbrev pub default_canvas_overview_scale : ℕ
default_canvas_overview_scale = 0x3eaaaaab

abbrev pub is_finite : ℕ → Bool
is_finite bits = not (bits / 2 ^ 23 % 256 == 255)

abbrev pub has_sign : ℕ → Bool
has_sign bits = bits / 2 ^ 31 % 2 == 1

-- `scale <= 0.0` and `scale > 1.0` of a finite scale.
abbrev pub at_most_zero : ℕ → Bool
at_most_zero bits = bits == 0 || has_sign bits

abbrev pub above_one : ℕ → Bool
above_one bits = not (has_sign bits) && ltb one bits

unfoldable pub validate_canvas_overview_scale : ℕ → Outcome (Unit {0})
validate_canvas_overview_scale scale =
    refuse_if (not (is_finite scale) || at_most_zero scale || above_one scale)
      (text "canvas overview_scale must be greater than 0 and at most 1")

-- The loop that pops zeros from the end while there is a point, read from the end of the text. The
-- last popped character is never the point itself.
drop_zeros : Text → Text
drop_zeros [] = []
drop_zeros (c ∷ s) = let rest = drop_zeros s in if c == b'0' then rest else c ∷ s

has_point : Text → Bool
has_point [] = false
has_point (c ∷ s) = c == b'.' || has_point s

reverse_onto : Text → Text → Text
reverse_onto [] t = t
reverse_onto (c ∷ s) t = reverse_onto s (c ∷ t)

-- `if formatted.ends_with('.') { formatted.push('0') }`, on the reversed text.
close_point : Text → Text
close_point [] = []
close_point (c ∷ s) = if c == b'.' then b'0' ∷ (c ∷ s) else c ∷ s

unfoldable pub trim_zeros : Text → Text
unfolding drop_zeros has_point reverse_onto close_point
trim_zeros t =
    let backwards = reverse_onto t [] in
    reverse_onto (close_point (if has_point t then drop_zeros backwards else backwards)) []

unfoldable pub format_overview_scale : Float32 → ℕ → Text
unfolding trim_zeros
format_overview_scale f scale = trim_zeros (f.format scale)
