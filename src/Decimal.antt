-- ===== src/Decimal.antt =====
-- Decimal numbers as `to_string` writes the unsigned integers of Rust, and as `str::parse` reads
-- them.
pub mod Back
pub mod Bounds
use mural.Prelude.{
  ℕ, zero, suc, ◌+◌, ◌-◌, ◌*◌, ◌/◌, ◌%◌, true, false, ◌&&◌, Option, none, some, [], ◌∷◌, ◌++◌, Text,
  ltb, leb, ◌==◌, if◌then◌else◌,
}

-- Twenty digits are enough below 2 ^ 64.
unfoldable pub print_digits : ℕ → ℕ → Text
print_digits zero n = []
print_digits (suc f) n = elim (ltb n 10) [
  | true ↦ (48 + n) ∷ []
  | false ↦ print_digits f (n / 10) ++ ((48 + n % 10) ∷ [])
]

unfoldable pub print_usize : ℕ → Text
unfolding print_digits
print_usize n = print_digits 20 n

-- The digits of a number up to `max`: reading stops at the first value that does not fit.
unfoldable pub parse_digits : ℕ → ℕ → Text → Option ℕ
parse_digits max acc [] = some acc
parse_digits max acc (c ∷ s) =
    let value = acc * 10 + (c - 48) in
    elim (leb 48 c && leb c 57 && leb value max) [ true ↦ parse_digits max value s | false ↦ none ]

unfoldable pub after_plus : Text → Text
after_plus [] = []
after_plus (c ∷ s) = if c == b'+' then s else c ∷ s

unfoldable pub some_digits : ℕ → Text → Option ℕ
unfolding parse_digits
some_digits max [] = none
some_digits max (c ∷ s) = parse_digits max 0 (c ∷ s)

-- `parse::<u32>()`, `parse::<u64>()` and `parse::<usize>()`, by the largest value of the type.
unfoldable pub parse_uint : ℕ → Text → Option ℕ
unfolding after_plus some_digits
parse_uint max s = some_digits max (after_plus s)
