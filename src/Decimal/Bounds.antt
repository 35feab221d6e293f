-- ===== src/Decimal/Bounds.antt =====
-- A number that `parse` has read fits its type.
use mural.Prelude.{ℕ, ◌+◌, ◌-◌, ◌*◌, ◌≤◌, ◌≡◌, some, [], ◌∷◌, Text, arith}
use mural.Decimal.{parse_digits, some_digits, parse_uint, after_plus}

parse_digits_le : (max n k : ℕ) (t : Text) → n ≤ max → parse_digits max n t ≡ some k → k ≤ max
unfolding parse_digits
parse_digits_le max n k [] h e = ground arith
parse_digits_le max n k (c ∷ t) h e =
    let step = parse_digits_le max (n * 10 + (c - 48)) k t in ground (arith, step)

some_digits_le : (max k : ℕ) (t : Text) → some_digits max t ≡ some k → k ≤ max
unfolding some_digits
some_digits_le max k [] e = absurd cc
some_digits_le max k (c ∷ t) e = parse_digits_le max 0 k (c ∷ t) (omega arith) e

pub parse_uint_le : (max k : ℕ) (t : Text) → parse_uint max t ≡ some k → k ≤ max
unfolding parse_uint
parse_uint_le max k t e = some_digits_le max k (after_plus t) e
