-- ===== src/Json/Tokens.antt =====
-- `parse_string` and `parse_number` of json.rs.
use mural.Prelude.{
  ℕ, zero, suc, Bool, true, false, ◌||◌, List, [], ◌∷◌, ◌++◌, Text, leb, ◌==◌, if◌then◌else◌,
  length,
}
use mural.Exec.{
  Outcome, ok, err, pure, gets, ◌>>=◌, ◌>>◌, continue, json_error, JsonError, control_byte,
  unterminated_string, digit_after_minus, expected_number, digit_after_point, digit_in_exponent,
}
use mural.Json.Chars.{Parser, fail, expect, is_digit, parse_escape, decode_utf8_at}

-- The loop of `parse_string`, which the length of the input bounds.
unfoldable pub string_loop : ℕ → Parser Text
unfolding decode_utf8_at parse_escape
string_loop zero s = (Outcome.running, s)
string_loop (suc fuel) [] = (err (json_error unterminated_string), [])
string_loop (suc fuel) (b ∷ s) = elim (b == b'"') [
  | true ↦ (ok [], s)
  | false ↦
      (do
        c ←
            if b == b'\\'
            then parse_escape
            else if leb b 0x1f
            then fail control_byte
            else decode_utf8_at b
        rest ← string_loop fuel
        pure (c ∷ rest))
        s
]

unfoldable pub parse_string : Parser Text
unfolding expect string_loop
parse_string = do expect b'"'; n ← gets length; string_loop (suc n)

-- The digits at the front, and the rest.
unfoldable pub digits : Parser Text
digits [] = (ok [], [])
digits (b ∷ s) =
    let rest = digits s in
    if is_digit b then continue rest.0 (λ ds. pure (b ∷ ds)) rest.1 else (ok [], b ∷ s)

unfoldable pub digit_next : List ℕ → Bool
digit_next [] = false
digit_next (b ∷ s) = is_digit b

unfoldable pub some_digits : JsonError → Parser Text
unfolding digit_next digits
some_digits e s = if digit_next s then digits s else (err (json_error e), s)

unfoldable pub parse_sign : Parser Text
unfolding digit_next
parse_sign [] = (ok [], [])
parse_sign (b ∷ s) =
    if b == b'-'
    then (if digit_next s then ok (b'-' ∷ []) else err (json_error digit_after_minus), s)
    else (ok [], b ∷ s)

unfoldable pub parse_integer : Parser Text
unfolding some_digits
parse_integer [] = (err (json_error expected_number), [])
parse_integer (b ∷ s) =
    if b == b'0' then (ok (b'0' ∷ []), s) else some_digits expected_number (b ∷ s)

unfoldable pub parse_fraction : Parser Text
unfolding some_digits
parse_fraction [] = (ok [], [])
parse_fraction (b ∷ s) =
    if b == b'.'
    then (do ds ← some_digits digit_after_point; pure (b'.' ∷ ds)) s
    else (ok [], b ∷ s)

unfoldable pub parse_plus : Parser Text
parse_plus [] = (ok [], [])
parse_plus (b ∷ s) = if b == b'+' || b == b'-' then (ok (b ∷ []), s) else (ok [], b ∷ s)

unfoldable pub parse_exponent : Parser Text
unfolding some_digits parse_plus
parse_exponent [] = (ok [], [])
parse_exponent (b ∷ s) =
    if b == b'e' || b == b'E'
    then (do plus ← parse_plus; ds ← some_digits digit_in_exponent; pure (b ∷ (plus ++ ds))) s
    else (ok [], b ∷ s)

unfoldable pub parse_number : Parser Text
unfolding parse_sign parse_integer parse_fraction parse_exponent
parse_number = do
  sign ← parse_sign
  integer ← parse_integer
  fraction ← parse_fraction
  exponent ← parse_exponent
  pure (sign ++ (integer ++ (fraction ++ exponent)))
