-- ===== src/Json/Chars.antt =====
-- The state of `JsonParser` in json.rs, and how it reads bytes, escapes and characters.
use mural.Prelude.{
  ℕ, zero, suc, ◌+◌, ◌-◌, ◌*◌, Bool, true, false, ◌&&◌, ◌||◌, Option, none, some, List, [], ◌∷◌,
  leb, ltb, ◌==◌, if◌then◌else◌, length, take, drop,
}
use mural.Exec.{
  ok, err, Exec, raise, ◌>>=◌, json_error, JsonError, invalid_escape, expected_byte,
  unterminated_escape, unterminated_unicode, invalid_digit, missing_low_surrogate,
  missing_high_surrogate, invalid_scalar, invalid_utf8, truncated_utf8,
}
use mural.Json.Utf8.{utf8_width, decode_char, is_scalar}

abbrev pub Parser : Type 0 → Type 0
Parser = Exec (List ℕ)

abbrev pub fail : {A : Type 0} → JsonError → Parser A
fail e = raise (json_error e)

abbrev pub peek : List ℕ → Option ℕ
peek [] = none
peek (b ∷ s) = some b

abbrev pub next : Parser (Option ℕ)
next [] = (ok none, [])
next (b ∷ s) = (ok (some b), s)

unfoldable pub expect : ℕ → Parser (Unit {0})
expect expected [] = (err (json_error (expected_byte expected none)), [])
expect expected (b ∷ s) =
    (if b == expected then ok tt else err (json_error (expected_byte expected (some b))), s)

unfoldable pub consume_if : ℕ → Parser Bool
consume_if expected [] = (ok false, [])
consume_if expected (b ∷ s) = if b == expected then (ok true, s) else (ok false, b ∷ s)

abbrev pub is_space : ℕ → Bool
is_space b = b == b' ' || b == b'\n' || b == b'\r' || b == b'\t'

unfoldable pub skip_spaces : List ℕ → List ℕ
skip_spaces [] = []
skip_spaces (b ∷ s) = let rest = skip_spaces s in if is_space b then rest else b ∷ s

abbrev pub skip_whitespace : Parser (Unit {0})
skip_whitespace s = (ok tt, skip_spaces s)

abbrev pub is_digit : ℕ → Bool
is_digit b = leb b'0' b && leb b b'9'

unfoldable pub hex_digit : ℕ → Option ℕ
hex_digit b =
    if is_digit b
    then some (b - b'0')
    else if leb b'a' b && leb b b'f'
    then some (b - b'a' + 10)
    else if leb b'A' b && leb b b'F'
    then some (b - b'A' + 10)
    else none

-- `n` digits; `value << 4` on `u16` loses no bit of four digits.
unfoldable pub parse_digits : ℕ → ℕ → Parser ℕ
unfolding hex_digit
parse_digits zero acc s = (ok acc, s)
parse_digits (suc n) acc [] = (err (json_error unterminated_unicode), [])
parse_digits (suc n) acc (b ∷ s) = elim (hex_digit b) [
  | none ↦ (err (json_error invalid_digit), s)
  | some d ↦ parse_digits n (acc * 16 + d) s
]

unfoldable pub parse_unicode_code_unit : Parser ℕ
unfolding parse_digits
parse_unicode_code_unit = parse_digits 4 0

-- `char::from_u32`
unfoldable pub from_u32 : ℕ → Parser ℕ
from_u32 v s = if is_scalar v then (ok v, s) else (err (json_error invalid_scalar), s)

unfoldable pub join_surrogates : ℕ → ℕ → Parser ℕ
unfolding from_u32
join_surrogates first second =
    if leb 0xdc00 second && leb second 0xdfff
    then from_u32 (0x10000 + (first - 0xd800) * 1024 + (second - 0xdc00))
    else fail missing_low_surrogate

-- The two bytes before the second unit: `\` and `u`.
unfoldable pub escape_follows : Parser Bool
escape_follows [] = (ok false, [])
escape_follows (b ∷ []) = (ok false, [])
escape_follows (b ∷ (c ∷ s)) = if b == b'\\' then (ok (c == b'u'), s) else (ok false, c ∷ s)

unfoldable pub low_surrogate : ℕ → Bool → Parser ℕ
unfolding join_surrogates parse_unicode_code_unit
low_surrogate first false = fail missing_low_surrogate
low_surrogate first true = do second ← parse_unicode_code_unit; join_surrogates first second

unfoldable pub unicode_of : ℕ → Parser ℕ
unfolding from_u32 escape_follows low_surrogate
unicode_of first =
    if leb 0xd800 first && leb first 0xdbff
    then (do follows ← escape_follows; low_surrogate first follows)
    else if leb 0xdc00 first && leb first 0xdfff
    then fail missing_high_surrogate
    else from_u32 first

unfoldable pub parse_unicode_escape : Parser ℕ
unfolding parse_unicode_code_unit unicode_of
parse_unicode_escape = do first ← parse_unicode_code_unit; unicode_of first

unfoldable pub parse_escape : Parser ℕ
unfolding parse_unicode_escape
parse_escape [] = (err (json_error unterminated_escape), [])
parse_escape (b ∷ s) =
    if b == b'"'
    then (ok b'"', s)
    else if b == b'\\'
    then (ok b'\\', s)
    else if b == b'/'
    then (ok b'/', s)
    else if b == b'b'
    then (ok 8, s)
    else if b == b'f'
    then (ok 12, s)
    else if b == b'n'
    then (ok b'\n', s)
    else if b == b'r'
    then (ok b'\r', s)
    else if b == b't'
    then (ok b'\t', s)
    else if b == b'u'
    then parse_unicode_escape s
    else (err (json_error (invalid_escape b)), s)

-- The rest of a character whose first byte is read; the state is the input behind that byte.
unfoldable pub decode_utf8_at : ℕ → Parser ℕ
decode_utf8_at first s = elim (utf8_width first) [
  | none ↦ (err (json_error invalid_utf8), s)
  | some width ↦
      if width == 1
      then (ok first, s)
      else if ltb (length s) (width - 1)
      then (err (json_error truncated_utf8), s)
      else (ok (decode_char width (first ∷ take (width - 1) s)), drop (width - 1) s)
]
