-- ===== src/Json/Writer.antt =====
-- `json_string`, `object` and `encode_string_array` of crates/mural-ipc/src/lib.rs.
use mural.Prelude.{
  ℕ, ◌+◌, ◌-◌, ◌/◌, ◌%◌, Bool, true, false, ◌&&◌, ◌||◌, List, map, text, [], ◌∷◌, ◌++◌, Text, leb,
  ltb, ◌==◌, if◌then◌else◌,
}

-- `char::is_control`
abbrev pub is_control : ℕ → Bool
is_control c = ltb c 0x20 || leb 0x7f c && ltb c 0xa0

-- A digit of `{:04x}`.
abbrev pub hex : ℕ → ℕ
hex d = if ltb d 10 then b'0' + d else b'a' + (d - 10)

abbrev pub hex4 : ℕ → Text
hex4 c = hex (c / 4096 % 16) ∷ (hex (c / 256 % 16) ∷ (hex (c / 16 % 16) ∷ (hex (c % 16) ∷ [])))

-- What `json_string` writes for a character. A control character has at most two digits.
unfoldable pub json_char : ℕ → Text
json_char c =
    if c == b'"'
    then b'\\' ∷ (b'"' ∷ [])
    else if c == b'\\'
    then b'\\' ∷ (b'\\' ∷ [])
    else if c == b'\n'
    then b'\\' ∷ (b'n' ∷ [])
    else if c == b'\r'
    then b'\\' ∷ (b'r' ∷ [])
    else if c == b'\t'
    then b'\\' ∷ (b't' ∷ [])
    else if c == 8
    then b'\\' ∷ (b'b' ∷ [])
    else if c == 12
    then b'\\' ∷ (b'f' ∷ [])
    else if is_control c
    then b'\\' ∷ (b'u' ∷ hex4 c)
    else c ∷ []

unfoldable pub json_chars : Text → Text
unfolding json_char
json_chars [] = []
json_chars (c ∷ s) = json_char c ++ json_chars s

unfoldable pub json_string : Text → Text
unfolding json_chars
json_string s = b'"' ∷ (json_chars s ++ (b'"' ∷ []))

-- The items, with a comma before each but the first.
unfoldable pub separated : List Text → Text
separated [] = []
separated (t ∷ []) = t
separated (t ∷ (u ∷ ts)) = t ++ (b',' ∷ separated (u ∷ ts))

unfoldable pub key_value : Text × Text → Text
unfolding json_string
key_value (key, value) = json_string key ++ (b':' ∷ value)

unfoldable pub object : List (Text × Text) → Text
unfolding separated key_value
object fields = b'{' ∷ (separated (map key_value fields) ++ text "}")

unfoldable pub bracketed : List Text → Text
unfolding separated
bracketed items = b'[' ∷ (separated items ++ text "]")

unfoldable pub encode_string_array : List Text → Text
unfolding bracketed json_string
encode_string_array values = bracketed (map json_string values)

unfoldable pub encode_bool : Bool → Text
encode_bool true = text "true"
encode_bool false = text "false"
