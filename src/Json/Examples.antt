-- ===== src/Json/Examples.antt =====
-- Documents that json.rs reads, and each theorem at a concrete input.
use mural.Prelude.{◌≤◌, ◌≡◌, ◌≢◌, refl, [], ◌∷◌, ◌++◌, Text, text, text_eq, arith}
use mural.Path.{text_lt}
use mural.Exec.{ok, err, running, json_error, unexpected_trailing, missing_high_surrogate}
use mural.Json.Utf8.{utf8, utf8_width}
use mural.Json.Chars.{skip_spaces}
use mural.Json.Tokens.{parse_string}
use mural.Json.Value.{
  JsonValue, parse_json, parse_value, string, object, array, member, no_members, no_values, kind_of,
}
use mural.Json.Writer.{json_string}
use mural.Json.Strings.{parse_string-json_string}
use mural.Json.Ends.{parse_json-ends}
use mural.Json.Depth.{depth, depth-parse_json}

-- A key that comes twice keeps its last value.
abbrev document : Text
document = text "{\"b\":[null, -1.5e3],\"a\":\"x\",\"b\":[]} "

abbrev read : JsonValue
read =
    object (member (text "a") (string (text "x")) (member (text "b") (array no_values) no_members))

reads_document : parse_json 60 document ≡ ok read
unfolding parse_json parse_value kind_of skip_spaces utf8_width text_eq text_lt
reads_document = refl

lone_surrogate : parse_json 60 (text "\"\\ude80\"") ≡ err (json_error missing_high_surrogate)
unfolding parse_json parse_value kind_of skip_spaces
lone_surrogate = refl

trailing : parse_json 60 (text "null null") ≡ err (json_error unexpected_trailing)
unfolding parse_json parse_value kind_of skip_spaces
trailing = refl

-- A quote, a line feed, a control character, and characters of two and four bytes.
abbrev odd : Text
odd = b'"' ∷ (10 ∷ (1 ∷ (0xe9 ∷ (0x1f680 ∷ []))))

parse_string-json_string_example :
    parse_string (utf8 (json_string odd) ++ text ", 1") ≡ (ok odd, text ", 1")
parse_string-json_string_example =
    parse_string-json_string odd (text ", 1") (refl, (refl, (refl, (refl, (refl, tt)))))

parse_json-ends_example : parse_json 60 document ≢ running
parse_json-ends_example = parse_json-ends 60 document (omega arith)

depth-parse_json_example : depth read ≤ 128
depth-parse_json_example = depth-parse_json 60 document read reads_document
