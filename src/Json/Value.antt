-- ===== src/Json/Value.antt =====
-- `JsonValue` and `parse_json` of json.rs.
use mural.Prelude.{
  ℕ, zero, suc, ◌+◌, Bool, true, false, not, ◌&&◌, ◌||◌, List, [], ◌∷◌, Text, text, text_eq, leb,
  ◌==◌, if◌then◌else◌, length, drop,
}
use mural.Exec.{
  Outcome, ok, err, pure, ◌>>=◌, ◌>>◌, continue, json_error, unexpected_byte, expected_literal,
  unexpected_end, unexpected_trailing, nesting_too_deep,
}
use mural.Path.{text_lt}
use mural.Json.Chars.{Parser, fail, expect, consume_if, skip_spaces, skip_whitespace, is_digit}
use mural.Json.Tokens.{parse_string, parse_number}

mutual
  -- A number is kept as it is written, an object is a map in the order of its keys.
  pub data JsonValue : Type 0 where
    null : JsonValue
    boolean : Bool → JsonValue
    number string : Text → JsonValue
    array : Values → JsonValue
    object : Members → JsonValue

  pub data Values : Type 0 where
    no_values : Values
    value : JsonValue → Values → Values

  pub data Members : Type 0 where
    no_members : Members
    member : Text → JsonValue → Members → Members

unfoldable pub starts_with : List ℕ → List ℕ → Bool
starts_with [] s = true
starts_with (a ∷ p) [] = false
starts_with (a ∷ p) (b ∷ s) = a == b && starts_with p s

unfoldable pub parse_literal : Text → JsonValue → Parser JsonValue
unfolding starts_with
parse_literal literal v s =
    if starts_with literal s
    then (ok v, drop (length literal) s)
    else (err (json_error (expected_literal literal)), s)

abbrev pub max_json_nesting_depth : ℕ
max_json_nesting_depth = 128

-- `BTreeMap::insert`: in the order of the keys, and a key that is there gets the new value.
unfoldable pub insert : Text → JsonValue → Members → Members
insert k v no_members = member k v no_members
insert k v (member j u rest) =
    let further = member j u (insert k v rest) in
    if text_eq j k
    then member k v rest
    else if text_lt j k
    then further
    else member k v (member j u rest)

-- What the first byte of a value announces.
pub data Kind : Type 0 where
  is_null is_true is_false is_string is_object is_array is_number at_end : Kind
  other : ℕ → Kind

unfoldable pub kind_of : List ℕ → Kind
kind_of [] = at_end
kind_of (b ∷ s) =
    if b == b'n'
    then is_null
    else if b == b't'
    then is_true
    else if b == b'f'
    then is_false
    else if b == b'"'
    then is_string
    else if b == b'{'
    then is_object
    else if b == b'['
    then is_array
    else if b == b'-' || is_digit b
    then is_number
    else other b

unfoldable pub check_nesting_depth : ℕ → Parser (Unit {0})
check_nesting_depth depth s =
    (if leb max_json_nesting_depth depth then err (json_error nesting_too_deep) else ok tt, s)

-- Unless the value was closed, a comma must follow, and another item.
unfoldable pub comma : Bool → Parser Bool
unfolding expect
comma true = pure false
comma false = do expect b','; pure true

-- Whether another item follows.
unfoldable pub more : ℕ → Parser Bool
unfolding consume_if comma
more close = do skip_whitespace; closed ← consume_if close; comma closed

-- The loops of `parse_array` and `parse_object` take the parser of a value that stands inside, and
-- fuel for their rounds. A round of the array's begins behind the bracket or a comma.
module _ (item : Parser JsonValue) where
  unfoldable pub array_loop : ℕ → Bool → Parser Values
  unfolding more
  array_loop fuel false s = (ok no_values, s)
  array_loop zero true s = (Outcome.running, s)
  array_loop (suc fuel) true s =
      (do v ← item; again ← more b']'; vs ← array_loop fuel again; pure (value v vs)) s

  unfoldable pub parse_array : ℕ → Parser Values
  unfolding array_loop expect consume_if
  parse_array fuel = do
    expect b'['
    skip_whitespace
    closed ← consume_if b']'
    array_loop fuel (not closed)

  unfoldable pub object_loop : ℕ → Members → Bool → Parser Members
  unfolding more parse_string expect insert
  object_loop fuel m false s = (ok m, s)
  object_loop zero m true s = (Outcome.running, s)
  object_loop (suc fuel) m true s =
      (do
        skip_whitespace
        key ← parse_string
        skip_whitespace
        expect b':'
        v ← item
        again ← more b'}'
        object_loop fuel (insert key v m) again)
        s

  unfoldable pub parse_object : ℕ → Parser Members
  unfolding object_loop expect consume_if
  parse_object fuel = do
    expect b'{'
    skip_whitespace
    closed ← consume_if b'}'
    object_loop fuel no_members (not closed)

  -- `parse_value` behind the white space, with the fuel that is left.
  unfoldable pub value_of : ℕ → ℕ → Kind → Parser JsonValue
  unfolding parse_literal parse_string parse_number check_nesting_depth parse_object parse_array
  value_of fuel depth is_null = parse_literal (text "null") null
  value_of fuel depth is_true = parse_literal (text "true") (boolean true)
  value_of fuel depth is_false = parse_literal (text "false") (boolean false)
  value_of fuel depth is_string = do t ← parse_string; pure (string t)
  value_of fuel depth is_object = do
    check_nesting_depth depth
    m ← parse_object fuel
    pure (object m)
  value_of fuel depth is_array = do
    check_nesting_depth depth
    vs ← parse_array fuel
    pure (array vs)
  value_of fuel depth is_number = do t ← parse_number; pure (number t)
  value_of fuel depth (other b) = fail (unexpected_byte b)
  value_of fuel depth at_end = fail unexpected_end

-- The fuel bounds the depth of the calls and the rounds of the loops.
unfoldable pub parse_value : ℕ → ℕ → Parser JsonValue
unfolding value_of
parse_value zero depth s = (Outcome.running, s)
parse_value (suc fuel) depth s =
    let t = skip_spaces s in value_of (parse_value fuel (depth + 1)) fuel depth (kind_of t) t

-- `parse_json`, with the fuel that the loops have.
unfoldable pub parse_json : ℕ → List ℕ → Outcome JsonValue
parse_json fuel input =
    let r = parse_value fuel 0 input in
    (continue r.0
      (λ v s. (if is_done (skip_spaces s) then ok v else err (json_error unexpected_trailing), s))
      r.1).0
  where
    is_done : List ℕ → Bool
    is_done [] = true
    is_done (b ∷ s) = false
