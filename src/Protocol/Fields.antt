-- ===== src/Protocol/Fields.antt =====
-- The accessors of json.rs, and the readers of fields in crates/mural-ipc/src/lib.rs.
use mural.Prelude.{
  ℕ, ◌-◌, ◌^◌, Bool, true, false, ◌||◌, Option, none, some, List, [], ◌∷◌, ◌++◌, Text, text,
  text_eq, ◌==◌, if◌then◌else◌, usize_max,
}
use mural.Exec.{Outcome, ok}
use mural.Results.{◌>>=◌, ◌>>◌, fail, refuse_if, ok_or}
use mural.Decimal.{parse_uint}
use mural.Json.Value.{JsonValue, Values, Members, no_values, value, no_members, member}
use mural.Protocol.Words.{Word, parse}

unfoldable pub as_object : JsonValue → Outcome Members
as_object (JsonValue.object m) = ok m
as_object _ = fail (text "expected JSON object")

unfoldable pub as_string : JsonValue → Outcome Text
as_string (JsonValue.string s) = ok s
as_string _ = fail (text "expected JSON string")

unfoldable pub as_bool : JsonValue → Outcome Bool
as_bool (JsonValue.boolean b) = ok b
as_bool _ = fail (text "expected JSON boolean")

-- `BTreeMap::get`
unfoldable pub get : Members → Text → Option JsonValue
get no_members key = none
get (member j v m) key = if text_eq j key then some v else get m key

abbrev pub quoted : Text → Text
quoted key = b'\'' ∷ (key ++ text "'")

abbrev pub missing : Text → Text
missing key = text "missing required field " ++ quoted key

abbrev pub field : Text → Text → Text
field key problem = text "field " ++ (quoted key ++ problem)

-- `object.get(key).map(f).transpose()`
abbrev pub optional : {A : Type 0} → (JsonValue → Outcome A) → Option JsonValue → Outcome (Option A)
optional read none = ok none
optional read (some v) = read v >>= λ a. ok (some a)

unfoldable pub required_string : Members → Text → Outcome Text
unfolding get as_string
required_string m key = ok_or (get m key) (missing key) >>= as_string

unfoldable pub optional_string : Members → Text → Outcome (Option Text)
unfolding get as_string
optional_string m key = optional as_string (get m key)

unfoldable pub optional_bool : Members → Text → Outcome (Option Bool)
unfolding get as_bool
optional_bool m key = optional as_bool (get m key)

unfoldable pub is_negative : Text → Bool
is_negative [] = false
is_negative (c ∷ s) = c == b'-'

-- `number.contains(['.', 'e', 'E'])`
unfoldable pub is_fractional : Text → Bool
is_fractional [] = false
is_fractional (c ∷ s) = c == b'.' || c == b'e' || c == b'E' || is_fractional s

-- `parse_json_usize` and `parse_json_u32`, which differ in the largest value.
unfoldable pub parse_json_uint : ℕ → Text → Text → Outcome ℕ
unfolding is_negative is_fractional parse_uint
parse_json_uint max number key =
    refuse_if (is_negative number) (field key (text " must not be negative"))
    >> refuse_if (is_fractional number) (field key (text " must be an integer"))
    >> ok_or (parse_uint max number) (field key (text " is out of range"))

unfoldable pub as_uint : ℕ → Text → JsonValue → Outcome ℕ
unfolding parse_json_uint
as_uint max key (JsonValue.number n) = parse_json_uint max n key
as_uint max key _ = fail (field key (text " must be an integer"))

-- `optional_u64` and `optional_usize`, whose types have the same largest value.
unfoldable pub optional_usize : Members → Text → Outcome (Option ℕ)
unfolding get as_uint
optional_usize m key = optional (as_uint usize_max key) (get m key)

abbrev pub u32_max : ℕ
u32_max = 2 ^ 32 - 1

-- A null counts as missing.
unfoldable pub as_u32 : Text → JsonValue → Outcome (Option ℕ)
unfolding as_uint
as_u32 key JsonValue.null = ok none
as_u32 key v = as_uint u32_max key v >>= λ n. ok (some n)

unfoldable pub optional_u32 : Members → Text → Outcome (Option ℕ)
unfolding get as_u32
optional_u32 m key = elim (get m key) [ none ↦ ok none | some v ↦ as_u32 key v ]

-- A required field that is read by an optional reader.
abbrev pub required :
    {A : Type 0} → (Members → Text → Outcome (Option A)) → Members → Text → Outcome A
required read m key = read m key >>= λ o. ok_or o (missing key)

abbrev pub or_default : {A : Type 0} → Outcome (Option A) → A → Outcome A
or_default (ok none) default = ok default
or_default (ok (some a)) default = ok a
or_default (Outcome.err e) default = Outcome.err e
or_default Outcome.running default = Outcome.running

-- `optional_string(object, key)?.map_or(Ok(default), A::parse)`
abbrev pub word_or : {A : Type 0} ⦃w : Word A⦄ → Outcome (Option Text) → A → Outcome A
word_or (ok none) default = ok default
word_or (ok (some t)) default = parse t
word_or (Outcome.err e) default = Outcome.err e
word_or Outcome.running default = Outcome.running

-- `values.iter().map(f).collect()`
unfoldable pub collect : {A : Type 0} → (JsonValue → Outcome A) → Values → Outcome (List A)
collect read no_values = ok []
collect read (value v vs) = read v >>= λ a. collect read vs >>= λ as'. ok (a ∷ as')

-- The same over a map, in the order of the keys.
unfoldable pub collect_map :
    {A : Type 0} → (Text → JsonValue → Outcome A) → Members → Outcome (List (Text × A))
collect_map read no_members = ok []
collect_map read (member key v m) =
    read key v >>= λ a. collect_map read m >>= λ as'. ok ((key, a) ∷ as')

unfoldable pub no_fields : Members → Bool
no_fields no_members = true
no_fields (member key v m) = false

abbrev pub no_text : Text → Bool
no_text [] = true
no_text (c ∷ s) = false

unfoldable pub as_strings : Text → JsonValue → Outcome (List Text)
unfolding collect as_string
as_strings key (JsonValue.array vs) = collect as_string vs
as_strings key _ = fail (field key (text " must be an array"))

-- An array of strings, if the field is there.
unfoldable pub optional_strings : Members → Text → Outcome (Option (List Text))
unfolding get as_strings
optional_strings m key = optional (as_strings key) (get m key)

unfoldable pub output_path : Text → JsonValue → Outcome Text
unfolding as_string
output_path name v = as_string v >>= λ path.
    refuse_if (no_text name) (text "output name must not be empty")
    >> refuse_if (no_text path)
        (text "image path for output " ++ (name ++ text " must not be empty"))
    >> ok path

unfoldable pub required_outputs : Members → Outcome (List (Text × Text))
required_outputs m =
    ok_or (get m (text "outputs")) (missing (text "outputs")) >>= as_object >>= λ outputs.
    refuse_if (no_fields outputs) (field (text "outputs") (text " must not be empty"))
    >> collect_map output_path outputs
