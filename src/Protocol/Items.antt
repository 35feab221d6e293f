-- ===== src/Protocol/Items.antt =====
-- The texts that are written for the fields of a message, with the values that they are read as, and
-- what the readers of fields make of these values.
use mural.Prelude.{
  ℕ, suc, ◌≤◌, ◌≡◌, refl, Bool, true, false, ◌&&◌, none, some, List, [], ◌∷◌, map, Text, text,
  arith, All, usize_max, ap, ◌==◌,
}
use mural.Exec.{ok}
use mural.Decimal.{print_usize}
use mural.Decimal.Back.{IsDigit, print_usize-Digits}
use mural.Json.Utf8.{is_scalar}
use mural.Json.Value.{JsonValue, Members}
use mural.Json.Writer.{json_string, encode_bool, encode_string_array}
use mural.Json.Reads.{Reads, Reads-string, Reads-usize, Reads-boolean, Reads-null, Reads-deeper}
use mural.Json.Arrays.{Item, written, values_of, Reads-array}
use mural.Json.Objects.{Field}
use mural.Protocol.Words.{Word, as_str}
use mural.Protocol.Fields.{
  get, as_string, as_bool, collect, optional_string, required_string, optional_bool, optional_usize,
  optional_u32, optional_strings, as_uint, as_u32, as_strings, parse_json_uint, is_negative,
  is_fractional, u32_max, word_or,
}

abbrev pub IsScalars : Text → Type 0
IsScalars t = All (λ c. is_scalar c ≡ true) t

abbrev pub all_scalar : Text → Bool
all_scalar [] = true
all_scalar (c ∷ s) = is_scalar c && all_scalar s

pub all_scalar-IsScalars : (t : Text) → all_scalar t ≡ true → IsScalars t
all_scalar-IsScalars [] h = tt
all_scalar-IsScalars (c ∷ s) h = ground (arith, all_scalar-IsScalars s)

-- A field whose key is a literal.
abbrev pub at : {d : ℕ} (key : Text) → all_scalar key ≡ true → Item d → Field d
at key h i = record { key = key; scalars = all_scalar-IsScalars key h; item = i }

abbrev pub string_item : {d : ℕ} (t : Text) → IsScalars t → Item d
string_item {d} t h = record {
  written = json_string t;
  means = JsonValue.string t;
  reads = Reads-string d t h;
}

abbrev pub word_item : {d : ℕ} {A : Type 0} ⦃w : Word A⦄ → A → Item d
word_item ⦃w⦄ a = string_item (as_str a) (w.scalars a)

abbrev pub usize_item : {d : ℕ} (n : ℕ) → n ≤ usize_max → Item d
usize_item {d} n h = record {
  written = print_usize n;
  means = JsonValue.number (print_usize n);
  reads = Reads-usize d n h;
}

abbrev pub bool_item : {d : ℕ} → Bool → Item d
bool_item {d} b = record {
  written = encode_bool b;
  means = JsonValue.boolean b;
  reads = Reads-boolean d b;
}

abbrev pub null_item : {d : ℕ} → Item d
null_item {d} = record { written = text "null"; means = JsonValue.null; reads = Reads-null d }

abbrev pub string_items : {d : ℕ} (ts : List Text) → All IsScalars ts → List (Item d)
string_items [] h = []
string_items (t ∷ ts) h = string_item t h.0 ∷ string_items ts h.1

written-string_items :
    (d : ℕ) (ts : List Text) (h : All IsScalars ts)
    → written (string_items {d = d} ts h) ≡ map json_string ts
written-string_items d [] h = refl
written-string_items d (t ∷ ts) h = ap (◌∷◌ (json_string t)) (written-string_items d ts h.1)

abbrev pub strings_value : (ts : List Text) → All IsScalars ts → JsonValue
strings_value ts h = JsonValue.array (values_of (string_items {d = 0} ts h))

pub Reads-encode_string_array :
    (d : ℕ) (ts : List Text) (h : All IsScalars ts)
    → Reads (suc d) (encode_string_array ts) (strings_value ts h)
unfolding encode_string_array
Reads-encode_string_array d ts h =
    Reads-deeper {d = 1} (suc d) (omega arith)
      (rw (← written-string_items 0 ts h) (Reads-array (string_items {d = 0} ts h)))

abbrev pub strings_item : {d : ℕ} (ts : List Text) → All IsScalars ts → Item (suc d)
strings_item {d} ts h = record {
  written = encode_string_array ts;
  means = strings_value ts h;
  reads = Reads-encode_string_array d ts h;
}

pub digits-plain : (s : Text) → All IsDigit s → is_fractional s ≡ false
unfolding is_fractional
digits-plain [] h = refl
digits-plain (c ∷ s) h = ground (arith, digits-plain s h.1)

pub parse_json_uint-print_usize :
    (max n : ℕ) (key : Text)
    → n ≤ max
    → n ≤ usize_max
    → parse_json_uint max (print_usize n) key ≡ ok n
unfolding parse_json_uint is_negative
parse_json_uint-print_usize max n key h k =
    let d = print_usize-Digits n k in
    let sign : (d.first == b'-') ≡ false = ground (arith, d.digits.0) in
    rw (d.written, sign, digits-plain (d.first ∷ d.others) d.digits, d.read max h) refl

-- What a reader of a field gives, by the value that is at the key.
module _ (m : Members) (key : Text) where
  pub usize_at :
      (n : ℕ)
      → n ≤ usize_max
      → get m key ≡ some (JsonValue.number (print_usize n))
      → optional_usize m key ≡ ok (some n)
  unfolding optional_usize as_uint
  usize_at n h e = rw (e, parse_json_uint-print_usize usize_max n key h h) refl

  pub usize_missing : get m key ≡ none → optional_usize m key ≡ ok none
  unfolding optional_usize
  usize_missing e = rw e refl

  pub string_missing : get m key ≡ none → optional_string m key ≡ ok none
  unfolding optional_string
  string_missing e = rw e refl

  pub u32_at :
      (n : ℕ)
      → n ≤ u32_max
      → get m key ≡ some (JsonValue.number (print_usize n))
      → optional_u32 m key ≡ ok (some n)
  unfolding optional_u32 as_u32 as_uint
  u32_at n h e =
      rw (e, parse_json_uint-print_usize u32_max n key h (omega arith), optional_u32) refl

  pub string_at :
      (t : Text) → get m key ≡ some (JsonValue.string t) → optional_string m key ≡ ok (some t)
  unfolding optional_string as_string
  string_at t e = rw e refl

  pub required_at :
      (t : Text) → get m key ≡ some (JsonValue.string t) → required_string m key ≡ ok t
  unfolding required_string as_string
  required_at t e = rw e refl

  pub word_at :
      {A : Type 0} ⦃w : Word A⦄ (a default : A)
      → get m key ≡ some (JsonValue.string (as_str a))
      → word_or (optional_string m key) default ≡ ok a
  word_at ⦃w⦄ a default e = rw (string_at (as_str a) e) (w.read_back a)

  pub bool_at :
      (b : Bool) → get m key ≡ some (JsonValue.boolean b) → optional_bool m key ≡ ok (some b)
  unfolding optional_bool as_bool
  bool_at b e = rw e refl

  pub collect-strings :
      (ts : List Text) (h : All IsScalars ts)
      → collect as_string (values_of (string_items {d = 0} ts h)) ≡ ok ts
  unfolding collect as_string
  collect-strings [] h = refl
  collect-strings (t ∷ ts) h = rw (collect-strings ts h.1) refl

  pub strings_at :
      (ts : List Text) (h : All IsScalars ts)
      → get m key ≡ some (strings_value ts h)
      → optional_strings m key ≡ ok (some ts)
  unfolding optional_strings as_strings
  strings_at ts h e = rw (e, collect-strings ts h) refl
