-- ===== src/Json/Reads.antt =====
-- When `parse_value` takes a text for a value, whatever follows the text: the texts of strings,
-- numbers and literals, and of the arrays and objects that are made from such texts.
use mathlib.Core.List.{append-nil}
use mural.Prelude.{
  ℕ, suc, ◌+◌, ◌≤◌, ◌<◌, ◌≡◌, refl, sym, ap, ◌∙◌, true, false, List, [], ◌∷◌, ◌++◌, Text, text, leb,
  ◌==◌, length, arith, All, usize_max, Bool,
}
use mural.Exec.{Outcome, ok, continue}
use mural.Decimal.{print_usize}
use mural.Decimal.Back.{IsDigit, print_usize-Digits}
use mural.Json.Utf8.{utf8, is_scalar}
use mural.Json.Chars.{is_space, skip_spaces}
use mural.Json.Tokens.{parse_string, parse_number}
use mural.Json.Value.{JsonValue, parse_json, parse_value, value_of, kind_of, is_number, starts_with}
use mural.Json.Writer.{json_string, json_chars, encode_bool}
use mural.Json.Strings.{parse_string-json_string, bytes-json_string, utf8-ascii}
use mural.Json.Numbers.{
  stops, Integer, parse_number-Integer, parse_number-decimal, parse_number-negative,
}

-- `t` nests `d` deep, begins with a byte that neither is a space nor closes an array, and is read as
-- `v` by a parser with as much fuel as it has bytes.
pub record Reads (d : ℕ) (t : Text) (v : JsonValue) : Type 0 where
  pub first : ℕ
  pub others : List ℕ
  pub bytes : utf8 t ≡ first ∷ others
  pub solid : is_space first ≡ false
  pub opens : (first == b']') ≡ false
  pub read :
      (fuel depth : ℕ) (rest : List ℕ)
      → length others ≤ fuel
      → depth + d ≤ 128
      → stops rest ≡ true
      → parse_value (suc fuel) depth (utf8 t ++ rest) ≡ (ok v, rest)

pub skip_none : (b : ℕ) (s : List ℕ) → is_space b ≡ false → skip_spaces (b ∷ s) ≡ b ∷ s
unfolding skip_spaces
skip_none b s h = rw h refl

pub value-step :
    (fuel depth b : ℕ) (s : List ℕ)
    → is_space b ≡ false
    → parse_value (suc fuel) depth (b ∷ s)
      ≡ value_of (parse_value fuel (depth + 1)) fuel depth (kind_of (b ∷ s)) (b ∷ s)
unfolding parse_value
value-step fuel depth b s h = rw (skip_none b s h) refl

pub shallow : (depth : ℕ) → depth + 1 ≤ 128 → leb 128 depth ≡ false
shallow depth low = ground arith

-- The value that a parser found, as a JSON value.
abbrev as_value : {A : Type 0} → (A → JsonValue) → Outcome A × List ℕ → Outcome JsonValue × List ℕ
as_value make r = continue r.0 (λ a s. (ok (make a), s)) r.1

string-step :
    (fuel depth : ℕ) (s : List ℕ)
    → parse_value (suc fuel) depth (b'"' ∷ s) ≡ as_value JsonValue.string (parse_string (b'"' ∷ s))
unfolding kind_of value_of
string-step fuel depth s = value-step fuel depth b'"' s refl

pub Reads-string :
    (d : ℕ) (s : Text)
    → All (λ c. is_scalar c ≡ true) s
    → Reads d (json_string s) (JsonValue.string s)
Reads-string d s h =
    let e : utf8 (json_string s) ≡ b'"' ∷ (utf8 (json_chars s) ++ (b'"' ∷ [])) =
      sym (append-nil (utf8 (json_string s))) ∙ bytes-json_string s [] in
    record {
      first = b'"';
      others = utf8 (json_chars s) ++ (b'"' ∷ []);
      bytes = e;
      solid = refl;
      opens = refl;
      read = λ fuel depth rest n l k.
          ap (λ t. parse_value (suc fuel) depth (t ++ rest)) e
          ∙ string-step fuel depth ((utf8 (json_chars s) ++ (b'"' ∷ [])) ++ rest)
          ∙ ap (λ t. as_value JsonValue.string (parse_string (t ++ rest))) (sym e)
          ∙ ap (as_value JsonValue.string) (parse_string-json_string s rest h);
    }

digit_kind : (c : ℕ) (s : List ℕ) → IsDigit c → kind_of (c ∷ s) ≡ is_number
unfolding kind_of
digit_kind c s h = ground arith

number-step :
    (fuel depth c : ℕ) (s : List ℕ)
    → IsDigit c
    → parse_value (suc fuel) depth (c ∷ s) ≡ as_value JsonValue.number (parse_number (c ∷ s))
unfolding value_of
number-step fuel depth c s h =
    value-step fuel depth c s (ground arith) ∙ (rw (digit_kind c s h) refl)

digits-ascii : (s : Text) → All IsDigit s → All (λ c. c < 0x80) s
digits-ascii [] h = tt
digits-ascii (c ∷ s) h = (omega arith, digits-ascii s h.1)

Reads-number :
    (d c : ℕ) (s : Text)
    → IsDigit c
    → All (λ b. b < 0x80) s
    → ((rest : List ℕ) → stops rest ≡ true → parse_number ((c ∷ s) ++ rest) ≡ (ok (c ∷ s), rest))
    → Reads d (c ∷ s) (JsonValue.number (c ∷ s))
Reads-number d c s h low p =
    let e : utf8 (c ∷ s) ≡ c ∷ s = utf8-ascii (c ∷ s) (omega arith, low) in
    record {
      first = c;
      others = s;
      bytes = e;
      solid = ground arith;
      opens = ground arith;
      read = λ fuel depth rest n l k.
          ap (λ t. parse_value (suc fuel) depth (t ++ rest)) e
          ∙ number-step fuel depth c (s ++ rest) h
          ∙ ap (as_value JsonValue.number) (p rest k);
    }

pub Reads-usize :
    (d n : ℕ) → n ≤ usize_max → Reads d (print_usize n) (JsonValue.number (print_usize n))
Reads-usize d n h =
    let x = print_usize-Digits n h in
    rw x.written (
      Reads-number d x.first x.others x.digits.0 (digits-ascii x.others x.digits.1) (λ rest k.
        parse_number-Integer x.first x.others rest (record { digits = x.digits; lead = x.lead }) k))

negative-step :
    (fuel depth : ℕ) (s : List ℕ)
    → parse_value (suc fuel) depth (b'-' ∷ s) ≡ as_value JsonValue.number (parse_number (b'-' ∷ s))
unfolding kind_of value_of
negative-step fuel depth s = value-step fuel depth b'-' s refl

pub Reads-negative :
    (d n : ℕ)
    → n ≤ usize_max
    → Reads d (b'-' ∷ print_usize n) (JsonValue.number (b'-' ∷ print_usize n))
Reads-negative d n h =
    let x = print_usize-Digits n h in
    let t = x.first ∷ x.others in
    let low : All (λ c. c < 0x80) t = digits-ascii t x.digits in
    let e : utf8 (b'-' ∷ t) ≡ b'-' ∷ t = utf8-ascii (b'-' ∷ t) (omega arith, low) in
    rw x.written (record {
      first = b'-';
      others = t;
      bytes = e;
      solid = refl;
      opens = refl;
      read = λ fuel depth rest n l k.
          ap (λ u. parse_value (suc fuel) depth (u ++ rest)) e
          ∙ negative-step fuel depth (t ++ rest)
          ∙ ap (as_value JsonValue.number) (
              parse_number-negative x.first x.others rest
                (record { digits = x.digits; lead = x.lead }) k);
    })

-- An integer and a fraction.
pub record Decimal (t : Text) : Type 0 where
  pub first : ℕ
  pub others : Text
  pub digit : ℕ
  pub digits : Text
  pub written : t ≡ (first ∷ others) ++ (b'.' ∷ (digit ∷ digits))
  pub integer : Integer first others
  pub fraction : All IsDigit (digit ∷ digits)

decimal-ascii :
    (s ds : Text) → All IsDigit s → All IsDigit ds → All (λ b. b < 0x80) (s ++ (b'.' ∷ ds))
decimal-ascii [] ds h k = (omega arith, digits-ascii ds k)
decimal-ascii (c ∷ s) ds h k = (omega arith, decimal-ascii s ds h.1 k)

pub Reads-Decimal : (d : ℕ) (t : Text) → Decimal t → Reads d t (JsonValue.number t)
Reads-Decimal d t x = rw x.written (
    Reads-number d x.first (x.others ++ (b'.' ∷ (x.digit ∷ x.digits))) x.integer.digits.0
      (decimal-ascii x.others (x.digit ∷ x.digits) x.integer.digits.1 x.fraction)
      (λ rest k.
        parse_number-decimal x.first x.others x.digit x.digits rest x.integer x.fraction k))

pub Reads-null : (d : ℕ) → Reads d (text "null") JsonValue.null
unfolding utf8 value_of kind_of starts_with
Reads-null d = record {
  first = b'n';
  others = text "ull";
  bytes = refl;
  solid = refl;
  opens = refl;
  read = λ fuel depth rest n l k. value-step fuel depth b'n' (text "ull" ++ rest) refl;
}

pub Reads-boolean : (d : ℕ) (b : Bool) → Reads d (encode_bool b) (JsonValue.boolean b)
unfolding utf8 value_of kind_of starts_with encode_bool
Reads-boolean d true = record {
  first = b't';
  others = text "rue";
  bytes = refl;
  solid = refl;
  opens = refl;
  read = λ fuel depth rest n l k. value-step fuel depth b't' (text "rue" ++ rest) refl;
}
Reads-boolean d false = record {
  first = b'f';
  others = text "alse";
  bytes = refl;
  solid = refl;
  opens = refl;
  read = λ fuel depth rest n l k. value-step fuel depth b'f' (text "alse" ++ rest) refl;
}

-- A bound on the depth may be raised.
pub Reads-deeper : {d : ℕ} {t : Text} {v : JsonValue} (e : ℕ) → d ≤ e → Reads d t v → Reads e t v
Reads-deeper e h r = record {
  first = r.first;
  others = r.others;
  bytes = r.bytes;
  solid = r.solid;
  opens = r.opens;
  read = λ fuel depth rest n low k. r.read fuel depth rest n (omega arith) k;
}

parse_json-of :
    (fuel : ℕ) (input : List ℕ) (v : JsonValue)
    → parse_value fuel 0 input ≡ (ok v, [])
    → parse_json fuel input ≡ ok v
unfolding parse_json skip_spaces
parse_json-of fuel input v h = rw (h, parse_json) refl

-- A whole document.
pub parse_json-Reads :
    {d : ℕ} (t : Text) (v : JsonValue)
    → Reads d t v
    → d ≤ 128
    → parse_json (length (utf8 t) + 1) (utf8 t) ≡ ok v
parse_json-Reads t v r low =
    let e =
      r.read (length (utf8 t)) 0 [] (omega (arith, ap (length {A = ℕ}) r.bytes))
        (omega (arith, low)) refl in
    let one : length (utf8 t) + 1 ≡ suc (length (utf8 t)) = omega arith in
    rw one (parse_json-of (suc (length (utf8 t))) (utf8 t) v (rw append-nil at e))
