-- ===== src/Json/Objects.antt =====
-- An object that is written from texts which `parse_value` reads is read as the map from its keys to
-- their values.
use mathlib.Core.List.{append_assoc}
use mural.Prelude.{
  ℕ, zero, suc, ◌+◌, ◌≤◌, ◌≡◌, refl, sym, ap, ◌∙◌, true, false, List, [], ◌∷◌, ◌++◌, map, Text,
  text, length, length-append, arith, All,
}
use mural.Exec.{ok}
use mural.Json.Utf8.{utf8, is_scalar, utf8_char}
use mural.Json.Chars.{Parser, skip_spaces}
use mural.Json.Value.{
  JsonValue, Members, no_members, insert, parse_value, value_of, kind_of, object_loop, parse_object,
  more, check_nesting_depth,
}
use mural.Json.Writer.{separated, object, key_value, json_string, json_chars}
use mural.Json.Strings.{utf8-append, bytes-json_string, parse_string-json_string}
use mural.Json.Reads.{Reads, value-step, skip_none, shallow}
use mural.Json.Arrays.{Item, bytes-separated, bytes-one}

pub record Field (d : ℕ) : Type 0 where
  pub key : Text
  pub scalars : All (λ c. is_scalar c ≡ true) key
  pub item : Item d

abbrev pub fields_of : {d : ℕ} → List (Field d) → List (Text × Text)
fields_of [] = []
fields_of (x ∷ xs) = (x.key, x.item.written) ∷ fields_of xs

-- What the loop makes of the fields, onto the map that it has.
abbrev pub members_onto : {d : ℕ} → Members → List (Field d) → Members
members_onto m [] = m
members_onto m (x ∷ xs) = members_onto (insert x.key x.item.means m) xs

more-close : (rest : List ℕ) → more b'}' (b'}' ∷ rest) ≡ (ok false, rest)
unfolding more skip_spaces
more-close rest = refl

more-comma : (rest : List ℕ) → more b'}' (b',' ∷ rest) ≡ (ok true, rest)
unfolding more skip_spaces
more-comma rest = refl

colon-solid : (s : List ℕ) → skip_spaces (b':' ∷ s) ≡ b':' ∷ s
colon-solid s = skip_none b':' s refl

-- A key and its colon, which begin with a quote.
key-head :
    (key : Text) (s : List ℕ)
    → skip_spaces (utf8 (json_string key) ++ s) ≡ utf8 (json_string key) ++ s
key-head key s =
    ap skip_spaces (bytes-json_string key s)
    ∙ skip_none b'"' (utf8 (json_chars key) ++ (b'"' ∷ s)) refl
    ∙ sym (bytes-json_string key s)

module _ (item : Parser JsonValue) (key : Text) (scalars : All (λ c. is_scalar c ≡ true) key) where
  round-last :
      (n : ℕ) (m : Members) (s rest : List ℕ) (v : JsonValue)
      → item s ≡ (ok v, b'}' ∷ rest)
      → object_loop item (suc n) m true (utf8 (json_string key) ++ (b':' ∷ s))
        ≡ (ok (insert key v m), rest)
  unfolding object_loop
  round-last n m s rest v h =
      rw
        (
          key-head key (b':' ∷ s),
          parse_string-json_string key (b':' ∷ s) scalars,
          colon-solid s,
          h,
          more-close rest,
        )
        refl

  round-more :
      (n : ℕ) (m : Members) (s t rest : List ℕ) (v : JsonValue) (o : Members)
      → item s ≡ (ok v, b',' ∷ t)
      → object_loop item n (insert key v m) true t ≡ (ok o, rest)
      → object_loop item (suc n) m true (utf8 (json_string key) ++ (b':' ∷ s)) ≡ (ok o, rest)
  unfolding object_loop
  round-more n m s t rest v o h k =
      rw
        (
          key-head key (b':' ∷ s),
          parse_string-json_string key (b':' ∷ s) scalars,
          colon-solid s,
          h,
          more-comma t,
          k,
        )
        refl

bytes-key_value :
    (key t : Text) → utf8 (key_value (key, t)) ≡ utf8 (json_string key) ++ (b':' ∷ utf8 t)
unfolding key_value utf8 utf8_char
bytes-key_value key t = utf8-append (json_string key) (b':' ∷ t)

abbrev shown_entries : {d : ℕ} → List (Field d) → List Text
shown_entries xs = map key_value (fields_of xs)

length-entry :
    {d : ℕ} (x : Field d)
    → length (utf8 (key_value (x.key, x.item.written)))
      ≡ length (utf8 (json_string x.key)) + 2 + length x.item.reads.others
length-entry x = omega (
  arith,
  ap (length {A = ℕ}) (bytes-key_value x.key x.item.written),
  length-append (utf8 (json_string x.key)) (b':' ∷ utf8 x.item.written),
  ap (length {A = ℕ}) x.item.reads.bytes,
)

size_of :
    {d : ℕ} (x y : Field d) (ys : List (Field d))
    → length (utf8 (separated (shown_entries (x ∷ (y ∷ ys)))))
      ≡ length (utf8 (key_value (x.key, x.item.written)))
        + 1
        + length (utf8 (separated (shown_entries (y ∷ ys))))
size_of x y ys =
    let entry = key_value (x.key, x.item.written) in
    let later = utf8 (separated (shown_entries (y ∷ ys))) in
    omega (
      arith,
      ap (length {A = ℕ})
          (bytes-separated entry (key_value (y.key, y.item.written)) (shown_entries ys)),
      length-append (utf8 entry) (b',' ∷ later),
    )

-- The bytes of a field, and what follows it.
entry-append :
    (key t : Text) (rest : List ℕ)
    → utf8 (key_value (key, t)) ++ rest ≡ utf8 (json_string key) ++ (b':' ∷ (utf8 t ++ rest))
entry-append key t rest =
    ap (λ u. u ++ rest) (bytes-key_value key t)
    ∙ append_assoc (utf8 (json_string key)) (b':' ∷ utf8 t) rest

module _ {d : ℕ} (f depth : ℕ) (low : depth + 1 + d ≤ 128) where
  object_loop-fields :
      (n : ℕ) (m : Members) (x : Field d) (xs : List (Field d)) (rest : List ℕ)
      → length (utf8 (separated (shown_entries (x ∷ xs)))) ≤ n
      → n ≤ suc f
      → object_loop
          (parse_value (suc f) (depth + 1))
          n
          m
          true
          (utf8 (separated (shown_entries (x ∷ xs))) ++ (b'}' ∷ rest))
        ≡ (ok (members_onto m (x ∷ xs)), rest)
  object_loop-fields zero m x [] rest short fits = absurd (
      omega (
        arith,
        length-entry x,
        ap (length {A = ℕ}) (bytes-one (key_value (x.key, x.item.written))),
      ))
  object_loop-fields (suc n) m x [] rest short fits =
      let size = ap (length {A = ℕ}) (bytes-one (key_value (x.key, x.item.written))) in
      rw
        (
          bytes-one (key_value (x.key, x.item.written)),
          entry-append x.key x.item.written (b'}' ∷ rest),
        )
        (round-last (parse_value (suc f) (depth + 1)) x.key x.scalars n m
          (utf8 x.item.written ++ (b'}' ∷ rest)) rest x.item.means
          (x.item.reads.read f (depth + 1) (b'}' ∷ rest)
            (omega (arith, length-entry x, size, short, fits)) low refl))
  object_loop-fields zero m x (y ∷ ys) rest short fits =
      absurd (omega (arith, length-entry x, size_of x y ys))
  object_loop-fields (suc n) m x (y ∷ ys) rest short fits =
      let entry = key_value (x.key, x.item.written) in
      let later = utf8 (separated (shown_entries (y ∷ ys))) in
      let size = size_of x y ys in
      rw
        (
          bytes-separated entry (key_value (y.key, y.item.written)) (shown_entries ys),
          append_assoc (utf8 entry) (b',' ∷ later) (b'}' ∷ rest),
          entry-append x.key x.item.written (b',' ∷ (later ++ (b'}' ∷ rest))),
        )
        (round-more (parse_value (suc f) (depth + 1)) x.key x.scalars n m
          (utf8 x.item.written ++ (b',' ∷ (later ++ (b'}' ∷ rest)))) (later ++ (b'}' ∷ rest)) rest
          x.item.means (members_onto m (x ∷ (y ∷ ys)))
          (x.item.reads.read f (depth + 1) (b',' ∷ (later ++ (b'}' ∷ rest)))
            (omega (arith, length-entry x, size, short, fits)) low refl)
          (object_loop-fields n (insert x.key x.item.means m) y ys rest
            (omega (arith, length-entry x, size, short)) (omega (arith, fits))))

module _ (item : Parser JsonValue) where
  object-empty :
      (fuel : ℕ) (rest : List ℕ)
      → parse_object item fuel (b'{' ∷ (b'}' ∷ rest)) ≡ (ok no_members, rest)
  unfolding parse_object skip_spaces
  object-empty fuel rest = refl

  object-fields :
      (fuel : ℕ) (s rest : List ℕ) (m : Members)
      → object_loop item fuel no_members true (b'"' ∷ s) ≡ (ok m, rest)
      → parse_object item fuel (b'{' ∷ (b'"' ∷ s)) ≡ (ok m, rest)
  unfolding parse_object
  object-fields fuel s rest m h = rw (skip_none b'"' s refl, h) refl

object-step :
    (fuel depth : ℕ) (s rest : List ℕ) (m : Members)
    → depth + 1 ≤ 128
    → parse_object (parse_value fuel (depth + 1)) fuel (b'{' ∷ s) ≡ (ok m, rest)
    → parse_value (suc fuel) depth (b'{' ∷ s) ≡ (ok (JsonValue.object m), rest)
unfolding kind_of value_of check_nesting_depth
object-step fuel depth s rest m low h =
    value-step fuel depth b'{' s refl ∙ rw (shallow depth low, h) refl

bytes-object :
    (fields : List (Text × Text))
    → utf8 (object fields) ≡ b'{' ∷ (utf8 (separated (map key_value fields)) ++ (b'}' ∷ []))
unfolding object utf8 utf8_char
bytes-object fields = ap (◌∷◌ b'{') (utf8-append (separated (map key_value fields)) (text "}"))

no_separated : utf8 (separated []) ≡ []
unfolding separated utf8
no_separated = refl

-- The fields begin with the quote of a key.
head_of :
    {d : ℕ} (x : Field d) (xs : List (Field d))
    → (u : List ℕ) × (utf8 (separated (shown_entries (x ∷ xs))) ≡ b'"' ∷ u)
head_of x [] =
    let t = b':' ∷ utf8 x.item.written in
    (
      utf8 (json_chars x.key) ++ (b'"' ∷ t),
      bytes-one (key_value (x.key, x.item.written))
          ∙ bytes-key_value x.key x.item.written
          ∙ bytes-json_string x.key t,
    )
head_of x (y ∷ ys) =
    let later = b',' ∷ utf8 (separated (shown_entries (y ∷ ys))) in
    let t = b':' ∷ utf8 x.item.written in
    (
      utf8 (json_chars x.key) ++ (b'"' ∷ t) ++ later,
      bytes-separated (key_value (x.key, x.item.written)) (key_value (y.key, y.item.written))
            (shown_entries ys)
          ∙ ap (λ u. u ++ later) (bytes-key_value x.key x.item.written ∙ bytes-json_string x.key t),
    )

read-object :
    {d : ℕ} (xs : List (Field d)) (fuel depth : ℕ) (rest : List ℕ)
    → length (utf8 (separated (shown_entries xs)) ++ (b'}' ∷ [])) ≤ fuel
    → depth + suc d ≤ 128
    → parse_value (suc fuel) depth (b'{' ∷ (utf8 (separated (shown_entries xs)) ++ (b'}' ∷ rest)))
      ≡ (ok (JsonValue.object (members_onto no_members xs)), rest)
read-object [] fuel depth rest n low = rw no_separated (
    object-step fuel depth (b'}' ∷ rest) rest no_members (omega arith)
      (object-empty (parse_value fuel (depth + 1)) fuel rest))
read-object (x ∷ xs) zero depth rest n low =
    absurd (omega (arith, length-append (utf8 (separated (shown_entries (x ∷ xs)))) (b'}' ∷ [])))
read-object (x ∷ xs) (suc f) depth rest n low =
    let (u, e) = head_of x xs in
    let fields =
      object_loop-fields f depth (omega arith) (suc f) no_members x xs rest
        (omega (arith, n, length-append (utf8 (separated (shown_entries (x ∷ xs)))) (b'}' ∷ [])))
        (omega arith) in
    rw e (
      object-step (suc f) depth (b'"' ∷ (u ++ (b'}' ∷ rest))) rest
        (members_onto no_members (x ∷ xs)) (omega arith)
        (object-fields (parse_value (suc f) (depth + 1)) (suc f) (u ++ (b'}' ∷ rest)) rest
          (members_onto no_members (x ∷ xs)) (rw e at fields)))

-- An object nests one deeper than its fields.
pub Reads-object :
    {d : ℕ} (xs : List (Field d))
    → Reads (suc d) (object (fields_of xs)) (JsonValue.object (members_onto no_members xs))
Reads-object xs = record {
  first = b'{';
  others = utf8 (separated (shown_entries xs)) ++ (b'}' ∷ []);
  bytes = bytes-object (fields_of xs);
  solid = refl;
  opens = refl;
  read = λ fuel depth rest n low k.
      ap (λ t. parse_value (suc fuel) depth (t ++ rest)) (bytes-object (fields_of xs))
      ∙ ap (λ t. parse_value (suc fuel) depth (b'{' ∷ t))
          (append_assoc (utf8 (separated (shown_entries xs))) (b'}' ∷ []) rest)
      ∙ read-object xs fuel depth rest n low;
}
