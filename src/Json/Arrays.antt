-- ===== src/Json/Arrays.antt =====
-- An array of texts that `parse_value` reads is read as the array of their values.
use mathlib.Core.List.{append_assoc}
use mural.Prelude.{
  ℕ, zero, suc, ◌+◌, ◌≤◌, ◌≡◌, refl, ap, ◌∙◌, true, false, List, [], ◌∷◌, ◌++◌, Text, text, ◌==◌,
  length, length-append, arith,
}
use mural.Exec.{ok}
use mural.Json.Utf8.{utf8, utf8_char}
use mural.Json.Chars.{Parser, is_space, skip_spaces}
use mural.Json.Value.{
  JsonValue, Values, no_values, value, parse_value, value_of, kind_of, array_loop, parse_array,
  more, check_nesting_depth,
}
use mural.Json.Writer.{separated, bracketed}
use mural.Json.Strings.{utf8-append}
use mural.Json.Reads.{Reads, value-step, skip_none, shallow}

pub record Item (d : ℕ) : Type 0 where
  pub written : Text
  pub means : JsonValue
  pub reads : Reads d written means

abbrev pub written : {d : ℕ} → List (Item d) → List Text
written [] = []
written (x ∷ xs) = x.written ∷ written xs

abbrev pub values_of : {d : ℕ} → List (Item d) → Values
values_of [] = no_values
values_of (x ∷ xs) = value x.means (values_of xs)

more-close : (rest : List ℕ) → more b']' (b']' ∷ rest) ≡ (ok false, rest)
unfolding more skip_spaces
more-close rest = refl

more-comma : (rest : List ℕ) → more b']' (b',' ∷ rest) ≡ (ok true, rest)
unfolding more skip_spaces
more-comma rest = refl

module _ (item : Parser JsonValue) where
  round-last :
      (n : ℕ) (s rest : List ℕ) (v : JsonValue)
      → item s ≡ (ok v, b']' ∷ rest)
      → array_loop item (suc n) true s ≡ (ok (value v no_values), rest)
  unfolding array_loop
  round-last n s rest v h = rw (h, more-close rest) refl

  round-more :
      (n : ℕ) (s t rest : List ℕ) (v : JsonValue) (vs : Values)
      → item s ≡ (ok v, b',' ∷ t)
      → array_loop item n true t ≡ (ok vs, rest)
      → array_loop item (suc n) true s ≡ (ok (value v vs), rest)
  unfolding array_loop
  round-more n s t rest v vs h k = rw (h, more-comma t, k) refl

  array-empty :
      (fuel : ℕ) (rest : List ℕ)
      → parse_array item fuel (b'[' ∷ (b']' ∷ rest)) ≡ (ok no_values, rest)
  unfolding parse_array skip_spaces
  array-empty fuel rest = refl

  array-items :
      (fuel b : ℕ) (s rest : List ℕ) (vs : Values)
      → is_space b ≡ false
      → (b == b']') ≡ false
      → array_loop item fuel true (b ∷ s) ≡ (ok vs, rest)
      → parse_array item fuel (b'[' ∷ (b ∷ s)) ≡ (ok vs, rest)
  unfolding parse_array
  array-items fuel b s rest vs solid opens h = rw (skip_none b s solid, opens, h) refl

length-item : {d : ℕ} (x : Item d) → length (utf8 x.written) ≡ suc (length x.reads.others)
length-item x = rw x.reads.bytes refl

pub utf8-comma : (t : Text) → utf8 (b',' ∷ t) ≡ b',' ∷ utf8 t
unfolding utf8 utf8_char
utf8-comma t = refl

pub bytes-separated :
    (t u : Text) (ts : List Text)
    → utf8 (separated (t ∷ (u ∷ ts))) ≡ utf8 t ++ (b',' ∷ utf8 (separated (u ∷ ts)))
unfolding separated
bytes-separated t u ts =
    utf8-append t (b',' ∷ separated (u ∷ ts)) ∙ ap (◌++◌ (utf8 t)) (utf8-comma (separated (u ∷ ts)))

pub bytes-one : (t : Text) → utf8 (separated (t ∷ [])) ≡ utf8 t
unfolding separated
bytes-one t = refl

size_of :
    {d : ℕ} (x y : Item d) (ys : List (Item d))
    → length (utf8 (separated (written (x ∷ (y ∷ ys)))))
      ≡ length (utf8 x.written) + 1 + length (utf8 (separated (written (y ∷ ys))))
size_of x y ys =
    let later = utf8 (separated (written (y ∷ ys))) in
    omega (
      arith,
      ap (length {A = ℕ}) (bytes-separated x.written y.written (written ys)),
      length-append (utf8 x.written) (b',' ∷ later),
    )

module _ {d : ℕ} (f depth : ℕ) (low : depth + 1 + d ≤ 128) where
  array_loop-items :
      (n : ℕ) (x : Item d) (xs : List (Item d)) (rest : List ℕ)
      → length (utf8 (separated (written (x ∷ xs)))) ≤ n
      → n ≤ suc f
      → array_loop
          (parse_value (suc f) (depth + 1))
          n
          true
          (utf8 (separated (written (x ∷ xs))) ++ (b']' ∷ rest))
        ≡ (ok (values_of (x ∷ xs)), rest)
  array_loop-items zero x [] rest short fits =
      absurd (omega (arith, length-item x, ap (length {A = ℕ}) (bytes-one x.written)))
  array_loop-items (suc n) x [] rest short fits =
      let size = ap (length {A = ℕ}) (bytes-one x.written) in
      rw (bytes-one x.written) (
        round-last (parse_value (suc f) (depth + 1)) n (utf8 x.written ++ (b']' ∷ rest)) rest
          x.means
          (x.reads.read f (depth + 1) (b']' ∷ rest)
            (omega (arith, length-item x, size, short, fits)) low refl))
  array_loop-items zero x (y ∷ ys) rest short fits =
      absurd (omega (arith, length-item x, size_of x y ys))
  array_loop-items (suc n) x (y ∷ ys) rest short fits =
      let later = utf8 (separated (written (y ∷ ys))) in
      let size = size_of x y ys in
      rw
        (
          bytes-separated x.written y.written (written ys),
          append_assoc (utf8 x.written) (b',' ∷ later) (b']' ∷ rest),
        )
        (round-more (parse_value (suc f) (depth + 1)) n
          (utf8 x.written ++ (b',' ∷ (later ++ (b']' ∷ rest)))) (later ++ (b']' ∷ rest)) rest
          x.means (values_of (y ∷ ys))
          (x.reads.read f (depth + 1) (b',' ∷ (later ++ (b']' ∷ rest)))
            (omega (arith, length-item x, size, short, fits)) low refl)
          (array_loop-items n y ys rest (omega (arith, length-item x, size, short))
            (omega (arith, fits))))

-- The first byte of the items is that of the first item.
head_of :
    {d : ℕ} (x : Item d) (xs : List (Item d))
    → (u : List ℕ) × (utf8 (separated (written (x ∷ xs))) ≡ x.reads.first ∷ u)
head_of x [] = (x.reads.others, bytes-one x.written ∙ x.reads.bytes)
head_of x (y ∷ ys) =
    let later = b',' ∷ utf8 (separated (written (y ∷ ys))) in
    (
      x.reads.others ++ later,
      bytes-separated x.written y.written (written ys) ∙ ap (λ t. t ++ later) x.reads.bytes,
    )

array-step :
    (fuel depth : ℕ) (s rest : List ℕ) (vs : Values)
    → depth + 1 ≤ 128
    → parse_array (parse_value fuel (depth + 1)) fuel (b'[' ∷ s) ≡ (ok vs, rest)
    → parse_value (suc fuel) depth (b'[' ∷ s) ≡ (ok (JsonValue.array vs), rest)
unfolding kind_of value_of check_nesting_depth
array-step fuel depth s rest vs low h =
    value-step fuel depth b'[' s refl ∙ rw (shallow depth low, h) refl

bytes-bracketed :
    (ts : List Text) → utf8 (bracketed ts) ≡ b'[' ∷ (utf8 (separated ts) ++ (b']' ∷ []))
unfolding bracketed utf8 utf8_char
bytes-bracketed ts = ap (◌∷◌ b'[') (utf8-append (separated ts) (text "]"))

no_separated : utf8 (separated []) ≡ []
unfolding separated utf8
no_separated = refl

read-array :
    {d : ℕ} (xs : List (Item d)) (fuel depth : ℕ) (rest : List ℕ)
    → length (utf8 (separated (written xs)) ++ (b']' ∷ [])) ≤ fuel
    → depth + suc d ≤ 128
    → parse_value (suc fuel) depth (b'[' ∷ (utf8 (separated (written xs)) ++ (b']' ∷ rest)))
      ≡ (ok (JsonValue.array (values_of xs)), rest)
read-array [] fuel depth rest n low = rw no_separated (
    array-step fuel depth (b']' ∷ rest) rest no_values (omega arith)
      (array-empty (parse_value fuel (depth + 1)) fuel rest))
read-array (x ∷ xs) zero depth rest n low =
    absurd (omega (arith, length-append (utf8 (separated (written (x ∷ xs)))) (b']' ∷ [])))
read-array (x ∷ xs) (suc f) depth rest n low =
    let (u, e) = head_of x xs in
    let items =
      array_loop-items f depth (omega arith) (suc f) x xs rest
        (omega (arith, n, length-append (utf8 (separated (written (x ∷ xs)))) (b']' ∷ [])))
        (omega arith) in
    rw e (
      array-step (suc f) depth (x.reads.first ∷ (u ++ (b']' ∷ rest))) rest (values_of (x ∷ xs))
        (omega arith)
        (array-items (parse_value (suc f) (depth + 1)) (suc f) x.reads.first (u ++ (b']' ∷ rest))
          rest (values_of (x ∷ xs)) x.reads.solid x.reads.opens (rw e at items)))

-- An array nests one deeper than its items.
pub Reads-array :
    {d : ℕ} (xs : List (Item d))
    → Reads (suc d) (bracketed (written xs)) (JsonValue.array (values_of xs))
Reads-array xs = record {
  first = b'[';
  others = utf8 (separated (written xs)) ++ (b']' ∷ []);
  bytes = bytes-bracketed (written xs);
  solid = refl;
  opens = refl;
  read = λ fuel depth rest n low k.
      ap (λ t. parse_value (suc fuel) depth (t ++ rest)) (bytes-bracketed (written xs))
      ∙ ap (λ t. parse_value (suc fuel) depth (b'[' ∷ t))
          (append_assoc (utf8 (separated (written xs))) (b']' ∷ []) rest)
      ∙ read-array xs fuel depth rest n low;
}
