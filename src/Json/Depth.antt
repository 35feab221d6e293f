-- ===== src/Json/Depth.antt =====
-- How deeply the values nest that `parse_json` accepts.
use mural.Prelude.{
  ℕ, zero, suc, ◌+◌, ◌-◌, ◌≤◌, ◌<◌, max, ◌≡◌, Bool, true, false, not, List, Text, arith,
}
use mural.Exec.{Outcome, ok, err, running, continue, ◌>>=◌}
use mural.Json.Chars.{Parser, expect, consume_if, skip_spaces, skip_whitespace}
use mural.Json.Tokens.{parse_string, parse_number}
use mural.Json.Value.{
  JsonValue, Values, Members, array, object, string, number, null, boolean, value, no_values,
  member, no_members, parse_literal, more, array_loop, parse_array, object_loop, parse_object,
  value_of, parse_value, parse_json, Kind, kind_of, check_nesting_depth, insert,
  max_json_nesting_depth, is_null, is_true, is_false, is_string, is_object, is_array, is_number,
  other, at_end,
}

-- The brackets and braces around the innermost value.
unfoldable mutual
  pub depth : JsonValue → ℕ
  depth null = 0
  depth (boolean b) = 0
  depth (number t) = 0
  depth (string t) = 0
  depth (array vs) = suc (depth_values vs)
  depth (object m) = suc (depth_members m)

  pub depth_values : Values → ℕ
  depth_values no_values = 0
  depth_values (value v vs) = max (depth v) (depth_values vs)

  pub depth_members : Members → ℕ
  depth_members no_members = 0
  depth_members (member k v m) = max (depth v) (depth_members m)

-- A success has a result with the property.
abbrev Holds : {A : Type 0} → (A → Type 0) → Outcome A → Type 0
Holds P (ok a) = P a
Holds P (err e) = Unit
Holds P running = Unit

record Yields {A : Type 0} (P : A → Type 0) (p : Parser A) : Type 0 where
  at : (s : List ℕ) → Holds P (p s).0

module _ {A B : Type 0} (Q : B → Type 0) where
  Holds-continue :
      (P : A → Type 0) (o : Outcome A) (t : List ℕ) (f : A → Parser B)
      → Holds P o
      → ((a : A) → P a → Yields Q (f a))
      → Holds Q (continue o f t).0
  Holds-continue P (ok a) t f h g = (g a h).at t
  Holds-continue P (err e) t f h g = tt
  Holds-continue P running t f h g = tt

  Yields-bind :
      (P : A → Type 0) (p : Parser A) (f : A → Parser B)
      → Yields P p
      → ((a : A) → P a → Yields Q (f a))
      → Yields Q (p >>= f)
  Yields-bind P p f e g = record { at = λ s. Holds-continue P (p s).0 (p s).1 f (e.at s) g }

  -- Whatever the first parser gives.
  Yields-then : (p : Parser A) (f : A → Parser B) → ((a : A) → Yields Q (f a)) → Yields Q (p >>= f)
  Yields-then p f g = record { at = λ s. go (p s).0 (p s).1 }
    where
      go : (o : Outcome A) (t : List ℕ) → Holds Q (continue o f t).0
      go (ok a) t = (g a).at t
      go (err e) t = tt
      go running t = tt

Yields-map :
    {A : Type 0} (P Q : A → Type 0) (p : Parser A) → Yields P p → ((a : A) → P a → Q a) → Yields Q p
Yields-map {A = A} P Q p e f = record { at = λ s. go (p s).0 (e.at s) }
  where
    go : (o : Outcome A) → Holds P o → Holds Q o
    go (ok a) h = f a h
    go (err x) h = tt
    go running h = tt

depth-insert :
    (k : Text) (v : JsonValue) (m : Members)
    → depth_members (insert k v m) ≤ max (depth v) (depth_members m)
unfolding insert depth
depth-insert k v no_members = omega arith
depth-insert k v (member j u m) = ground (arith, depth-insert k v m)

module _ (item : Parser JsonValue) (d : ℕ) (inner : Yields (λ v. depth v ≤ d) item) where
  Yields-array_loop :
      (fuel : ℕ) (again : Bool) → Yields (λ vs. depth_values vs ≤ d) (array_loop item fuel again)
  unfolding array_loop depth
  Yields-array_loop fuel false = record { at = λ s. omega arith }
  Yields-array_loop zero true = record { at = λ s. tt }
  Yields-array_loop (suc fuel) true =
      Yields-bind _ (λ v. depth v ≤ d) item _ inner
        (λ v h. Yields-then _ (more b']') _ (λ again.
          Yields-bind _ (λ vs. depth_values vs ≤ d) (array_loop item fuel again) _
            (Yields-array_loop fuel again) (λ vs k. record { at = λ s. omega arith })))

  Yields-parse_array : (fuel : ℕ) → Yields (λ vs. depth_values vs ≤ d) (parse_array item fuel)
  unfolding parse_array
  Yields-parse_array fuel = Yields-then _ (expect b'[') _ (λ _.
      Yields-then _ skip_whitespace _
        (λ _. Yields-then _ (consume_if b']') _ (λ closed. Yields-array_loop fuel (not closed))))

  Yields-object_loop :
      (fuel : ℕ) (m : Members) (again : Bool)
      → depth_members m ≤ d
      → Yields (λ r. depth_members r ≤ d) (object_loop item fuel m again)
  unfolding object_loop
  Yields-object_loop fuel m false h = record { at = λ s. h }
  Yields-object_loop zero m true h = record { at = λ s. tt }
  Yields-object_loop (suc fuel) m true h = Yields-then _ skip_whitespace _ (λ _.
      Yields-then _ parse_string _ (λ key. Yields-then _ skip_whitespace _ (λ _.
        Yields-then _ (expect b':') _ (λ _.
          Yields-bind _ (λ v. depth v ≤ d) item _ inner
            (λ v k. Yields-then _ (more b'}') _ (λ again.
              Yields-object_loop fuel (insert key v m) again
                (omega (arith, depth-insert key v m))))))))

  Yields-parse_object : (fuel : ℕ) → Yields (λ m. depth_members m ≤ d) (parse_object item fuel)
  unfolding parse_object depth
  Yields-parse_object fuel = Yields-then _ (expect b'{') _ (λ _.
      Yields-then _ skip_whitespace _ (λ _.
        Yields-then _ (consume_if b'}') _
          (λ closed. Yields-object_loop fuel no_members (not closed) (omega arith))))

-- What may still nest inside a value at depth `e`.
abbrev Fits : ℕ → JsonValue → Type 0
Fits e v = depth v + e ≤ max_json_nesting_depth

Yields-check : (e : ℕ) → Yields (λ _. e < max_json_nesting_depth) (check_nesting_depth e)
unfolding check_nesting_depth
Yields-check e = record { at = λ s. ground arith }

-- What may nest inside a value that stands inside one at depth `e`.
abbrev room : ℕ → ℕ
room e = max_json_nesting_depth - (e + 1)

Yields-room :
    (item : Parser JsonValue) (e : ℕ)
    → Yields (Fits (e + 1)) item
    → Yields (λ v. depth v ≤ room e) item
Yields-room item e f = Yields-map _ _ item f (λ v h. omega arith)

Yields-value_of :
    (item : Parser JsonValue) (fuel e : ℕ) (k : Kind)
    → (e < max_json_nesting_depth → Yields (Fits (e + 1)) item)
    → e ≤ max_json_nesting_depth
    → Yields (Fits e) (value_of item fuel e k)
unfolding value_of depth parse_literal
Yields-value_of item fuel e is_null f h = record { at = λ s. ground arith }
Yields-value_of item fuel e is_true f h = record { at = λ s. ground arith }
Yields-value_of item fuel e is_false f h = record { at = λ s. ground arith }
Yields-value_of item fuel e is_string f h =
    Yields-then _ parse_string _ (λ t. record { at = λ s. omega arith })
Yields-value_of item fuel e is_object f h =
    Yields-bind _ (λ _. e < max_json_nesting_depth) (check_nesting_depth e) _ (Yields-check e)
      (λ _ l.
        Yields-bind _ (λ m. depth_members m ≤ room e) (parse_object item fuel) _
          (Yields-parse_object item (room e) (Yields-room item e (f l)) fuel)
          (λ m k. record { at = λ s. omega arith }))
Yields-value_of item fuel e is_array f h =
    Yields-bind _ (λ _. e < max_json_nesting_depth) (check_nesting_depth e) _ (Yields-check e)
      (λ _ l.
        Yields-bind _ (λ vs. depth_values vs ≤ room e) (parse_array item fuel) _
          (Yields-parse_array item (room e) (Yields-room item e (f l)) fuel)
          (λ vs k. record { at = λ s. omega arith }))
Yields-value_of item fuel e is_number f h =
    Yields-then _ parse_number _ (λ t. record { at = λ s. omega arith })
Yields-value_of item fuel e (other b) f h = record { at = λ s. tt }
Yields-value_of item fuel e at_end f h = record { at = λ s. tt }

Yields-parse_value :
    (fuel e : ℕ) → e ≤ max_json_nesting_depth → Yields (Fits e) (parse_value fuel e)
unfolding parse_value
Yields-parse_value zero e h = record { at = λ s. tt }
Yields-parse_value (suc fuel) e h = record {
  at = λ s.
      (Yields-value_of (parse_value fuel (e + 1)) fuel e (kind_of (skip_spaces s))
          (λ l. Yields-parse_value fuel (e + 1) (omega arith)) h).at
        (skip_spaces s);
}

parse_json-Holds :
    (fuel : ℕ) (input : List ℕ)
    → Holds (λ v. depth v ≤ max_json_nesting_depth) (parse_json fuel input)
unfolding parse_json
parse_json-Holds fuel input =
    Holds-continue _ (Fits 0) (parse_value fuel 0 input).0 (parse_value fuel 0 input).1 _
      ((Yields-parse_value fuel 0 (omega arith)).at input)
      (λ v h. record { at = λ s. ground arith })

-- If parse_json returns a value, its arrays and objects nest at most 128 deep.
pub depth-parse_json :
    (fuel : ℕ) (input : List ℕ) (v : JsonValue)
    → parse_json fuel input ≡ ok v
    → depth v ≤ max_json_nesting_depth
depth-parse_json fuel input v h = let all = parse_json-Holds fuel input in rw h at all
