-- ===== src/Json/Ends.antt =====
-- `parse_json` ends: the length of the input bounds the calls and the rounds of its loops.
use mural.Prelude.{
  ℕ, zero, suc, ◌+◌, ◌-◌, ◌≤◌, ◌<◌, ◌≡◌, ◌≢◌, Bool, true, false, not, List, [], ◌∷◌, Text, text,
  length, length-drop, arith, inl, inr,
}
use mural.Exec.{running, Outcome-cases}
use mural.Json.Chars.{Parser, expect, consume_if, skip_spaces, skip_whitespace}
use mural.Json.Tokens.{parse_string, parse_number}
use mural.Json.Value.{
  JsonValue, Members, array, object, string, number, null, boolean, value, parse_literal,
  starts_with, comma, more, array_loop, parse_array, object_loop, parse_object, value_of,
  parse_value, parse_json, Kind, kind_of, check_nesting_depth, insert, no_members, is_null, is_true,
  is_false, is_string, is_object, is_array, is_number, other, at_end,
}
use mural.Json.Eats.{
  Eats, Eats-weaken, Eats-pure, Eats-fail, Taken-longer, Eats-keep, Eats-step, Eats-skip,
  Eats-expect, Eats-consume_if, length-skip_spaces, Eats-skip_whitespace,
}
use mural.Json.TokensEnd.{Eats-parse_string, Eats-parse_number}

Eats-comma : {n : ℕ} (closed : Bool) → Eats n 0 (comma closed)
unfolding comma
Eats-comma true = Eats-pure _
Eats-comma false = Eats-skip (expect b',') _ (Eats-expect b',') (λ _. Eats-pure true)

Eats-more : {n : ℕ} (close : ℕ) → Eats n 0 (more close)
unfolding more
Eats-more close =
    Eats-keep skip_whitespace _ Eats-skip_whitespace
      (λ _. Eats-keep (consume_if close) comma (Eats-consume_if close) Eats-comma)

module _ (item : Parser JsonValue) where
  item_less : {n : ℕ} → Eats n 1 item → Eats (n - 1) 1 item
  item_less e = Eats-weaken item e (omega arith) (omega arith)

  Eats-array_loop :
      (fuel n : ℕ) (again : Bool) → Eats n 1 item → n < fuel → Eats n 0 (array_loop item fuel again)
  unfolding array_loop
  Eats-array_loop fuel n false e h = record { at = λ s q. omega arith }
  Eats-array_loop zero n true e h = absurd (omega arith)
  Eats-array_loop (suc fuel) n true e h =
      Eats-weaken (array_loop item (suc fuel) true)
        (Eats-step {n = n} {j = 0} item _ e (λ v le.
          Eats-keep (more b']') _ (Eats-more b']') (λ again.
            Eats-keep (array_loop item fuel again) _
              (Eats-array_loop fuel (n - 1) again (item_less e) (omega arith))
              (λ vs. Eats-pure (value v vs)))))
        (omega arith) (omega arith)

  Eats-parse_array :
      (fuel n : ℕ)
      → (1 ≤ n → Eats (n - 1) 1 item × (n - 1 < fuel))
      → Eats n 1 (parse_array item fuel)
  unfolding parse_array
  Eats-parse_array fuel n e = Eats-step {n = n} {j = 0} (expect b'[') _ (Eats-expect b'[') (λ _ le.
      Eats-keep skip_whitespace _ Eats-skip_whitespace (λ _.
        Eats-keep (consume_if b']') _ (Eats-consume_if b']')
          (λ closed. Eats-array_loop fuel (n - 1) (not closed) (e le).0 (e le).1)))

  Eats-object_loop :
      (fuel n : ℕ) (m : Members) (again : Bool)
      → Eats n 1 item
      → n < fuel
      → Eats n 0 (object_loop item fuel m again)
  unfolding object_loop
  Eats-object_loop fuel n m false e h = record { at = λ s q. omega arith }
  Eats-object_loop zero n m true e h = absurd (omega arith)
  Eats-object_loop (suc fuel) n m true e h =
      Eats-weaken (object_loop item (suc fuel) m true)
        (Eats-keep {n = n} {j = 1} skip_whitespace _ Eats-skip_whitespace (λ _.
          Eats-step {n = n} {j = 0} parse_string _ Eats-parse_string (λ key le.
            Eats-keep skip_whitespace _ Eats-skip_whitespace (λ _.
              Eats-skip (expect b':') _ (Eats-expect b':') (λ _.
                Eats-skip item _ (item_less e) (λ v.
                  Eats-keep (more b'}') _ (Eats-more b'}') (λ again.
                    Eats-object_loop fuel (n - 1) (insert key v m) again (item_less e)
                      (omega arith))))))))
        (omega arith) (omega arith)

  Eats-parse_object :
      (fuel n : ℕ)
      → (1 ≤ n → Eats (n - 1) 1 item × (n - 1 < fuel))
      → Eats n 1 (parse_object item fuel)
  unfolding parse_object
  Eats-parse_object fuel n e = Eats-step {n = n} {j = 0} (expect b'{') _ (Eats-expect b'{') (λ _ le.
      Eats-keep skip_whitespace _ Eats-skip_whitespace (λ _.
        Eats-keep (consume_if b'}') _ (Eats-consume_if b'}')
          (λ closed. Eats-object_loop fuel (n - 1) no_members (not closed) (e le).0 (e le).1)))

  starts_with-le : (p s : List ℕ) → starts_with p s ≡ true → length p ≤ length s
  unfolding starts_with
  starts_with-le [] s h = omega arith
  starts_with-le (a ∷ p) [] h = absurd (cc)
  starts_with-le (a ∷ p) (b ∷ s) h = ground (arith, starts_with-le p s)

  Eats-parse_literal :
      {n : ℕ} (literal : Text) (v : JsonValue)
      → 1 ≤ length literal
      → Eats n 1 (parse_literal literal v)
  unfolding parse_literal
  Eats-parse_literal literal v h = record {
    at = λ s q. ground (arith, starts_with-le literal s, length-drop (length literal) s);
  }

  Eats-check_nesting_depth : {n : ℕ} (depth : ℕ) → Eats n 0 (check_nesting_depth depth)
  unfolding check_nesting_depth
  Eats-check_nesting_depth depth = record { at = λ s q. ground arith }

  Eats-value_of :
      (fuel depth n : ℕ) (k : Kind)
      → (1 ≤ n → Eats (n - 1) 1 item × (n - 1 < fuel))
      → Eats n 1 (value_of item fuel depth k)
  unfolding value_of
  Eats-value_of fuel depth n is_null e = Eats-parse_literal (text "null") null (omega arith)
  Eats-value_of fuel depth n is_true e =
      Eats-parse_literal (text "true") (boolean true) (omega arith)
  Eats-value_of fuel depth n is_false e =
      Eats-parse_literal (text "false") (boolean false) (omega arith)
  Eats-value_of fuel depth n is_string e =
      Eats-step {n = n} {j = 0} parse_string _ Eats-parse_string (λ t _. Eats-pure (string t))
  Eats-value_of fuel depth n is_object e =
      Eats-keep (check_nesting_depth depth) _ (Eats-check_nesting_depth depth) (λ _.
        Eats-step {n = n} {j = 0} (parse_object item fuel) _ (Eats-parse_object fuel n e)
          (λ m _. Eats-pure (object m)))
  Eats-value_of fuel depth n is_array e =
      Eats-keep (check_nesting_depth depth) _ (Eats-check_nesting_depth depth) (λ _.
        Eats-step {n = n} {j = 0} (parse_array item fuel) _ (Eats-parse_array fuel n e)
          (λ m _. Eats-pure (array m)))
  Eats-value_of fuel depth n is_number e =
      Eats-step {n = n} {j = 0} parse_number _ Eats-parse_number (λ t _. Eats-pure (number t))
  Eats-value_of fuel depth n (other b) e = Eats-fail _
  Eats-value_of fuel depth n at_end e = Eats-fail _

pub Eats-parse_value : (fuel depth n : ℕ) → n < fuel → Eats n 1 (parse_value fuel depth)
unfolding parse_value
Eats-parse_value zero depth n h = absurd (omega arith)
Eats-parse_value (suc fuel) depth n h =
    let item = parse_value fuel (depth + 1) in
    record {
      at = λ s q.
          let t = skip_spaces s in
          Taken-longer 1 (length t) (length s) (value_of item fuel depth (kind_of t) t).0
            (value_of item fuel depth (kind_of t) t).1
            ((Eats-value_of item fuel depth n (kind_of t)
                (λ le. (Eats-parse_value fuel (depth + 1) (n - 1) (omega arith), omega arith))).at
              t (omega (arith, length-skip_spaces s)))
            (length-skip_spaces s);
    }

-- Where the fuel exceeds the number of bytes of the input, parse_json does not run out of it: it
-- returns a value or an error.
pub parse_json-ends :
    (fuel : ℕ) (input : List ℕ) → length input < fuel → parse_json fuel input ≢ running
unfolding parse_json
parse_json-ends fuel input h = elim (Outcome-cases (parse_value fuel 0 input).0) [
  | inl (v, e) ↦ rw (e, parse_json) (ground arith)
  | inr (inl (x, e)) ↦ rw (e, parse_json) (λ r. cc)
  | inr (inr e) ↦
      let bounded = (Eats-parse_value fuel 0 (length input) h).at input (omega arith) in
      absurd (rw e at bounded)
]
