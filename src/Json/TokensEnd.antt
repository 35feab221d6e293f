-- ===== src/Json/TokensEnd.antt =====
-- The loops of `parse_string` and `parse_number` in json.rs end.
use mural.Prelude.{
  ℕ, zero, suc, ◌<◌, ◌||◌, List, [], ◌∷◌, ◌++◌, leb, ◌==◌, if◌then◌else◌, length, arith, Bool-cases,
  inl, inr,
}
use mural.Exec.{
  pure, JsonError, control_byte, digit_after_point, digit_in_exponent, expected_number,
}
use mural.Json.Chars.{Parser, fail, expect, is_digit, parse_escape, decode_utf8_at}
use mural.Json.Tokens.{
  string_loop, parse_string, digits, digit_next, some_digits, parse_sign, parse_integer,
  parse_fraction, parse_plus, parse_exponent, parse_number,
}
use mural.Json.Eats.{
  Taken, Taken-weaken, Eats, Eats-weaken, Eats-pure, Eats-fail, Eats-if, Taken-if, Taken-more,
  Taken-shift, Taken-continue, Eats-bind, Eats-expect, Eats-parse_escape, Eats-decode_utf8_at,
}

-- The character that a byte begins.
abbrev char_of : ℕ → Parser ℕ
char_of b =
    if b == b'\\' then parse_escape else if leb b 0x1f then fail control_byte else decode_utf8_at b

Eats-char_of : {n : ℕ} (b : ℕ) → Eats n 0 (char_of b)
Eats-char_of b =
    Eats-if (b == b'\\') _ _ Eats-parse_escape
      (Eats-if (leb b 0x1f) _ _ (Eats-fail _) (Eats-decode_utf8_at b))

Taken-string_loop :
    (fuel : ℕ) (s : List ℕ)
    → length s < fuel
    → Taken 1 (length s) (string_loop fuel s).0 (string_loop fuel s).1
unfolding string_loop
Taken-string_loop zero s h = absurd (omega arith)
Taken-string_loop (suc fuel) [] h = tt
Taken-string_loop (suc fuel) (b ∷ s) h = elim (Bool-cases (b == b'"')) [
  | inl e ↦ rw (e, string_loop) (omega arith)
  | inr e ↦
      rw (e, string_loop)
        (Taken-more 1 (length s) _ _ (
          (Eats-bind {n = length s} (char_of b) _ (Eats-char_of b) (λ c.
              Eats-bind (string_loop fuel) (λ rest. pure (c ∷ rest))
                (record { at = λ t q. Taken-string_loop fuel t (omega arith) })
                (λ rest. Eats-pure (c ∷ rest)))).at
            s (omega arith)))
]

pub Eats-parse_string : {n : ℕ} → Eats n 1 parse_string
unfolding parse_string
Eats-parse_string {n = n} =
    Eats-weaken parse_string
      (Eats-bind {n = n} {k = 1} {j = 1} (expect b'"') _ (Eats-expect b'"')
        (λ _. record { at = λ s q. Taken-string_loop (suc (length s)) s (omega arith) }))
      (omega arith) (omega arith)

Taken-digits : (s : List ℕ) → Taken 0 (length s) (digits s).0 (digits s).1
unfolding digits
Taken-digits [] = omega arith
Taken-digits (b ∷ s) = elim (Bool-cases (is_digit b)) [
  | inl e ↦
      rw (e, digits)
        (Taken-more 0 (length s) _ _ (
          Taken-continue 0 0 (length s) (digits s).0 (digits s).1 (λ ds. pure (b ∷ ds))
            (Taken-digits s) (λ ds h. omega arith)))
  | inr e ↦ rw (e, digits) (omega arith)
]

Taken-some_digits :
    (x : JsonError) (s : List ℕ) → Taken 1 (length s) (some_digits x s).0 (some_digits x s).1
unfolding some_digits digit_next digits
Taken-some_digits x [] = tt
Taken-some_digits x (b ∷ s) = elim (Bool-cases (is_digit b)) [
  | inl e ↦
      rw (e, some_digits)
        (Taken-shift 0 (length s) _ _ (
          Taken-continue 0 0 (length s) (digits s).0 (digits s).1 (λ ds. pure (b ∷ ds))
            (Taken-digits s) (λ ds h. omega arith)))
  | inr e ↦ rw (e, some_digits) tt
]

Eats-some_digits : {n : ℕ} (x : JsonError) → Eats n 1 (some_digits x)
Eats-some_digits x = record { at = λ s q. Taken-some_digits x s }

Taken-parse_sign : (s : List ℕ) → Taken 0 (length s) (parse_sign s).0 (parse_sign s).1
unfolding parse_sign
Taken-parse_sign [] = omega arith
Taken-parse_sign (b ∷ s) = ground arith

Taken-parse_integer : (s : List ℕ) → Taken 1 (length s) (parse_integer s).0 (parse_integer s).1
unfolding parse_integer
Taken-parse_integer [] = tt
Taken-parse_integer (b ∷ s) =
    Taken-if 1 (suc (length s)) (b == b'0') _ _ (omega arith)
      (Taken-some_digits expected_number (b ∷ s))

Taken-parse_fraction : (s : List ℕ) → Taken 0 (length s) (parse_fraction s).0 (parse_fraction s).1
unfolding parse_fraction
Taken-parse_fraction [] = omega arith
Taken-parse_fraction (b ∷ s) =
    Taken-if 0 (suc (length s)) (b == b'.') _ _
      (Taken-more 0 (length s) _ _ (
        Taken-weaken 1 0 (length s) _ _
          ((Eats-bind {n = length s} {k = 1} {j = 0} (some_digits digit_after_point) _
              (Eats-some_digits digit_after_point) (λ ds. Eats-pure (b'.' ∷ ds))).at
            s (omega arith))
          (omega arith)))
      (omega arith)

Taken-parse_plus : (s : List ℕ) → Taken 0 (length s) (parse_plus s).0 (parse_plus s).1
unfolding parse_plus
Taken-parse_plus [] = omega arith
Taken-parse_plus (b ∷ s) = ground arith

Taken-parse_exponent : (s : List ℕ) → Taken 0 (length s) (parse_exponent s).0 (parse_exponent s).1
unfolding parse_exponent
Taken-parse_exponent [] = omega arith
Taken-parse_exponent (b ∷ s) =
    Taken-if 0 (suc (length s)) (b == b'e' || b == b'E') _ _
      (Taken-more 0 (length s) _ _ (
        Taken-weaken 1 0 (length s) _ _
          ((Eats-bind {n = length s} {k = 0} {j = 1} parse_plus _
              (record { at = λ t q. Taken-parse_plus t })
              (λ plus.
                Eats-bind {k = 1} {j = 0} (some_digits digit_in_exponent) _
                  (Eats-some_digits digit_in_exponent) (λ ds. Eats-pure (b ∷ (plus ++ ds))))).at
            s (omega arith))
          (omega arith)))
      (omega arith)

pub Eats-parse_number : {n : ℕ} → Eats n 1 parse_number
unfolding parse_number
Eats-parse_number =
    Eats-bind parse_sign _ (record { at = λ s q. Taken-parse_sign s })
      (λ sign.
        Eats-bind parse_integer _ (record { at = λ s q. Taken-parse_integer s })
          (λ integer.
            Eats-bind parse_fraction _ (record { at = λ s q. Taken-parse_fraction s })
              (λ fraction.
                Eats-bind parse_exponent _ (record { at = λ s q. Taken-parse_exponent s })
                  (λ exponent. Eats-pure _))))
