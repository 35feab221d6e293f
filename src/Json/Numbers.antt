-- ===== src/Json/Numbers.antt =====
-- What `parse_number` does with the text of a number, and with what follows it.
use mathlib.Core.List.{append_assoc, append-nil}
use mural.Prelude.{
  ℕ, ◌≡◌, refl, ap, ◌∙◌, Bool, true, false, ◌||◌, not, List, [], ◌∷◌, ◌++◌, Text, ◌==◌, arith, All,
}
use mural.Exec.{ok}
use mural.Decimal.Back.{IsDigit}
use mural.Json.Chars.{is_digit}
use mural.Json.Tokens.{
  digits, digit_next, some_digits, parse_sign, parse_integer, parse_fraction, parse_exponent,
  parse_number,
}

-- A number ends before this byte.
abbrev pub ends_number : ℕ → Bool
ends_number b = not (is_digit b || b == b'.' || b == b'e' || b == b'E')

abbrev pub stops : List ℕ → Bool
stops [] = true
stops (b ∷ s) = ends_number b

abbrev no_digit : List ℕ → Bool
no_digit [] = true
no_digit (b ∷ s) = not (is_digit b)

is_digit-IsDigit : (c : ℕ) → IsDigit c → is_digit c ≡ true
is_digit-IsDigit c h = ground arith

digits-append :
    (ds rest : List ℕ) → All IsDigit ds → no_digit rest ≡ true → digits (ds ++ rest) ≡ (ok ds, rest)
unfolding digits
digits-append [] [] h k = refl
digits-append [] (b ∷ s) h k = ground arith
digits-append (d ∷ ds) rest h k =
    rw (is_digit-IsDigit d h.0, digits-append ds rest h.1 k, digits) refl

sign_of : (c : ℕ) (s : List ℕ) → IsDigit c → parse_sign (c ∷ s) ≡ (ok [], c ∷ s)
unfolding parse_sign
sign_of c s h = ground arith

-- The digits of an integer: no zero leads.
pub record Integer (c : ℕ) (s : Text) : Type 0 where
  pub digits : All IsDigit (c ∷ s)
  pub lead : c ≡ 48 → s ≡ []

parse_integer-Integer :
    (c : ℕ) (s rest : List ℕ)
    → Integer c s
    → no_digit rest ≡ true
    → parse_integer ((c ∷ s) ++ rest) ≡ (ok (c ∷ s), rest)
unfolding parse_integer some_digits digit_next
parse_integer-Integer c [] rest i k =
    ground (arith, i.digits, digits-append (c ∷ []) rest i.digits k)
parse_integer-Integer c (d ∷ s) rest i k =
    let n : (c == 48) ≡ false = ground (arith, i.lead) in
    rw
      (
        n,
        is_digit-IsDigit c i.digits.0,
        is_digit-IsDigit d i.digits.1.0,
        digits-append s rest i.digits.1.1 k,
      )
      refl

no_fraction : (rest : List ℕ) → stops rest ≡ true → parse_fraction rest ≡ (ok [], rest)
unfolding parse_fraction
no_fraction [] h = refl
no_fraction (b ∷ s) h = ground arith

no_exponent : (rest : List ℕ) → stops rest ≡ true → parse_exponent rest ≡ (ok [], rest)
unfolding parse_exponent
no_exponent [] h = refl
no_exponent (b ∷ s) h = ground arith

no_digit-stops : (rest : List ℕ) → stops rest ≡ true → no_digit rest ≡ true
no_digit-stops [] h = refl
no_digit-stops (b ∷ s) h = ground arith

pub parse_number-Integer :
    (c : ℕ) (s rest : List ℕ)
    → Integer c s
    → stops rest ≡ true
    → parse_number ((c ∷ s) ++ rest) ≡ (ok (c ∷ s), rest)
unfolding parse_number
parse_number-Integer c s rest i k =
    rw
      (
        sign_of c (s ++ rest) i.digits.0,
        parse_integer-Integer c s rest i (no_digit-stops rest k),
        no_fraction rest k,
        no_exponent rest k,
      )
      (ap (λ t. (ok (c ∷ t), rest)) (append-nil s))

fraction_of :
    (d : ℕ) (ds rest : List ℕ)
    → All IsDigit (d ∷ ds)
    → stops rest ≡ true
    → parse_fraction (b'.' ∷ ((d ∷ ds) ++ rest)) ≡ (ok (b'.' ∷ (d ∷ ds)), rest)
unfolding parse_fraction some_digits digit_next
fraction_of d ds rest h k =
    rw (is_digit-IsDigit d h.0, digits-append ds rest h.1 (no_digit-stops rest k)) refl

decimal_of :
    (c : ℕ) (s : List ℕ) (d : ℕ) (ds rest : List ℕ)
    → Integer c s
    → All IsDigit (d ∷ ds)
    → stops rest ≡ true
    → parse_number ((c ∷ s) ++ (b'.' ∷ ((d ∷ ds) ++ rest)))
      ≡ (ok ((c ∷ s) ++ (b'.' ∷ (d ∷ ds))), rest)
unfolding parse_number
decimal_of c s d ds rest i h k =
    let tail = b'.' ∷ (d ∷ (ds ++ rest)) in
    rw
      (
        sign_of c (s ++ tail) i.digits.0,
        parse_integer-Integer c s tail i refl,
        fraction_of d ds rest h k,
        no_exponent rest k,
      )
      (ap (λ t. (ok ((c ∷ s) ++ (b'.' ∷ (d ∷ t))), rest)) (append-nil ds))

pub parse_number-decimal :
    (c : ℕ) (s : List ℕ) (d : ℕ) (ds rest : List ℕ)
    → Integer c s
    → All IsDigit (d ∷ ds)
    → stops rest ≡ true
    → parse_number (((c ∷ s) ++ (b'.' ∷ (d ∷ ds))) ++ rest)
      ≡ (ok ((c ∷ s) ++ (b'.' ∷ (d ∷ ds))), rest)
parse_number-decimal c s d ds rest i h k =
    ap parse_number (append_assoc (c ∷ s) (b'.' ∷ (d ∷ ds)) rest) ∙ decimal_of c s d ds rest i h k

pub parse_number-negative :
    (c : ℕ) (s rest : List ℕ)
    → Integer c s
    → stops rest ≡ true
    → parse_number ((b'-' ∷ (c ∷ s)) ++ rest) ≡ (ok (b'-' ∷ (c ∷ s)), rest)
unfolding parse_number parse_sign digit_next
parse_number-negative c s rest i k =
    rw
      (
        is_digit-IsDigit c i.digits.0,
        parse_integer-Integer c s rest i (no_digit-stops rest k),
        no_fraction rest k,
        no_exponent rest k,
      )
      (ap (λ t. (ok (b'-' ∷ (c ∷ t)), rest)) (append-nil s))
