-- ===== src/Decimal/Back.antt =====
-- What is written as a decimal number is read back.
use native.Mathlib.Numerals.{unary_clauses}
use mural.Prelude.{
  ℕ, zero, suc, ◌+◌, ◌-◌, ◌*◌, ◌/◌, ◌%◌, ◌^◌, ◌≤◌, ◌<◌, ◌≡◌, refl, sym, ap, ◌∙◌, subst, true, ◌&&◌,
  some, [], ◌∷◌, ◌++◌, Text, ltb, leb, arith, tests, All, All-append, Bool-cases, inl, inr,
  usize_max,
}
use mural.Decimal.{print_digits, print_usize, parse_digits, after_plus, parse_uint}

abbrev pub IsDigit : ℕ → Type 0
IsDigit c = (48 ≤ c) × (c ≤ 57)

-- The value of digits behind others.
value : ℕ → Text → ℕ
value acc [] = acc
value acc (c ∷ s) = value (acc * 10 + (c - 48)) s

value-append :
    (acc : ℕ) (s : Text) (c : ℕ) → value acc (s ++ (c ∷ [])) ≡ value acc s * 10 + (c - 48)
unfolding value
value-append acc [] c = refl
value-append acc (d ∷ s) c = value-append (acc * 10 + (d - 48)) s c

value-le : (acc : ℕ) (s : Text) → acc ≤ value acc s
unfolding value
value-le acc [] = omega arith
value-le acc (c ∷ s) = omega (arith, value-le (acc * 10 + (c - 48)) s)

parse_digits-value :
    (max acc : ℕ) (s : Text)
    → All IsDigit s
    → value acc s ≤ max
    → parse_digits max acc s ≡ some (value acc s)
unfolding parse_digits value
parse_digits-value max acc [] h l = refl
parse_digits-value max acc (c ∷ s) h l =
    let fits : (leb 48 c && leb c 57 && leb (acc * 10 + (c - 48)) max) ≡ true =
      ground (arith, value-le (acc * 10 + (c - 48)) s) in
    rw (fits, parse_digits) (parse_digits-value max (acc * 10 + (c - 48)) s h.1 l)

print_digits-IsDigit : (f n : ℕ) → All IsDigit (print_digits f n)
unfolding print_digits
print_digits-IsDigit zero n = tt
print_digits-IsDigit (suc f) n = elim (Bool-cases (ltb n 10)) [
  | inl e ↦ rw (e, print_digits) ((omega arith, omega (tests, e)), tt)
  | inr e ↦
      rw (e, print_digits)
        (All-append IsDigit (print_digits f (n / 10)) ((48 + n % 10) ∷ [])
          (print_digits-IsDigit f (n / 10)) ((omega arith, omega arith), tt))
]

power : (f : ℕ) → 10 ^ suc f ≡ 10 ^ f * 10
power f = simp unary_clauses

value-print_digits : (f n : ℕ) → n < 10 ^ f → value 0 (print_digits f n) ≡ n
unfolding print_digits value
value-print_digits zero n h = omega arith
value-print_digits (suc f) n h = elim (Bool-cases (ltb n 10)) [
  | inl e ↦ rw (e, print_digits) (omega arith)
  | inr e ↦
      rw (e, print_digits)
        (value-append 0 (print_digits f (n / 10)) (48 + n % 10)
          ∙ ap (λ v. v * 10 + (48 + n % 10 - 48))
              (value-print_digits f (n / 10) (omega (arith, power f)))
          ∙ omega arith)
]

snoc-cons : (t : Text) (d : ℕ) → (c : ℕ) × (s : Text) × (t ++ (d ∷ []) ≡ c ∷ s)
snoc-cons [] d = (d, [], refl)
snoc-cons (c ∷ t) d = (c, t ++ (d ∷ []), refl)

print_digits-cons : (f n : ℕ) → (c : ℕ) × (s : Text) × (print_digits (suc f) n ≡ c ∷ s)
unfolding print_digits
print_digits-cons f n = elim (Bool-cases (ltb n 10)) [
  | inl e ↦ (48 + n, [], rw (e, print_digits) refl)
  | inr e ↦ rw (e, print_digits) (snoc-cons (print_digits f (n / 10)) (48 + n % 10))
]

-- The first digit of a number that is not 0.
print_digits-lead :
    (f n : ℕ) → 1 ≤ n → n < 10 ^ f → (c : ℕ) × (s : Text) × (print_digits f n ≡ c ∷ s) × (49 ≤ c)
unfolding print_digits
print_digits-lead zero n h k = absurd (omega arith)
print_digits-lead (suc f) n h k = elim (Bool-cases (ltb n 10)) [
  | inl e ↦ (48 + n, [], rw (e, print_digits) refl, omega arith)
  | inr e ↦
      let (c, s, eq, big) =
        print_digits-lead f (n / 10) (omega (tests, e)) (omega (arith, power f)) in
      (c, s ++ ((48 + n % 10) ∷ []), rw (e, eq, print_digits) refl, big)
]

-- No leading zero.
print_digits-zero : (n c : ℕ) (s : Text) → n < 10 ^ 20 → print_digits 20 n ≡ c ∷ s → c ≡ 48 → s ≡ []
unfolding print_digits
print_digits-zero zero c s k e z = cc
print_digits-zero (suc n) c s k e z =
    let (d, t, eq, big) = print_digits-lead 20 (suc n) (omega arith) k in
    let same : d ≡ c = ap (λ u. elim u as (λ v. ℕ) [ [] ↦ 0 | x ∷ r ↦ x ]) (sym eq ∙ e) in
    absurd (omega arith)

print_usize-eq : (n : ℕ) → print_usize n ≡ print_digits 20 n
unfolding print_usize
print_usize-eq n = refl

parse_uint-digit :
    (max c : ℕ) (t : Text) → IsDigit c → parse_uint max (c ∷ t) ≡ parse_digits max 0 (c ∷ t)
unfolding parse_uint after_plus
parse_uint-digit max c t h = ground arith

-- The digits of a number of at most 64 bits: there is one at least, and they have its value.
pub record Digits (n : ℕ) : Type 0 where
  pub first : ℕ
  pub others : Text
  pub written : print_usize n ≡ first ∷ others
  pub digits : All IsDigit (first ∷ others)
  pub lead : first ≡ 48 → others ≡ []
  pub read : (max : ℕ) → n ≤ max → parse_uint max (first ∷ others) ≡ some n

pub print_usize-Digits : (n : ℕ) → n ≤ usize_max → Digits n
print_usize-Digits n h =
    let (c, s, e) = print_digits-cons 19 n in
    let v : value 0 (c ∷ s) ≡ n = ap (value 0) (sym e) ∙ value-print_digits 20 n (omega arith) in
    let d : All IsDigit (c ∷ s) = subst (All IsDigit) e (print_digits-IsDigit 20 n) in
    record {
      first = c;
      others = s;
      written = print_usize-eq n ∙ e;
      digits = d;
      lead = print_digits-zero n c s (omega arith) e;
      read = λ max k.
          parse_uint-digit max c s d.0 ∙ parse_digits-value max 0 (c ∷ s) d (rw v k) ∙ ap some v;
    }
