-- ===== src/Json/Utf8.antt =====
-- UTF-8, as `str` keeps its characters, and the width that json.rs reads from a first byte.
use mural.Prelude.{
  ℕ, ◌+◌, ◌*◌, ◌/◌, ◌%◌, ◌≤◌, ◌<◌, ◌≡◌, refl, Bool, true, ◌&&◌, ◌||◌, Option, none, some, List, [],
  ◌∷◌, ◌++◌, Text, leb, ltb, ◌==◌, if◌then◌else◌, length, arith, tests, Bool-cases, inl, inr,
}

abbrev pub is_scalar : ℕ → Bool
is_scalar c = ltb c 0xd800 || leb 0xe000 c && ltb c 0x110000

unfoldable pub utf8_char : ℕ → List ℕ
utf8_char c =
    if ltb c 0x80
    then c ∷ []
    else if ltb c 0x800
    then (0xc0 + c / 64) ∷ ((0x80 + c % 64) ∷ [])
    else if ltb c 0x10000
    then (0xe0 + c / 4096) ∷ ((0x80 + c / 64 % 64) ∷ ((0x80 + c % 64) ∷ []))
    else (0xf0 + c / 262144)
      ∷ ((0x80 + c / 4096 % 64) ∷ ((0x80 + c / 64 % 64) ∷ ((0x80 + c % 64) ∷ [])))

unfoldable pub utf8 : Text → List ℕ
unfolding utf8_char
utf8 [] = []
utf8 (c ∷ s) = utf8_char c ++ utf8 s

unfoldable pub utf8_width : ℕ → Option ℕ
utf8_width b =
    if leb b 0x7f
    then some 1
    else if leb 0xc2 b && leb b 0xdf
    then some 2
    else if leb 0xe0 b && leb b 0xef
    then some 3
    else if leb 0xf0 b && leb b 0xf4
    then some 4
    else none

continued : ℕ → List ℕ → ℕ
continued acc [] = acc
continued acc (b ∷ s) = continued (acc * 64 + b % 64) s

-- The first character of a slice of `width` bytes.
unfoldable pub decode_char : ℕ → List ℕ → ℕ
unfolding continued
decode_char width [] = 0
decode_char width (b ∷ s) =
    continued (if width == 2 then b % 32 else if width == 3 then b % 16 else b % 8) s

-- A character that was encoded is read with its width, and decoded to itself.
pub record Encoded (c : ℕ) : Type 0 where
  pub first : ℕ
  pub others : List ℕ
  pub bytes : utf8_char c ≡ first ∷ others
  pub width : utf8_width first ≡ some (length others + 1)
  pub large : 0x80 ≤ c → 0x80 ≤ first
  pub same : c < 0x80 → (first ≡ c) × (others ≡ [])
  pub decoded : 0x80 ≤ c → decode_char (length others + 1) (first ∷ others) ≡ c

Encoded-one : (c : ℕ) → c < 0x80 → Encoded c
unfolding utf8_char utf8_width decode_char
Encoded-one c h = record {
  first = c;
  others = [];
  bytes = ground arith;
  width = ground arith;
  large = λ k. k;
  same = λ k. (refl, refl);
  decoded = λ k. absurd (omega arith);
}

Encoded-two : (c : ℕ) → 0x80 ≤ c → c < 0x800 → Encoded c
unfolding utf8_char utf8_width decode_char
Encoded-two c h k = record {
  first = 0xc0 + c / 64;
  others = (0x80 + c % 64) ∷ [];
  bytes = ground arith;
  width = ground arith;
  large = λ _. omega arith;
  same = λ l. absurd (omega arith);
  decoded = λ _. ground arith;
}

Encoded-three : (c : ℕ) → 0x800 ≤ c → c < 0x10000 → Encoded c
unfolding utf8_char utf8_width decode_char
Encoded-three c h k = record {
  first = 0xe0 + c / 4096;
  others = (0x80 + c / 64 % 64) ∷ ((0x80 + c % 64) ∷ []);
  bytes = ground arith;
  width = ground arith;
  large = λ _. omega arith;
  same = λ l. absurd (omega arith);
  decoded = λ _. omega arith;
}

Encoded-four : (c : ℕ) → 0x10000 ≤ c → c < 0x110000 → Encoded c
unfolding utf8_char utf8_width decode_char
Encoded-four c h k = record {
  first = 0xf0 + c / 262144;
  others = (0x80 + c / 4096 % 64) ∷ ((0x80 + c / 64 % 64) ∷ ((0x80 + c % 64) ∷ []));
  bytes = ground arith;
  width = ground arith;
  large = λ _. omega arith;
  same = λ l. absurd (omega arith);
  decoded = λ _. omega arith;
}

pub encoded : (c : ℕ) → is_scalar c ≡ true → Encoded c
encoded c h = elim (Bool-cases (ltb c 0x80)) [
  | inl e ↦ Encoded-one c (omega (tests, e))
  | inr e ↦ elim (Bool-cases (ltb c 0x800)) [
    | inl f ↦ Encoded-two c (omega (tests, e)) (omega (tests, f))
    | inr f ↦ elim (Bool-cases (ltb c 0x10000)) [
      | inl g ↦ Encoded-three c (omega (tests, f)) (omega (tests, g))
      | inr g ↦ Encoded-four c (omega (tests, g)) (ground arith)
    ]
  ]
]
