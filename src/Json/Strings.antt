-- ===== src/Json/Strings.antt =====
-- What `json_string` writes, `parse_string` reads back.
use mathlib.Core.List.{append-nil, append_assoc}
use mural.Prelude.{
  lt→ltb, ℕ, zero, suc, ◌+◌, ◌-◌, ◌*◌, ◌/◌, ◌%◌, ◌≤◌, ◌<◌, ◌≡◌, ◌≢◌, refl, sym, ap, subst, ◌∙◌,
  true, false, some, List, [], ◌∷◌, ◌++◌, Text, leb, ltb, ◌==◌, length, length-append,
  take_append_self, drop_append_self, arith, tests, Bool-cases, inl, inr, All,
}
use mural.Exec.{Outcome, ok, continue, pure}
use mural.Json.Utf8.{utf8, utf8_char, utf8_width, decode_char, is_scalar, Encoded, encoded}
use mural.Json.Chars.{
  parse_escape, decode_utf8_at, hex_digit, parse_digits, parse_unicode_escape,
  parse_unicode_code_unit, unicode_of, from_u32, expect,
}
use mural.Json.Tokens.{string_loop, parse_string}
use mural.Json.Writer.{json_char, json_chars, json_string, is_control, hex, hex4}

hex_digit-hex : (d : ℕ) → d < 16 → hex_digit (hex d) ≡ some d
unfolding hex_digit
hex_digit-hex d h = ground arith

parse_digits-hex :
    (n acc d : ℕ) (t : List ℕ)
    → d < 16
    → parse_digits (suc n) acc (hex d ∷ t) ≡ parse_digits n (acc * 16 + d) t
unfolding parse_digits
parse_digits-hex n acc d t h = rw (hex_digit-hex d h, parse_digits)

-- The four digits of a number of at most 16 bits.
parse_digits-hex4 :
    (c : ℕ) (t : List ℕ) → c < 0x10000 → parse_unicode_code_unit (hex4 c ++ t) ≡ (ok c, t)
unfolding parse_unicode_code_unit parse_digits
parse_digits-hex4 c t h =
    let value : (((0 * 16 + c / 4096 % 16) * 16 + c / 256 % 16) * 16 + c / 16 % 16) * 16 + c % 16
        ≡ c =
      omega arith in
    parse_digits-hex 3 0 (c / 4096 % 16) _ (omega arith)
    ∙ parse_digits-hex 2 _ (c / 256 % 16) _ (omega arith)
    ∙ parse_digits-hex 1 _ (c / 16 % 16) _ (omega arith)
    ∙ parse_digits-hex 0 _ (c % 16) t (omega arith)
    ∙ ap (λ v. (ok v, t)) value

parse_unicode_escape-hex4 :
    (c : ℕ) (t : List ℕ) → c < 0xd800 → parse_unicode_escape (hex4 c ++ t) ≡ (ok c, t)
unfolding parse_unicode_escape unicode_of from_u32
parse_unicode_escape-hex4 c t h = rw (parse_digits-hex4 c t (omega arith)) (ground arith)

decode-others :
    (first : ℕ) (others t : List ℕ)
    → utf8_width first ≡ some (length others + 1)
    → 1 ≤ length others
    → decode_utf8_at first (others ++ t)
      ≡ (ok (decode_char (length others + 1) (first ∷ others)), t)
unfolding decode_utf8_at
decode-others first others t w h =
    let long : (length others + 1 == 1) ≡ false = ground arith in
    let here : ltb (length (others ++ t)) (length others + 1 - 1) ≡ false =
      ground (arith, length-append others t) in
    let n : length others + 1 - 1 ≡ length others = omega arith in
    rw (w, long, here, n, take_append_self others t, drop_append_self others t, decode_utf8_at) refl

others_of_large : (c : ℕ) (x : Encoded c) → 0x80 ≤ c → 1 ≤ length x.others
unfolding utf8_width
others_of_large c x h = ground (arith, x.width, x.large h)

decode-small : (c : ℕ) (t : List ℕ) → c < 0x80 → decode_utf8_at c t ≡ (ok c, t)
unfolding decode_utf8_at utf8_width
decode-small c t h = ground arith

decode-Encoded :
    (c : ℕ) (x : Encoded c) (t : List ℕ) → decode_utf8_at x.first (x.others ++ t) ≡ (ok c, t)
decode-Encoded c x t = elim (Bool-cases (ltb c 0x80)) [
  | inl e ↦
      let small = x.same (omega (tests, e)) in
      rw (small.0, small.1) (decode-small c t (omega (tests, e)))
  | inr e ↦
      decode-others x.first x.others t x.width (others_of_large c x (omega (tests, e)))
      ∙ ap (λ v. (ok v, t)) (x.decoded (omega (tests, e)))
]

-- What a round of the loop does with a character.
abbrev read_then : ℕ → Outcome Text × List ℕ → Outcome Text × List ℕ
read_then c r = continue r.0 (λ rest. pure (c ∷ rest)) r.1

string_loop-escaped :
    (fuel c : ℕ) (s t : List ℕ)
    → parse_escape s ≡ (ok c, t)
    → string_loop (suc fuel) (b'\\' ∷ s) ≡ read_then c (string_loop fuel t)
unfolding string_loop
string_loop-escaped fuel c s t h = rw h refl

string_loop-plain :
    (fuel c b : ℕ) (s t : List ℕ)
    → (b == b'"') ≡ false
    → (b == b'\\') ≡ false
    → leb b 0x1f ≡ false
    → decode_utf8_at b s ≡ (ok c, t)
    → string_loop (suc fuel) (b ∷ s) ≡ read_then c (string_loop fuel t)
unfolding string_loop
string_loop-plain fuel c b s t h k l d = rw (h, k, l, d, string_loop) refl

-- What `json_char` writes, and that the reader takes it for the character.
data Written (c : ℕ) : Type 0 where
  as_itself : json_char c ≡ c ∷ [] → 0x20 ≤ c → c ≢ b'"' → c ≢ b'\\' → Written c
  escaped :
      (b : ℕ)
      → json_char c ≡ b'\\' ∷ (b ∷ [])
      → b < 0x80
      → ((t : List ℕ) → parse_escape (b ∷ t) ≡ (ok c, t))
      → Written c
  in_digits : json_char c ≡ b'\\' ∷ (b'u' ∷ hex4 c) → c < 0xa0 → Written c

escaped_as :
    (c d b : ℕ)
    → c == d ≡ true
    → json_char d ≡ b'\\' ∷ (b ∷ [])
    → b < 0x80
    → ((t : List ℕ) → parse_escape (b ∷ t) ≡ (ok d, t))
    → Written c
escaped_as c d b e j small p =
    let s : c ≡ d = ground arith in subst Written (sym s) (escaped b j small p)

written : (c : ℕ) → Written c
unfolding json_char parse_escape
written c = elim (Bool-cases (c == b'"')) [
  | inl e ↦ escaped_as c b'"' b'"' e refl (omega arith) (λ t. refl)
  | inr e1 ↦ elim (Bool-cases (c == b'\\')) [
    | inl e ↦ escaped_as c b'\\' b'\\' e refl (omega arith) (λ t. refl)
    | inr e2 ↦ elim (Bool-cases (c == b'\n')) [
      | inl e ↦ escaped_as c b'\n' b'n' e refl (omega arith) (λ t. refl)
      | inr e3 ↦ elim (Bool-cases (c == b'\r')) [
        | inl e ↦ escaped_as c b'\r' b'r' e refl (omega arith) (λ t. refl)
        | inr e4 ↦ elim (Bool-cases (c == b'\t')) [
          | inl e ↦ escaped_as c b'\t' b't' e refl (omega arith) (λ t. refl)
          | inr e5 ↦ elim (Bool-cases (c == 8)) [
            | inl e ↦ escaped_as c 8 b'b' e refl (omega arith) (λ t. refl)
            | inr e6 ↦ elim (Bool-cases (c == 12)) [
              | inl e ↦ escaped_as c 12 b'f' e refl (omega arith) (λ t. refl)
              | inr e7 ↦ elim (Bool-cases (is_control c)) [
                | inl e ↦
                    in_digits (rw (e1, e2, e3, e4, e5, e6, e7, e, json_char) refl) (ground arith)
                | inr e ↦
                    as_itself (rw (e1, e2, e3, e4, e5, e6, e7, e, json_char) refl) (ground arith)
                      (ground arith) (ground arith)
              ]
            ]
          ]
        ]
      ]
    ]
  ]
]

read-itself :
    (fuel c : ℕ) (t : List ℕ)
    → is_scalar c ≡ true
    → 0x20 ≤ c
    → c ≢ b'"'
    → c ≢ b'\\'
    → string_loop (suc fuel) (utf8_char c ++ t) ≡ read_then c (string_loop fuel t)
read-itself fuel c t h low quote backslash =
    let x = encoded c h in
    rw x.bytes (
      string_loop-plain fuel c x.first (x.others ++ t) t (ground (arith, x.large, x.same))
        (ground (arith, x.large, x.same)) (ground (arith, x.large, x.same)) (decode-Encoded c x t))

pub utf8-ascii : (s : Text) → All (λ c. c < 0x80) s → utf8 s ≡ s
unfolding utf8 utf8_char
utf8-ascii [] h = refl
utf8-ascii (c ∷ s) h = rw (lt→ltb c 0x80 h.0, utf8_char) (ap (◌∷◌ c) (utf8-ascii s h.1))

hex-lt : (d : ℕ) → d < 16 → hex d < 0x80
hex-lt d h = ground arith

utf8-hex4 : (c : ℕ) → utf8 (b'\\' ∷ (b'u' ∷ hex4 c)) ≡ b'\\' ∷ (b'u' ∷ hex4 c)
utf8-hex4 c = utf8-ascii (b'\\' ∷ (b'u' ∷ hex4 c)) (
  omega arith,
  (
    omega arith,
    (
      hex-lt (c / 4096 % 16) (omega arith),
      (
        hex-lt (c / 256 % 16) (omega arith),
        (hex-lt (c / 16 % 16) (omega arith), (hex-lt (c % 16) (omega arith), tt)),
      ),
    ),
  ),
)

utf8_one : (c : ℕ) → utf8 (c ∷ []) ≡ utf8_char c
unfolding utf8
utf8_one c = append-nil (utf8_char c)

escape-hex4 : (c : ℕ) (t : List ℕ) → c < 0xd800 → parse_escape (b'u' ∷ (hex4 c ++ t)) ≡ (ok c, t)
unfolding parse_escape
escape-hex4 c t h = parse_unicode_escape-hex4 c t h

-- One round of the loop reads what was written for one character.
string_loop-char :
    (fuel c : ℕ) (t : List ℕ)
    → is_scalar c ≡ true
    → string_loop (suc fuel) (utf8 (json_char c) ++ t) ≡ read_then c (string_loop fuel t)
string_loop-char fuel c t h = elim (written c) [
  | as_itself j low quote backslash ↦
      rw (j, utf8_one c) (read-itself fuel c t h low quote backslash)
  | escaped b j small p ↦
      rw (j, utf8-ascii (b'\\' ∷ (b ∷ [])) (omega arith, (small, tt)))
        (string_loop-escaped fuel c (b ∷ t) t (p t))
  | in_digits j small ↦
      rw (j, utf8-hex4 c)
        (string_loop-escaped fuel c (b'u' ∷ (hex4 c ++ t)) t (escape-hex4 c t (omega arith)))
]

pub utf8-append : (s t : Text) → utf8 (s ++ t) ≡ utf8 s ++ utf8 t
unfolding utf8
utf8-append [] t = refl
utf8-append (c ∷ s) t =
    ap (◌++◌ (utf8_char c)) (utf8-append s t) ∙ sym (append_assoc (utf8_char c) (utf8 s) (utf8 t))

string_loop-end : (fuel : ℕ) (t : List ℕ) → string_loop (suc fuel) (b'"' ∷ t) ≡ (ok [], t)
unfolding string_loop
string_loop-end fuel t = refl

string_loop-chars :
    (s : Text) (fuel : ℕ) (t : List ℕ)
    → All (λ c. is_scalar c ≡ true) s
    → length s ≤ fuel
    → string_loop (suc fuel) (utf8 (json_chars s) ++ (b'"' ∷ t)) ≡ (ok s, t)
unfolding json_chars utf8
string_loop-chars [] fuel t h n = string_loop-end fuel t
string_loop-chars (c ∷ s) zero t h n = absurd (omega arith)
string_loop-chars (c ∷ s) (suc fuel) t h n =
    rw
      (
        utf8-append (json_char c) (json_chars s),
        append_assoc (utf8 (json_char c)) (utf8 (json_chars s)) (b'"' ∷ t),
      )
      (string_loop-char (suc fuel) c (utf8 (json_chars s) ++ (b'"' ∷ t)) h.0
        ∙ ap (read_then c) (string_loop-chars s fuel t h.1 (omega arith)))

utf8_char-ge : (c : ℕ) → 1 ≤ length (utf8_char c)
unfolding utf8_char
utf8_char-ge c = ground arith

length-utf8 : (c : ℕ) (s : Text) → 1 ≤ length (utf8 (c ∷ s))
unfolding utf8
length-utf8 c s = omega (arith, length-append (utf8_char c) (utf8 s), utf8_char-ge c)

length-json_char : (c : ℕ) → 1 ≤ length (utf8 (json_char c))
length-json_char c = elim (written c) [
  | as_itself j low quote backslash ↦ rw j (length-utf8 c [])
  | escaped b j small p ↦ rw j (length-utf8 b'\\' (b ∷ []))
  | in_digits j small ↦ rw j (length-utf8 b'\\' (b'u' ∷ hex4 c))
]

length-json_chars : (s : Text) → length s ≤ length (utf8 (json_chars s))
unfolding json_chars
length-json_chars [] = omega arith
length-json_chars (c ∷ s) = rw (utf8-append (json_char c) (json_chars s)) (
    omega (
      arith,
      length-append (utf8 (json_char c)) (utf8 (json_chars s)),
      length-json_char c,
      length-json_chars s,
    ))

pub bytes-json_string :
    (s : Text) (t : List ℕ) → utf8 (json_string s) ++ t ≡ b'"' ∷ (utf8 (json_chars s) ++ (b'"' ∷ t))
unfolding json_string utf8 utf8_char
bytes-json_string s t =
    ap (λ u. b'"' ∷ (u ++ t)) (utf8-append (json_chars s) (b'"' ∷ []))
    ∙ ap (◌∷◌ b'"') (append_assoc (utf8 (json_chars s)) (b'"' ∷ []) t)

-- For a string of Unicode scalar values, parse_string reads what json_string wrote back to that
-- string and stops behind it, whatever follows.
pub parse_string-json_string :
    (s : Text) (t : List ℕ)
    → All (λ c. is_scalar c ≡ true) s
    → parse_string (utf8 (json_string s) ++ t) ≡ (ok s, t)
unfolding parse_string expect
parse_string-json_string s t h = rw (bytes-json_string s t) (
    string_loop-chars s (length (utf8 (json_chars s) ++ (b'"' ∷ t))) t h
      (omega (arith, length-append (utf8 (json_chars s)) (b'"' ∷ t), length-json_chars s)))
