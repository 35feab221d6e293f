-- ===== src/Json/Eats.antt =====
-- How much of its input a parser of json.rs takes: the rules for binds, and the parsers of tokens.
use mural.Prelude.{
  ℕ, zero, suc, ◌+◌, ◌-◌, ◌*◌, ◌≤◌, Bool, true, false, ◌&&◌, List, [], ◌∷◌, leb, if◌then◌else◌,
  length, length-drop, arith, Option-cases, inl, inr,
}
use mural.Exec.{Outcome, ok, err, running, continue, pure, ◌>>=◌, JsonError}
use mural.Json.Utf8.{utf8_width}
use mural.Json.Chars.{
  Parser, fail, expect, consume_if, skip_spaces, skip_whitespace, hex_digit, parse_digits,
  parse_unicode_code_unit, from_u32, join_surrogates, escape_follows, low_surrogate, unicode_of,
  parse_unicode_escape, parse_escape, decode_utf8_at,
}

-- A result on `m` bytes: it has ended, and a success has taken at least `k` of them.
abbrev pub Taken : {A : Type 0} → ℕ → ℕ → Outcome A → List ℕ → Type 0
Taken k m (ok a) t = length t + k ≤ m
Taken k m (err e) t = Unit
Taken k m running t = ⊥

pub record Eats {A : Type 0} (n k : ℕ) (p : Parser A) : Type 0 where
  pub at : (s : List ℕ) → length s ≤ n → Taken k (length s) (p s).0 (p s).1

module _ {A : Type 0} where
  pub Taken-weaken :
      (k j m : ℕ) (o : Outcome A) (t : List ℕ) → Taken k m o t → j ≤ k → Taken j m o t
  Taken-weaken k j m (ok a) t h l = omega arith
  Taken-weaken k j m (err e) t h l = tt
  Taken-weaken k j m running t h l = h

  pub Eats-weaken : {n m k j : ℕ} (p : Parser A) → Eats n k p → m ≤ n → j ≤ k → Eats m j p
  Eats-weaken p e h l = record {
    at = λ s q. Taken-weaken _ _ (length s) (p s).0 (p s).1 (e.at s (omega arith)) l;
  }

  pub Eats-pure : {n : ℕ} (a : A) → Eats n 0 (pure a)
  Eats-pure a = record { at = λ s q. omega arith }

  pub Eats-fail : {n k : ℕ} (e : JsonError) → Eats {A = A} n k (fail e)
  Eats-fail e = record { at = λ s q. tt }

  pub Taken-shift :
      (k m : ℕ) (o : Outcome A) (t : List ℕ) → Taken k m o t → Taken (suc k) (suc m) o t
  Taken-shift k m (ok a) t h = omega arith
  Taken-shift k m (err e) t h = tt
  Taken-shift k m running t h = h

  pub Taken-longer :
      (k m m' : ℕ) (o : Outcome A) (t : List ℕ) → Taken k m o t → m ≤ m' → Taken k m' o t
  Taken-longer k m m' (ok a) t h l = omega arith
  Taken-longer k m m' (err e) t h l = tt
  Taken-longer k m m' running t h l = h

  pub Taken-more : (k m : ℕ) (o : Outcome A) (t : List ℕ) → Taken k m o t → Taken k (suc m) o t
  Taken-more k m o t h = Taken-longer k m (suc m) o t h (omega arith)

  pub Taken-if :
      (k m : ℕ) (b : Bool) (r r' : Outcome A × List ℕ)
      → Taken k m r.0 r.1
      → Taken k m r'.0 r'.1
      → Taken k m (if b then r else r').0 (if b then r else r').1
  Taken-if k m true r r' h g = h
  Taken-if k m false r r' h g = g

  pub Eats-if :
      {n k : ℕ} (b : Bool) (p q : Parser A)
      → Eats n k p
      → Eats n k q
      → Eats n k (if b then p else q)
  Eats-if true p q e f = e
  Eats-if false p q e f = f

module _ {A B : Type 0} where
  pub Taken-continue :
      (k j m : ℕ) (o : Outcome A) (t : List ℕ) (f : A → Parser B)
      → Taken k m o t
      → ((a : A) → length t + k ≤ m → Taken j (length t) (f a t).0 (f a t).1)
      → Taken (k + j) m (continue o f t).0 (continue o f t).1
  Taken-continue k j m (ok a) t f h g = taken_on (f a t).0 (f a t).1 (g a h)
    where
      taken_on : (o : Outcome B) (u : List ℕ) → Taken j (length t) o u → Taken (k + j) m o u
      taken_on (ok b) u l = omega arith
      taken_on (err e) u l = tt
      taken_on running u l = l
  Taken-continue k j m (err e) t f h g = tt
  Taken-continue k j m running t f h g = h

  -- What follows has at most `n - k` bytes, and `n` is at least `k`.
  pub Eats-bind_within :
      {n k j : ℕ} (p : Parser A) (f : A → Parser B)
      → Eats n k p
      → ((a : A) → k ≤ n → Eats (n - k) j (f a))
      → Eats n (k + j) (p >>= f)
  Eats-bind_within p f e g = record {
    at = λ s q.
        Taken-continue _ _ (length s) (p s).0 (p s).1 f (e.at s q)
          (λ a h. (g a (omega arith)).at (p s).1 (omega arith));
  }

  pub Eats-bind :
      {n k j : ℕ} (p : Parser A) (f : A → Parser B)
      → Eats n k p
      → ((a : A) → Eats (n - k) j (f a))
      → Eats n (k + j) (p >>= f)
  Eats-bind p f e g = Eats-bind_within p f e (λ a h. g a)

  pub Eats-keep :
      {n j : ℕ} (p : Parser A) (f : A → Parser B)
      → Eats n 0 p
      → ((a : A) → Eats n j (f a))
      → Eats n j (p >>= f)
  Eats-keep {n = n} {j = j} p f e g =
      Eats-weaken (p >>= f)
        (Eats-bind {n = n} {k = 0} {j = j} p f e
          (λ a. Eats-weaken (f a) (g a) (omega arith) (omega arith)))
        (omega arith) (omega arith)

  -- A byte is taken, so there was one, and one less is left.
  pub Eats-step :
      {n j : ℕ} (p : Parser A) (f : A → Parser B)
      → Eats n 1 p
      → ((a : A) → 1 ≤ n → Eats (n - 1) j (f a))
      → Eats n 1 (p >>= f)
  Eats-step {n = n} {j = j} p f e g =
      Eats-weaken (p >>= f) (Eats-bind_within {n = n} {k = 1} {j = j} p f e g) (omega arith)
        (omega arith)

  -- That a byte is taken does not matter.
  pub Eats-skip :
      {n j : ℕ} (p : Parser A) (f : A → Parser B)
      → Eats n 1 p
      → ((a : A) → Eats n j (f a))
      → Eats n j (p >>= f)
  Eats-skip {n = n} {j = j} p f e g = Eats-keep p f (Eats-weaken p e (omega arith) (omega arith)) g

-- A byte that must come next.
Taken-expect : (b : ℕ) (s : List ℕ) → Taken 1 (length s) (expect b s).0 (expect b s).1
unfolding expect
Taken-expect b [] = tt
Taken-expect b (c ∷ s) = ground arith

pub Eats-expect : {n : ℕ} (b : ℕ) → Eats n 1 (expect b)
Eats-expect b = record { at = λ s q. Taken-expect b s }

Taken-consume_if : (b : ℕ) (s : List ℕ) → Taken 0 (length s) (consume_if b s).0 (consume_if b s).1
unfolding consume_if
Taken-consume_if b [] = omega arith
Taken-consume_if b (c ∷ s) = ground arith

pub Eats-consume_if : {n : ℕ} (b : ℕ) → Eats n 0 (consume_if b)
Eats-consume_if b = record { at = λ s q. Taken-consume_if b s }

pub length-skip_spaces : (s : List ℕ) → length (skip_spaces s) ≤ length s
unfolding skip_spaces
length-skip_spaces [] = omega arith
length-skip_spaces (b ∷ s) = ground (arith, length-skip_spaces s)

pub Eats-skip_whitespace : {n : ℕ} → Eats n 0 skip_whitespace
Eats-skip_whitespace = record { at = λ s q. omega (arith, length-skip_spaces s) }

Taken-parse_digits :
    (n acc : ℕ) (s : List ℕ) → Taken n (length s) (parse_digits n acc s).0 (parse_digits n acc s).1
unfolding parse_digits
Taken-parse_digits zero acc s = omega arith
Taken-parse_digits (suc n) acc [] = tt
Taken-parse_digits (suc n) acc (b ∷ s) = elim (Option-cases (hex_digit b)) [
  | inl e ↦ rw (e, parse_digits) tt
  | inr (d, e) ↦
      rw (e, parse_digits) (Taken-shift n (length s) _ _ (Taken-parse_digits n (acc * 16 + d) s))
]

Eats-parse_unicode_code_unit : {n : ℕ} → Eats n 0 parse_unicode_code_unit
unfolding parse_unicode_code_unit
Eats-parse_unicode_code_unit = record {
  at = λ s q. Taken-weaken 4 0 (length s) _ _ (Taken-parse_digits 4 0 s) (omega arith);
}

Eats-from_u32 : {n : ℕ} (v : ℕ) → Eats n 0 (from_u32 v)
unfolding from_u32
Eats-from_u32 v = record { at = λ s q. ground arith }

Eats-join_surrogates : {n : ℕ} (a b : ℕ) → Eats n 0 (join_surrogates a b)
unfolding join_surrogates from_u32
Eats-join_surrogates a b = record { at = λ s q. ground arith }

Taken-escape_follows : (s : List ℕ) → Taken 0 (length s) (escape_follows s).0 (escape_follows s).1
unfolding escape_follows
Taken-escape_follows [] = omega arith
Taken-escape_follows (b ∷ []) = omega arith
Taken-escape_follows (b ∷ (c ∷ s)) = ground arith

Eats-low_surrogate : {n : ℕ} (first : ℕ) (b : Bool) → Eats n 0 (low_surrogate first b)
unfolding low_surrogate
Eats-low_surrogate first false = Eats-fail _
Eats-low_surrogate first true =
    Eats-bind parse_unicode_code_unit (join_surrogates first) Eats-parse_unicode_code_unit
      (Eats-join_surrogates first)

Eats-unicode_of : {n : ℕ} (first : ℕ) → Eats n 0 (unicode_of first)
unfolding unicode_of
Eats-unicode_of first =
    Eats-if (leb 0xd800 first && leb first 0xdbff) _ _
      (Eats-bind escape_follows (low_surrogate first)
        (record { at = λ s q. Taken-escape_follows s }) (Eats-low_surrogate first))
      (Eats-if (leb 0xdc00 first && leb first 0xdfff) _ _ (Eats-fail _) (Eats-from_u32 first))

Eats-parse_unicode_escape : {n : ℕ} → Eats n 0 parse_unicode_escape
unfolding parse_unicode_escape
Eats-parse_unicode_escape =
    Eats-bind parse_unicode_code_unit unicode_of Eats-parse_unicode_code_unit Eats-unicode_of

Taken-parse_escape : (s : List ℕ) → Taken 0 (length s) (parse_escape s).0 (parse_escape s).1
unfolding parse_escape
Taken-parse_escape [] = tt
Taken-parse_escape (b ∷ s) = ground (
  arith,
  Taken-more 0 (length s) (parse_unicode_escape s).0 (parse_unicode_escape s).1
      ((Eats-parse_unicode_escape {n = length s}).at s (omega arith)),
)

pub Eats-parse_escape : {n : ℕ} → Eats n 0 parse_escape
Eats-parse_escape = record { at = λ s q. Taken-parse_escape s }

Taken-decode_utf8_at :
    (b : ℕ) (s : List ℕ) → Taken 0 (length s) (decode_utf8_at b s).0 (decode_utf8_at b s).1
unfolding decode_utf8_at
Taken-decode_utf8_at b s = elim (Option-cases (utf8_width b)) [
  | inl e ↦ rw (e, decode_utf8_at) tt
  | inr (w, e) ↦ rw (e, decode_utf8_at) (ground (arith, length-drop (w - 1) s))
]

pub Eats-decode_utf8_at : {n : ℕ} (b : ℕ) → Eats n 0 (decode_utf8_at b)
Eats-decode_utf8_at b = record { at = λ s q. Taken-decode_utf8_at b s }
