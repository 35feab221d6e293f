-- ===== src/Protocol/Words.antt =====
-- The words of the protocol: the enumerations of crates/mural-ipc/src/lib.rs with `as_str` and
-- `parse`, behind one interface.
pub mod General
pub mod Cache
pub mod Canvas
use mural.Prelude.{◌≡◌, refl, true, List, [], ◌∷◌, ◌++◌, Text, text, text_eq, All, if◌then◌else◌}
use mural.Exec.{Outcome, ok, err, message}
use mural.Json.Utf8.{is_scalar}

-- Every value has a word, which is read back.
pub record Word (A : Type 0) : Type 0 where
  pub as_str : A → Text
  pub parse : Text → Outcome A
  pub read_back : (a : A) → parse (as_str a) ≡ ok a
  pub scalars : (a : A) → All (λ c. is_scalar c ≡ true) (as_str a)

abbrev pub as_str : {A : Type 0} ⦃w : Word A⦄ → A → Text
as_str ⦃w⦄ = w.as_str

abbrev pub parse : {A : Type 0} ⦃w : Word A⦄ → Text → Outcome A
parse ⦃w⦄ = w.parse

-- A `match` on words, with the message for any other.
unfoldable pub match_word : {A : Type 0} → List (Text × A) → Text → Text → Outcome A
match_word [] unknown input = err (message (unknown ++ input))
match_word ((w, a) ∷ ws) unknown input =
    if text_eq w input then ok a else match_word ws unknown input
