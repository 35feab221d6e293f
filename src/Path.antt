-- ===== src/Path.antt =====
-- The operations of `std::path::Path` that the wallpaper library uses, on normalised paths (no
-- doubled or trailing slash), and the order and duplicate removal of `Vec<String>`.
pub mod Members
use mural.Prelude.{
  ℕ, ◌+◌, Bool, true, false, ◌&&◌, ◌||◌, Option, none, some, List, [], ◌∷◌, ◌++◌, Text, text,
  text_eq, ltb, leb, ◌==◌, if◌then◌else◌,
}

abbrev pub slash : ℕ
slash = b'/'

abbrev pub dot : ℕ
dot = b'.'

-- The parts before and after the last `c`.
unfoldable pub split_last : ℕ → Text → Option (Text × Text)
split_last c [] = none
split_last c (x ∷ s) = elim (split_last c s) [
  | some (a, b) ↦ some (x ∷ a, b)
  | none ↦ if x == c then some ([], s) else none
]

is_empty : Text → Bool
is_empty [] = true
is_empty (x ∷ s) = false

unfoldable pub parent : Text → Option Text
unfolding split_last is_empty
parent p =
    if is_empty p then none else if text_eq p (text "/") then none else elim (split_last slash p) [
      | none ↦ some []
      | some (a, b) ↦ if is_empty a then some (text "/") else some a
    ]

unfoldable pub file_name : Text → Option Text
unfolding split_last is_empty
file_name p =
    let name : Text = elim (split_last slash p) [ none ↦ p | some (a, b) ↦ b ] in
    if is_empty name || text_eq name (text "..") then none else some name

-- `dir.join(name)` for a relative `name`.
unfoldable pub join : Text → Text → Text
join dir name = dir ++ (slash ∷ name)

-- `Path::extension`: what follows the last dot of the file name, unless the name begins with it.
unfoldable pub extension : Text → Option Text
unfolding split_last is_empty file_name
extension p = elim (file_name p) [
  | none ↦ none
  | some name ↦ elim (split_last dot name) [
    | none ↦ none
    | some (stem, ext) ↦ if is_empty stem then none else some ext
  ]
]

is_prefix : Text → Text → Bool
is_prefix [] s = true
is_prefix (a ∷ p) [] = false
is_prefix (a ∷ p) (b ∷ s) = a == b && is_prefix p s

-- `path.starts_with(dir)`, by components.
unfoldable pub starts_with : Text → Text → Bool
unfolding is_prefix
starts_with path dir = text_eq path dir || is_prefix (dir ++ (slash ∷ [])) path

unfoldable pub to_ascii_lowercase : Text → Text
to_ascii_lowercase [] = []
to_ascii_lowercase (c ∷ s) = (if leb b'A' c && leb c b'Z' then c + 32 else c) ∷ to_ascii_lowercase s

unfoldable pub text_lt : Text → Text → Bool
text_lt [] [] = false
text_lt [] (b ∷ t) = true
text_lt (a ∷ s) [] = false
text_lt (a ∷ s) (b ∷ t) = ltb a b || a == b && text_lt s t

-- `Vec::sort`
insert_sorted : Text → List Text → List Text
insert_sorted s [] = s ∷ []
insert_sorted s (t ∷ ts) = if text_lt t s then t ∷ insert_sorted s ts else s ∷ (t ∷ ts)

unfoldable pub sort : List Text → List Text
unfolding insert_sorted text_lt
sort [] = []
sort (s ∷ ts) = insert_sorted s (sort ts)

-- `Vec::dedup`: of equal neighbours the first is kept.
dedup_after : Text → List Text → List Text
dedup_after s [] = []
dedup_after s (t ∷ ts) =
    let skip = dedup_after s ts in
    let keep = t ∷ dedup_after t ts in if text_eq t s then skip else keep

unfoldable pub dedup : List Text → List Text
unfolding dedup_after
dedup [] = []
dedup (s ∷ ts) = s ∷ dedup_after s ts
