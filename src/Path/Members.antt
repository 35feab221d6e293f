-- ===== src/Path/Members.antt =====
-- What `Vec::sort` and `Vec::dedup` keep of a list of paths.
use mural.Prelude.{◌≡◌, refl, ◌||◌, List, [], ◌∷◌, Text, text_eq, text_eq_iff, contains, arith}
use mural.Path.{sort, dedup, insert_sorted, dedup_after}

contains-insert_sorted :
    (s w : Text) (ts : List Text) → contains (insert_sorted s ts) w ≡ (text_eq s w || contains ts w)
unfolding contains insert_sorted
contains-insert_sorted s w [] = refl
contains-insert_sorted s w (t ∷ ts) = ground (arith, contains-insert_sorted s w ts)

pub contains-sort : (ts : List Text) (w : Text) → contains (sort ts) w ≡ contains ts w
unfolding contains sort
contains-sort [] w = refl
contains-sort (t ∷ ts) w = ground (arith, contains-insert_sorted t w (sort ts), contains-sort ts w)

contains-dedup_after :
    (s w : Text) (ts : List Text)
    → (text_eq s w || contains (dedup_after s ts) w) ≡ (text_eq s w || contains ts w)
unfolding contains dedup_after
contains-dedup_after s w [] = refl
contains-dedup_after s w (t ∷ ts) = ground (
  arith,
  contains-dedup_after s w ts,
  contains-dedup_after t w ts,
  text_eq_iff t s,
  text_eq_iff t w,
  text_eq_iff s w,
)

pub contains-dedup : (ts : List Text) (w : Text) → contains (dedup ts) w ≡ contains ts w
unfolding contains dedup
contains-dedup [] w = refl
contains-dedup (t ∷ ts) w = contains-dedup_after t w ts
