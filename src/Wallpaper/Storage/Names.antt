-- ===== src/Wallpaper/Storage/Names.antt =====
-- The names of the files of a layout, and of the temporary files beside them.
use mural.Prelude.{ℕ, ◌≡◌, refl, false, none, some, [], ◌∷◌, ◌++◌, Text, text, text_eq, arith}
use mural.Path.{split_last, slash, parent, file_name, join}
use mural.Disk.{Disk, temporary}
use mural.Wallpaper.Layout.{is_empty}

pub text_eq-join : (dir a b : Text) → text_eq (join dir a) (join dir b) ≡ text_eq a b
unfolding text_eq join
text_eq-join [] a b = refl
text_eq-join (c ∷ dir) a b = ground (arith, text_eq-join dir a b)

split_last-join :
    (dir name : Text)
    → split_last slash name ≡ none
    → split_last slash (join dir name) ≡ some (dir, name)
unfolding split_last join
split_last-join [] name h = rw (h, split_last) refl
split_last-join (c ∷ dir) name h = rw (split_last-join dir name h, split_last) refl

-- The names of the three files.
pub record IsName (name : Text) : Type 0 where
  no_slash : split_last slash name ≡ none
  named : is_empty name ≡ false
  not_dots : text_eq name (text "..") ≡ false

abbrev pub hidden : Text → Text → Text
hidden name pid = text "." ++ (name ++ (text "." ++ (pid ++ text ".tmp")))

not_root : (c : ℕ) (dir name : Text) → text_eq (join (c ∷ dir) name) (text "/") ≡ false
unfolding join text_eq
not_root c [] name = ground arith
not_root c (d ∷ dir) name = ground arith

join-named : (c : ℕ) (dir name : Text) → is_empty (join (c ∷ dir) name) ≡ false
unfolding join
join-named c dir name = refl

parent-join :
    (c : ℕ) (dir name : Text) → IsName name → parent (join (c ∷ dir) name) ≡ some (c ∷ dir)
unfolding parent
parent-join c dir name n =
    rw
      (
        join-named c dir name,
        not_root c dir name,
        split_last-join (c ∷ dir) name n.no_slash,
        parent,
      )
      refl

file_name-join : (dir name : Text) → IsName name → file_name (join dir name) ≡ some name
unfolding file_name
file_name-join dir name n =
    rw (split_last-join dir name n.no_slash, file_name) (ground (arith, n.named, n.not_dots))

pub temporary-join :
    (d : Disk) (c : ℕ) (dir name : Text)
    → IsName name
    → temporary d (join (c ∷ dir) name) ≡ join (c ∷ dir) (hidden name d.pid)
unfolding temporary
temporary-join d c dir name n =
    rw (parent-join c dir name n, file_name-join (c ∷ dir) name n, temporary) refl

abbrev pub history : Text
history = text "history"

abbrev pub index : Text
index = text "index"

abbrev pub offset : Text
offset = text "offset"

pub history-IsName : IsName history
unfolding split_last text_eq
history-IsName = record { no_slash = refl; named = refl; not_dots = refl }

pub index-IsName : IsName index
unfolding split_last text_eq
index-IsName = record { no_slash = refl; named = refl; not_dots = refl }

pub offset-IsName : IsName offset
unfolding split_last text_eq
offset-IsName = record { no_slash = refl; named = refl; not_dots = refl }
