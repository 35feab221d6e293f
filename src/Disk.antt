-- ===== src/Disk.antt =====
-- The file system, as the state that `std::fs` reads and changes: regular files with their contents,
-- directories, and the paths on which every call fails.
pub mod Written
use mural.Prelude.{
  Bool, true, false, ◌||◌, Option, none, some, List, [], ◌∷◌, ◌++◌, Text, text, text_eq, contains,
  if◌then◌else◌,
}
use mural.Exec.{
  ok, err, Exec, pure, gets, ◌>>=◌, ◌>>◌, create_dir_failed, read_dir_failed, write_failed,
  rename_failed,
}
use mural.Path.{parent, file_name, join}

abbrev pub Files : Type 0
Files = List (Text × Text)

unfoldable pub lookup : Text → Files → Option Text
lookup p [] = none
lookup p ((q, t) ∷ fs) = if text_eq q p then some t else lookup p fs

unfoldable pub remove : Text → Files → Files
remove p [] = []
remove p ((q, t) ∷ fs) = let rest = remove p fs in if text_eq q p then rest else (q, t) ∷ rest

pub record Disk : Type 0 where
  pub files : Files
  pub dirs : List Text
  pub denied : Text → Bool
  -- `std::process::id()`, as it is printed
  pub pid : Text

abbrev is_some {ℓ} : {A : Type ℓ} → Option A → Bool
is_some none = false
is_some (some a) = true

unfoldable pub is_file : Disk → Text → Bool
is_file d p = is_some (lookup p d.files)

unfoldable pub is_dir : Disk → Text → Bool
is_dir d p = contains d.dirs p

unfoldable pub path_exists : Disk → Text → Bool
unfolding is_file is_dir
path_exists d p = is_file d p || is_dir d p

-- The paths of `fs` that stand directly in `dir`.
children : Text → List Text → List Text
children dir [] = []
children dir (p ∷ ps) =
    let rest = children dir ps in
    elim (parent p) [ none ↦ rest | some q ↦ if text_eq q dir then p ∷ rest else rest ]

names : Files → List Text
names [] = []
names ((p, t) ∷ fs) = p ∷ names fs

unfoldable pub read_dir : Text → Exec Disk (List Text)
unfolding children names
read_dir dir d =
    if d.denied dir
    then (err (read_dir_failed dir), d)
    else (ok (children dir (names d.files) ++ children dir d.dirs), d)

unfoldable pub read_file : Disk → Text → Option Text
read_file d p = if d.denied p then none else lookup p d.files

unfoldable pub create_dir_all : Text → Exec Disk (Unit {0})
create_dir_all dir d =
    if d.denied dir
    then (err (create_dir_failed dir), d)
    else if contains d.dirs dir
    then (ok tt, d)
    else (ok tt, record d { dirs = dir ∷ d.dirs })

unfoldable pub write_file : Text → Text → Exec Disk (Unit {0})
write_file p t d =
    if d.denied p
    then (err (write_failed p), d)
    else (ok tt, record d { files = (p, t) ∷ remove p d.files })

unfoldable pub rename : Text → Text → Exec Disk (Unit {0})
rename src dst d =
    if d.denied dst then (err (rename_failed dst), d) else elim (lookup src d.files) [
      | none ↦ (err (rename_failed src), d)
      | some t ↦ (ok tt, record d { files = (dst, t) ∷ remove dst (remove src d.files) })
    ]

-- `.NAME.PID.tmp` beside the file.
unfoldable pub temporary : Disk → Text → Text
temporary d p =
    let name : Text = elim (file_name p) [ none ↦ text "state" | some n ↦ n ] in
    let tmp = text "." ++ (name ++ (text "." ++ (d.pid ++ text ".tmp"))) in
    elim (parent p) [ none ↦ tmp | some dir ↦ join dir tmp ]

unfoldable pub create_parent : Option Text → Exec Disk (Unit {0})
create_parent none = pure tt
create_parent (some dir) = create_dir_all dir

unfoldable pub atomic_write_text : Text → Text → Exec Disk (Unit {0})
unfolding create_parent
atomic_write_text p t = do
  create_parent (parent p)
  tmp ← gets (λ d. temporary d p)
  write_file tmp t
  rename tmp p

unfoldable pub concat_lines : List Text → Text
concat_lines [] = []
concat_lines (l ∷ ls) = l ++ (b'\n' ∷ concat_lines ls)

unfoldable pub atomic_write_lines : Text → List Text → Exec Disk (Unit {0})
unfolding concat_lines
atomic_write_lines p ls = atomic_write_text p (concat_lines ls)
