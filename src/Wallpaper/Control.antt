-- ===== src/Wallpaper/Control.antt =====
-- The state of `WallpaperControl` of wallpaper.rs, and its parts that touch the file system: the
-- scan of the wallpaper directory and the four files of the core state.
use mural.Prelude.{
  ℕ, Bool, false, ◌&&◌, ◌||◌, not, Option, none, some, List, [], ◌∷◌, ◌++◌, Text, text, text_eq,
  contains, if◌then◌else◌,
}
use mural.Exec.{ok, Exec, ◌>>◌, continue}
use mural.Path.{parent, extension, to_ascii_lowercase, starts_with, sort, dedup, join}
use mural.Disk.{Disk, is_file, is_dir, read_dir, atomic_write_text, atomic_write_lines}
use mural.Decimal.{print_usize}
use mural.Wallpaper.Rng.{SimpleRng}
use mural.Wallpaper.Layout.{LayoutState}

pub record Control : Type 0 where
  pub wall_dir : Text
  pub state_dir : Text
  pub quarantine_dir : Text
  pub favorite_weight : ℕ
  pub max_history : ℕ
  pub library : List Text
  pub favorites : List Text
  pub shuffle_bag : List Text
  pub shuffle_pos : ℕ
  pub layouts : List (Text × LayoutState)
  pub rng : SimpleRng

-- `self` and the file system that its methods read and write.
pub record Sys : Type 0 where
  pub control : Control
  pub open control use *
  pub disk : Disk

abbrev pub on_disk : {A : Type 0} → (Sys → Exec Disk A) → Exec Sys A
on_disk m s = let r = m s s.disk in (r.0, record s { disk = r.1 })

unfoldable pub is_supported_wallpaper : Text → Bool
is_supported_wallpaper path = elim (extension path) [
  | none ↦ false
  | some e ↦
      contains (text "jpg" ∷ text "jpeg" ∷ text "png" ∷ text "webp" ∷ []) (to_ascii_lowercase e)
]

has_parent : Text → Option Text → Bool
has_parent dir none = false
has_parent dir (some p) = text_eq p dir

-- `is_eligible_top_level_wallpaper`, the function and the method of that name.
unfoldable pub is_eligible : Text → Text → Disk → Text → Bool
unfolding has_parent
is_eligible wall_dir quarantine_dir d path =
    has_parent wall_dir (parent path)
    && (not (starts_with path quarantine_dir || not (is_file d path))
        && is_supported_wallpaper path)

unfoldable pub filter : (Text → Bool) → List Text → List Text
filter p [] = []
filter p (x ∷ xs) = let rest = filter p xs in if p x then x ∷ rest else rest

unfoldable pub scan_top_level_library : Text → Text → Exec Disk (List Text)
scan_top_level_library wall_dir quarantine_dir d =
    if is_dir d wall_dir
    then (let r = read_dir wall_dir d in
        continue r.0
          (λ entries d'.
            (ok (dedup (sort (filter (is_eligible wall_dir quarantine_dir d') entries))), d'))
          r.1)
    else (ok [], d)

unfoldable pub persist_core_state : Exec Sys (Unit {0})
persist_core_state = do
  on_disk (λ s. atomic_write_lines (join s.state_dir (text "library")) s.library)
  on_disk (λ s. atomic_write_lines (join s.state_dir (text "favorites")) s.favorites)
  on_disk (λ s. atomic_write_lines (join s.state_dir (text "walls")) s.shuffle_bag)
  on_disk (λ s.
      atomic_write_text (join s.state_dir (text "walls_idx"))
        (print_usize s.shuffle_pos ++ text "\n"))
