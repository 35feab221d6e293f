-- ===== src/Wallpaper/Storage.antt =====
-- How wallpaper.rs keeps a `LayoutState` on disk: `load`, `write`, and the readers of lines and
-- numbers that they use, with what these use of `str`.
pub mod Rows
pub mod Number
pub mod Names
pub mod Files
pub mod Reload
use mural.Prelude.{
  ℕ, ◌+◌, ◌-◌, ◌*◌, ◌%◌, Bool, true, false, ◌&&◌, ◌||◌, not, Option, none, some, List, [], ◌∷◌,
  ◌++◌, map, Text, text, ltb, leb, ◌==◌, if◌then◌else◌, usize_max,
}
use mural.Exec.{Exec, gets, ◌>>◌}
use mural.Path.{join}
use mural.Disk.{Disk, read_file, create_dir_all, atomic_write_lines, atomic_write_text}
use mural.Wallpaper.Layout.{LayoutState, is_empty}
use mural.Decimal.{print_usize, parse_uint}

abbrev pub tab : ℕ
tab = b'\t'

abbrev pub lf : ℕ
lf = b'\n'

abbrev pub cr : ℕ
cr = b'\r'

unfoldable pub cons_first : ℕ → List Text → List Text
cons_first c [] = (c ∷ []) ∷ []
cons_first c (l ∷ ls) = (c ∷ l) ∷ ls

unfoldable pub starts_lf : Text → Bool
starts_lf [] = false
starts_lf (c ∷ s) = c == lf

-- `str::lines`: a line ends at a line feed or at the pair of carriage return and line feed.
unfoldable pub lines : Text → List Text
unfolding cons_first starts_lf
lines [] = []
lines (c ∷ s) =
    let rest = lines s in
    if c == lf then [] ∷ rest else if c == cr && starts_lf s then rest else cons_first c rest

-- `str::split(TAB)`
unfoldable pub split_tab : Text → List Text
unfolding cons_first
split_tab [] = [] ∷ []
split_tab (c ∷ s) = let rest = split_tab s in if c == tab then [] ∷ rest else cons_first c rest

-- `selection.join(TAB)`
unfoldable pub join_tab : List Text → Text
join_tab [] = []
join_tab (t ∷ []) = t
join_tab (t ∷ (u ∷ ts)) = t ++ (tab ∷ join_tab (u ∷ ts))

abbrev pub is_whitespace : ℕ → Bool
is_whitespace c =
    leb 9 c && leb c 13
    || c == 32
    || c == 0x85
    || c == 0xa0
    || c == 0x1680
    || leb 0x2000 c && leb c 0x200a
    || c == 0x2028
    || c == 0x2029
    || c == 0x202f
    || c == 0x205f
    || c == 0x3000

unfoldable pub trim_start : Text → Text
trim_start [] = []
trim_start (c ∷ s) = elim (is_whitespace c) [ true ↦ trim_start s | false ↦ c ∷ s ]

unfoldable pub trim_end : Text → Text
trim_end [] = []
trim_end (c ∷ s) =
    let rest = trim_end s in if is_empty rest && is_whitespace c then [] else c ∷ rest

unfoldable pub parse_usize : Text → Option ℕ
unfolding parse_uint
parse_usize s = parse_uint usize_max s

unfoldable pub read_lines : Disk → Text → List Text
unfolding lines
read_lines d p = elim (read_file d p) [ none ↦ [] | some content ↦ lines content ]

unfoldable pub usize_of : Text → Option ℕ
unfolding parse_usize trim_start trim_end
usize_of content = parse_usize (trim_end (trim_start content))

unfoldable pub read_usize : Disk → Text → ℕ → ℕ
unfolding usize_of
read_usize d p default = elim (read_file d p) [
  | none ↦ default
  | some content ↦ elim (usize_of content) [ none ↦ default | some n ↦ n ]
]

unfoldable pub drop_empty : List Text → List Text
drop_empty [] = []
drop_empty (l ∷ ls) = let rest = drop_empty ls in if is_empty l then rest else l ∷ rest

-- The layout that the three files hold.
unfoldable pub parse_layout : Text → ℕ → ℕ → List Text → ℕ → ℕ → LayoutState
unfolding split_tab drop_empty
parse_layout dir out_count max_history history_lines idx offset =
    let history = map split_tab (drop_empty history_lines) in
    record {
      layout_dir = dir;
      out_count = out_count;
      max_history = max_history;
      history = history;
      idx = if ltb idx 1 && not (is_empty history) then 1 else idx;
      offset = if ltb 0 out_count then offset % out_count else offset;
    }

unfoldable pub load : Text → ℕ → ℕ → Exec Disk LayoutState
unfolding parse_layout read_lines read_usize
load dir out_count max_history = do
  create_dir_all dir
  gets (λ d.
      parse_layout dir out_count max_history (read_lines d (join dir (text "history")))
        (read_usize d (join dir (text "index")) 0) (read_usize d (join dir (text "offset")) 0))

unfoldable pub write : LayoutState → Exec Disk (Unit {0})
unfolding join_tab
write l = do
  atomic_write_lines (join l.layout_dir (text "history")) (map join_tab l.history)
  atomic_write_text (join l.layout_dir (text "index")) (print_usize l.idx ++ text "\n")
  atomic_write_text (join l.layout_dir (text "offset")) (print_usize l.offset ++ text "\n")
