-- ===== src/Wallpaper/Storage/Reload.antt =====
-- A layout that was written is the layout that is loaded.
use native.Mathlib.Nat.{mod-eq_of_lt}
use mural.Prelude.{
  ℕ, ◌%◌, ◌≤◌, ◌<◌, ◌≡◌, refl, ap, ◌∙◌, false, ◌&&◌, not, some, map, Text, ltb, if◌then◌else◌,
  arith, All, usize_max,
}
use mural.Exec.{ok}
use mural.Path.{join}
use mural.Disk.{Disk, read_file, create_dir_all, atomic_write_lines}
use mural.Wallpaper.Layout.{LayoutState, is_empty}
use mural.Wallpaper.Storage.{lines, join_tab, read_lines, read_usize, parse_layout, load, write}
use mural.Wallpaper.Storage.Rows.{
  IsRow, All-IsLine, drop_empty-rows, map-split_tab, lines-concat_lines,
}
use mural.Wallpaper.Storage.Number.{usize_of-print_usize}
use mural.Wallpaper.Storage.Names.{history, index, offset}
use mural.Wallpaper.Storage.Files.{Files3, number_text, write_three, write_three-Files3}

-- A layout that the files can hold.
pub record IsStorable (l : LayoutState) : Type 0 where
  pub rows : All IsRow l.history
  pub started : is_empty l.history ≡ false → 1 ≤ l.idx
  pub index_fits : l.idx ≤ usize_max
  pub offset_lt : l.offset < l.out_count
  pub offset_fits : l.out_count ≤ usize_max

parse_layout-eq :
    (l : LayoutState)
    → IsStorable l
    → parse_layout l.layout_dir l.out_count l.max_history (map join_tab l.history) l.idx l.offset
      ≡ l
unfolding parse_layout
parse_layout-eq l v =
    let i : (if ltb l.idx 1 && not (is_empty l.history) then 1 else l.idx) ≡ l.idx =
      ground (arith, v.started) in
    let o : (if ltb 0 l.out_count then l.offset % l.out_count else l.offset) ≡ l.offset =
      ground (arith, mod-eq_of_lt v.offset_lt) in
    rw (drop_empty-rows l.history v.rows, map-split_tab l.history v.rows, i, o, parse_layout) refl

create_dir_all-ok :
    (dir : Text) (e : Disk) → e.denied dir ≡ false → (create_dir_all dir e).0 ≡ ok tt
unfolding create_dir_all
create_dir_all-ok dir e h = ground arith

read-create_dir_all :
    (dir p : Text) (e : Disk) → read_file (create_dir_all dir e).1 p ≡ read_file e p
unfolding create_dir_all read_file
read-create_dir_all dir p e = ground arith

read_lines-some : (e : Disk) (p t : Text) → read_file e p ≡ some t → read_lines e p ≡ lines t
unfolding read_lines
read_lines-some e p t h = rw (h, read_lines) refl

read_usize-some :
    (e : Disk) (p : Text) (n : ℕ)
    → read_file e p ≡ some (number_text n)
    → n ≤ usize_max
    → read_usize e p 0 ≡ n
unfolding read_usize
read_usize-some e p n h k = rw (h, usize_of-print_usize n k, read_usize) refl

load-eq :
    (dir : Text) (out_count max_history : ℕ) (e : Disk)
    → e.denied dir ≡ false
    → let f = (create_dir_all dir e).1 in
      (load dir out_count max_history e).0
      ≡ ok (
          parse_layout dir out_count max_history
            (read_lines f (join dir history))
            (read_usize f (join dir index) 0)
            (read_usize f (join dir offset) 0))
unfolding load
load-eq dir out_count max_history e h = rw (create_dir_all-ok dir e h) refl

load-Files3 :
    (l : LayoutState) (d e : Disk)
    → IsStorable l
    → e.denied l.layout_dir ≡ false
    → Files3 l.layout_dir (map join_tab l.history) (number_text l.idx) (number_text l.offset) d e
    → (load l.layout_dir l.out_count l.max_history e).0 ≡ ok l
load-Files3 l d e v n f =
    let dir = l.layout_dir in
    let g = (create_dir_all dir e).1 in
    let h : read_lines g (join dir history) ≡ map join_tab l.history =
      read_lines-some g (join dir history) _
        (read-create_dir_all dir (join dir history) e ∙ f.history_file)
      ∙ lines-concat_lines (map join_tab l.history) (All-IsLine l.history v.rows) in
    let i : read_usize g (join dir index) 0 ≡ l.idx =
      read_usize-some g (join dir index) l.idx
        (read-create_dir_all dir (join dir index) e ∙ f.index_file) v.index_fits in
    let o : read_usize g (join dir offset) 0 ≡ l.offset =
      read_usize-some g (join dir offset) l.offset
        (read-create_dir_all dir (join dir offset) e ∙ f.offset_file)
        (omega (arith, v.offset_lt, v.offset_fits)) in
    load-eq dir l.out_count l.max_history e n ∙ rw (h, i, o) (ap ok (parse_layout-eq l v))

write-eq :
    (l : LayoutState)
    → write l
      ≡ write_three l.layout_dir (map join_tab l.history) (number_text l.idx) (number_text l.offset)
unfolding write write_three atomic_write_lines
write-eq l = refl

-- For a layout with a named directory that can be made, rows of non-empty paths without tabs and
-- line ends, a started index, an offset below out_count and numbers that fit: if write succeeds,
-- load from the disk that it leaves gives the same layout.
pub load-write :
    (l : LayoutState) (d : Disk)
    → IsStorable l
    → is_empty l.layout_dir ≡ false
    → d.denied l.layout_dir ≡ false
    → (write l d).0 ≡ ok tt
    → (load l.layout_dir l.out_count l.max_history (write l d).1).0 ≡ ok l
load-write l d v named allowed h =
    let e =
      write_three-Files3 l.layout_dir (map join_tab l.history) (number_text l.idx)
        (number_text l.offset) d named (rw (write-eq l) at h) in
    rw (write-eq l) (
      load-Files3 l d
        (write_three l.layout_dir (map join_tab l.history) (number_text l.idx)
          (number_text l.offset) d).1
        v (ap (λ f. f l.layout_dir) e.same_denied ∙ allowed) e)
