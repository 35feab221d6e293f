-- ===== src/Wallpaper/Examples/Files.antt =====
-- A layout on disk, and the theorem on reading it back.
use mural.Prelude.{◌≡◌, refl, Text, text, text_eq, contains, arith}
use mural.Exec.{ok}
use mural.Path.{join, parent, file_name}
use mural.Disk.{
  lookup, create_dir_all, write_file, rename, temporary, atomic_write_text, atomic_write_lines,
}
use mural.Disk.Written.{Wrote, atomic_write_text-Wrote}
use mural.Wallpaper.Storage.{write, load}
use mural.Wallpaper.Storage.Rows.{IsPath}
use mural.Wallpaper.Storage.Reload.{IsStorable, load-write}
use mural.Wallpaper.Examples.{three, disk_of, shown, a_jpg, b_png, c_webp}

a_jpg-IsPath : IsPath a_jpg
a_jpg-IsPath = record {
  named = refl;
  line = record { no_lf = ground arith; no_cr = ground arith };
  no_tab = ground arith;
}

b_png-IsPath : IsPath b_png
b_png-IsPath = record {
  named = refl;
  line = record { no_lf = ground arith; no_cr = ground arith };
  no_tab = ground arith;
}

c_webp-IsPath : IsPath c_webp
c_webp-IsPath = record {
  named = refl;
  line = record { no_lf = ground arith; no_cr = ground arith };
  no_tab = ground arith;
}

shown-IsStorable : IsStorable shown
shown-IsStorable = record {
  rows = (
    (a_jpg-IsPath, (b_png-IsPath, tt)),
    ((b_png-IsPath, (c_webp-IsPath, tt)), ((c_webp-IsPath, (a_jpg-IsPath, tt)), tt)),
  );
  started = λ h. omega arith;
  index_fits = omega arith;
  offset_lt = omega arith;
  offset_fits = omega arith;
}

shown_written : (write shown (disk_of three)).0 ≡ ok tt
unfolding write atomic_write_lines atomic_write_text parent join text_eq create_dir_all contains
    write_file rename lookup temporary file_name
shown_written = refl

load-write_example : (load (text "/s/layout-A+B") 2 2 (write shown (disk_of three)).1).0 ≡ ok shown
load-write_example = load-write shown (disk_of three) shown-IsStorable refl refl shown_written

abbrev index_path : Text
index_path = text "/s/layout-A+B/index"

index_written : (atomic_write_text index_path (text "2\n") (disk_of three)).0 ≡ ok tt
unfolding atomic_write_text parent text_eq create_dir_all contains write_file rename lookup
    temporary file_name join
index_written = refl

atomic_write_text-Wrote_example :
    Wrote index_path
      (temporary (disk_of three) index_path)
      (text "2\n")
      (disk_of three)
      (atomic_write_text index_path (text "2\n") (disk_of three)).1
atomic_write_text-Wrote_example =
    atomic_write_text-Wrote index_path (text "2\n") (disk_of three) index_written
