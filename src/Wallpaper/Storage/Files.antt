-- ===== src/Wallpaper/Storage/Files.antt =====
-- The three files of a layout after they are written.
use mural.Prelude.{ℕ, ◌≡◌, refl, ◌∙◌, subst, false, some, List, [], ◌∷◌, ◌++◌, Text, text, text_eq}
use mural.Exec.{ok, Exec, continue, continue-eq-ok, ◌>>◌}
use mural.Path.{join}
use mural.Disk.{Disk, read_file, atomic_write_text, concat_lines}
use mural.Disk.Written.{Wrote, atomic_write_text-Wrote}
use mural.Wallpaper.Layout.{is_empty}
use mural.Decimal.{print_usize}
use mural.Wallpaper.Storage.Names.{
  text_eq-join, IsName, hidden, temporary-join, history, index, offset, history-IsName,
  index-IsName, offset-IsName,
}

-- The file of that name holds the text, and nothing else has changed but the temporary file.
record Stored (dir name t : Text) (d e : Disk) : Type 0 where
  wrote : Wrote (join dir name) (join dir (hidden name d.pid)) t d e

Stored-of_ok :
    (c : ℕ) (dir name t : Text) (d : Disk)
    → IsName name
    → (atomic_write_text (join (c ∷ dir) name) t d).0 ≡ ok tt
    → Stored (c ∷ dir) name t d (atomic_write_text (join (c ∷ dir) name) t d).1
Stored-of_ok c dir name t d n h = record {
  wrote =
      subst
        (λ tmp. Wrote (join (c ∷ dir) name) tmp t d (atomic_write_text (join (c ∷ dir) name) t d).1)
        (temporary-join d c dir name n) (atomic_write_text-Wrote (join (c ∷ dir) name) t d h);
}

-- Another name in the directory, that is not hidden, reads as before.
read_other :
    (dir name other t : Text) (d e : Disk)
    → Stored dir name t d e
    → text_eq name other ≡ false
    → text_eq (hidden name d.pid) other ≡ false
    → read_file e (join dir other) ≡ read_file d (join dir other)
read_other dir name other t d e s h k =
    s.wrote.others (join dir other) (text_eq-join dir name other ∙ h)
      (text_eq-join dir (hidden name d.pid) other ∙ k)

-- The three files after `write`.
pub record Files3 (dir : Text) (rows : List Text) (i o : Text) (d e : Disk) : Type 0 where
  pub history_file : read_file e (join dir history) ≡ some (concat_lines rows)
  pub index_file : read_file e (join dir index) ≡ some i
  pub offset_file : read_file e (join dir offset) ≡ some o
  pub same_denied : e.denied ≡ d.denied

abbrev pub number_text : ℕ → Text
number_text n = print_usize n ++ text "\n"

-- The three writes, one after the other.
unfoldable pub write_three : Text → List Text → Text → Text → Exec Disk (Unit {0})
write_three dir rows i o = do
  atomic_write_text (join dir history) (concat_lines rows)
  atomic_write_text (join dir index) i
  atomic_write_text (join dir offset) o

pub write_three-Files3 :
    (dir : Text) (rows : List Text) (i o : Text) (d : Disk)
    → is_empty dir ≡ false
    → (write_three dir rows i o d).0 ≡ ok tt
    → Files3 dir rows i o d (write_three dir rows i o d).1
unfolding write_three text_eq
write_three-Files3 [] rows i o d e h = absurd (cc)
write_three-Files3 (c ∷ dir') rows i o d e h =
    let dir = c ∷ dir' in
    let first = atomic_write_text (join dir history) (concat_lines rows) d in
    let second = atomic_write_text (join dir index) i first.1 in
    let third = atomic_write_text (join dir offset) o second.1 in
    let a =
      continue-eq-ok first.0
        (λ _ (x : Disk).
          continue (atomic_write_text (join dir index) i x).0
            (λ _ (y : Disk). atomic_write_text (join dir offset) o y)
            (atomic_write_text (join dir index) i x).1)
        first.1 h in
    let b =
      continue-eq-ok second.0 (λ _ (y : Disk). atomic_write_text (join dir offset) o y) second.1
        a.2 in
    let s1 = Stored-of_ok c dir' history (concat_lines rows) d history-IsName a.1 in
    let s2 = Stored-of_ok c dir' index i first.1 index-IsName b.1 in
    let s3 = Stored-of_ok c dir' offset o second.1 offset-IsName b.2 in
    rw (a.1, b.1)
      (record {
        history_file =
            read_other dir offset history o second.1 third.1 s3 refl refl
            ∙ read_other dir index history i first.1 second.1 s2 refl refl
            ∙ s1.wrote.read;
        index_file = read_other dir offset index o second.1 third.1 s3 refl refl ∙ s2.wrote.read;
        offset_file = s3.wrote.read;
        same_denied = s3.wrote.same_denied ∙ s2.wrote.same_denied ∙ s1.wrote.same_denied;
      })
