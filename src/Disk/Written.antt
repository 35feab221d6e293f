-- ===== src/Disk/Written.antt =====
-- What a file holds after `atomic_write_text` of wallpaper.rs, and what the other files hold.
use mural.Prelude.{
  ◌≡◌, refl, ◌∙◌, subst, false, Option, none, some, [], ◌∷◌, Text, text_eq, text_eq_iff, arith,
  if◌then◌else◌, Bool-cases, inl, inr,
}
use mural.Exec.{ok, Exec, continue-eq-ok, continue}
use mural.Path.{parent}
use mural.Disk.{
  Files, Disk, lookup, remove, read_file, create_dir_all, write_file, rename, temporary,
  create_parent, atomic_write_text,
}

lookup-remove :
    (p q : Text) (fs : Files) → lookup q (remove p fs) ≡ (if text_eq p q then none else lookup q fs)
unfolding lookup remove
lookup-remove p q [] = ground arith
lookup-remove p q ((r, t) ∷ fs) =
    ground (arith, lookup-remove p q fs, text_eq_iff r p, text_eq_iff r q, text_eq_iff p q)

-- What a write to `p`, by way of `tmp`, leaves on disk.
pub record Wrote (p tmp t : Text) (d e : Disk) : Type 0 where
  pub read : read_file e p ≡ some t
  pub others :
      (q : Text) → text_eq p q ≡ false → text_eq tmp q ≡ false → read_file e q ≡ read_file d q
  pub same_pid : e.pid ≡ d.pid
  pub same_denied : e.denied ≡ d.denied

-- Making a directory changes no file.
record SameFiles (d e : Disk) : Type 0 where
  files : e.files ≡ d.files
  pid : e.pid ≡ d.pid
  denied : e.denied ≡ d.denied

SameFiles-create_dir_all : (dir : Text) (d : Disk) → SameFiles d (create_dir_all dir d).1
unfolding create_dir_all
SameFiles-create_dir_all dir d = record {
  files = ground arith;
  pid = ground arith;
  denied = ground arith;
}

SameFiles-create_parent : (o : Option Text) (d : Disk) → SameFiles d (create_parent o d).1
unfolding create_parent
SameFiles-create_parent none d = record { files = refl; pid = refl; denied = refl }
SameFiles-create_parent (some dir) d = SameFiles-create_dir_all dir d

-- A write that succeeded, and a rename that succeeded.
write_file-ok :
    (p t : Text) (d : Disk)
    → (write_file p t d).0 ≡ ok tt
    → (d.denied p ≡ false) × ((write_file p t d).1 ≡ record d { files = (p, t) ∷ remove p d.files })
unfolding write_file
write_file-ok p t d h = elim (Bool-cases (d.denied p)) [
  | inl e ↦ absurd (cc (rw (e, write_file) at h))
  | inr e ↦ (e, rw (e, write_file) refl)
]

rename-ok :
    (src dst t : Text) (d : Disk)
    → lookup src d.files ≡ some t
    → (rename src dst d).0 ≡ ok tt
    → (d.denied dst ≡ false)
      × ((rename src dst d).1 ≡ record d { files = (dst, t) ∷ remove dst (remove src d.files) })
unfolding rename
rename-ok src dst t d l h = elim (Bool-cases (d.denied dst)) [
  | inl e ↦ absurd (cc (rw (e, rename) at h))
  | inr e ↦ (e, rw (e, l, rename) refl)
]

Wrote-files :
    (p tmp t : Text) (d : Disk)
    → d.denied p ≡ false
    → Wrote p tmp t d
        (record d { files = (p, t) ∷ remove p (remove tmp ((tmp, t) ∷ remove tmp d.files)) })
unfolding read_file lookup remove
Wrote-files p tmp t d h = record {
  read = ground (arith, text_eq_iff p p);
  others = λ q a b. ground (
    arith,
    lookup-remove p q (remove tmp ((tmp, t) ∷ remove tmp d.files)),
    lookup-remove tmp q ((tmp, t) ∷ remove tmp d.files),
    lookup-remove tmp q d.files,
  );
  same_pid = refl;
  same_denied = refl;
}

Wrote-SameFiles :
    (p tmp t : Text) (d e f : Disk) → SameFiles d e → Wrote p tmp t e f → Wrote p tmp t d f
unfolding read_file
Wrote-SameFiles p tmp t d e f s w = record {
  read = w.read;
  others = λ q a b. w.others q a b ∙ rw (s.files, s.denied) refl;
  same_pid = w.same_pid ∙ s.pid;
  same_denied = w.same_denied ∙ s.denied;
}

-- The write and the rename, once the directory is there.
replace_by : Text → Text → Text → Exec Disk (Unit {0})
replace_by p tmp t e = let r = write_file tmp t e in continue r.0 (λ u. rename tmp p) r.1

replace_by-Wrote :
    (p tmp t : Text) (e : Disk)
    → (replace_by p tmp t e).0 ≡ ok tt
    → Wrote p tmp t e (replace_by p tmp t e).1
unfolding replace_by lookup
replace_by-Wrote p tmp t e h =
    let a = continue-eq-ok (write_file tmp t e).0 (λ u. rename tmp p) (write_file tmp t e).1 h in
    let w = write_file-ok tmp t e a.1 in
    let f : Disk = record e { files = (tmp, t) ∷ remove tmp e.files } in
    let there : lookup tmp f.files ≡ some t = ground (arith, text_eq_iff tmp tmp) in
    let r = rename-ok tmp p t f there (rw w.1 at a.2) in
    rw (a.1, w.1, r.1, replace_by) (Wrote-files p tmp t e r.0)

temporary-pid : (p : Text) (d e : Disk) → e.pid ≡ d.pid → temporary e p ≡ temporary d p
unfolding temporary
temporary-pid p d e h = rw h refl

atomic_write_text-eq :
    (p t : Text) (d : Disk)
    → let r = create_parent (parent p) d in
      atomic_write_text p t d ≡ continue r.0 (λ u e. replace_by p (temporary e p) t e) r.1
unfolding atomic_write_text replace_by
atomic_write_text-eq p t d = refl

-- If atomic_write_text succeeds, the file holds exactly the text, and every path but it and its
-- temporary file reads as before.
pub atomic_write_text-Wrote :
    (p t : Text) (d : Disk)
    → (atomic_write_text p t d).0 ≡ ok tt
    → Wrote p (temporary d p) t d (atomic_write_text p t d).1
atomic_write_text-Wrote p t d h =
    let s = SameFiles-create_parent (parent p) d in
    let e = (create_parent (parent p) d).1 in
    let a =
      continue-eq-ok (create_parent (parent p) d).0 (λ u e. replace_by p (temporary e p) t e) e
        (rw (atomic_write_text-eq p t d) at h) in
    let tmp : temporary e p ≡ temporary d p = temporary-pid p d e s.pid in
    let w = replace_by-Wrote p (temporary e p) t e a.2 in
    rw (atomic_write_text-eq p t d, a.1)
      (subst (λ v. Wrote p v t d (replace_by p (temporary e p) t e).1) tmp
        (Wrote-SameFiles p (temporary e p) t d e (replace_by p (temporary e p) t e).1 s w))
