-- ===== src/Wallpaper/Actions/Keeps.antt =====
-- The actions on a layout that was taken from the map leave the map alone.
use mural.Prelude.{
  ℕ, zero, suc, ◌≡◌, Bool, true, false, ◌||◌, Option, none, List, [], ◌∷◌, Text, arith, Bool-cases,
  inl, inr,
}
use mural.Exec.{Exec, ◌>>=◌}
use mural.Exec.Keeps.{Keeps, Keeps-continue, Keeps-bind, keeps_rules}
use mural.Disk.{is_file}
use mural.Wallpaper.Layout.{LayoutState, is_empty}
use mural.Wallpaper.Control.{Sys}
use mural.Wallpaper.Bag.{bag_next_n}
use mural.Wallpaper.Bag.Keeps.{Layouts, Same, bag_next_n-Same}
use mural.Wallpaper.Actions.{
  Work, on_sys, change_layout, make_random_one, ensure_initialized, extend_once, ensure_window,
  run_next_back, run_shift, run_replace, heal_entries, heal_selection, is_covered, window, first,
  stay, renew,
}

abbrev pub SameIn : Layouts → Work → Type 0
SameIn m w = w.sys.layouts ≡ m

module _ (m : Layouts) where
  -- The actions on a layout that was taken.
  pub on_sys-Same : {A : Type 0} (f : Exec Sys A) → Keeps (Same m) f → Keeps (SameIn m) (on_sys f)
  on_sys-Same f k = record { at = λ w p. k.at w.sys p }

  change_layout-Same : (f : LayoutState → LayoutState) → Keeps (SameIn m) (change_layout f)
  change_layout-Same f = record { at = λ w p. p }

  pub window-Same : Keeps (SameIn m) window
  window-Same = record { at = λ w p. p }

  module _ (fuel : ℕ) where
    make_random_one-Same : (exclude : Option Text) → Keeps (Same m) (make_random_one fuel exclude)
    unfolding make_random_one
    make_random_one-Same exclude = record {
      at = λ s p.
          Keeps-continue (bag_next_n fuel 1 exclude s).0 (first fuel)
            (bag_next_n fuel 1 exclude s).1 first-Same ((bag_next_n-Same m fuel 1 exclude).at s p);
    }
      where
        first-Same : (ws : List Text) → Keeps (Same m) (first fuel ws)
        first-Same [] = record { at = λ s p. p }
        first-Same (w ∷ ws) = record { at = λ s p. p }

    pub ensure_initialized-Same : Keeps (SameIn m) (ensure_initialized fuel)
    unfolding ensure_initialized
    ensure_initialized-Same = record {
      at = λ w p. ground (arith, (bag_next_n-Same m fuel w.layout.out_count none).at w.sys p);
    }

    extend_once-Same : Keeps (SameIn m) (extend_once fuel)
    unfolding extend_once
    extend_once-Same = record {
      at = λ w p. ground (arith, (bag_next_n-Same m fuel w.layout.out_count none).at w.sys p);
    }

    pub ensure_window-Same : (rounds : ℕ) → Keeps (SameIn m) (ensure_window fuel rounds)
    unfolding ensure_window
    ensure_window-Same zero = record { at = λ w p. p }
    ensure_window-Same (suc rounds) = record {
      at = λ w p. elim (Bool-cases (is_covered w.layout)) [
        | inl done ↦ rw (done, ensure_window) p
        | inr more ↦
            rw (more, ensure_window)
              (Keeps-continue (extend_once fuel w).0 (λ u. ensure_window fuel rounds)
                (extend_once fuel w).1 (λ u. ensure_window-Same rounds) (extend_once-Same.at w p))
      ];
    }

    ruleset work_rules = (
      keeps_rules, on_sys-Same, change_layout-Same, window-Same, make_random_one-Same,
      ensure_initialized-Same, ensure_window-Same,
    )

    pub run_next_back-Same :
        (rounds : ℕ) (back : Bool) → Keeps (SameIn m) (run_next_back fuel rounds back)
    unfolding run_next_back
    run_next_back-Same rounds true = search work_rules
    run_next_back-Same rounds false = search work_rules depth 9

    pub run_shift-Same :
        (rounds : ℕ) (forward : Bool) → Keeps (SameIn m) (run_shift fuel rounds forward)
    unfolding run_shift
    run_shift-Same rounds true = search work_rules
    run_shift-Same rounds false = search work_rules

    pub run_replace-Same :
        (rounds index : ℕ) (exclude : Option Text)
        → Keeps (SameIn m) (run_replace fuel rounds index exclude)
    unfolding run_replace
    run_replace-Same rounds index exclude = search work_rules depth 9

    heal_entries-Same : (walls : List Text) → Keeps (Same m) (heal_entries fuel walls)
    unfolding heal_entries
    heal_entries-Same [] = record { at = λ s p. p }
    heal_entries-Same (wall ∷ walls) = record {
      at = λ s p. elim (Bool-cases (is_empty wall || is_file s.disk wall)) [
        | inl stays ↦
            rw (stays, heal_entries)
              (Keeps-continue {P = Same m} (heal_entries fuel walls s).0 (stay wall)
                (heal_entries fuel walls s).1 (λ r. record { at = λ t q. q })
                ((heal_entries-Same walls).at s p))
        | inr gone ↦
            rw (gone, heal_entries)
              ((Keeps-bind (make_random_one fuel none)
                  (λ drawn. heal_entries fuel walls >>= renew drawn) (make_random_one-Same none)
                  (λ drawn.
                    Keeps-bind (heal_entries fuel walls) (renew drawn) (heal_entries-Same walls)
                      (λ r. record { at = λ t q. q }))).at
                s p)
      ];
    }

    pub heal_selection-Same :
        (selection : List Text) → Keeps (SameIn m) (heal_selection fuel selection)
    unfolding heal_selection
    heal_selection-Same selection = search (work_rules, heal_entries-Same)
