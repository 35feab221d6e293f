-- ===== src/Wallpaper/Change/Prepare/Layouts.antt =====
-- Preparing a change takes one layout out of the map and changes no other.
use mural.Prelude.{
  ℕ, ◌≡◌, refl, subst, Bool, true, false, Option, none, some, List, Text, arith, length, Bool-cases,
  inl, inr,
}
use mural.Exec.{ok, Exec, continue-eq-ok, ok-injective, Outcome-cases}
use mural.Exec.Keeps.{Keeps, keeps_rules, Keeps-bind}
use mural.Wallpaper.Layout.{LayoutState, is_empty}
use mural.Wallpaper.Control.{Sys}
use mural.Wallpaper.Bag.Keeps.{Same, Layouts}
use mural.Wallpaper.Actions.{Work}
use mural.Wallpaper.Actions.Keeps.{
  SameIn, on_sys-Same, window-Same, ensure_initialized-Same, ensure_window-Same, run_next_back-Same,
  run_shift-Same, run_replace-Same, heal_selection-Same,
}
use mural.Wallpaper.Change.{
  WallpaperAction, next, quarantine, ActiveOutput, PreparedWallpaperChange, layout_key, get_layout,
  remove_layout, take_layout, as_str,
}
use mural.Wallpaper.Change.Prepare.{
  prepare_wallpaper_change, prepare_with, prepare_quarantine_move, quarantine_target, select,
  capture_before, capture_after, complete, draft, Draft, validate, start, with_layout, borrowing,
  prepared,
}

module _ (m : Layouts) (fuel rounds : ℕ) where
  prepare_quarantine_move-Same :
      (target : Text) → Keeps (Same m) (prepare_quarantine_move fuel target)
  unfolding prepare_quarantine_move
  prepare_quarantine_move-Same target = record { at = λ s p. ground arith }

  start-Same : Keeps (SameIn m) start
  start-Same = record { at = λ w p. p }

  ruleset draft_rules = (
    keeps_rules, on_sys-Same, window-Same, start-Same, prepare_quarantine_move-Same,
    ensure_initialized-Same, ensure_window-Same, run_next_back-Same, run_shift-Same,
    run_replace-Same, heal_selection-Same,
  )

  quarantine_target-Same :
      (index : ℕ) (o : Option Text) → Keeps (SameIn m) (quarantine_target fuel rounds index o)
  unfolding quarantine_target
  quarantine_target-Same index none = search draft_rules
  quarantine_target-Same index (some target) = search draft_rules

  select-Same : (action : WallpaperAction) → Keeps (SameIn m) (select fuel rounds action)
  unfolding select
  select-Same next = search draft_rules
  select-Same (quarantine index) = search (draft_rules, quarantine_target-Same)
  select-Same _ = search draft_rules

  capture_before-Same : (capture : Bool) → Keeps (SameIn m) (capture_before fuel rounds capture)
  unfolding capture_before
  capture_before-Same false = search draft_rules
  capture_before-Same true = search draft_rules

  capture_after-Same : (capture : Bool) → Keeps (SameIn m) (capture_after fuel rounds capture)
  unfolding capture_after
  capture_after-Same false = search draft_rules
  capture_after-Same true = search draft_rules

  complete-Same :
      (count : ℕ) (selection : List Text) → Keeps (SameIn m) (complete fuel rounds count selection)
  unfolding complete
  complete-Same count selection = search draft_rules

  draft-Same :
      (action : WallpaperAction) (count : ℕ) (capture : Bool)
      → Keeps (SameIn m) (draft fuel rounds action count capture)
  unfolding draft
  draft-Same action count capture =
      search (draft_rules, capture_before-Same, select-Same, complete-Same, capture_after-Same)
        depth 9

-- What a prepared change holds of the state that it was prepared in.
pub record Prepares (outputs : List ActiveOutput) (before : LayoutState) (s : Sys)
    (p : PreparedWallpaperChange) (t : Sys) : Type 0 where
  pub key : p.layout_key ≡ layout_key outputs
  pub layout_before : p.layout_before ≡ before
  pub taken : t.layouts ≡ remove_layout (layout_key outputs) s.layouts
  pub pos_before : p.shuffle_pos_before ≡ s.shuffle_pos
  pub len_before : p.shuffle_bag_len_before ≡ length s.shuffle_bag

take_cached :
    (outputs : List ActiveOutput) (s : Sys) (l : LayoutState)
    → is_empty outputs ≡ false
    → get_layout (layout_key outputs) s.layouts ≡ some l
    → take_layout outputs s ≡ (
      ok (layout_key outputs, l),
      record s {
        control = record s.control { layouts = remove_layout (layout_key outputs) s.layouts };
      },
    )
unfolding take_layout
take_cached outputs s l some_outputs e = rw (some_outputs, e, take_layout)

module _ (outputs : List ActiveOutput) (before : LayoutState) (s : Sys) (action : Text) where
  abbrev without_taken : Sys
  without_taken = record s {
    control = record s.control { layouts = remove_layout (layout_key outputs) s.layouts };
  }

  prepared-Prepares :
      (r : Draft × LayoutState) (t : Sys)
      → t.layouts ≡ remove_layout (layout_key outputs) s.layouts
      → Prepares outputs before s
          (prepared action outputs (layout_key outputs) before without_taken r t)
          t
  unfolding prepared
  prepared-Prepares r t same = record {
    key = refl;
    layout_before = refl;
    taken = same;
    pos_before = refl;
    len_before = refl;
  }

  prepare_with-Prepares :
      (body : Exec Work Draft) (p : PreparedWallpaperChange)
      → ((m : Layouts) → Keeps (SameIn m) body)
      → (prepare_with action outputs body (layout_key outputs, before) without_taken).0 ≡ ok p
      → Prepares outputs before s p
          (prepare_with action outputs body (layout_key outputs, before) without_taken).1
  unfolding prepare_with
  prepare_with-Prepares body p keeps h =
      let b = borrowing before body without_taken in
      let r =
        continue-eq-ok b.0
          (λ d (t : Sys).
            (ok (prepared action outputs (layout_key outputs) before without_taken d t), t))
          b.1 h in
      let same : b.1.layouts ≡ remove_layout (layout_key outputs) s.layouts =
        (Keeps-bind body with_layout (keeps (remove_layout (layout_key outputs) s.layouts))
            (λ a. record { at = λ w q. q })).at
          (record { sys = without_taken; layout = before }) refl in
      rw (r.1, prepare_with)
        (subst (λ q. Prepares outputs before s q b.1) (ok-injective _ p r.2)
          (prepared-Prepares r.0 b.1 same))

prepare_cached :
    (fuel rounds : ℕ) (action : WallpaperAction) (outputs : List ActiveOutput) (capture : Bool)
    (s : Sys) (before : LayoutState) (u : Unit {0})
    → is_empty outputs ≡ false
    → validate fuel rounds action (length outputs) ≡ ok u
    → get_layout (layout_key outputs) s.layouts ≡ some before
    → prepare_wallpaper_change fuel rounds action outputs capture s
      ≡ prepare_with
          (as_str action)
          outputs
          (draft fuel rounds action (length outputs) capture)
          (layout_key outputs, before)
          (without_taken outputs before s (as_str action))
unfolding prepare_wallpaper_change
prepare_cached fuel rounds action outputs capture s before u active valid cached =
    rw (active, valid, prepare_wallpaper_change) (rw (take_cached outputs s before active cached))

-- A change that is prepared while the layout of its outputs is in the map takes that layout out,
-- remembers it, and changes no other layout.
pub prepare-Prepares :
    (fuel rounds : ℕ) (action : WallpaperAction) (outputs : List ActiveOutput) (capture : Bool)
    (s : Sys) (before : LayoutState) (p : PreparedWallpaperChange)
    → get_layout (layout_key outputs) s.layouts ≡ some before
    → (prepare_wallpaper_change fuel rounds action outputs capture s).0 ≡ ok p
    → Prepares outputs before s p (prepare_wallpaper_change fuel rounds action outputs capture s).1
unfolding prepare_wallpaper_change
prepare-Prepares fuel rounds action outputs capture s before p cached h =
    elim (Bool-cases (is_empty outputs)) [
      | inl none_active ↦ absurd (cc (rw (none_active, prepare_wallpaper_change) at h))
      | inr active ↦ elim (Outcome-cases (validate fuel rounds action (length outputs))) [
        | inl (u, valid) ↦
            let e =
              prepare_cached fuel rounds action outputs capture s before u active valid cached in
            rw e (
              prepare_with-Prepares outputs before s (as_str action)
                (draft fuel rounds action (length outputs) capture) p
                (λ m. draft-Same m fuel rounds action (length outputs) capture) (rw e at h))
        | inr (inl (e, bad)) ↦ absurd (cc (rw (active, bad, prepare_wallpaper_change) at h))
        | inr (inr bad) ↦ absurd (cc (rw (active, bad, prepare_wallpaper_change) at h))
      ]
    ]
