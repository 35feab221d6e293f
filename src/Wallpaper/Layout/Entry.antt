-- ===== src/Wallpaper/Layout/Entry.antt =====
-- The entry of a selection by `run_replace` and `heal_selection`: the newer rows go, and the window
-- moves to the new row.
use mathlib.Core.List.{flatten}
use mural.Prelude.{
  drop_append_self, take_append_self, ◌+◌, ◌-◌, ◌*◌, ◌≤◌, ◌<◌, ◌≡◌, sym, ap, ◌∙◌, List, [], ◌∷◌,
  ◌++◌, Text, arith, length, take, drop, length-take, length-append, word, le_mul,
}
use mural.Wallpaper.Layout.{LayoutState, get_window, trim_history, push_selection}
use mural.Wallpaper.Layout.Rows.{Rows, Rows-append, Rows-take, length-flatten, flatten-append}
use mural.Wallpaper.Layout.Window.{IsShown, get_window-eq, window-prune_history}

abbrev on_last : LayoutState → List (List Text) → List Text → LayoutState
on_last l kept selection = record l {
  history = kept ++ (selection ∷ []);
  idx = length (kept ++ (selection ∷ []));
  offset = 0;
}

module _ (l : LayoutState) (kept : List (List Text)) (selection : List Text)
    (rows : Rows l.out_count kept) (full : length selection ≡ l.out_count)
    (fits : (length kept + 1) * l.out_count < word) where
  length_last : length (kept ++ (selection ∷ [])) ≡ length kept + 1
  length_last = omega (arith, length-append kept (selection ∷ []))

  on_last-IsShown : IsShown (on_last l kept selection)
  on_last-IsShown = record {
    rows = Rows-append l.out_count kept (selection ∷ []) rows (full, tt);
    started = omega (arith, length_last);
    covered =
        rw length_last
          (let e : length kept + 1 - 1 ≡ length kept = omega arith in rw e (omega arith));
    fits = rw length_last fits;
  }

  window_last : get_window (on_last l kept selection) ≡ selection
  unfolding flatten
  window_last =
      let start : (length (kept ++ (selection ∷ [])) - 1) * l.out_count + 0
          ≡ length (flatten kept) =
        rw length_last (
          let e : length kept + 1 - 1 ≡ length kept = omega arith in
          rw e (omega (arith, length-flatten l.out_count kept rows))) in
      get_window-eq (on_last l kept selection) on_last-IsShown
      ∙ ap (λ m. take l.out_count (drop m (flatten (kept ++ (selection ∷ []))))) start
      ∙ ap (λ h. take l.out_count (drop (length (flatten kept)) h))
          (flatten-append kept (selection ∷ []))
      ∙ ap (take l.out_count) (drop_append_self (flatten kept) (flatten (selection ∷ [])))
      ∙ ap (λ n. take n (flatten (selection ∷ []))) (sym full)
      ∙ take_append_self selection (flatten {A = Text} [])

trimmed :
    (l : LayoutState)
    → Rows l.out_count l.history
    → Rows l.out_count (trim_history l).history
      × (length (trim_history l).history ≤ length l.history)
unfolding trim_history
trimmed l r = ground (arith, Rows-take l.out_count l.idx l.history r, length-take l.idx l.history)

-- Entering a full selection into a history of full rows, with max_history at least 1 and no
-- overflow, leaves the window showing exactly that selection.
pub window-push_selection :
    (l : LayoutState) (selection : List Text)
    → Rows l.out_count l.history
    → length selection ≡ l.out_count
    → (length l.history + 1) * l.out_count < word
    → 1 ≤ l.max_history
    → (get_window (push_selection l selection) ≡ selection) × IsShown (push_selection l selection)
unfolding push_selection
window-push_selection l selection rows full fits some_kept =
    let t = trimmed l rows in
    let kept = (trim_history l).history in
    let room : (length kept + 1) * l.out_count < word = omega (
      arith,
      fits,
      le_mul (length kept + 1) (length l.history + 1) l.out_count (omega (arith, t.1)),
    ) in
    let pruned =
      window-prune_history (on_last l kept selection)
        (on_last-IsShown l kept selection t.0 full room)
        (omega (arith, length_last l kept selection t.0 full room, some_kept)) in
    (pruned.0 ∙ window_last l kept selection t.0 full room, pruned.1)
