-- ===== src/Wallpaper/Layout/Window.antt =====
-- The window of `LayoutState` on its history: what `get_window`, `prune_history` and the entry of a
-- selection of its own do with it.
use mathlib.Core.List.{flatten}
use mural.Prelude.{
  ℕ, ◌+◌, ◌-◌, ◌*◌, ◌≤◌, ◌<◌, min, ◌≡◌, sym, ap, ◌∙◌, List, [], ◌∷◌, ◌++◌, Text, arith, length,
  take, drop, length-drop, length-append, drop-add, leb, Bool-cases, inl, inr, leb→le, word, wrap,
}
use mural.Wallpaper.Layout.{LayoutState, get_window, prune_history, append_set}
use mural.Wallpaper.Layout.Rows.{Rows, Rows-drop, drop-flatten}

-- The window of `out_count` entries lies within a history of full rows, and nothing overflows.
pub record IsShown (l : LayoutState) : Type 0 where
  pub rows : Rows l.out_count l.history
  pub started : 1 ≤ l.idx
  pub covered : (l.idx - 1) * l.out_count + l.offset + l.out_count ≤ length l.history * l.out_count
  pub fits : length l.history * l.out_count < word

pub get_window-eq :
    (l : LayoutState)
    → IsShown l
    → get_window l
      ≡ take l.out_count (drop ((l.idx - 1) * l.out_count + l.offset) (flatten l.history))
unfolding get_window
get_window-eq l v =
    let e : wrap (wrap ((l.idx - 1) * l.out_count) + l.offset)
        ≡ (l.idx - 1) * l.out_count + l.offset =
      omega (arith, v.covered, v.fits) in
    ap (λ m. take l.out_count (drop m (flatten l.history))) e

-- The state after `d` old rows are gone and the index is moved down with them.
abbrev renumbered : ℕ → LayoutState → LayoutState
renumbered d l = record l { history = drop d l.history; idx = l.idx - d }

rows_left : (i d n m : ℕ) → d < i → (i - 1) * n + m ≡ d * n + ((i - d - 1) * n + m)
rows_left i d n m h = let e : i - 1 ≡ d + (i - d - 1) = omega arith in rw e (omega arith)

length_left :
    (d n : ℕ) (h : List (List Text)) → d ≤ length h → length h * n ≡ d * n + length (drop d h) * n
length_left d n h k =
    let e : length h ≡ d + length (drop d h) = omega (arith, length-drop d h) in
    ap (λ m. m * n) e ∙ omega arith

renumbered-IsShown :
    (d : ℕ) (l : LayoutState)
    → IsShown l
    → d < l.idx
    → d ≤ length l.history
    → IsShown (renumbered d l)
renumbered-IsShown d l v h k = record {
  rows = Rows-drop l.out_count d l.history v.rows;
  started = omega arith;
  covered = omega (
    arith,
    rows_left l.idx d l.out_count (l.offset + l.out_count) h,
    length_left d l.out_count l.history k,
  );
  fits = omega (arith, length_left d l.out_count l.history k);
}

window-renumbered :
    (d : ℕ) (l : LayoutState)
    → IsShown l
    → d < l.idx
    → d ≤ length l.history
    → get_window (renumbered d l) ≡ get_window l
window-renumbered d l v h k =
    let start = (l.idx - d - 1) * l.out_count + l.offset in
    get_window-eq (renumbered d l) (renumbered-IsShown d l v h k)
    ∙ ap (take l.out_count) (
        ap (drop start) (sym (drop-flatten l.out_count d l.history v.rows k))
        ∙ sym (drop-add (d * l.out_count) start (flatten l.history))
        ∙ ap (λ m. drop m (flatten l.history)) (sym (rows_left l.idx d l.out_count l.offset h)))
    ∙ sym (get_window-eq l v)

-- When more rows than `max_history` are kept, pruning is such a renumbering.
prune_history-eq :
    (l : LayoutState)
    → length l.history - l.max_history < l.idx
    → prune_history l ≡ renumbered (length l.history - l.max_history) l
unfolding prune_history
prune_history-eq l h = elim (Bool-cases (leb (length l.history) l.max_history)) [
  | inl small ↦
      let none_dropped : length l.history - l.max_history ≡ 0 = omega (arith, leb→le _ _ small) in
      rw (small, none_dropped) (ground arith)
  | inr large ↦ rw large (ground arith)
]

-- If the window is shown in full and begins within the max_history youngest rows, pruning the
-- history leaves the window showing the same wallpapers, in full.
pub window-prune_history :
    (l : LayoutState)
    → IsShown l
    → length l.history - l.max_history < l.idx
    → (get_window (prune_history l) ≡ get_window l) × IsShown (prune_history l)
window-prune_history l v h =
    let few : length l.history - l.max_history ≤ length l.history = omega arith in
    rw (prune_history-eq l h) (window-renumbered _ l v h few, renumbered-IsShown _ l v h few)

-- After an append there are at most `max_history` rows.
pub length-append_set :
    (l : LayoutState) (selection : List Text)
    → length (append_set l selection).history ≡ min (length l.history + 1) l.max_history
unfolding append_set prune_history
length-append_set l selection = ground (
  arith,
  length-append l.history (selection ∷ []),
  length-drop (length (l.history ++ (selection ∷ [])) - l.max_history)
      (l.history ++ (selection ∷ [])),
)
