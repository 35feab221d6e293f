-- ===== src/Wallpaper/Actions/Return.antt =====
-- A step and the step back: `next` and `back`, and a shift forward and a shift back.
use mural.Prelude.{
  ℕ, suc, ◌+◌, ◌≤◌, ◌<◌, ◌≡◌, refl, true, false, arith, length, usize_max, leb, leb→le, leb→lt,
  Bool-cases, inl, inr,
}
use mural.Exec.{ok}
use mural.Wallpaper.Layout.{LayoutState, is_empty, get_window}
use mural.Wallpaper.Actions.{
  Work, is_covered, ensure_window, ensure_initialized, run_shift, run_next_back, shift_forward,
  shift_back,
}

pub initialized :
    (fuel : ℕ) (w : Work)
    → is_empty w.layout.history ≡ false
    → ensure_initialized fuel w ≡ (ok tt, w)
unfolding ensure_initialized
initialized fuel w h = rw h

-- There are rows, the index is at least 1, the offset points into a row, and the numbers are those of
-- a usize, with one to spare for the index.
pub record IsInside (l : LayoutState) : Type 0 where
  pub filled : is_empty l.history ≡ false
  pub started : 1 ≤ l.idx
  pub index : l.idx < usize_max
  pub inside : l.offset < l.out_count
  pub outputs : l.out_count ≤ usize_max

forward_within :
    (fuel : ℕ) (l : LayoutState)
    → IsInside l
    → l.offset + 1 < l.out_count
    → shift_forward fuel l ≡ record l { offset = l.offset + 1 }
unfolding shift_forward
forward_within fuel l v h = ground (arith, v.started, v.outputs)

forward_across :
    (fuel : ℕ) (l : LayoutState)
    → IsInside l
    → l.out_count ≤ l.offset + 1
    → shift_forward fuel l ≡ record l { offset = 0; idx = l.idx + 1 }
unfolding shift_forward
forward_across fuel l v h = ground (arith, v.started, v.outputs, v.index, v.inside)

back_within :
    (fuel : ℕ) (l : LayoutState) → shift_back fuel (record l { offset = l.offset + 1 }) ≡ l
unfolding shift_back
back_within fuel l = ground arith

back_across :
    (fuel : ℕ) (l : LayoutState)
    → IsInside l
    → l.out_count ≤ l.offset + 1
    → shift_back fuel (record l { offset = 0; idx = l.idx + 1 }) ≡ l
unfolding shift_back
back_across fuel l v h = ground (arith, v.started, v.outputs, v.inside)

shift_back-shift_forward :
    (fuel : ℕ) (l : LayoutState) → IsInside l → shift_back fuel (shift_forward fuel l) ≡ l
shift_back-shift_forward fuel l v = elim (Bool-cases (leb l.out_count (l.offset + 1))) [
  | inl e ↦ let h = leb→le _ _ e in rw (forward_across fuel l v h) (back_across fuel l v h)
  | inr e ↦ rw (forward_within fuel l v (leb→lt _ _ e)) (back_within fuel l)
]

next-eq :
    (fuel rounds : ℕ) (w : Work)
    → IsInside w.layout
    → w.layout.idx < length w.layout.history
    → (run_next_back fuel rounds false w).1
      ≡ record w { layout = record w.layout { idx = w.layout.idx + 1 } }
unfolding run_next_back
next-eq fuel rounds w v more = ground (arith, initialized fuel w v.filled, v.started, v.index)

back-eq :
    (fuel rounds : ℕ) (w : Work)
    → IsInside w.layout
    → run_next_back fuel rounds true
        (record w { layout = record w.layout { idx = w.layout.idx + 1 } })
      ≡ (ok (get_window w.layout), w)
unfolding run_next_back
back-eq fuel rounds w v =
    let w' : Work = record w { layout = record w.layout { idx = w.layout.idx + 1 } } in
    ground (arith, initialized fuel w' v.filled, v.started)

-- Where the history has rows, 1 <= idx < usize_max, idx is below the number of rows, and offset <
-- out_count <= usize_max, a back after a next shows the window that was shown and restores the
-- whole state.
pub run_next_back-run_next_back :
    (fuel rounds : ℕ) (w : Work)
    → IsInside w.layout
    → w.layout.idx < length w.layout.history
    → run_next_back fuel rounds true (run_next_back fuel rounds false w).1
      ≡ (ok (get_window w.layout), w)
run_next_back-run_next_back fuel rounds w v more =
    rw (next-eq fuel rounds w v more) (back-eq fuel rounds w v)

history-shift_forward : (fuel : ℕ) (l : LayoutState) → (shift_forward fuel l).history ≡ l.history
unfolding shift_forward
history-shift_forward fuel l = ground arith

-- A window that is covered is not extended.
not_extended :
    (fuel rounds : ℕ) (w : Work)
    → is_covered w.layout ≡ true
    → ensure_window fuel (suc rounds) w ≡ (ok tt, w)
unfolding ensure_window
not_extended fuel rounds w covered = rw (covered, ensure_window) refl

forward-eq :
    (fuel rounds : ℕ) (w : Work)
    → is_empty w.layout.history ≡ false
    → is_covered (shift_forward fuel w.layout) ≡ true
    → (run_shift fuel (suc rounds) true w).1 ≡ record w { layout = shift_forward fuel w.layout }
unfolding run_shift
forward-eq fuel rounds w filled covered =
    let forward : Work = record w { layout = shift_forward fuel w.layout } in
    ground (arith, initialized fuel w filled, not_extended fuel rounds forward covered)

backward-eq :
    (fuel rounds : ℕ) (w : Work)
    → is_empty w.layout.history ≡ false
    → run_shift fuel rounds false w
      ≡ (ok (get_window (shift_back fuel w.layout)), record w { layout = shift_back fuel w.layout })
unfolding run_shift
backward-eq fuel rounds w filled = rw (initialized fuel w filled)

-- Where the history has rows, 1 <= idx < usize_max, offset < out_count <= usize_max, and the
-- history covers the shifted window, a shift back after a shift forward shows the window that was
-- shown and restores the whole state.
pub run_shift-run_shift :
    (fuel rounds : ℕ) (w : Work)
    → IsInside w.layout
    → is_covered (shift_forward fuel w.layout) ≡ true
    → run_shift fuel (suc rounds) false (run_shift fuel (suc rounds) true w).1
      ≡ (ok (get_window w.layout), w)
run_shift-run_shift fuel rounds w v covered =
    let forward : Work = record w { layout = shift_forward fuel w.layout } in
    let still : is_empty forward.layout.history ≡ false =
      rw (history-shift_forward fuel w.layout) v.filled in
    rw
      (
        forward-eq fuel rounds w v.filled covered,
        backward-eq fuel (suc rounds) forward still,
        shift_back-shift_forward fuel w.layout v,
      )
      refl
