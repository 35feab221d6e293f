-- ===== src/Wallpaper/Preview/Window.antt =====
-- What a canvas preview shows once it is computed.
use mural.Prelude.{
  ℕ, ◌-◌, ◌/◌, ◌≤◌, max, min, ◌≡◌, sym, ap, true, false, ◌||◌, none, List, [], ◌∷◌, ◌++◌, Text,
  text_eq, text_eq_iff, contains, arith, length, length-append, length-take, take, drop, ltb,
  Bool-cases, inl, inr, Option-cases, All,
}
use mural.Exec.{
  ok, Error, Outcome-cases, ok-injective, current_not_in_history, target_not_in_history,
}
use mural.Wallpaper.Layout.{is_empty, flattened_history}
use mural.Wallpaper.Control.{Control}
use mural.Wallpaper.Bag.{peek_bag_forward}
use mural.Wallpaper.Bag.Distinct.{contains-append}
use mural.Wallpaper.Change.{PreparedWallpaperChange}
use mural.Wallpaper.Preview.{
  Needed, CanvasPreviewWindow, push_unique, widen, need_all, first_missing, place, preview_from,
  closest_path_index, window_range, canvas_preview_window_for_prepared_change,
}

-- Each path that is not empty is among `shown`.
abbrev pub AllShown : List Text → List Text → Type 0
AllShown shown = All (λ p. is_empty p ≡ false → contains shown p ≡ true)

contains-push_unique :
    (paths : List Text) (path q : Text)
    → contains (push_unique paths path) q ≡ (contains paths q || text_eq path q)
unfolding push_unique
contains-push_unique paths path q = ground (arith, contains-append paths path q, text_eq_iff path q)

module _ (missing : Text → Error) (flat : List Text) (anchor : ℕ) where
  -- The loop forgets no path that was needed before.
  need_all-keeps :
      (paths : List Text) (n r : Needed) (q : Text)
      → need_all missing flat anchor paths n ≡ ok r
      → contains n.paths q ≡ true
      → contains r.paths q ≡ true
  unfolding need_all widen
  need_all-keeps [] n r q h k = ground arith
  need_all-keeps (path ∷ paths) n r q h k =
      elim (Option-cases (closest_path_index flat path anchor)) [
        | inl e ↦ ground (arith, e, need_all-keeps paths n r q)
        | inr (index, e) ↦ ground (
          arith,
          e,
          need_all-keeps paths n r q,
          need_all-keeps paths (widen n index path) r q,
          contains-push_unique n.paths path q,
        )
      ]

  need_all-AllShown :
      (paths : List Text) (n r : Needed)
      → need_all missing flat anchor paths n ≡ ok r
      → AllShown r.paths paths
  unfolding need_all widen
  need_all-AllShown [] n r h = tt
  need_all-AllShown (path ∷ paths) n r h = elim (Bool-cases (is_empty path)) [
    | inl e ↦ (ground arith, need_all-AllShown paths n r (rw (e, need_all) at h))
    | inr e ↦ elim (Option-cases (closest_path_index flat path anchor)) [
      | inl f ↦ absurd (cc (rw (e, f, need_all) at h))
      | inr (index, f) ↦
          let g = rw (e, f, need_all) at h in
          (
            λ _.
                need_all-keeps paths (widen n index path) r path g
                  (ground (arith, contains-push_unique n.paths path path, text_eq_iff path path)),
            need_all-AllShown paths (widen n index path) r g,
          )
    ]
  ]

first_missing-none :
    (preview paths : List Text) (q : Text)
    → first_missing preview paths ≡ none
    → contains paths q ≡ true
    → contains preview q ≡ true
unfolding first_missing contains
first_missing-none preview [] q h k = absurd (cc)
first_missing-none preview (p ∷ ps) q h k =
    ground (arith, first_missing-none preview ps q, text_eq_iff p q)

length-peek_bag_forward : (c : Control) (count : ℕ) → length (peek_bag_forward c count) ≤ count
unfolding peek_bag_forward
length-peek_bag_forward c count =
    ground (arith, length-take count (drop c.shuffle_pos c.shuffle_bag))

-- A placement that succeeds shows every needed path, on at most the tiles that there are.
place-ok :
    (c : Control) (flat : List Text) (tile_count : ℕ) (n : Needed) (r : CanvasPreviewWindow)
    → place c flat tile_count n ≡ ok r
    → ((q : Text) → contains n.paths q ≡ true → contains r.paths q ≡ true)
      × (length r.paths ≤ tile_count)
unfolding place
place-ok c flat tile_count n r h =
    let preview_start = n.range_start - (tile_count - (n.range_end - n.range_start)) / 2 in
    let shown = take tile_count (drop preview_start flat) in
    let preview = shown ++ peek_bag_forward c (tile_count - length shown) in
    elim (Bool-cases (ltb tile_count (n.range_end - n.range_start))) [
      | inl e ↦ absurd (cc (rw (e, place) at h))
      | inr e ↦ elim (Option-cases (first_missing preview n.paths)) [
        | inr (path, f) ↦ absurd (cc (rw (e, f, place) at h))
        | inl f ↦
            let done : ok (record { paths = preview; start_index = preview_start }) ≡ ok r =
              rw (e, f) at h in
            let g : r.paths ≡ preview =
              ap (λ w. w.paths)
                (sym (
                  ok-injective (record { paths = preview; start_index = preview_start }) r done)) in
            (
              λ q k. rw g (first_missing-none preview n.paths q f k),
              rw g (
                  omega (
                    arith,
                    length-append shown (peek_bag_forward c (tile_count - length shown)),
                    length-peek_bag_forward c (tile_count - length shown),
                    length-take tile_count (drop preview_start flat),
                  )),
            )
      ]
    ]

AllShown-mono :
    (small large paths : List Text)
    → ((q : Text) → contains small q ≡ true → contains large q ≡ true)
    → AllShown small paths
    → AllShown large paths
AllShown-mono small large [] f h = tt
AllShown-mono small large (p ∷ ps) f h = (λ k. f p (h.0 k), AllShown-mono small large ps f h.1)

module _ (c : Control) (prepared : PreparedWallpaperChange) (current : List Text)
    (tile_count : ℕ) where
  preview_from-shows :
      (flat : List Text) (b a : ℕ) (r : CanvasPreviewWindow)
      → preview_from c prepared current tile_count flat b a ≡ ok r
      → AllShown r.paths current
        × AllShown r.paths prepared.selection
        × (length r.paths ≤ tile_count)
  unfolding preview_from
  preview_from-shows flat b a r h =
      let n0 = window_range flat (max prepared.layout.out_count 1) b a in
      let b' = min b (length flat) in
      let a' = min a (length flat) in
      elim (Outcome-cases (need_all current_not_in_history flat b' current n0)) [
        | inl (n1, e) ↦
            elim (Outcome-cases (need_all target_not_in_history flat a' prepared.selection n1)) [
              | inl (n2, f) ↦
                  let done = place-ok c flat tile_count n2 r (rw (e, f, preview_from) at h) in
                  let first = need_all-AllShown current_not_in_history flat b' current n0 n1 e in
                  let second =
                    need_all-AllShown target_not_in_history flat a' prepared.selection n1 n2 f in
                  let more =
                    need_all-keeps target_not_in_history flat a' prepared.selection n1 n2 in
                  (
                    AllShown-mono n1.paths r.paths current (λ q k. done.0 q (more q f k)) first,
                    AllShown-mono n2.paths r.paths prepared.selection done.0 second,
                    done.1,
                  )
              | inr (inl (x, f)) ↦ absurd (cc (rw (e, f, preview_from) at h))
              | inr (inr f) ↦ absurd (cc (rw (e, f, preview_from) at h))
            ]
        | inr (inl (x, e)) ↦ absurd (cc (rw (e, preview_from) at h))
        | inr (inr e) ↦ absurd (cc (rw (e, preview_from) at h))
      ]

-- If the canvas preview of a prepared change is computed, it contains every path that is not empty
-- of the wallpapers on display and of the prepared selection, and has at most max(tile_count, 1)
-- entries.
pub canvas_preview-shows :
    (c : Control) (prepared : PreparedWallpaperChange) (current : List Text) (tile_count : ℕ)
    (r : CanvasPreviewWindow)
    → canvas_preview_window_for_prepared_change c prepared current tile_count ≡ ok r
    → AllShown r.paths current
      × AllShown r.paths prepared.selection
      × (length r.paths ≤ max tile_count 1)
unfolding canvas_preview_window_for_prepared_change
canvas_preview-shows c prepared current tile_count r h =
    let flat = flattened_history prepared.layout in
    elim (Bool-cases (is_empty flat)) [
      | inl e ↦ absurd (cc (rw (e, canvas_preview_window_for_prepared_change) at h))
      | inr e ↦ elim (Option-cases prepared.canvas_before_start) [
        | inl f ↦ absurd (cc (rw (e, f, canvas_preview_window_for_prepared_change) at h))
        | inr (b, f) ↦ elim (Option-cases prepared.canvas_after_start) [
          | inl g ↦ absurd (cc (rw (e, f, g, canvas_preview_window_for_prepared_change) at h))
          | inr (a, g) ↦
              let ran : preview_from c prepared current (max tile_count 1) flat b a ≡ ok r =
                rw (e, f, g) at h in
              preview_from-shows c prepared current (max tile_count 1) flat b a r ran
        ]
      ]
    ]
