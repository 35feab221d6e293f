-- ===== src/Wallpaper/Bag.antt =====
-- The shuffle bag of `WallpaperControl` in wallpaper.rs: the rescan, the refill, and the draw of
-- wallpapers from it.
pub mod Picks
pub mod Refill
pub mod Weights
pub mod Edits
pub mod Orders
pub mod Hang
pub mod Distinct
pub mod Total
pub mod Ends
pub mod Supplied
pub mod Keeps
use mural.Prelude.{
  ℕ, zero, suc, ◌+◌, ◌-◌, ◌*◌, max, min, Bool, true, false, ◌&&◌, ◌||◌, not, Option, none, some,
  List, [], ◌∷◌, ◌++◌, Text, text_eq, contains, ltb, leb, if◌then◌else◌, ◌==◌, length, get_elem?,
  take, drop, replicate, sat_add, sat_mul,
}
use mural.Exec.{
  Outcome, ok, err, Exec, pure, raise, out_of_fuel, gets, modify, guard, ◌>>=◌, ◌>>◌, continue,
  no_wallpapers_in, no_replacement_in,
}
use mural.Path.{sort, dedup}
use mural.Disk.{Disk, is_file}
use mural.Wallpaper.Shuffle.{shuffle}
use mural.Wallpaper.Layout.{is_empty}
use mural.Wallpaper.Control.{
  Control, Sys, on_disk, filter, scan_top_level_library, persist_core_state,
}

-- The state with another control, on the same disk.
abbrev pub with_control : (Control → Control) → Sys → Sys
with_control f s = record s { control = f s.control }

unfoldable pub sanitize_favorites : Sys → Sys
sanitize_favorites s =
    let kept = filter (λ w. contains s.library w && is_file s.disk w) s.favorites in
    with_control (λ c. record c { favorites = dedup (sort kept) }) s

-- Each wallpaper once, and a favorite `weight - 1` times more.
unfoldable pub weighted : ℕ → List Text → List Text → List Text
weighted weight favorites [] = []
weighted weight favorites (w ∷ ws) =
    w
    ∷ (replicate (if contains favorites w then weight - 1 else 0) w ++ weighted weight favorites ws)

unfoldable pub rebuild_bag : Sys → Sys
unfolding sanitize_favorites weighted
rebuild_bag s =
    let t = sanitize_favorites s in
    let r = shuffle t.rng (weighted t.favorite_weight t.favorites t.library) in
    with_control (λ c. record c { shuffle_bag = r.0; shuffle_pos = 0; rng = r.1 }) t

pub record RescanStats : Type 0 where
  pub added : ℕ
  pub removed : ℕ

-- Everything between the scan and the write in `rescan_top_level`.
unfoldable pub adopt_library : List Text → Sys → Sys
unfolding sanitize_favorites rebuild_bag
adopt_library library s =
    let added_paths = filter (λ w. not (contains s.library w)) library in
    let t = sanitize_favorites (with_control (λ c. record c { library = library }) s) in
    let bag = filter (λ w. contains t.library w && is_file t.disk w) t.shuffle_bag in
    let r = shuffle t.rng added_paths in
    let u =
      with_control
        (λ c. record c {
          shuffle_bag = bag ++ r.0;
          shuffle_pos = min c.shuffle_pos (length bag);
          rng = r.1;
        })
        t in
    if is_empty u.shuffle_bag && not (is_empty u.library) then rebuild_bag u else u

-- The sets of old and new paths are the sorted lists without repetition.
unfoldable pub rescan_top_level : Exec Sys RescanStats
unfolding adopt_library
rescan_top_level = do
  old ← gets (λ s. dedup (sort s.library))
  library ← on_disk (λ s. scan_top_level_library s.wall_dir s.quarantine_dir)
  modify (adopt_library library)
  persist_core_state
  pure (record {
    added = length (filter (λ w. not (contains old w)) library);
    removed = length (filter (λ w. not (contains library w)) old);
  })

abbrev pub excluded : Option Text → Text → Bool
excluded none w = false
excluded (some e) w = text_eq e w

unfoldable pub peek_bag_forward : Control → ℕ → List Text
peek_bag_forward c count =
    if is_empty c.shuffle_bag || leb (length c.shuffle_bag) c.shuffle_pos
    then []
    else take count (drop c.shuffle_pos c.shuffle_bag)

-- `if self.shuffle_pos >= self.shuffle_bag.len() { self.rebuild_bag() }`
unfoldable pub refill : Sys → Sys
unfolding rebuild_bag
refill s = if leb (length s.shuffle_bag) s.shuffle_pos then rebuild_bag s else s

abbrev pub advance : Sys → Sys
advance s = with_control (λ c. record c { shuffle_pos = c.shuffle_pos + 1 }) s

module _ (exclude : Option Text) (allow_duplicates : Bool) where
  -- What a round does with the wallpaper that it drew.
  pub judge : Text → List Text → ℕ → Exec Sys (List Text × ℕ)
  judge wall picked attempts s =
      if excluded exclude wall || not (is_file s.disk wall)
      then (if ltb (max (sat_mul (length s.shuffle_bag) 2) 32) attempts
          then (let r = rescan_top_level s in continue r.0 (λ stats. pure (picked, 0)) r.1)
          else pure (picked, attempts) s)
      else if not allow_duplicates && contains picked wall
      then pure (picked, attempts) s
      else pure (picked ++ (wall ∷ []), attempts) s

  -- One round of the loop. After the refill the position lies past the bag only if the rebuilt bag
  -- is empty.
  pub draw : List Text → ℕ → Exec Sys (List Text × ℕ)
  unfolding refill judge
  draw picked attempts s =
      let t = refill s in
      elim (get_elem? t.shuffle_bag t.shuffle_pos) [
        | none ↦ (err (no_wallpapers_in t.wall_dir), t)
        | some wall ↦ judge wall picked (sat_add attempts 1) (advance t)
      ]

  pub pick_loop : ℕ → ℕ → List Text → ℕ → Exec Sys (List Text)
  unfolding draw
  pick_loop zero count picked attempts s = (Outcome.running, s)
  pick_loop (suc fuel) count picked attempts s = elim (ltb (length picked) count) [
    | false ↦ (ok picked, s)
    | true ↦ let r = draw picked attempts s in continue r.0 (λ p. pick_loop fuel count p.0 p.1) r.1
  ]

unfoldable pub available : Option Text → List Text → ℕ
available exclude library = length (filter (λ w. not (excluded exclude w)) library)

-- `if self.shuffle_bag.is_empty() { self.rebuild_bag() }`
pub fill_empty : Sys → Sys
fill_empty s = if is_empty s.shuffle_bag then rebuild_bag s else s

unfoldable pub bag_next_n : ℕ → ℕ → Option Text → Exec Sys (List Text)
unfolding available fill_empty pick_loop
bag_next_n fuel count exclude s =
    let t = fill_empty s in
    let unique = available exclude t.library in
    if is_empty t.shuffle_bag
    then (err (no_wallpapers_in t.wall_dir), t)
    else if unique == 0 && ltb 0 count
    then (err (no_replacement_in t.wall_dir), t)
    else pick_loop exclude (ltb unique count) fuel count [] 0 t
