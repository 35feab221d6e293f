-- ===== src/Wallpaper/Bag/Ends.antt =====
-- When no wallpaper may be picked twice: one pass over a rebuilt bag meets the whole library.
use mural.Prelude.{
  ℕ, zero, suc, ◌+◌, ◌-◌, ◌≤◌, ◌<◌, ◌≡◌, refl, sym, ap, subst, true, false, ◌||◌, none, List, [],
  ◌∷◌, Text, contains, arith, length, drop, All-map, ltb, ◌==◌, Bool-cases, inl, inr, tests,
  sat_add,
}
use mural.Disk.{is_file}
use mural.Wallpaper.Layout.{is_empty}
use mural.Wallpaper.Control.{Sys, filter}
use mural.Wallpaper.Bag.{refill, advance, rebuild_bag, pick_loop, fill_empty, available, bag_next_n}
use mural.Wallpaper.Bag.Refill.{
  library-refill, contains-rebuild_bag, bag_bound, length-rebuild_bag-le, pos-rebuild_bag,
  length-rebuild_bag-ge, All-rebuild_bag,
}
use mural.Wallpaper.Bag.Distinct.{Distinct, All-contains, length-le_of_Distinct}
use mural.Wallpaper.Bag.Total.{
  IsHealthy, IsHealthy-drawn, drawn, kept, Next-of, Returns, rest, IsPass, drop-get_elem?,
  IsPass-picked, IsPass-kept, pick_loop-allowed,
}

refill_within : (s : Sys) → s.shuffle_pos < length s.shuffle_bag → refill s ≡ s
unfolding refill
refill_within s h = ground arith

drop_all : {A : Type 0} (n : ℕ) (xs : List A) → length xs ≤ n → drop n xs ≡ []
drop_all zero [] h = refl
drop_all zero (x ∷ xs) h = absurd (omega arith)
drop_all (suc n) [] h = refl
drop_all (suc n) (x ∷ xs) h = drop_all n xs (omega arith)

-- More wallpapers are wanted than are picked, so the pass is not over.
pass_goes_on :
    (count : ℕ) (picked : List Text) (s : Sys)
    → Distinct s.library
    → count ≤ length s.library
    → IsPass picked s s.library
    → length picked < count
    → s.shuffle_pos < length s.shuffle_bag
pass_goes_on count picked s d enough pass less =
    elim (Bool-cases (ltb s.shuffle_pos (length s.shuffle_bag))) [
      | inl e ↦ omega (tests, e)
      | inr e ↦
          let none_left : rest s ≡ [] = drop_all s.shuffle_pos s.shuffle_bag (omega (tests, e)) in
          absurd (
            omega (
              arith,
              length-le_of_Distinct s.library picked d
                  (IsPass-picked picked s s.library none_left pass),
            ))
    ]

-- During a pass, as many rounds suffice as entries are left in the bag.
pass-Returns :
    (fuel count : ℕ) (picked : List Text) (attempts : ℕ) (s : Sys)
    → IsHealthy s
    → Distinct s.library
    → count ≤ length s.library
    → IsPass picked s s.library
    → s.shuffle_pos ≤ length s.shuffle_bag
    → length s.shuffle_bag < s.shuffle_pos + fuel
    → Returns (pick_loop none false fuel count picked attempts s).0
unfolding pick_loop
pass-Returns zero count picked attempts s h d enough pass p f = absurd (omega arith)
pass-Returns (suc fuel) count picked attempts s h d enough pass p f =
    elim (Bool-cases (ltb (length picked) count)) [
      | inl less ↦
          let n = Next-of false s h in
          let within = pass_goes_on count picked s d enough pass (omega (tests, less)) in
          let same = refill_within s within in
          let there : rest s ≡ n.wall ∷ rest (advance s) =
            drop-get_elem? s.shuffle_bag s.shuffle_pos n.wall (rw same at n.there) in
          rw (less, n.round picked attempts, pick_loop)
            (pass-Returns fuel count (kept false picked n.wall) (sat_add attempts 1) (drawn s)
              (IsHealthy-drawn s h) (rw same d) (rw same enough)
              (rw same (IsPass-kept picked s (advance s) n.wall s.library there pass))
              (rw same (omega (arith, within))) (rw same (omega (arith, f))))
      | inr done ↦ (picked, rw (done, pick_loop))
    ]

IsPass-starts : (picked : List Text) (s : Sys) → IsPass picked (rebuild_bag s) s.library
unfolding rebuild_bag
IsPass-starts picked s =
    All-map (λ w. contains s.library w ≡ true)
      (λ w. (contains picked w || contains (rebuild_bag s).shuffle_bag w) ≡ true) s.library
      (λ w h. ground (arith, contains-rebuild_bag s w h)) (All-contains s.library)

refill_past : (s : Sys) → length s.shuffle_bag ≤ s.shuffle_pos → refill s ≡ rebuild_bag s
unfolding refill
refill_past s h = ground arith

-- In any state the loop ends within what is left of the bag and one pass over a rebuilt bag.
pub pick_loop-Distinct :
    (fuel count : ℕ) (picked : List Text) (attempts : ℕ) (s : Sys)
    → IsHealthy s
    → Distinct s.library
    → count ≤ length s.library
    → length s.shuffle_bag - s.shuffle_pos + bag_bound s < fuel
    → Returns (pick_loop none false fuel count picked attempts s).0
unfolding pick_loop
pick_loop-Distinct zero count picked attempts s h d enough f = absurd (omega arith)
pick_loop-Distinct (suc fuel) count picked attempts s h d enough f =
    elim (Bool-cases (ltb (length picked) count)) [
      | inr done ↦ (picked, rw (done, pick_loop))
      | inl less ↦
          let n = Next-of false s h in
          rw (less, n.round picked attempts, pick_loop)
            (elim (Bool-cases (ltb s.shuffle_pos (length s.shuffle_bag))) [
              | inl within ↦
                  let same = refill_within s (omega (tests, within)) in
                  pick_loop-Distinct fuel count (kept false picked n.wall) (sat_add attempts 1)
                    (drawn s) (IsHealthy-drawn s h) (rw same d) (rw same enough)
                    (rw same (omega (tests, f, within)))
              | inr past ↦
                  let same = refill_past s (omega (tests, past)) in
                  let t = rebuild_bag s in
                  let lib = sym (library-refill s) in
                  let starts = pos-rebuild_bag s in
                  let there : rest t ≡ n.wall ∷ rest (advance t) =
                    drop-get_elem? t.shuffle_bag t.shuffle_pos n.wall (rw same at n.there) in
                  pass-Returns fuel count (kept false picked n.wall) (sat_add attempts 1) (drawn s)
                    (IsHealthy-drawn s h) (subst Distinct lib d)
                    (subst (λ ws. count ≤ length ws) lib enough)
                    (subst (IsPass (kept false picked n.wall) (drawn s)) lib (
                      rw same (
                        IsPass-kept picked t (advance t) n.wall s.library there
                          (IsPass-starts picked s))))
                    (rw same (omega (arith, starts, length-rebuild_bag-ge s, h.some_left)))
                    (rw same (omega (arith, starts, length-rebuild_bag-le s, f)))
            ])
    ]

-- The state in which the loop begins.
record IsFilled (s t : Sys) : Type 0 where
  healthy : IsHealthy t
  same_library : t.library ≡ s.library
  not_empty : is_empty t.shuffle_bag ≡ false
  within :
      length t.shuffle_bag - t.shuffle_pos + bag_bound t
      ≤ length s.shuffle_bag + bag_bound s + bag_bound s

is_empty-length : {A : Type 0} (xs : List A) → 0 < length xs → is_empty xs ≡ false
is_empty-length [] h = absurd (omega arith)
is_empty-length (x ∷ xs) h = refl

IsFilled-rebuild_bag : (s : Sys) → IsHealthy s → IsFilled s (rebuild_bag s)
unfolding rebuild_bag
IsFilled-rebuild_bag s h = record {
  healthy = record {
    some_left = h.some_left;
    in_library = h.in_library;
    in_bag = All-rebuild_bag (λ w. is_file s.disk w ≡ true) s h.in_library;
  };
  same_library = refl;
  not_empty =
      is_empty-length (rebuild_bag s).shuffle_bag
        (omega (arith, length-rebuild_bag-ge s, h.some_left));
  within = omega (arith, length-rebuild_bag-le s);
}

IsFilled-fill_empty : (s : Sys) → IsHealthy s → IsFilled s (fill_empty s)
unfolding fill_empty
IsFilled-fill_empty s h = elim (Bool-cases (is_empty s.shuffle_bag)) [
  | inl e ↦ rw (e, fill_empty) (IsFilled-rebuild_bag s h)
  | inr e ↦
      rw (e, fill_empty)
        (record { healthy = h; same_library = refl; not_empty = e; within = omega arith })
]

available-none : (ws : List Text) → available none ws ≡ length ws
unfolding available filter
available-none [] = refl
available-none (w ∷ ws) = ap suc (available-none ws)

-- Where the library is not empty and has no repetition, and every path of the library and of the
-- bag is a file, bag_next_n without an exclusion returns wallpapers if its fuel exceeds the length
-- of the bag plus twice max(1, favorite_weight) * length of the library plus count.
pub bag_next_n-Returns :
    (fuel count : ℕ) (s : Sys)
    → IsHealthy s
    → Distinct s.library
    → length s.shuffle_bag + bag_bound s + bag_bound s + count < fuel
    → Returns (bag_next_n fuel count none s).0
unfolding bag_next_n
bag_next_n-Returns fuel count s h d f =
    let t = fill_empty s in
    let r = IsFilled-fill_empty s h in
    let some_left : (available none t.library == 0) ≡ false =
      ground (arith, available-none t.library, r.healthy.some_left) in
    rw (r.not_empty, some_left, bag_next_n)
      (elim (Bool-cases (ltb (available none t.library) count)) [
        | inl few ↦
            rw few (pick_loop-allowed fuel count [] 0 t r.healthy (omega arith) (omega (arith, f)))
        | inr many ↦ rw many (
            pick_loop-Distinct fuel count [] 0 t r.healthy (subst Distinct (sym r.same_library) d)
              (omega (tests, many, available-none t.library)) (omega (arith, f, r.within)))
      ])
