-- ===== src/Supervisor/Neighborhood.antt =====
-- `world_neighborhood_centers` of crates/murald/src/supervisor.rs: the images whose surroundings in
-- the world the supervisor computes ahead.
use mural.Prelude.{
  ◌≡◌, refl, ap, sym, ◌∙◌, Bool, true, false, ◌||◌, Option, none, some, List, [], ◌∷◌, ◌++◌, Text,
  text_eq, text_eq_iff, contains, if◌then◌else◌, arith,
}
use mural.Wallpaper.Bag.Distinct.{Distinct, Distinct-append, contains-append}
use mural.Wallpaper.Change.{WallpaperEntry}
use mural.Protocol.Responses.{HealthOutput}

unfoldable pub push_unique_string : List Text → Text → List Text
push_unique_string values value = if contains values value then values else values ++ (value ∷ [])

unfoldable pub push_all : List Text → List Text → List Text
push_all centers [] = centers
push_all centers (p ∷ ps) = push_all (push_unique_string centers p) ps

unfoldable pub world_route_start_path : HealthOutput → Option Text
world_route_start_path o = elim o.transition_target_image [
  | some p ↦ some p
  | none ↦ o.current_image
]

-- The image on the output of a name, where the health lists it.
unfoldable pub start_of : Text → List HealthOutput → Option Text
start_of name [] = none
start_of name (o ∷ os) = if text_eq o.name name then world_route_start_path o else start_of name os

unfoldable pub push_current : List Text → Option Text → List Text
push_current centers none = centers
push_current centers (some p) = push_unique_string centers p

unfoldable pub push_entries : List Text → List WallpaperEntry → List HealthOutput → List Text
push_entries centers [] health = centers
push_entries centers (e ∷ es) health =
    push_entries (push_unique_string (push_current centers (start_of e.output health)) e.path) es
      health

unfoldable pub world_neighborhood_centers :
    List WallpaperEntry → List HealthOutput → List Text → List Text
world_neighborhood_centers entries health near_future_paths =
    push_all (push_entries [] entries health) near_future_paths

-- An image is on display on the output of one of the entries, or is the image of one.
abbrev pub in_entries : List WallpaperEntry → List HealthOutput → Text → Bool
in_entries [] health w = false
in_entries (e ∷ es) health w =
    elim (start_of e.output health) [ some p ↦ text_eq p w | none ↦ false ]
    || (text_eq e.path w || in_entries es health w)

-- The list `after` holds each path once, and those of `before` and of `new`.
record Grows (before after : List Text) (new : Text → Bool) : Type 0 where
  distinct : Distinct before → Distinct after
  holds : (w : Text) → contains after w ≡ contains before w || new w

contains-absorbs :
    (ws : List Text) (v w : Text)
    → contains ws v ≡ true
    → contains ws w ≡ (contains ws w || text_eq v w)
contains-absorbs ws v w h = absorbs (text_eq v w) refl
  where
    absorbs : (b : Bool) → text_eq v w ≡ b → contains ws w ≡ (contains ws w || b)
    absorbs true e = ap (contains ws) (sym ((text_eq_iff v w).0 e)) ∙ (h ∙ (ground arith))
    absorbs false e = ground arith

push-Grows : (ws : List Text) (v : Text) → Grows ws (push_unique_string ws v) (λ w. text_eq v w)
unfolding push_unique_string
push-Grows ws v = pushed (contains ws v) refl
  where
    pushed :
        (b : Bool)
        → contains ws v ≡ b
        → Grows ws (if b then ws else ws ++ (v ∷ [])) (λ w. text_eq v w)
    pushed true e = record { distinct = λ d. d; holds = λ w. contains-absorbs ws v w e }
    pushed false e = record {
      distinct = λ d. Distinct-append ws v d e;
      holds = contains-append ws v;
    }

push_current-Grows :
    (ws : List Text) (o : Option Text)
    → Grows ws (push_current ws o) (λ w. elim o [ some p ↦ text_eq p w | none ↦ false ])
unfolding push_current
push_current-Grows ws none = record { distinct = λ d. d; holds = λ w. ground arith }
push_current-Grows ws (some p) = push-Grows ws p

Grows-then :
    (xs ys zs : List Text) (f g : Text → Bool)
    → Grows xs ys f
    → Grows ys zs g
    → Grows xs zs (λ w. f w || g w)
Grows-then xs ys zs f g p q = record {
  distinct = λ d. q.distinct (p.distinct d);
  holds = λ w. ground (arith, p.holds w, q.holds w);
}

push_all-Grows : (ws ps : List Text) → Grows ws (push_all ws ps) (contains ps)
unfolding push_all contains
push_all-Grows ws [] = record { distinct = λ d. d; holds = λ w. ground arith }
push_all-Grows ws (p ∷ ps) =
    let next = push_unique_string ws p in
    Grows-then ws next (push_all next ps) (λ w. text_eq p w) (contains ps) (push-Grows ws p)
      (push_all-Grows next ps)

push_entries-Grows :
    (ws : List Text) (es : List WallpaperEntry) (health : List HealthOutput)
    → Grows ws (push_entries ws es health) (in_entries es health)
unfolding push_entries
push_entries-Grows ws [] health = record { distinct = λ d. d; holds = λ w. ground arith }
push_entries-Grows ws (e ∷ es) health =
    let o = start_of e.output health in
    let shown = push_current ws o in
    let next = push_unique_string shown e.path in
    let rest = push_entries next es health in
    let of_entry : Text → Bool = λ w. text_eq e.path w in
    Grows-then ws shown rest (λ w. elim o [ some p ↦ text_eq p w | none ↦ false ])
      (λ w. of_entry w || in_entries es health w) (push_current-Grows ws o)
      (Grows-then shown next rest of_entry (in_entries es health) (push-Grows shown e.path)
        (push_entries-Grows next es health))

-- The centers are the images on display on the outputs of the entries, the images of the entries
-- and the near future ones, and no path is among them twice.
pub world_neighborhood_centers-once :
    (entries : List WallpaperEntry) (health : List HealthOutput) (near : List Text)
    → Distinct (world_neighborhood_centers entries health near)
      × ((w : Text)
          → contains (world_neighborhood_centers entries health near) w
            ≡ (in_entries entries health w || contains near w))
unfolding world_neighborhood_centers contains
world_neighborhood_centers-once entries health near =
    let shown = push_entries [] entries health in
    let all =
      Grows-then [] shown (push_all shown near) (in_entries entries health) (contains near)
        (push_entries-Grows [] entries health) (push_all-Grows shown near) in
    (all.distinct tt, λ w. all.holds w)
