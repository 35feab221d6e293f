-- ===== src/Protocol/FieldBounds.antt =====
-- What a request that crates/mural-ipc/src/lib.rs has read satisfies, and the readers of its maps.
use mural.Prelude.{
  ◌≤◌, ◌≡◌, refl, true, false, none, some, [], ◌∷◌, Text, text, usize_max, arith, All,
}
use mural.Exec.{Outcome, ok}
use mural.Results.{◌>>=◌, ◌>>◌, refuse_if, ok_or}
use mural.Results.Ensures.{
  Ensures, OnSome, ensures_ok, ensures_fail, ensures_unless, ensures_then, ensures_bind, on_some,
  on_none,
}
use mural.Json.Value.{JsonValue, Members, no_members, member}
use mural.Protocol.Words.General.{scale_mode_word}
use mural.Protocol.Words.Cache.{cache_warm_scope_word, cache_backend_word}
use mural.Protocol.Messages.{Request, Map}
use mural.Protocol.Fields.{
  get, missing, field, optional, as_object, as_string, optional_usize, optional_u32, as_u32,
  as_uint, u32_max, or_default, required, collect_map, no_fields, no_text, output_path,
  required_outputs,
}
use mural.Protocol.RequestParts.{focus_of, parse_world_route_map}
use mural.Protocol.RequestFields.{is_filled, IsFocus, IsAction, IsCacheAction}
use mural.Protocol.TokenBounds.{TransitionBounds, usize_or_ensures, as_uint_le}

-- A map that is not empty, whose keys are not empty and whose values satisfy the predicate.
abbrev pub AllNamed : {V : Type 0} → (V → Type 0) → Map V → Type 0
AllNamed P m = All (λ e. (no_text e.0 ≡ false) × P e.1) m

abbrev pub Named : {V : Type 0} → (V → Type 0) → Map V → Type 0
Named P m = (is_filled m ≡ true) × AllNamed P m

abbrev pub Outputs : Map Text → Type 0
Outputs m = Named (λ path. no_text path ≡ false) m

abbrev pub RequestBounds : Request → Type 0
RequestBounds (Request.set r) = Outputs r.outputs × TransitionBounds r.transition
RequestBounds (Request.preload r) = Outputs r.outputs
RequestBounds (Request.wallpaper r) = IsAction r.action × OnSome TransitionBounds r.transition
RequestBounds (Request.cache r) = IsCacheAction r.action
RequestBounds (Request.render_canvas_set r) =
    Outputs r.outputs × TransitionBounds r.transition × (r.preview_start ≤ usize_max)
RequestBounds (Request.render_world_set r) =
    Outputs r.outputs
    × TransitionBounds r.transition
    × (r.library_count ≤ usize_max)
    × (r.columns ≤ usize_max)
    × (r.fingerprint ≤ usize_max)
    × (r.thumbnail_edge ≤ u32_max)
    × (r.tile_cells ≤ usize_max)
    × Named IsFocus r.routes
RequestBounds r = Unit {0}

pub collect_map_named :
    {V : Type 0} {P : V → Type 0} (read : Text → JsonValue → Outcome V)
    → ((key : Text) (v : JsonValue) → Ensures (read key v) (λ a. (no_text key ≡ false) × P a))
    → (m : Members) → Ensures (collect_map read m) (AllNamed P)
unfolding collect_map
collect_map_named read h no_members = ensures_ok [] tt
collect_map_named read h (member key v m) = ensures_bind (read key v) _ (h key v) (λ a p.
    ensures_bind (collect_map read m) _ (collect_map_named read h m)
      (λ as' ps. ensures_ok ((key, a) ∷ as') (p, ps)))

-- The loop of `required_outputs` and of `parse_world_route_map`.
pub filled_bounds :
    {V : Type 0} (P : V → Type 0) (read : Text → JsonValue → Outcome V)
    → ((key : Text) (v : JsonValue) → Ensures (read key v) (λ a. (no_text key ≡ false) × P a))
    → (problem : Text) (m : Members)
    → Ensures (refuse_if (no_fields m) problem >> collect_map read m) (Named P)
unfolding no_fields collect_map
filled_bounds P read h problem no_members = ensures_fail problem
filled_bounds P read h problem (member key v m) = ensures_bind (read key v) _ (h key v) (λ a p.
    ensures_bind (collect_map read m) _ (collect_map_named read h m)
      (λ as' ps. ensures_ok ((key, a) ∷ as') (refl, (p, ps))))

pub output_path_bounds :
    (name : Text) (v : JsonValue)
    → Ensures (output_path name v) (λ path. (no_text name ≡ false) × (no_text path ≡ false))
unfolding output_path
output_path_bounds name v =
    ensures_then (as_string v) _ (λ path e. record { holds = λ p h. ground (arith, h) })

pub required_outputs-Outputs : (m : Members) → Ensures (required_outputs m) Outputs
unfolding required_outputs
required_outputs-Outputs m =
    ensures_then (ok_or (get m (text "outputs")) (missing (text "outputs")) >>= as_object) _ (λ o e.
      filled_bounds (λ path. no_text path ≡ false) output_path output_path_bounds
        (field (text "outputs") (text " must not be empty")) o)

pub required_usize_le :
    (m : Members) (key : Text) → Ensures (required optional_usize m key) (λ n. n ≤ usize_max)
unfolding optional_usize
required_usize_le m key =
    elim (get m key)
      as (λ o.
        Ensures (optional (as_uint usize_max key) o >>= λ r. ok_or r (missing key))
          (λ n. n ≤ usize_max)) [
            | none ↦ ensures_fail (missing key)
            | some v ↦ record {
              holds = λ n e. let l = as_uint_le usize_max n key v in ground (arith, l);
            }
          ]

pub some_u32 :
    (key : Text) (v : JsonValue)
    → Ensures
        (as_uint u32_max key v >>= (λ n. ok (some n)) >>= λ r. ok_or r (missing key))
        (λ n. n ≤ u32_max)
some_u32 key v = record { holds = λ n e. let l = as_uint_le u32_max n key v in ground (arith, l) }

pub as_u32_le :
    (key : Text) (v : JsonValue)
    → Ensures (as_u32 key v >>= λ r. ok_or r (missing key)) (λ n. n ≤ u32_max)
unfolding as_u32
as_u32_le key JsonValue.null = ensures_fail (missing key)
as_u32_le key (JsonValue.number s) = some_u32 key (JsonValue.number s)
as_u32_le key (JsonValue.boolean s) = some_u32 key (JsonValue.boolean s)
as_u32_le key (JsonValue.string s) = some_u32 key (JsonValue.string s)
as_u32_le key (JsonValue.array s) = some_u32 key (JsonValue.array s)
as_u32_le key (JsonValue.object s) = some_u32 key (JsonValue.object s)

pub required_u32_le :
    (m : Members) (key : Text) → Ensures (required optional_u32 m key) (λ n. n ≤ u32_max)
unfolding optional_u32
required_u32_le m key =
    elim (get m key)
      as (λ o.
        Ensures (elim o [ none ↦ ok none | some v ↦ as_u32 key v ] >>= λ r. ok_or r (missing key))
          (λ n. n ≤ u32_max)) [ none ↦ ensures_fail (missing key) | some v ↦ as_u32_le key v ]

pub optional_usize_le :
    (m : Members) (key : Text) → Ensures (optional_usize m key) (OnSome (λ n. n ≤ usize_max))
unfolding optional_usize
optional_usize_le m key =
    elim (get m key)
      as (λ o. Ensures (optional (as_uint usize_max key) o) (OnSome (λ n. n ≤ usize_max))) [
        | none ↦ ensures_ok none on_none
        | some v ↦
            ensures_then (as_uint usize_max key v) _
              (λ n e. ensures_ok (some n) (on_some n (as_uint_le usize_max n key v e)))
      ]

pub focus_of-IsFocus :
    (name : Text) (v : JsonValue)
    → Ensures (focus_of name v) (λ r. (no_text name ≡ false) × IsFocus r)
unfolding focus_of
focus_of-IsFocus name v = ensures_unless (no_text name) _ _ (λ a.
    ensures_then (as_object v) _ (λ focus e.
      ensures_bind (required optional_usize focus (text "current_index")) _
        (required_usize_le focus (text "current_index"))
        (λ i b.
          ensures_bind (required optional_usize focus (text "target_index")) _
            (required_usize_le focus (text "target_index"))
            (λ j c.
              ensures_bind (or_default (optional_usize focus (text "lod")) 0) _
                (usize_or_ensures focus (text "lod") 0 (omega arith))
                (λ lod d.
                  ensures_ok (record { current_index = i; target_index = j; lod = lod })
                    (a, (b, c, d)))))))

pub routes_bounds : (m : Members) → Ensures (parse_world_route_map m) (Named IsFocus)
unfolding parse_world_route_map
routes_bounds m =
    ensures_then (ok_or (get m (text "routes")) (missing (text "routes")) >>= as_object) _ (λ o e.
      filled_bounds IsFocus focus_of focus_of-IsFocus
        (field (text "routes") (text " must not be empty")) o)
