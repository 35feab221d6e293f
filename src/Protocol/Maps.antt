-- ===== src/Protocol/Maps.antt =====
-- A map that is written in the order of its keys is read as the same map.
use mural.Prelude.{
  ℕ, suc, ◌≡◌, refl, true, false, List, [], ◌∷◌, map, Text, text_eq, arith, All, ◌∙◌, ap, sym,
}
use mural.Exec.{Outcome, ok}
use mural.Path.{text_lt}
use mural.Json.Value.{JsonValue, Members, no_members, member, insert}
use mural.Json.Writer.{object}
use mural.Json.Reads.{Reads}
use mural.Json.Arrays.{Item}
use mural.Json.Objects.{Field, fields_of, members_onto, Reads-object}
use mural.Protocol.Messages.{Map}
use mural.Protocol.Fields.{collect_map, no_text, no_fields}
use mural.Protocol.Items.{IsScalars}

-- Each key is below all keys behind it.
abbrev pub IsSorted : {V : Type 0} → Map V → Type 0
IsSorted [] = Unit {0}
IsSorted (e ∷ es) = All (λ x. text_lt e.0 x.0 ≡ true) es × IsSorted es

text_lt-ne : (s t : Text) → text_lt s t ≡ true → text_eq s t ≡ false
unfolding text_lt text_eq
text_lt-ne [] [] h = cc
text_lt-ne [] (b ∷ t) h = refl
text_lt-ne (a ∷ s) [] h = refl
text_lt-ne (a ∷ s) (b ∷ t) h = ground (arith, text_lt-ne s t)

append : Members → Members → Members
append no_members n = n
append (member k v m) n = member k v (append m n)

append_assoc : (m n o : Members) → append (append m n) o ≡ append m (append n o)
unfolding append
append_assoc no_members n o = refl
append_assoc (member k v m) n o = ap (member k v) (append_assoc m n o)

Below : Members → Text → Type 0
Below no_members k = Unit {0}
Below (member j v m) k = (text_lt j k ≡ true) × Below m k

insert-Below :
    (k : Text) (v : JsonValue) (m : Members)
    → Below m k
    → insert k v m ≡ append m (member k v no_members)
unfolding insert append Below
insert-Below k v no_members h = refl
insert-Below k v (member j u m) h =
    rw (text_lt-ne j k h.0, h.0, insert) (ap (member j u) (insert-Below k v m h.1))

Below-append : (m n : Members) (k : Text) → Below m k → Below n k → Below (append m n) k
unfolding Below append
Below-append no_members n k h l = l
Below-append (member j u m) n k h l = (h.0, Below-append m n k h.1 l)

-- A key of an output: its characters are scalar values, and it is not empty.
abbrev pub IsKey : Text → Type 0
IsKey k = IsScalars k × (no_text k ≡ false)

module _ {V : Type 0} {d : ℕ} (P : V → Type 0) (item : (v : V) → P v → Item d) where
  -- The entries of a map, each with what its item needs.
  abbrev pub AllValid : Map V → Type 0
  AllValid es = All (λ e. IsKey e.0 × P e.1) es

  abbrev pub fields : (es : Map V) → AllValid es → List (Field d)
  fields [] h = []
  fields (e ∷ es) h = record { key = e.0; scalars = h.0.0.0; item = item e.1 h.0.1 } ∷ fields es h.1

  members : (es : Map V) → AllValid es → Members
  members [] h = no_members
  members (e ∷ es) h = member e.0 (item e.1 h.0.1).means (members es h.1)

  members_onto-sorted :
      (m : Members) (es : Map V) (h : AllValid es)
      → All (λ e. Below m e.0) es
      → IsSorted es
      → members_onto m (fields es h) ≡ append m (members es h)
  unfolding members append Below
  members_onto-sorted m [] h b s = sym (append-none m)
    where
      append-none : (n : Members) → append n no_members ≡ n
      append-none no_members = refl
      append-none (member k v n) = ap (member k v) (append-none n)
  members_onto-sorted m (e ∷ es) h b s =
      let v = (item e.1 h.0.1).means in
      ap (λ u. members_onto u (fields es h.1)) (insert-Below e.0 v m b.0)
      ∙ members_onto-sorted (append m (member e.0 v no_members)) es h.1 (later m e.0 v es b.1 s.0)
          s.1
      ∙ append_assoc m (member e.0 v no_members) (members es h.1)
    where
      later :
          (n : Members) (k : Text) (v : JsonValue) (xs : Map V)
          → All (λ x. Below n x.0) xs
          → All (λ x. text_lt k x.0 ≡ true) xs
          → All (λ x. Below (append n (member k v no_members)) x.0) xs
      later n k v [] p q = tt
      later n k v (x ∷ xs) p q =
          (Below-append n (member k v no_members) x.0 p.0 (q.0, tt), later n k v xs p.1 q.1)

  All-trans : (es : Map V) → All (λ e. Below no_members e.0) es
  unfolding Below
  All-trans [] = tt
  All-trans (e ∷ es) = (tt, All-trans es)

  sorted-members :
      (es : Map V) (h : AllValid es)
      → IsSorted es
      → members_onto no_members (fields es h) ≡ members es h
  unfolding append
  sorted-members es h s = members_onto-sorted no_members es h (All-trans es) s

  pub not_empty :
      (e : Text × V) (es : Map V) (h : AllValid (e ∷ es))
      → IsSorted (e ∷ es)
      → no_fields (members_onto no_members (fields (e ∷ es) h)) ≡ false
  unfolding members no_fields
  not_empty e es h s = rw (sorted-members (e ∷ es) h s) refl

  module _ (write : V → Text) (writes : (v : V) (p : P v) → (item v p).written ≡ write v) where
    fields_of-fields :
        (es : Map V) (h : AllValid es)
        → fields_of (fields es h) ≡ map (λ (e : Text × V). (e.0, write e.1)) es
    fields_of-fields [] h = refl
    fields_of-fields (e ∷ es) h = rw (writes e.1 h.0.1, fields_of-fields es h.1) refl

    -- What is written of the map is read as the object with its fields.
    pub Reads-map :
        (es : Map V) (h : AllValid es)
        → Reads
            (suc d)
            (object (map (λ (e : Text × V). (e.0, write e.1)) es))
            (JsonValue.object (members_onto no_members (fields es h)))
    Reads-map es h = rw (← fields_of-fields es h) (Reads-object (fields es h))

  module _ (read : Text → JsonValue → Outcome V)
      (reads : (k : Text) (v : V) (p : P v)
        → no_text k ≡ false
        → read k (item v p).means ≡ ok v) where
    collect-members : (es : Map V) (h : AllValid es) → collect_map read (members es h) ≡ ok es
    unfolding collect_map members
    collect-members [] h = refl
    collect-members (e ∷ es) h = rw (reads e.0 e.1 h.0.1 h.0.0.1, collect-members es h.1) refl

    -- The object is collected into the map.
    pub collect_map-fields :
        (es : Map V) (h : AllValid es)
        → IsSorted es
        → collect_map read (members_onto no_members (fields es h)) ≡ ok es
    collect_map-fields es h s = rw (sorted-members es h s) (collect-members es h)
