-- ===== src/Protocol/Responses/Items.antt =====
-- The fields of a wallpaper response and of an error, as `to_json` writes them.
use mural.Prelude.{◌≤◌, ◌≡◌, refl, ap, List, [], ◌∷◌, map, Text, text, usize_max, All}
use mural.Json.Value.{JsonValue, no_members}
use mural.Json.Writer.{object}
use mural.Json.Reads.{Reads}
use mural.Json.Arrays.{Item, written, values_of, Reads-array}
use mural.Json.Objects.{Field, fields_of, members_onto, Reads-object}
use mural.Wallpaper.Change.{WallpaperEntry, WallpaperResponse}
use mural.Protocol.Items.{
  IsScalars, all_scalar-IsScalars, at, string_item, usize_item, bool_item, strings_item,
}
use mural.Protocol.Float.{Float32}
use mural.Protocol.Responses.{Response}
use mural.Protocol.Responses.Writer.{
  encode_wallpaper_entry, encode_wallpaper_entries, response_to_json,
}

abbrev pub IsEntry : WallpaperEntry → Type 0
IsEntry e = (e.index ≤ usize_max) × IsScalars e.output × IsScalars e.path

abbrev pub entry_fields : (e : WallpaperEntry) → IsEntry e → List (Field 0)
entry_fields e v =
    at (text "index") refl (usize_item e.index v.0)
    ∷ at (text "output") refl (string_item e.output v.1)
    ∷ at (text "favorite") refl (bool_item e.favorite)
    ∷ at (text "path") refl (string_item e.path v.2)
    ∷ []

abbrev pub entry_item : (e : WallpaperEntry) → IsEntry e → Item 1
entry_item e v = record {
  written = object (fields_of (entry_fields e v));
  means = JsonValue.object (members_onto no_members (entry_fields e v));
  reads = Reads-object (entry_fields e v);
}

abbrev pub entry_items : (es : List WallpaperEntry) → All IsEntry es → List (Item 1)
entry_items [] v = []
entry_items (e ∷ es) v = entry_item e v.0 ∷ entry_items es v.1

written-entry_items :
    (es : List WallpaperEntry) (v : All IsEntry es)
    → written (entry_items es v) ≡ map encode_wallpaper_entry es
unfolding encode_wallpaper_entry
written-entry_items [] v = refl
written-entry_items (e ∷ es) v = ap (◌∷◌ (encode_wallpaper_entry e)) (written-entry_items es v.1)

abbrev pub entries_value : (es : List WallpaperEntry) → All IsEntry es → JsonValue
entries_value es v = JsonValue.array (values_of (entry_items es v))

pub Reads-encode_wallpaper_entries :
    (es : List WallpaperEntry) (v : All IsEntry es)
    → Reads 2 (encode_wallpaper_entries es) (entries_value es v)
unfolding encode_wallpaper_entries
Reads-encode_wallpaper_entries es v =
    rw (← written-entry_items es v) (Reads-array (entry_items es v))

-- Texts are Unicode scalar values, and indices fit their type.
pub record IsWallpaper (w : WallpaperResponse) : Type 0 where
  pub action : IsScalars w.action
  pub message : IsScalars w.message
  pub entries : All IsEntry w.entries
  pub favorites : All IsScalars w.favorites

abbrev literal : (t : Text) → IsScalars t → Item 2
literal t h = string_item t h

abbrev pub wallpaper_fields : (w : WallpaperResponse) → IsWallpaper w → List (Field 2)
wallpaper_fields w v =
    at (text "status") refl (literal (text "ok") (all_scalar-IsScalars (text "ok") refl))
    ∷ at (text "type") refl
        (literal (text "wallpaper") (all_scalar-IsScalars (text "wallpaper") refl))
    ∷ at (text "action") refl (string_item w.action v.action)
    ∷ at (text "message") refl (string_item w.message v.message)
    ∷ at (text "entries") refl (record {
      written = encode_wallpaper_entries w.entries;
      means = entries_value w.entries v.entries;
      reads = Reads-encode_wallpaper_entries w.entries v.entries;
    })
    ∷ at (text "favorites") refl (strings_item w.favorites v.favorites)
    ∷ []

abbrev pub error_fields : (t : Text) → IsScalars t → List (Field 2)
error_fields t h =
    at (text "status") refl (literal (text "error") (all_scalar-IsScalars (text "error") refl))
    ∷ at (text "message") refl (string_item t h)
    ∷ []

abbrev pub object_of : List (Field 2) → JsonValue
object_of fs = JsonValue.object (members_onto no_members fs)

module _ (f : Float32) where
  pub Reads-wallpaper :
      (w : WallpaperResponse) (v : IsWallpaper w)
      → Reads 3 (response_to_json f (Response.wallpaper w)) (object_of (wallpaper_fields w v))
  unfolding response_to_json
  Reads-wallpaper w v = Reads-object (wallpaper_fields w v)

  pub Reads-error :
      (t : Text) (h : IsScalars t)
      → Reads 3 (response_to_json f (Response.error t)) (object_of (error_fields t h))
  unfolding response_to_json
  Reads-error t h = Reads-object (error_fields t h)
