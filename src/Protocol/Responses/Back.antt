-- ===== src/Protocol/Responses/Back.antt =====
-- What `to_json` writes of a wallpaper response or an error is read back.
use mural.Prelude.{◌≡◌, refl, some, List, [], ◌∷◌, Text, text, text_eq, All, arith}
use mural.Path.{text_lt}
use mural.Exec.{ok}
use mural.Json.Utf8.{utf8}
use mural.Json.Value.{no_members, insert}
use mural.Json.Reads.{parse_json-Reads}
use mural.Json.Arrays.{values_of}
use mural.Json.Objects.{members_onto}
use mural.Wallpaper.Change.{WallpaperEntry, WallpaperResponse}
use mural.Protocol.Float.{Float32}
use mural.Protocol.Fields.{as_object, get, collect}
use mural.Protocol.Items.{IsScalars, usize_at, string_at, required_at, bool_at, collect-strings}
use mural.Protocol.Responses.{Response}
use mural.Protocol.Responses.Writer.{response_to_json}
use mural.Protocol.Responses.Parsers.{
  string_of, is_error_status, is_error_object, error_message_of, response_error_message,
  check_status, check_type, array_or_empty, parse_wallpaper_entry, wallpaper_response_of,
  parse_wallpaper_response,
}
use mural.Protocol.Responses.Items.{
  IsEntry, entry_fields, entry_item, entry_items, IsWallpaper, wallpaper_fields, error_fields,
  object_of, Reads-wallpaper, Reads-error,
}

parse_wallpaper_entry-entry_item :
    (e : WallpaperEntry) (v : IsEntry e) → parse_wallpaper_entry (entry_item e v).means ≡ ok e
unfolding parse_wallpaper_entry as_object insert get text_eq text_lt
parse_wallpaper_entry-entry_item e v =
    let m = members_onto no_members (entry_fields e v) in
    rw
      (
        usize_at m (text "index") e.index v.0 refl,
        required_at m (text "output") e.output refl,
        bool_at m (text "favorite") e.favorite refl,
        required_at m (text "path") e.path refl,
      )
      refl

collect-entries :
    (es : List WallpaperEntry) (v : All IsEntry es)
    → collect parse_wallpaper_entry (values_of (entry_items es v)) ≡ ok es
unfolding collect
collect-entries [] v = refl
collect-entries (e ∷ es) v =
    rw (parse_wallpaper_entry-entry_item e v.0, collect-entries es v.1) refl

wallpaper_response_of-fields :
    (w : WallpaperResponse) (v : IsWallpaper w)
    → wallpaper_response_of (members_onto no_members (wallpaper_fields w v)) ≡ ok w
unfolding wallpaper_response_of check_status check_type array_or_empty insert get text_eq text_lt
wallpaper_response_of-fields w v =
    let m = members_onto no_members (wallpaper_fields w v) in
    rw
      (
        required_at m (text "status") (text "ok") refl,
        required_at m (text "type") (text "wallpaper") refl,
        collect-entries w.entries v.entries,
        collect-strings m (text "favorites") w.favorites v.favorites,
        required_at m (text "action") w.action refl,
        string_at m (text "message") w.message refl,
      )
      refl

module _ (f : Float32) where
  -- A wallpaper response whose texts are Unicode scalar values and whose indices fit their type is
  -- read back: parse_wallpaper_response of what to_json writes returns it.
  pub parse_wallpaper_response-response_to_json :
      (w : WallpaperResponse) (v : IsWallpaper w)
      → parse_wallpaper_response (utf8 (response_to_json f (Response.wallpaper w))) ≡ ok w
  unfolding parse_wallpaper_response as_object
  parse_wallpaper_response-response_to_json w v =
      let t = response_to_json f (Response.wallpaper w) in
      rw
        (
          parse_json-Reads t (object_of (wallpaper_fields w v)) (Reads-wallpaper f w v)
              (omega arith),
          wallpaper_response_of-fields w v,
        )
        refl

  pub response_error_message-response_to_json :
      (message : Text)
      → IsScalars message
      → response_error_message (utf8 (response_to_json f (Response.error message))) ≡ some message
  unfolding response_error_message error_message_of is_error_object is_error_status string_of
      as_object insert get text_eq text_lt
  response_error_message-response_to_json message h =
      let t = response_to_json f (Response.error message) in
      rw
        (parse_json-Reads t (object_of (error_fields message h)) (Reads-error f message h)
          (omega arith))
        refl
