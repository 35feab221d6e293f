-- ===== src/Protocol/RequestBounds.antt =====
-- What `parse_request` of crates/mural-ipc/src/lib.rs has accepted is within the bounds of its
-- fields.
use mural.Prelude.{
  ℕ, ◌≤◌, ◌≡◌, refl, Option, none, some, ◌++◌, Text, text, text_eq, if◌then◌else◌, usize_max, arith,
}
use mural.Exec.{ok}
use mural.Results.{◌>>=◌, fail}
use mural.Results.Ensures.{
  Ensures, OnSome, ensures_ok, ensures_fail, ensures_if, ensures_then, ensures_bind, on_none,
}
use mural.Json.Value.{JsonValue, Members}
use mural.Wallpaper.Change.{WallpaperAction}
use mural.Protocol.Words.General.{scale_mode_word}
use mural.Protocol.Words.Cache.{
  CacheWarmScope, CacheBackend, cache_warm_scope_word, cache_backend_word,
}
use mural.Protocol.Messages.{CacheAction}
use mural.Protocol.Fields.{
  as_object, required_string, optional_usize, optional_string, or_default, word_or,
}
use mural.Protocol.RequestParts.{
  required_index, parse_action, parse_wallpaper_action, validate_cache_workers,
  default_canvas_cache_workers, warm_of, parse_cache_request,
}
use mural.Protocol.RequestFields.{IsAction, IsCacheAction}
use mural.Protocol.TokenBounds.{usize_or_ensures}
use mural.Protocol.FieldBounds.{optional_usize_le}

workers_positive : (n : ℕ) → validate_cache_workers n ≡ ok tt → 1 ≤ n
unfolding validate_cache_workers
workers_positive n e = ground (arith, e)

warm_bounds : (m : Members) → Ensures (warm_of m) IsCacheAction
unfolding warm_of
warm_bounds m =
    ensures_then (word_or (optional_string m (text "scope")) CacheWarmScope.current) _ (λ scope a.
      ensures_bind (or_default (optional_usize m (text "workers")) default_canvas_cache_workers) _
        (usize_or_ensures m (text "workers") default_canvas_cache_workers (omega arith))
        (λ workers b. ensures_then (validate_cache_workers workers) _ (λ u c.
          ensures_then (word_or (optional_string m (text "backend")) CacheBackend.auto) _
            (λ backend d.
              ensures_ok (CacheAction.warm scope workers backend)
                (workers_positive workers c, b)))))

pub cache_bounds : (m : Members) → Ensures (parse_cache_request m) (λ r. IsCacheAction r.action)
unfolding parse_cache_request
cache_bounds m = ensures_then (required_string m (text "action")) _ (λ action e.
    ensures_bind
      (if text_eq action (text "status")
        then ok CacheAction.status
        else if text_eq action (text "clear")
        then ok CacheAction.clear
        else if text_eq action (text "warm")
        then warm_of m
        else fail (text "unknown cache action: " ++ action))
      _
      (ensures_if (text_eq action (text "status")) _ _ (ensures_ok CacheAction.status tt) (
        ensures_if (text_eq action (text "clear")) _ _ (ensures_ok CacheAction.clear tt) (
          ensures_if (text_eq action (text "warm")) _ _ (warm_bounds m)
            (ensures_fail (text "unknown cache action: " ++ action)))))
      (λ a h. ensures_ok (record { action = a }) h))

indexed_bounds :
    (action : Text) (index : Option ℕ) (make : ℕ → WallpaperAction)
    → ((i : ℕ) → i ≤ usize_max → IsAction (make i))
    → OnSome (λ i. i ≤ usize_max) index
    → Ensures (required_index action index >>= λ i. ok (make i)) IsAction
unfolding required_index
indexed_bounds action none make h l = ensures_fail _
indexed_bounds action (some i) make h l = ensures_ok (make i) (h i (l.holds i refl))

parse_action-IsAction :
    (action : Text) (index : Option ℕ)
    → OnSome (λ i. i ≤ usize_max) index
    → Ensures (parse_action action index) IsAction
unfolding parse_action
parse_action-IsAction action index l =
    let ix = λ (make : ℕ → WallpaperAction) (h : (i : ℕ) → i ≤ usize_max → IsAction (make i)).
      indexed_bounds action index make h l in
    ensures_if (text_eq action (text "next")) _ _ (ensures_ok WallpaperAction.next tt) (
      ensures_if (text_eq action (text "back")) _ _ (ensures_ok WallpaperAction.back tt) (
        ensures_if (text_eq action (text "shift-forward")) _ _
          (ensures_ok WallpaperAction.shift_forward tt)
          (ensures_if (text_eq action (text "shift-back")) _ _
            (ensures_ok WallpaperAction.shift_back tt)
            (ensures_if (text_eq action (text "replace")) _ _
              (ix WallpaperAction.replace (λ i h. h))
              (ensures_if (text_eq action (text "quarantine")) _ _
                (ix WallpaperAction.quarantine (λ i h. h))
                (ensures_if (text_eq action (text "quarentine")) _ _
                  (ix WallpaperAction.quarantine (λ i h. h))
                  (ensures_if (text_eq action (text "favorite")) _ _
                    (ix WallpaperAction.favorite (λ i h. h))
                    (ensures_if (text_eq action (text "unfavorite")) _ _
                      (ix WallpaperAction.unfavorite (λ i h. h))
                      (ensures_if (text_eq action (text "favorites")) _ _
                        (ensures_ok WallpaperAction.favorites tt)
                        (ensures_if (text_eq action (text "current")) _ _
                          (ensures_ok WallpaperAction.current tt)
                          (ensures_if (text_eq action (text "rescan")) _ _
                            (ensures_ok WallpaperAction.rescan tt)
                            (ensures_fail (text "unknown wallpaper action: " ++ action)))))))))))))

pub parse_wallpaper_action-IsAction : (v : JsonValue) → Ensures (parse_wallpaper_action v) IsAction
unfolding parse_wallpaper_action as_object
parse_wallpaper_action-IsAction (JsonValue.string action) =
    parse_action-IsAction action none on_none
parse_wallpaper_action-IsAction (JsonValue.object m) =
    ensures_then (required_string m (text "type")) _ (λ action e.
      ensures_bind (optional_usize m (text "index")) _ (optional_usize_le m (text "index"))
        (λ index l. parse_action-IsAction action index l))
parse_wallpaper_action-IsAction JsonValue.null = ensures_fail _
parse_wallpaper_action-IsAction (JsonValue.boolean b) = ensures_fail _
parse_wallpaper_action-IsAction (JsonValue.number n) = ensures_fail _
parse_wallpaper_action-IsAction (JsonValue.array vs) = ensures_fail _
