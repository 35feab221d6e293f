-- ===== src/Protocol/Words/Cache.antt =====
-- `CacheWarmScope` and `CacheBackend` of crates/mural-ipc/src/lib.rs.
use mural.Prelude.{◌≡◌, refl, true, [], ◌∷◌, Text, text, text_eq, All}
use mural.Exec.{Outcome, ok}
use mural.Json.Utf8.{is_scalar}
use mural.Protocol.Words.{Word, match_word}

pub data CacheWarmScope : Type 0 where
  current all : CacheWarmScope

unfoldable pub cache_warm_scope_text : CacheWarmScope → Text
cache_warm_scope_text CacheWarmScope.current = text "current"
cache_warm_scope_text CacheWarmScope.all = text "all"

unfoldable pub parse_cache_warm_scope : Text → Outcome CacheWarmScope
unfolding match_word
parse_cache_warm_scope =
    match_word ((text "current", CacheWarmScope.current) ∷ (text "all", CacheWarmScope.all) ∷ [])
      (text "unknown cache warm scope: ")

pub parse-cache_warm_scope_text :
    (a : CacheWarmScope) → parse_cache_warm_scope (cache_warm_scope_text a) ≡ ok a
unfolding parse_cache_warm_scope cache_warm_scope_text text_eq
parse-cache_warm_scope_text CacheWarmScope.current = refl
parse-cache_warm_scope_text CacheWarmScope.all = refl

pub cache_warm_scope_scalars :
    (a : CacheWarmScope) → All (λ c. is_scalar c ≡ true) (cache_warm_scope_text a)
unfolding cache_warm_scope_text
cache_warm_scope_scalars CacheWarmScope.current =
    (refl, (refl, (refl, (refl, (refl, (refl, (refl, tt)))))))
cache_warm_scope_scalars CacheWarmScope.all = (refl, (refl, (refl, tt)))

instance abbrev pub cache_warm_scope_word : Word CacheWarmScope
cache_warm_scope_word = record {
  as_str = cache_warm_scope_text;
  parse = parse_cache_warm_scope;
  read_back = parse-cache_warm_scope_text;
  scalars = cache_warm_scope_scalars;
}

pub data CacheBackend : Type 0 where
  auto vips internal : CacheBackend

unfoldable pub cache_backend_text : CacheBackend → Text
cache_backend_text CacheBackend.auto = text "auto"
cache_backend_text CacheBackend.vips = text "vips"
cache_backend_text CacheBackend.internal = text "internal"

unfoldable pub parse_cache_backend : Text → Outcome CacheBackend
unfolding match_word
parse_cache_backend =
    match_word
      ((text "auto", CacheBackend.auto)
        ∷ (text "vips", CacheBackend.vips)
        ∷ (text "internal", CacheBackend.internal)
        ∷ [])
      (text "unknown cache backend: ")

pub parse-cache_backend_text :
    (a : CacheBackend) → parse_cache_backend (cache_backend_text a) ≡ ok a
unfolding parse_cache_backend cache_backend_text text_eq
parse-cache_backend_text CacheBackend.auto = refl
parse-cache_backend_text CacheBackend.vips = refl
parse-cache_backend_text CacheBackend.internal = refl

pub cache_backend_scalars :
    (a : CacheBackend) → All (λ c. is_scalar c ≡ true) (cache_backend_text a)
unfolding cache_backend_text
cache_backend_scalars CacheBackend.auto = (refl, (refl, (refl, (refl, tt))))
cache_backend_scalars CacheBackend.vips = (refl, (refl, (refl, (refl, tt))))
cache_backend_scalars CacheBackend.internal =
    (refl, (refl, (refl, (refl, (refl, (refl, (refl, (refl, tt))))))))

instance abbrev pub cache_backend_word : Word CacheBackend
cache_backend_word = record {
  as_str = cache_backend_text;
  parse = parse_cache_backend;
  read_back = parse-cache_backend_text;
  scalars = cache_backend_scalars;
}
