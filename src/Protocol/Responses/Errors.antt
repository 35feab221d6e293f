-- ===== src/Protocol/Responses/Errors.antt =====
-- Error responses, as the functions of crates/mural-ipc/src/lib.rs see them that read responses.
use mural.Prelude.{
  ℕ, ◌+◌, ◌≡◌, ◌≢◌, ◌∙◌, refl, sym, ap, true, false, Option, none, some, List, Text, text, text_eq,
  text_eq_iff, length, arith, if◌then◌else◌,
}
use mural.Exec.{Outcome, ok, err, running}
use mural.Results.{◌>>=◌, ◌>>◌, fail}
use mural.Json.Value.{JsonValue, Members, parse_json}
use mural.Wallpaper.Change.{WallpaperResponse}
use mural.Protocol.Float.{Float32}
use mural.Protocol.Fields.{as_object, get, required_string, optional_string, or_default}
use mural.Protocol.Items.{required_at, string_at}
use mural.Protocol.Responses.{HealthResponse}
use mural.Protocol.Responses.Parsers.{
  from_object, string_of, is_error_status, is_error_object, response_is_error, error_message_of,
  response_error_message, check_status, wallpaper_response_of, parse_wallpaper_response,
  health_response_of, parse_health_response,
}

string_of_eq :
    (v : Option JsonValue) (s : Text) → string_of v ≡ some s → v ≡ some (JsonValue.string s)
unfolding string_of
string_of_eq none s e = absurd cc
string_of_eq (some (JsonValue.string t)) s e = cc
string_of_eq (some JsonValue.null) s e = absurd cc
string_of_eq (some (JsonValue.boolean b)) s e = absurd cc
string_of_eq (some (JsonValue.number n)) s e = absurd cc
string_of_eq (some (JsonValue.array vs)) s e = absurd cc
string_of_eq (some (JsonValue.object m)) s e = absurd cc

is_error_status_eq : (o : Option Text) → is_error_status o ≡ true → o ≡ some (text "error")
unfolding is_error_status
is_error_status_eq none e = absurd cc
is_error_status_eq (some s) e = ap some ((text_eq_iff s (text "error")).0 e)

-- The status of an object that says so is read as `error`.
error_status :
    (m : Members) → is_error_object m ≡ true → required_string m (text "status") ≡ ok (text "error")
unfolding is_error_object
error_status m e =
    required_at m (text "status") (text "error")
      (string_of_eq (get m (text "status")) (text "error") (is_error_status_eq _ e))

check_status-error :
    (m : Members) (failed : Text)
    → is_error_object m ≡ true
    → check_status m failed ≡ (or_default (optional_string m (text "message")) failed >>= fail)
unfolding check_status text_eq
check_status-error m failed e = rw (error_status m e) refl

check_status-message :
    (m : Members) (failed message : Text)
    → error_message_of m ≡ some message
    → check_status m failed ≡ fail message
unfolding error_message_of
check_status-message m failed message e =
    elim (is_error_object m)
        as (λ b.
          is_error_object m ≡ b
          → (if b then string_of (get m (text "message")) else none) ≡ some message
          → check_status m failed ≡ fail message) [
            | true ↦ λ h e.
                check_status-error m failed h
                ∙ (rw
                    (string_at m (text "message") message
                      (string_of_eq (get m (text "message")) message e))
                    refl)
            | false ↦ λ h e. absurd cc
          ]
      refl e

-- What a parser of responses is after its head.
abbrev Guarded : {A : Type 0} → (Members → Outcome A) → Type 0
Guarded {A} read =
    (m : Members)
    → (failed : Text) × (rest : Outcome A) × (read m ≡ (check_status m failed >> rest))

wallpaper-Guarded : Guarded wallpaper_response_of
unfolding wallpaper_response_of
wallpaper-Guarded m = (text "wallpaper request failed", _, refl)

health-Guarded : (f : Float32) → Guarded (health_response_of f)
unfolding health_response_of
health-Guarded f m = (text "health request failed", _, refl)

module _ {A : Type 0} (read : Members → Outcome A) (g : Guarded read) where
  fails_with :
      (o : Outcome Members) (message : Text)
      → from_object none error_message_of o ≡ some message
      → (o >>= read) ≡ fail message
  fails_with (ok m) message e =
      let (failed, rest, r) = g m in r ∙ (rw (check_status-message m failed message e) refl)
  fails_with (err x) message e = absurd cc
  fails_with running message e = absurd cc

  refuses :
      (o : Outcome Members) (a : A)
      → from_object false is_error_object o ≡ true
      → (o >>= read) ≢ ok a
  refuses (ok m) a e h =
      let (failed, rest, r) = g m in
      ended (or_default (optional_string m (text "message")) failed) rest
        (sym (ap (λ u. u >> rest) (check_status-error m failed e)) ∙ (sym r ∙ h))
    where
      ended : (o : Outcome Text) (rest : Outcome A) → ((o >>= fail {A = Unit {0}}) >> rest) ≢ ok a
      ended (ok t) rest h = absurd cc
      ended (err x) rest h = absurd cc
      ended running rest h = absurd cc
  refuses (err x) a e h = absurd cc
  refuses running a e h = absurd cc

is_error_of_message :
    (o : Outcome Members) (message : Text)
    → from_object none error_message_of o ≡ some message
    → from_object false is_error_object o ≡ true
unfolding error_message_of
is_error_of_message (ok m) message e = ground arith
is_error_of_message (err x) message e = absurd cc
is_error_of_message running message e = absurd cc

module _ (f : Float32) where
  -- If response_error_message finds a message in the bytes of a response, then response_is_error
  -- holds of them, and parse_wallpaper_response and parse_health_response fail with exactly that
  -- message.
  pub response_error_message-parsers :
      (input : List ℕ) (message : Text)
      → response_error_message input ≡ some message
      → (response_is_error input ≡ true)
        × (parse_wallpaper_response input ≡ fail message)
        × (parse_health_response f input ≡ fail message)
  unfolding response_error_message response_is_error parse_wallpaper_response parse_health_response
  response_error_message-parsers input message e =
      let o = parse_json (length input + 1) input >>= as_object in
      (
        is_error_of_message o message e,
        fails_with wallpaper_response_of wallpaper-Guarded o message e,
        fails_with (health_response_of f) (health-Guarded f) o message e,
      )

  -- A response of which response_is_error holds is returned as a value neither by
  -- parse_wallpaper_response nor by parse_health_response.
  pub response_is_error-parsers :
      (input : List ℕ) (w : WallpaperResponse) (h : HealthResponse)
      → response_is_error input ≡ true
      → (parse_wallpaper_response input ≢ ok w) × (parse_health_response f input ≢ ok h)
  unfolding response_is_error parse_wallpaper_response parse_health_response
  response_is_error-parsers input w h e =
      let o = parse_json (length input + 1) input >>= as_object in
      (
        refuses wallpaper_response_of wallpaper-Guarded o w e,
        refuses (health_response_of f) (health-Guarded f) o h e,
      )
