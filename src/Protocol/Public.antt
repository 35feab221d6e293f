-- ===== src/Protocol/Public.antt =====
-- `parse_public_request` beside `parse_request`: the same reader, less the two requests of the
-- renderer's own channel.
use mural.Prelude.{
  ℕ, Bool, true, false, List, ◌≡◌, refl, ap, sym, ◌∙◌, ◌↔◌, Text, text, text_eq, text_eq_iff,
  if◌then◌else◌, length, ◌+◌,
}
use mural.Exec.{Outcome, ok, err, running}
use mural.Results.{◌>>=◌, fail, map_ok}
use mural.Json.Value.{Members, parse_json}
use mural.Protocol.Messages.{Request}
use mural.Protocol.Float.{Float32}
use mural.Protocol.Fields.{as_object, required_string}
use mural.Protocol.Requests.{
  parse_set_request, parse_wallpaper_request, parse_render_canvas_set_request,
  parse_render_world_set_request, parse_object_request, parse_request_with_renderer_control,
  parse_request, parse_public_request,
}
use mural.Protocol.RequestParts.{
  parse_preload_request, parse_clear_request, parse_cache_request, reserved,
}
use mural.Protocol.RequestRoundTrip.{request_kind}

-- The requests of the supervisor to the renderer.
abbrev pub is_renderer_control : Request → Bool
is_renderer_control (Request.render_canvas_set r) = true
is_renderer_control (Request.render_world_set r) = true
is_renderer_control r = false

-- The second reader accepts what the first accepts, less these requests.
abbrev Narrows : Outcome Request → Outcome Request → Type 0
Narrows wide narrow =
    (r : Request) → (narrow ≡ ok r) ↔ ((wide ≡ ok r) × (is_renderer_control r ≡ false))

Narrows-map_ok :
    {A : Type 0} (make : A → Request)
    → ((a : A) → is_renderer_control (make a) ≡ false)
    → (o : Outcome A) → Narrows (map_ok make o) (map_ok make o)
Narrows-map_ok make plain (ok a) r = (λ h. (h, (let p = plain a in cc)), λ h. h.0)
Narrows-map_ok make plain (err e) r = (λ h. cc, λ h. cc)
Narrows-map_ok make plain running r = (λ h. cc, λ h. cc)

Narrows-ok : (r : Request) → is_renderer_control r ≡ false → Narrows (ok r) (ok r)
Narrows-ok r plain r' = (λ h. (h, cc), λ h. h.0)

Narrows-fail :
    {A : Type 0} (make : A → Request)
    → ((a : A) → is_renderer_control (make a) ≡ true)
    → (o : Outcome A) (m : Text) → Narrows (map_ok make o) (fail m)
Narrows-fail make renderer (ok a) m r = (λ h. cc, λ h. (let p = renderer a in absurd cc))
Narrows-fail make renderer (err e) m r = (λ h. cc, λ h. cc)
Narrows-fail make renderer running m r = (λ h. cc, λ h. cc)

Narrows-if :
    (b : Bool) {wide wide' narrow narrow' : Outcome Request}
    → Narrows wide narrow
    → Narrows wide' narrow'
    → Narrows (if b then wide else wide') (if b then narrow else narrow')
Narrows-if true h h' = h
Narrows-if false h h' = h'

Narrows-bind :
    {A : Type 0} (o : Outcome A) (wide narrow : A → Outcome Request)
    → ((a : A) → Narrows (wide a) (narrow a))
    → Narrows (o >>= wide) (o >>= narrow)
Narrows-bind (ok a) wide narrow h = h a
Narrows-bind (err e) wide narrow h = λ r. (λ h. cc, λ h. cc)
Narrows-bind running wide narrow h = λ r. (λ h. cc, λ h. cc)

-- The second reader refuses the requests of the renderer's channel that the first accepts.
abbrev Refuses : Outcome Request → Outcome Request → Type 0
Refuses wide narrow =
    (r : Request)
    → wide ≡ ok r
    → is_renderer_control r ≡ true
    → narrow ≡ fail (reserved (request_kind r))

Refuses-ok : (r : Request) → is_renderer_control r ≡ false → Refuses (ok r) (ok r)
Refuses-ok r plain r' h k = absurd cc

Refuses-map_ok :
    {A : Type 0} (make : A → Request)
    → ((a : A) → is_renderer_control (make a) ≡ false)
    → (o : Outcome A) → Refuses (map_ok make o) (map_ok make o)
Refuses-map_ok make plain (ok a) r h k = (let p = plain a in absurd cc)
Refuses-map_ok make plain (err e) r h k = absurd cc
Refuses-map_ok make plain running r h k = absurd cc

Refuses-kind :
    {A : Type 0} (make : A → Request) (kind label : Text)
    → text_eq kind label ≡ true
    → ((a : A) → request_kind (make a) ≡ label)
    → (o : Outcome A) → Refuses (map_ok make o) (fail (reserved kind))
Refuses-kind make kind label e named (ok a) r h k =
    let same : kind ≡ label = (text_eq_iff kind label).0 e in
    let made : make a ≡ r = cc in
    ap (λ w. fail (reserved w)) (same ∙ sym (named a) ∙ ap request_kind made)
Refuses-kind make kind label e named (err x) r h k = absurd cc
Refuses-kind make kind label e named running r h k = absurd cc

Refuses-if :
    (b : Bool) {wide wide' narrow narrow' : Outcome Request}
    → (b ≡ true → Refuses wide narrow)
    → Refuses wide' narrow'
    → Refuses (if b then wide else wide') (if b then narrow else narrow')
Refuses-if true h h' = h refl
Refuses-if false h h' = h'

Refuses-bind :
    {A : Type 0} (o : Outcome A) (wide narrow : A → Outcome Request)
    → ((a : A) → Refuses (wide a) (narrow a))
    → Refuses (o >>= wide) (o >>= narrow)
Refuses-bind (ok a) wide narrow h = h a
Refuses-bind (err e) wide narrow h = λ r k. absurd cc
Refuses-bind running wide narrow h = λ r k. absurd cc

module _ (f : Float32) where
  parse_object_request-Narrows :
      (m : Members) → Narrows (parse_object_request f true m) (parse_object_request f false m)
  unfolding parse_object_request
  parse_object_request-Narrows m = Narrows-bind (required_string m (text "type")) _ _ (λ kind.
      Narrows-if (text_eq kind (text "ping")) (Narrows-ok Request.ping refl) (
        Narrows-if (text_eq kind (text "capabilities")) (Narrows-ok Request.capabilities refl) (
          Narrows-if (text_eq kind (text "health")) (Narrows-ok Request.health refl) (
            Narrows-if (text_eq kind (text "query")) (Narrows-ok Request.query refl) (
              Narrows-if (text_eq kind (text "stop")) (Narrows-ok Request.stop refl) (
                Narrows-if (text_eq kind (text "set"))
                  (Narrows-map_ok Request.set (λ r. refl) (parse_set_request f m))
                  (Narrows-if (text_eq kind (text "preload"))
                    (Narrows-map_ok Request.preload (λ r. refl) (parse_preload_request m))
                    (Narrows-if (text_eq kind (text "clear"))
                      (Narrows-map_ok Request.clear (λ r. refl) (parse_clear_request m))
                      (Narrows-if (text_eq kind (text "wallpaper"))
                        (Narrows-map_ok Request.wallpaper (λ r. refl) (parse_wallpaper_request f m))
                        (Narrows-if (text_eq kind (text "cache"))
                          (Narrows-map_ok Request.cache (λ r. refl) (parse_cache_request m))
                          (Narrows-if (text_eq kind (text "renderer_canvas_set"))
                            (Narrows-fail Request.render_canvas_set (λ r. refl)
                              (parse_render_canvas_set_request f m) (reserved kind))
                            (Narrows-if (text_eq kind (text "renderer_world_set"))
                              (Narrows-fail Request.render_world_set (λ r. refl)
                                (parse_render_world_set_request f m) (reserved kind))
                              (λ r. (λ h. cc, λ h. cc))))))))))))))

  -- parse_public_request returns a request exactly if parse_request returns it and it is not one of
  -- the two requests of the supervisor to the renderer.
  pub parse_public_request_iff :
      (input : List ℕ) (r : Request)
      → (parse_public_request f input ≡ ok r)
        ↔ ((parse_request f input ≡ ok r) × (is_renderer_control r ≡ false))
  unfolding parse_public_request parse_request parse_request_with_renderer_control
  parse_public_request_iff input =
      Narrows-bind (parse_json (length input + 1) input >>= as_object) _ _
        parse_object_request-Narrows

  parse_object_request-Refuses :
      (m : Members) → Refuses (parse_object_request f true m) (parse_object_request f false m)
  unfolding parse_object_request
  parse_object_request-Refuses m = Refuses-bind (required_string m (text "type")) _ _ (λ kind.
      Refuses-if (text_eq kind (text "ping")) (λ e. Refuses-ok Request.ping refl)
        (Refuses-if (text_eq kind (text "capabilities")) (λ e. Refuses-ok Request.capabilities refl)
          (Refuses-if (text_eq kind (text "health")) (λ e. Refuses-ok Request.health refl)
            (Refuses-if (text_eq kind (text "query")) (λ e. Refuses-ok Request.query refl)
              (Refuses-if (text_eq kind (text "stop")) (λ e. Refuses-ok Request.stop refl)
                (Refuses-if (text_eq kind (text "set"))
                  (λ e. Refuses-map_ok Request.set (λ r. refl) (parse_set_request f m))
                  (Refuses-if (text_eq kind (text "preload"))
                    (λ e. Refuses-map_ok Request.preload (λ r. refl) (parse_preload_request m))
                    (Refuses-if (text_eq kind (text "clear"))
                      (λ e. Refuses-map_ok Request.clear (λ r. refl) (parse_clear_request m))
                      (Refuses-if (text_eq kind (text "wallpaper"))
                        (λ e.
                          Refuses-map_ok Request.wallpaper (λ r. refl)
                            (parse_wallpaper_request f m))
                        (Refuses-if (text_eq kind (text "cache"))
                          (λ e. Refuses-map_ok Request.cache (λ r. refl) (parse_cache_request m))
                          (Refuses-if (text_eq kind (text "renderer_canvas_set"))
                            (λ e.
                              Refuses-kind Request.render_canvas_set kind
                                (text "renderer_canvas_set") e (λ r. refl)
                                (parse_render_canvas_set_request f m))
                            (Refuses-if (text_eq kind (text "renderer_world_set"))
                              (λ e.
                                Refuses-kind Request.render_world_set kind
                                  (text "renderer_world_set") e (λ r. refl)
                                  (parse_render_world_set_request f m))
                              (λ r h. absurd cc)))))))))))))

  -- Whatever bytes parse_request reads as a request of the supervisor to the renderer,
  -- parse_public_request refuses them, and the error names the kind of that request.
  pub parse_public_request-refuses :
      (input : List ℕ) (r : Request)
      → parse_request f input ≡ ok r
      → is_renderer_control r ≡ true
      → parse_public_request f input ≡ fail (reserved (request_kind r))
  unfolding parse_public_request parse_request parse_request_with_renderer_control
  parse_public_request-refuses input =
      Refuses-bind (parse_json (length input + 1) input >>= as_object) _ _
        parse_object_request-Refuses
