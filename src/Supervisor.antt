-- ===== src/Supervisor.antt =====
-- `render_wallpaper_action` of crates/murald/src/supervisor.rs: a prepared change is checked, moved,
-- rendered, and then committed or rolled back.
pub mod Restores
pub mod Lost
pub mod Commits
pub mod Neighborhood
mod Examples
use mural.Prelude.{
  ℕ, ◌-◌, ◌+◌, Bool, true, false, ◌&&◌, ◌||◌, not, Option, none, some, List, [], ◌∷◌, ◌++◌, map,
  Text, text, text_eq, leb, ◌==◌, if◌then◌else◌, length,
}
use mural.Exec.{
  Outcome, ok, err, running, Error, message, Exec, pure, raise, modify, lift, ◌>>=◌, ◌>>◌, continue,
}
use mural.Decimal.{print_usize}
use mural.Disk.{Disk, is_file}
use mural.Json.Utf8.{utf8}
use mural.Path.{text_lt}
use mural.Wallpaper.Layout.{is_empty}
use mural.Wallpaper.Control.{Sys}
use mural.Wallpaper.Change.{
  WallpaperAction, ActiveOutput, WallpaperEntry, WallpaperResponse, PreparedWallpaperChange, as_str,
}
use mural.Wallpaper.Change.Prepare.{prepare_wallpaper_change}
use mural.Wallpaper.Change.Finish.{
  move_quarantine, commit_wallpaper_change, rollback_wallpaper_change,
}
use mural.Protocol.Words.General.{ScaleMode}
use mural.Protocol.Messages.{
  Transition, Map, Request, SetRequest, RenderCanvasSetRequest, RenderWorldSetRequest,
  WallpaperRequest,
}
use mural.ActionMap.{ActionMap, transition_for_wallpaper_action}
use mural.Protocol.Responses.{HealthOutput}
use mural.Protocol.Responses.Parsers.{response_is_error, response_error_message}

-- The wallpapers, and the rest of the supervisor.
pub record Daemon (R : Type 0) : Type 0 where
  pub sys : Sys
  pub rest : R

pub record WorldRouteCacheError : Type 0 where
  pub message : Text
  pub allow_fallback : Bool

-- What the supervisor asks of its other parts: the renderer process, and the world cache.
pub record Parts (R : Type 0) : Type 0 where
  -- The configuration: the transitions of the actions, the scale mode, the fallback for a world.
  pub actions : ActionMap
  pub scale_mode : ScaleMode
  pub world_fallback_transition : Option Transition
  -- The response as it came, or an error.
  pub renderer_request : Request → Exec (Daemon R) Text
  pub canvas_render_request :
      PreparedWallpaperChange
      → Transition
      → ScaleMode
      → Map Text
      → Exec (Daemon R) RenderCanvasSetRequest
  pub world_render_request :
      PreparedWallpaperChange
      → Transition
      → ScaleMode
      → Map Text
      → Exec (Daemon R) RenderWorldSetRequest
  pub validate_world_cache :
      List WallpaperEntry → List HealthOutput → Daemon R → Option WorldRouteCacheError × Daemon R
  pub world_route_warmup_message :
      WorldRouteCacheError → List WallpaperEntry → List HealthOutput → Daemon R → Text × Daemon R
  -- `upcoming_shuffle_paths`, and the warm-up that is scheduled for it.
  pub schedule_world_neighborhood_warmup :
      List WallpaperEntry → List HealthOutput → Daemon R → Daemon R

abbrev pub is_world : Transition → Bool
is_world (Transition.world duration easing) = true
is_world t = false

abbrev pub is_canvas : Transition → Bool
is_canvas (Transition.canvas c) = true
is_canvas t = false

index_in_range : Text → ℕ → ℕ → Outcome (Unit {0})
index_in_range label index outputs =
    if leb outputs index
    then err (
        message
          (label ++ (text " index out of range (0.." ++ (print_usize (outputs - 1) ++ text ")"))))
    else ok tt

unfoldable pub validate_render_wallpaper_action : WallpaperAction → ℕ → Outcome (Unit {0})
unfolding index_in_range
validate_render_wallpaper_action (WallpaperAction.replace i) outputs =
    index_in_range (text "replace") i outputs
validate_render_wallpaper_action (WallpaperAction.quarantine i) outputs =
    index_in_range (text "quarantine") i outputs
validate_render_wallpaper_action action outputs = ok tt

is_off : Text → List HealthOutput → Bool
is_off name [] = false
is_off name (h ∷ hs) = (text_eq h.name name && text_eq h.power_state (text "off")) || is_off name hs

all_off : List ActiveOutput → List HealthOutput → Bool
unfolding is_off
all_off [] health = true
all_off (o ∷ os) health = is_off o.name health && all_off os health

unfoldable pub all_active_outputs_power_off : List ActiveOutput → List HealthOutput → Bool
unfolding all_off
all_active_outputs_power_off outputs health = not (is_empty outputs) && all_off outputs health

-- `names.join(", ")`
joined : List ActiveOutput → Text
joined [] = []
joined (o ∷ []) = o.name
joined (o ∷ (p ∷ os)) = o.name ++ (text ", " ++ joined (p ∷ os))

unfoldable pub skipped_wallpaper_action_response :
    WallpaperAction → List ActiveOutput → WallpaperResponse
unfolding joined
skipped_wallpaper_action_response action outputs = record {
  action = as_str action;
  message =
      text "skipped "
      ++ (as_str action ++ (text "; all target outputs are off: " ++ joined outputs));
  entries = [];
  favorites = [];
}

-- `BTreeMap::insert`
insert_output : Text → Text → Map Text → Map Text
insert_output k v [] = (k, v) ∷ []
insert_output k v ((j, w) ∷ m) =
    let rest = insert_output k v m in
    if text_eq k j then (k, v) ∷ m else if text_lt k j then (k, v) ∷ ((j, w) ∷ m) else (j, w) ∷ rest

outputs_onto : Map Text → List WallpaperEntry → Map Text
unfolding insert_output
outputs_onto m [] = m
outputs_onto m (e ∷ es) = outputs_onto (insert_output e.output e.path m) es

-- The entries collected into a map.
unfoldable pub request_outputs : List WallpaperEntry → Map Text
unfolding outputs_onto
request_outputs entries = outputs_onto [] entries

unfoldable pub validate_image_paths : Disk → Map Text → Outcome (Unit {0})
validate_image_paths disk [] = ok tt
validate_image_paths disk ((output, path) ∷ m) =
    let rest = validate_image_paths disk m in
    if is_file disk path
    then rest
    else err (
        message (
          text "image path for output "
          ++ (output ++ (text " does not exist or is not a file: " ++ path))))

module _ {R : Type 0} where
  abbrev pub on_wallpaper : {A : Type 0} → Exec Sys A → Exec (Daemon R) A
  on_wallpaper m d = let r = m d.sys in (r.0, record d { sys = r.1 })

  abbrev pub roll_back : PreparedWallpaperChange → Daemon R → Daemon R
  roll_back p d = record d { sys = rollback_wallpaper_change p d.sys }

  abbrev pub check_paths : PreparedWallpaperChange → Exec (Daemon R) (Unit {0})
  check_paths p d = (validate_image_paths d.sys.disk (request_outputs p.entries), d)

  module _ (x : Parts R) where
    check_response : Text → Outcome (Unit {0})
    check_response response =
        if response_is_error (utf8 response)
        then elim (response_error_message (utf8 response)) [
          | none ↦ err (message response)
          | some m ↦ err (message m)
        ]
        else ok tt

    send : PreparedWallpaperChange → Transition → ScaleMode → Exec (Daemon R) Text
    send p t mode =
        let outputs = request_outputs p.entries in
        if is_canvas t
        then (x.canvas_render_request p t mode outputs >>= λ r.
            x.renderer_request (Request.render_canvas_set r))
        else if is_world t
        then (x.world_render_request p t mode outputs >>= λ r.
            x.renderer_request (Request.render_world_set r))
        else x.renderer_request (
            Request.set (record {
              outputs = outputs;
              transition = t;
              scale_mode = mode;
              allow_partial = false;
            }))

    unfoldable pub render_prepared_change :
        PreparedWallpaperChange → Transition → ScaleMode → Exec (Daemon R) (Unit {0})
    unfolding send check_response
    render_prepared_change p t mode = send p t mode >>= λ response. lift (check_response response)

    -- The transition that is rendered: the fallback, where the cache of the world has gaps.
    unfoldable pub choose_transition :
        PreparedWallpaperChange → Transition → List HealthOutput → Exec (Daemon R) Transition
    choose_transition p t health d =
        if is_world t
        then (let r = x.validate_world_cache p.entries health d in
            elim r.0 [
              | none ↦ (ok t, r.1)
              | some e ↦
                  if e.allow_fallback
                  then (let w = x.world_route_warmup_message e p.entries health r.1 in
                      elim x.world_fallback_transition [
                        | some fallback ↦ (ok fallback, w.1)
                        | none ↦ (err (message w.0), roll_back p w.1)
                      ])
                  else (err (message e.message), roll_back p r.1)
            ])
        else (ok t, d)

    committed :
        PreparedWallpaperChange → Transition → List HealthOutput → Exec (Daemon R) WallpaperResponse
    committed p t health = do
      response ← on_wallpaper (commit_wallpaper_change p)
      modify (λ d.
          if is_world t then x.schedule_world_neighborhood_warmup response.entries health d else d)
      pure response

    unfoldable pub render_or_roll_back :
        PreparedWallpaperChange
        → Transition
        → ScaleMode
        → List HealthOutput
        → Exec (Daemon R) WallpaperResponse
    unfolding committed
    render_or_roll_back p t mode health d =
        let r = render_prepared_change p t mode d in
        elim r.0 [
          | ok u ↦ committed p t health r.1
          | err e ↦ (err e, roll_back p r.1)
          | running ↦ (running, r.1)
        ]

    -- From the prepared change on.
    unfoldable pub finish_change :
        PreparedWallpaperChange
        → Transition
        → ScaleMode
        → List HealthOutput
        → Exec (Daemon R) WallpaperResponse
    finish_change p t mode health = do
      check_paths p
      chosen ← choose_transition p t health
      moved ← on_wallpaper (move_quarantine p)
      render_or_roll_back moved chosen mode health

    abbrev pub transition_of : WallpaperRequest → Transition
    transition_of request = elim request.transition [
      | some t ↦ t
      | none ↦ transition_for_wallpaper_action x.actions request.action
    ]

    abbrev pub mode_of : WallpaperRequest → ScaleMode
    mode_of request = elim request.scale_mode [ some m ↦ m | none ↦ x.scale_mode ]

    unfoldable pub render_wallpaper_action :
        ℕ
        → ℕ
        → WallpaperRequest
        → List ActiveOutput
        → List HealthOutput
        → Exec (Daemon R) WallpaperResponse
    render_wallpaper_action fuel rounds request outputs health =
        lift (validate_render_wallpaper_action request.action (length outputs))
        >> (if all_active_outputs_power_off outputs health
            then pure (skipped_wallpaper_action_response request.action outputs)
            else (on_wallpaper (
                  prepare_wallpaper_change fuel rounds request.action outputs
                    (is_canvas (transition_of request)))
                >>= λ p. finish_change p (transition_of request) (mode_of request) health))
