-- ===== src/Supervisor/Restores.antt =====
-- What a failed change leaves behind in `render_wallpaper_action`.
use mural.Prelude.{
  ℕ, ◌≡◌, refl, ap, sym, subst, ◌∙◌, Bool, true, false, Option, none, some, List, text_eq,
  text_eq_iff, ◌⊎◌, inl, inr, if◌then◌else◌,
}
use mural.Exec.{message, Outcome, ok, err, running, Error, ◌>>=◌, continue, Outcome-cases}
use mural.Wallpaper.Layout.{LayoutState}
use mural.Wallpaper.Control.{Sys}
use mural.Prelude.{length}
use mural.Protocol.Messages.{WallpaperRequest}
use mural.Wallpaper.Change.Prepare.{prepare_wallpaper_change}
use mural.Wallpaper.Change.Prepare.Layouts.{prepare-Prepares}
use mural.Wallpaper.Change.{
  ActiveOutput, layout_key, PreparedWallpaperChange, WallpaperResponse, get_layout,
}
use mural.Wallpaper.Change.Finish.{move_quarantine, commit_wallpaper_change}
use mural.Wallpaper.Change.Rollback.{get-rollback}
use mural.Protocol.Words.General.{ScaleMode}
use mural.Protocol.Messages.{Transition}
use mural.Protocol.Responses.{HealthOutput}
use mural.Supervisor.{
  Daemon, Parts, is_canvas, transition_of, mode_of, render_wallpaper_action,
  validate_render_wallpaper_action, all_active_outputs_power_off, WorldRouteCacheError, is_world,
  roll_back, on_wallpaper, render_prepared_change, choose_transition, committed,
  render_or_roll_back, finish_change, validate_image_paths, request_outputs,
}

module _ {R : Type 0} (x : Parts R) (p : PreparedWallpaperChange) where
  -- The layout that was taken is in the map again, as it was.
  abbrev pub Restored : Daemon R → Type 0
  Restored d = get_layout p.layout_key d.sys.layouts ≡ some p.layout_before

  -- How a run of `finish_change` that ended in `final` failed behind the render: the renderer took
  -- the change, then the commit in the state behind the render ended with the error, and the run
  -- stopped there.
  pub record CommitFailed (t : Transition) (mode : ScaleMode) (health : List HealthOutput)
      (d : Daemon R) (e : Error) (final : Daemon R) : Type 0 where
    pub chosen : Transition
    pub before : Daemon R
    pub after : Daemon R
    pub chose : choose_transition x p t health d ≡ (ok chosen, before)
    pub displayed : render_prepared_change x p chosen mode before ≡ (ok tt, after)
    pub failed : (commit_wallpaper_change p after.sys).0 ≡ err e
    pub left : final ≡ record after { sys = (commit_wallpaper_change p after.sys).1 }

  roll_back-Restored : (d : Daemon R) → Restored (roll_back p d)
  roll_back-Restored d =
      let same : text_eq p.layout_key p.layout_key ≡ true =
        (text_eq_iff p.layout_key p.layout_key).1 refl in
      get-rollback p d.sys p.layout_key ∙ (rw same refl)

  committed-fails :
      (t : Transition) (health : List HealthOutput) (d : Daemon R) (e : Error)
      → (committed x p t health d).0 ≡ err e
      → ((commit_wallpaper_change p d.sys).0 ≡ err e)
        × ((committed x p t health d).1 ≡ record d { sys = (commit_wallpaper_change p d.sys).1 })
  unfolding committed
  committed-fails t health d e h = elim (Outcome-cases (commit_wallpaper_change p d.sys).0) [
    | inl (r, q) ↦ absurd (cc (rw (q, committed) at h))
    | inr (inl (e', q)) ↦ (q ∙ (rw (q, committed) at h), rw (q, committed) refl)
    | inr (inr q) ↦ absurd (cc (rw (q, committed) at h))
  ]

  -- An error of the choice leaves the layout restored.
  abbrev Safe : {A : Type 0} → Outcome A × Daemon R → Type 0
  Safe r = (e : Error) → r.0 ≡ err e → Restored r.1

  rolled : {A : Type 0} (e : Error) (d : Daemon R) → Safe {A = A} (err e, roll_back p d)
  rolled e d e' h = roll_back-Restored d

  choose-Safe :
      (t : Transition) (health : List HealthOutput) (d : Daemon R)
      → Safe (choose_transition x p t health d)
  unfolding choose_transition
  choose-Safe t health d =
      let r = x.validate_world_cache p.entries health d in
      given (is_world t) r.0 r.1 x.world_fallback_transition
    where
      given :
          (b : Bool) (o : Option WorldRouteCacheError) (d' : Daemon R) (f : Option Transition)
          → Safe {A = Transition} (
              if b
              then elim o [
                | none ↦ (ok t, d')
                | some e ↦
                    if e.allow_fallback
                    then (let w = x.world_route_warmup_message e p.entries health d' in
                        elim f [
                          | some fallback ↦ (ok fallback, w.1)
                          | none ↦ (err (message w.0), roll_back p w.1)
                        ])
                    else (err (message e.message), roll_back p d')
              ]
              else (ok t, d))
      given false o d' f e h = absurd cc
      given true none d' f e h = absurd cc
      given true (some c) d' f e h = gap c.allow_fallback f e h
        where
          gap :
              (b : Bool) (f : Option Transition)
              → Safe {A = Transition} (
                  if b
                  then (let w = x.world_route_warmup_message c p.entries health d' in
                      elim f [
                        | some fallback ↦ (ok fallback, w.1)
                        | none ↦ (err (message w.0), roll_back p w.1)
                      ])
                  else (err (message c.message), roll_back p d'))
          gap false f e h = rolled (message c.message) d' e h
          gap true (some fallback) e h = absurd cc
          gap true none e h =
              let w = x.world_route_warmup_message c p.entries health d' in
              rolled (message w.0) w.1 e h

  module _ (t : Transition) (mode : ScaleMode) (health : List HealthOutput) (d : Daemon R) where
    -- A run from `d` that fails has restored the layout, or failed in its commit.
    abbrev Ends : Outcome WallpaperResponse × Daemon R → Type 0
    Ends r = (e : Error) → r.0 ≡ err e → Restored r.1 ⊎ CommitFailed t mode health d e r.1

    rendered :
        (chosen : Transition) (before after : Daemon R) (o : Outcome (Unit {0}))
        → choose_transition x p t health d ≡ (ok chosen, before)
        → render_prepared_change x p chosen mode before ≡ (o, after)
        → Ends (elim o [
          | ok u ↦ committed x p chosen health after
          | err e ↦ (err e, roll_back p after)
          | running ↦ (running, after)
        ])
    rendered chosen before after (ok u) c r e h =
        let q = committed-fails chosen health after e h in
        inr (record {
          chosen = chosen;
          before = before;
          after = after;
          chose = c;
          displayed = r;
          failed = q.0;
          left = q.1;
        })
    rendered chosen before after (err e) c r e' h = inl (roll_back-Restored after)
    rendered chosen before after running c r e h = absurd cc

    render-Ends :
        (chosen : Transition) (before : Daemon R)
        → choose_transition x p t health d ≡ (ok chosen, before)
        → Ends (render_or_roll_back x p chosen mode health before)
    unfolding render_or_roll_back
    render-Ends chosen before c =
        let r = render_prepared_change x p chosen mode before in
        rendered chosen before r.1 r.0 c refl

    chosen-Ends :
        (k : Transition → Daemon R → Outcome WallpaperResponse × Daemon R) (o : Outcome Transition)
        (before : Daemon R)
        → choose_transition x p t health d ≡ (o, before)
        → Safe (o, before)
        → ((chosen : Transition)
            → k chosen before ≡ render_or_roll_back x p chosen mode health before)
        → Ends (continue o k before)
    chosen-Ends k (ok chosen) before c s same e h =
        subst Ends (sym (same chosen)) (render-Ends chosen before c) e h
    chosen-Ends k (err e) before c s same e' h = inl (s e refl)
    chosen-Ends k running before c s same e h = absurd cc

  abbrev from_move :
      Transition → ScaleMode → List HealthOutput → Daemon R → Outcome WallpaperResponse × Daemon R
  from_move t mode health d =
      (on_wallpaper (move_quarantine p) >>= λ moved. render_or_roll_back x moved t mode health) d

  -- A change that moves no file passes the move unchanged.
  move_quarantine-none :
      (t : Transition) (mode : ScaleMode) (health : List HealthOutput) (d : Daemon R)
      → p.quarantine ≡ none
      → from_move t mode health d ≡ render_or_roll_back x p t mode health d
  unfolding move_quarantine
  move_quarantine-none t mode health d e = rw e refl

  pub finish_change-Restored :
      (t : Transition) (mode : ScaleMode) (health : List HealthOutput) (d : Daemon R) (e : Error)
      → p.quarantine ≡ none
      → validate_image_paths d.sys.disk (request_outputs p.entries) ≡ ok tt
      → (finish_change x p t mode health d).0 ≡ err e
      → Restored (finish_change x p t mode health d).1
        ⊎ CommitFailed t mode health d e (finish_change x p t mode health d).1
  unfolding finish_change
  finish_change-Restored t mode health d e plain paths h =
      let c = choose_transition x p t health d in
      let rest = λ (chosen : Transition). from_move chosen mode health in
      let whole : finish_change x p t mode health d ≡ continue c.0 rest c.1 = rw paths refl in
      subst (Ends t mode health d) (sym whole)
        (chosen-Ends t mode health d rest c.0 c.1 refl (choose-Safe t health d)
          (λ chosen. move_quarantine-none chosen mode health c.1 plain))
        e h

abbrev pub preparation :
    {R : Type 0}
    → Parts R
    → ℕ
    → ℕ
    → WallpaperRequest
    → List ActiveOutput
    → Daemon R
    → Outcome PreparedWallpaperChange × Sys
preparation x fuel rounds request outputs d =
    prepare_wallpaper_change fuel rounds request.action outputs
      (is_canvas (transition_of x request)) d.sys

-- The daemon behind the preparation.
abbrev pub prepared_daemon :
    {R : Type 0} → Parts R → ℕ → ℕ → WallpaperRequest → List ActiveOutput → Daemon R → Daemon R
prepared_daemon x fuel rounds request outputs d = record d {
  sys = (preparation x fuel rounds request outputs d).1;
}

-- Where the layout of the outputs is in the map, the action is in range, not every output is off, a
-- change without a move to quarantine is prepared and its images are files: if
-- render_wallpaper_action then fails, the layout is in the map as it was, or the renderer had taken
-- the change without an error and the commit that followed in this run ended with that error, in
-- the state that the run leaves. This holds whatever the renderer and the world cache answer.
pub render_wallpaper_action-Restored :
    {R : Type 0} (x : Parts R) (fuel rounds : ℕ) (request : WallpaperRequest)
    (outputs : List ActiveOutput) (health : List HealthOutput) (d : Daemon R) (before : LayoutState)
    (p : PreparedWallpaperChange) (e : Error)
    → validate_render_wallpaper_action request.action (length outputs) ≡ ok tt
    → all_active_outputs_power_off outputs health ≡ false
    → get_layout (layout_key outputs) d.sys.layouts ≡ some before
    → (preparation x fuel rounds request outputs d).0 ≡ ok p
    → p.quarantine ≡ none
    → validate_image_paths
        (preparation x fuel rounds request outputs d).1.disk
        (request_outputs p.entries)
      ≡ ok tt
    → (render_wallpaper_action x fuel rounds request outputs health d).0 ≡ err e
    → (get_layout
          (layout_key outputs)
          (render_wallpaper_action x fuel rounds request outputs health d).1.sys.layouts
        ≡ some before)
      ⊎ CommitFailed x p
          (transition_of x request)
          (mode_of x request)
          health
          (prepared_daemon x fuel rounds request outputs d)
          e
          (render_wallpaper_action x fuel rounds request outputs health d).1
unfolding render_wallpaper_action
render_wallpaper_action-Restored x fuel rounds request outputs health d before p e valid on cached
      made plain paths h =
    let t = transition_of x request in
    let mode = mode_of x request in
    let d' = prepared_daemon x fuel rounds request outputs d in
    let q =
      prepare-Prepares fuel rounds request.action outputs (is_canvas t) d.sys before p cached
        made in
    let whole : render_wallpaper_action x fuel rounds request outputs health d
        ≡ finish_change x p t mode health d' =
      rw (valid, on, made) refl in
    let r =
      finish_change-Restored x p t mode health d' e plain paths (ap (λ u. u.0) (sym whole) ∙ h) in
    elim r [
      | inl back ↦ inl (
          ap (λ u. get_layout (layout_key outputs) u.1.sys.layouts) whole
          ∙ ap (λ k. get_layout k (finish_change x p t mode health d').1.sys.layouts) (sym q.key)
          ∙ back
          ∙ ap some q.layout_before)
      | inr failed ↦ inr (subst (λ u. CommitFailed x p t mode health d' e u.1) (sym whole) failed)
    ]
