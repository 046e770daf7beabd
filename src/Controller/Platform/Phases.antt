-- ===== src/Controller/Platform/Phases.antt =====
-- The three phases of `Reconcile` of a LogicPlatform: no component's error stops another one.
use logic_operator.Prelude.{String, ◌≡◌, refl, ◌↔◌, Option, none, some, List, [], ◌∷◌, ◌++◌}
use logic_operator.Api.Conditions.{ConditionsApi}
use logic_operator.Api.Platform.{LogicPlatform}
use logic_operator.Controller.Platform.{
  PlatformComponent, PlatformServer, write_status, note_error, reconcile_components,
  update_statuses, write_accumulated, observe, reconcile_phases,
}

module _ {W : Type 0} where
  -- The cluster and the platform after each component has reconciled once, in order
  abbrev pub after_all : List (PlatformComponent W) → W → LogicPlatform → W × LogicPlatform
  after_all [] w plat = (w, plat)
  after_all (c ∷ components) w plat =
      after_all components (c.reconcile w plat).world (c.reconcile w plat).plat

  -- No component reports an error then.
  abbrev pub Reconciles : List (PlatformComponent W) → W → LogicPlatform → Type 0
  Reconciles [] w plat = Unit
  Reconciles (c ∷ components) w plat =
      ((c.reconcile w plat).error ≡ none)
      × Reconciles components (c.reconcile w plat).world (c.reconcile w plat).plat

  -- The platform after each component has put its status into it, in order
  abbrev pub seen_by_all : List (PlatformComponent W) → W → LogicPlatform → LogicPlatform
  seen_by_all [] w plat = plat
  seen_by_all (c ∷ components) w plat = seen_by_all components w (c.update_status w plat).0

  -- No component reports an error then.
  abbrev pub Updates : List (PlatformComponent W) → W → LogicPlatform → Type 0
  Updates [] w plat = Unit
  Updates (c ∷ components) w plat =
      ((c.update_status w plat).1 ≡ none) × Updates components w (c.update_status w plat).0

  abbrev pub all_seen : List (PlatformComponent W) → W → LogicPlatform → LogicPlatform
  all_seen components w plat =
      seen_by_all components (after_all components w plat).0 (after_all components w plat).1

append-ne-nil : (xs : List String) (x : String) → xs ++ (x ∷ []) ≡ [] → ⊥
append-ne-nil [] x h = cc
append-ne-nil (y ∷ xs) x h = cc

module _ (api : ConditionsApi) {W : Type 0} (server : PlatformServer W) where
  note_error-none :
      (prefix : String) (error : Option String) (errors : List String)
      → (note_error api server prefix error errors ≡ []) ↔ ((errors ≡ []) × (error ≡ none))
  note_error-none prefix none errors = (λ h. (h, refl), λ h. h.0)
  note_error-none prefix (some message) errors =
      (λ h. absurd (append-ne-nil errors _ h), λ h. cc (h.1))

  reconcile_components-after_all :
      (components : List (PlatformComponent W)) (w : W) (plat : LogicPlatform)
      (errors : List String)
      → ((reconcile_components api server components w plat errors).0
          ≡ (after_all components w plat).0)
        × ((reconcile_components api server components w plat errors).1
            ≡ (after_all components w plat).1)
        × (((reconcile_components api server components w plat errors).2 ≡ [])
            ↔ ((errors ≡ []) × Reconciles components w plat))
  unfolding reconcile_components
  reconcile_components-after_all [] w plat errors = (refl, refl, (λ h. (h, tt), λ h. h.0))
  reconcile_components-after_all (c ∷ components) w plat errors =
      let ran = c.reconcile w plat in
      let (one, two, (there, back)) =
        reconcile_components-after_all components ran.world ran.plat
          (note_error api server c.name ran.error errors) in
      let (split, both) = note_error-none c.name ran.error errors in
      (
        one,
        two,
        (
          λ h. ((split (there h).0).0, ((split (there h).0).1, (there h).1)),
          λ h. back (both (h.0, h.1.0), h.1.1),
        ),
      )

  update_statuses-seen_by_all :
      (components : List (PlatformComponent W)) (w : W) (plat : LogicPlatform)
      (errors : List String)
      → ((update_statuses api server components w plat errors).0 ≡ seen_by_all components w plat)
        × (((update_statuses api server components w plat errors).1 ≡ [])
            ↔ ((errors ≡ []) × Updates components w plat))
  unfolding update_statuses
  update_statuses-seen_by_all [] w plat errors = (refl, (λ h. (h, tt), λ h. h.0))
  update_statuses-seen_by_all (c ∷ components) w plat errors =
      let seen = c.update_status w plat in
      let (one, (there, back)) =
        update_statuses-seen_by_all components w seen.0 (note_error api server _ seen.1 errors) in
      let (split, both) = note_error-none _ seen.1 errors in
      (
        one,
        (
          λ h. ((split (there h).0).0, ((split (there h).0).1, (there h).1)),
          λ h. back (both (h.0, h.1.0), h.1.1),
        ),
      )

  written_none :
      (error : Option String) (errors : List String)
      → ((elim error [ none ↦ errors | some message ↦ errors ++ (message ∷ []) ]) ≡ [])
        ↔ ((errors ≡ []) × (error ≡ none))
  written_none none errors = (λ h. (h, refl), λ h. h.0)
  written_none (some message) errors = (λ h. absurd (append-ne-nil errors _ h), λ h. cc (h.1))

  write_accumulated-none :
      (w : W) (plat : LogicPlatform) (errors : List String)
      → ((write_accumulated api server w plat errors).0 ≡ (write_status api server w plat).0)
        × (((write_accumulated api server w plat errors).1 ≡ [])
            ↔ ((errors ≡ []) × ((write_status api server w plat).1 ≡ none)))
  unfolding write_accumulated
  write_accumulated-none w plat errors =
      (refl, written_none (write_status api server w plat).1 errors)

  observe-none :
      (components : List (PlatformComponent W)) (w : W) (plat : LogicPlatform)
      (errors : List String)
      → ((observe api server components w plat errors).0
          ≡ (write_status api server w (seen_by_all components w plat)).0)
        × (((observe api server components w plat errors).1 ≡ []) ↔ (
            (errors ≡ [])
            × Updates components w plat
            × ((write_status api server w (seen_by_all components w plat)).1 ≡ none)))
  unfolding observe
  observe-none components w plat errors =
      let (three, (on, off)) = update_statuses-seen_by_all components w plat errors in
      let noted = (update_statuses api server components w plat errors).1 in
      let (same, (split, both)) = write_accumulated-none w (seen_by_all components w plat) noted in
      rw (three) (
        same,
        (
          λ h. let (clean, written) = split h in ((on clean).0, (on clean).1, written),
          λ h. both (off (h.0, h.1), h.2),
        ),
      )

  -- Whatever errors the components report, each of them reconciles once and then each puts its status
  -- into the platform, in order, and the status of the platform that results is written. `Reconcile`
  -- joins no error exactly when no component reports one in either phase and the write succeeds.
  pub reconcile_phases-all :
      (components : List (PlatformComponent W)) (w : W) (plat : LogicPlatform)
      → ((reconcile_phases api server components w plat).0
          ≡ (write_status api server
              (after_all components w plat).0
              (all_seen components w plat)).0)
        × (((reconcile_phases api server components w plat).1 ≡ []) ↔ (
            Reconciles components w plat
            × Updates components (after_all components w plat).0 (after_all components w plat).1
            × ((write_status api server
                  (after_all components w plat).0
                  (all_seen components w plat)).1
                ≡ none)))
  unfolding reconcile_phases
  reconcile_phases-all components w plat =
      let all = after_all components w plat in
      let (one, two, (there, back)) = reconcile_components-after_all components w plat [] in
      let errors = (reconcile_components api server components w plat []).2 in
      let (same, (split, both)) = observe-none components all.0 all.1 errors in
      rw (one, two)
        (
          same,
          (
            λ h. ((there (split h).0).1, (split h).1, (split h).2),
            λ h. both (back (refl, h.0), h.1, h.2),
          ),
        )
