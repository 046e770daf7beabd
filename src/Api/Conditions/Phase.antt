-- ===== src/Api/Conditions/Phase.antt =====
-- `DerivePhase`: when each phase is reported.
use logic_operator.Prelude.{
  ℕ, ◌<◌, ◌≡◌, refl, ◌≢◌, ◌↔◌, ◌⊎◌, none, some, List, [], ◌∷◌, arith, text_Eq, inl, inr, In, All,
}
use logic_operator.Api.Conditions.{
  Condition, ApplicationPhase, pending, ready, failed, condition_false, derive_phase,
  derive_phase_loop,
}

-- A condition that says that a deployment missed its deadline.
pub record IsDeadline (c : Condition) : Type 0 where
  pub is_false : c.status ≡ condition_false
  pub late : c.reason ≡ "ProgressDeadlineExceeded"

loop-none_step :
    (phase : ApplicationPhase) (c : Condition) (cs : List Condition)
    → derive_phase_loop phase (c ∷ cs) ≡ none
    → IsDeadline c ⊎ ((derive_phase_loop phase cs ≡ none) ⊎ (derive_phase_loop pending cs ≡ none))
unfolding derive_phase_loop
loop-none_step phase c cs h = ground (arith, text_Eq.same_iff c.reason "ProgressDeadlineExceeded")

loop-none :
    (phase : ApplicationPhase) (cs : List Condition)
    → derive_phase_loop phase cs ≡ none
    → (c : Condition) × In c cs × IsDeadline c
unfolding derive_phase_loop
loop-none phase [] h = cc
loop-none phase (c ∷ cs) h = elim (loop-none_step phase c cs h) [
  | inl d ↦ (c, inl refl, d)
  | inr (inl k) ↦ let (b, i, d) = loop-none phase cs k in (b, inr i, d)
  | inr (inr k) ↦ let (b, i, d) = loop-none pending cs k in (b, inr i, d)
]

none-loop :
    (phase : ApplicationPhase) (cs : List Condition) (c : Condition)
    → In c cs
    → IsDeadline c
    → derive_phase_loop phase cs ≡ none
unfolding derive_phase_loop
none-loop phase [] c i d = absurd i
none-loop phase (b ∷ cs) c (inl p) d =
    ground (arith, d.is_false, d.late, text_Eq.same_iff b.reason "ProgressDeadlineExceeded")
none-loop phase (b ∷ cs) c (inr i) d =
    ground (arith, none-loop phase cs c i d, none-loop pending cs c i d)

-- The loop never reaches Failed: only the early return reports it.
loop-ne-failed :
    (phase : ApplicationPhase) (cs : List Condition)
    → phase ≢ failed
    → derive_phase_loop phase cs ≢ some failed
unfolding derive_phase_loop
loop-ne-failed phase [] h e = ground (arith, h)
loop-ne-failed phase (c ∷ cs) h e =
    ground (arith, loop-ne-failed phase cs h, loop-ne-failed pending cs (λ e. cc))

loop-pending : (cs : List Condition) → derive_phase_loop pending cs ≢ some ready
unfolding derive_phase_loop
loop-pending [] e = cc
loop-pending (c ∷ cs) e = ground (arith, loop-pending cs)

loop-ready_step :
    (c : Condition) (cs : List Condition)
    → derive_phase_loop ready (c ∷ cs) ≡ some ready
    → (c.status ≢ condition_false) × (derive_phase_loop ready cs ≡ some ready)
unfolding derive_phase_loop
loop-ready_step c cs h = ground (arith, loop-pending cs)

loop-ready :
    (cs : List Condition)
    → derive_phase_loop ready cs ≡ some ready
    → All (λ (c : Condition). c.status ≢ condition_false) cs
unfolding derive_phase_loop
loop-ready [] h = tt
loop-ready (c ∷ cs) h = let (k, e) = loop-ready_step c cs h in (k, loop-ready cs e)

ready-loop :
    (cs : List Condition)
    → All (λ (c : Condition). c.status ≢ condition_false) cs
    → derive_phase_loop ready cs ≡ some ready
unfolding derive_phase_loop
ready-loop [] h = refl
ready-loop (c ∷ cs) h = ground (arith, h.0, ready-loop cs h.1)

-- `DerivePhase` reports Failed exactly when some condition is False for a missed deadline, wherever
-- it stands in the list and whatever the number of ready replicas.
pub derive_phase-failed :
    (cs : List Condition) (n : ℕ)
    → (derive_phase cs n ≡ failed) ↔ ((c : Condition) × In c cs × IsDeadline c)
unfolding derive_phase
derive_phase-failed cs n = (
  λ h. loop-none ready cs (ground (arith, loop-ne-failed ready cs (λ e. cc))),
  λ w. rw (none-loop ready cs w.0 w.1 w.2),
)

-- `DerivePhase` reports Ready exactly when no condition is False and a replica is ready.
pub derive_phase-ready :
    (cs : List Condition) (n : ℕ)
    → (derive_phase cs n ≡ ready)
      ↔ (All (λ (c : Condition). c.status ≢ condition_false) cs × (0 < n))
unfolding derive_phase
derive_phase-ready cs n = (
  λ h. (loop-ready cs (ground arith), ground (arith, loop-pending cs)),
  λ w. ground (arith, ready-loop cs w.0),
)
