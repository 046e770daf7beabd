-- ===== src/Api/Conditions/Blocks.antt =====
-- A condition that is False keeps a resource from being Ready, until it is set again.
use logic_operator.Prelude.{
  ℕ, String, ◌≡◌, refl, ◌≢◌, false, some, List, [], ◌∷◌, In, All-In, arith, text_Eq, ◌==◌, inl, inr,
  Bool-cases, same_refl,
}
use logic_operator.Api.Conditions.{
  Condition, ConditionsApi, Status, condition_false, set_condition, find_condition, derive_phase,
  ready,
}
use logic_operator.Api.Conditions.Update.{first_of_kind, find-eq-first, find-set_condition}
use logic_operator.Api.Conditions.Phase.{derive_phase-ready}

In-first_of_kind :
    (cs : List Condition) (kind : String) (c : Condition) → first_of_kind cs kind ≡ some c → In c cs
unfolding first_of_kind
In-first_of_kind [] kind c h = absurd (ground (arith, h))
In-first_of_kind (x ∷ cs) kind c h = elim (Bool-cases (x.kind == kind)) [
  | inl e ↦ inl (ground (arith, e, h))
  | inr e ↦ inr (In-first_of_kind cs kind c (ground (arith, e, h)))
]

module _ (api : ConditionsApi) where
  -- The condition of this type is there and is False.
  abbrev pub Blocked : String → List Condition → Type 0
  Blocked kind cs =
      (c : Condition) × (find_condition api cs kind ≡ some c) × (c.status ≡ condition_false)

  pub Blocked-ne-ready :
      (kind : String) (cs : List Condition) (n : ℕ) → Blocked kind cs → derive_phase cs n ≢ ready
  unfolding find_condition
  Blocked-ne-ready kind cs n (c, found, is_false) h =
      All-In (λ (x : Condition). x.status ≢ condition_false) cs c ((derive_phase-ready cs n).0 h).0
        (In-first_of_kind cs kind c (rw⁻¹ (find-eq-first api) found)) is_false

  pub Blocked-set_false :
      (kind : String) (cs : List Condition) (generation : ℕ) (reason message : String)
      → Blocked kind (set_condition api cs kind condition_false generation reason message)
  Blocked-set_false kind cs generation reason message = (
    record {
      kind = kind;
      status = condition_false;
      observed_generation = generation;
      reason = reason;
      message = message;
    },
    rw (find-set_condition api, same_refl kind) refl,
    refl,
  )

  pub Blocked-set_other :
      (kind other : String) (cs : List Condition) (status : Status) (generation : ℕ)
      (reason message : String)
      → (other == kind) ≡ false
      → Blocked kind cs
      → Blocked kind (set_condition api cs other status generation reason message)
  Blocked-set_other kind other cs status generation reason message differs (c, found, is_false) =
      (c, rw (find-set_condition api, differs) found, is_false)
