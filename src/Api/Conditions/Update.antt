-- ===== src/Api/Conditions/Update.antt =====
-- What `SetCondition` and `SetConditionTrue` do to the conditions of a resource.
use mathlib.Core.List.{append-nil, append_assoc}
use logic_operator.Prelude.{
  ℕ, String, ◌≡◌, refl, sym, ap, ◌∙◌, false, Option, none, some, List, [], ◌∷◌, ◌++◌, arith,
  text_Eq, ◌==◌, if◌then◌else◌, inl, inr, Bool-cases, same-path,
}
use logic_operator.Api.Conditions.{
  Condition, ConditionsApi, Lacks, Status, set_condition, find_condition,
}

-- The update that the documentation of apimachinery describes, as a function.
unfoldable pub upsert : List Condition → Condition → List Condition
upsert [] new = new ∷ []
upsert (c ∷ cs) new = if c.kind == new.kind then new ∷ cs else c ∷ upsert cs new

unfoldable pub first_of_kind : List Condition → String → Option Condition
first_of_kind [] kind = none
first_of_kind (c ∷ cs) kind = if c.kind == kind then some c else first_of_kind cs kind

Lacks-snoc :
    (kind : String) (before : List Condition) (c : Condition)
    → Lacks kind before
    → (c.kind == kind) ≡ false
    → Lacks kind (before ++ (c ∷ []))
Lacks-snoc kind [] c h e = (e, tt)
Lacks-snoc kind (b ∷ before) c h e = (h.0, Lacks-snoc kind before c h.1 e)

module _ (api : ConditionsApi) where
  set-eq-upsert_after :
      (before after : List Condition) (new : Condition)
      → Lacks new.kind before
      → api.set_status_condition (before ++ after) new ≡ before ++ upsert after new
  unfolding upsert
  set-eq-upsert_after before [] new h = rw append-nil (api.set_missing before new h)
  set-eq-upsert_after before (c ∷ after) new h = elim (Bool-cases (c.kind == new.kind)) [
    | inl e ↦ rw e (api.set_existing before after c new h (same-path c.kind new.kind e))
    | inr e ↦ rw e (
        rw (← append_assoc before (c ∷ []) after) (
          rw (← append_assoc before (c ∷ []) (upsert after new)) (
            set-eq-upsert_after (before ++ (c ∷ [])) after new (Lacks-snoc new.kind before c h e))))
  ]

  pub set-eq-upsert :
      (cs : List Condition) (new : Condition) → api.set_status_condition cs new ≡ upsert cs new
  set-eq-upsert cs new = set-eq-upsert_after [] cs new tt

  find-eq-first_after :
      (before after : List Condition) (kind : String)
      → Lacks kind before
      → api.find_status_condition (before ++ after) kind ≡ first_of_kind after kind
  unfolding first_of_kind
  find-eq-first_after before [] kind h = rw append-nil (api.find_missing before kind h)
  find-eq-first_after before (c ∷ after) kind h = elim (Bool-cases (c.kind == kind)) [
    | inl e ↦ rw e (
        let p : c.kind ≡ kind = same-path c.kind kind e in
        ap (api.find_status_condition (before ++ (c ∷ after))) (sym p)
        ∙ api.find_existing before after c (rw p h))
    | inr e ↦ rw e (
        rw (← append_assoc before (c ∷ []) after)
          (find-eq-first_after (before ++ (c ∷ [])) after kind (Lacks-snoc kind before c h e)))
  ]

  pub find-eq-first :
      (cs : List Condition) (kind : String)
      → api.find_status_condition cs kind ≡ first_of_kind cs kind
  find-eq-first cs kind = find-eq-first_after [] cs kind tt

first-upsert :
    (cs : List Condition) (new : Condition) (kind : String)
    → first_of_kind (upsert cs new) kind
      ≡ (if new.kind == kind then some new else first_of_kind cs kind)
unfolding upsert first_of_kind
first-upsert [] new kind = refl
first-upsert (c ∷ cs) new kind = ground (
  arith,
  first-upsert cs new kind,
  text_Eq.same_iff new.kind kind,
  text_Eq.same_iff c.kind kind,
  text_Eq.same_iff c.kind new.kind,
)

-- After `SetCondition` of a type, `FindCondition` of that type finds what was set, with every
-- field, and of any other type it finds what it found before.
pub find-set_condition :
    (api : ConditionsApi) (cs : List Condition) (kind other : String) (status : Status)
    (generation : ℕ) (reason message : String)
    → find_condition api (set_condition api cs kind status generation reason message) other ≡ (
        if kind == other
        then some (record {
          kind = kind;
          status = status;
          observed_generation = generation;
          reason = reason;
          message = message;
        })
        else find_condition api cs other)
unfolding set_condition find_condition
find-set_condition api cs kind other status generation reason message =
    rw (set-eq-upsert api, find-eq-first api, find-eq-first api) (first-upsert cs _ other)
