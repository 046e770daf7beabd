-- ===== src/Api/Conditions/Reference.antt =====
-- The documented behaviour of apimachinery's two functions is that of `upsert` and `first_of_kind`.
use logic_operator.Prelude.{
  ◌≡◌, refl, ap, String, some, none, List, [], ◌∷◌, ◌++◌, arith, text_Eq, same_refl,
}
use logic_operator.Api.Conditions.{Condition, ConditionsApi, Lacks}
use logic_operator.Api.Conditions.Update.{upsert, first_of_kind}

pub upsert_existing :
    (before after : List Condition) (old new : Condition)
    → Lacks new.kind before
    → old.kind ≡ new.kind
    → upsert (before ++ (old ∷ after)) new ≡ before ++ (new ∷ after)
unfolding upsert
upsert_existing [] after old new h p = ground (arith, p, text_Eq.same_iff old.kind new.kind)
upsert_existing (c ∷ before) after old new h p =
    rw h.0 (ap (◌∷◌ c) (upsert_existing before after old new h.1 p))

pub upsert_missing :
    (cs : List Condition) (new : Condition) → Lacks new.kind cs → upsert cs new ≡ cs ++ (new ∷ [])
unfolding upsert
upsert_missing [] new h = refl
upsert_missing (c ∷ cs) new h = rw h.0 (ap (◌∷◌ c) (upsert_missing cs new h.1))

pub first_existing :
    (before after : List Condition) (c : Condition)
    → Lacks c.kind before
    → first_of_kind (before ++ (c ∷ after)) c.kind ≡ some c
unfolding first_of_kind
first_existing [] after c h = rw (same_refl c.kind) refl
first_existing (b ∷ before) after c h = rw h.0 (first_existing before after c h.1)

pub first_missing :
    (cs : List Condition) (kind : String) → Lacks kind cs → first_of_kind cs kind ≡ none
unfolding first_of_kind
first_missing [] kind h = refl
first_missing (c ∷ cs) kind h = rw h.0 (first_missing cs kind h.1)

abbrev pub reference_api : ConditionsApi
reference_api = record {
  set_status_condition = upsert;
  find_status_condition = first_of_kind;
  set_existing = upsert_existing;
  set_missing = upsert_missing;
  find_existing = first_existing;
  find_missing = first_missing;
}
