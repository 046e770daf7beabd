-- ===== src/Gateway/Routing/Execution.antt =====
-- Which endpoint a workflow execution is sent to.
use logic_operator.Prelude.{
  String, ◌≡◌, refl, ap, sym, ◌≢◌, ◌⊎◌, some, List, [], ◌∷◌, arith, text_Eq, ◌==◌, ◌&&◌, inl, inr,
  In, ok, Bool-cases, Outcome-cases, ◌∙◌, same-path,
}
use logic_operator.Prelude.Assoc.{get, IsRange}
use logic_operator.Prelude.Assoc.PutAll.{get-put_all_nil}
use logic_operator.Gateway.Routing.{
  WorkflowKey, Url, Endpoints, key_Eq, lookup_latest, replace, Resolver, resolve_execution,
  workflow_not_found,
}

abbrev pub key_of : String → String → String → WorkflowKey
key_of namespace name version = record { namespace = namespace; name = name; version = version }

lookup_latest-In :
    (entries : List (WorkflowKey × Url)) (namespace name : String) (u : Url)
    → lookup_latest entries namespace name ≡ some u
    → (version : String) × In (key_of namespace name version, u) entries
unfolding lookup_latest
lookup_latest-In [] ns n u h = cc
lookup_latest-In ((key, url) ∷ entries) ns n u h =
    elim (Bool-cases (key.namespace == ns && key.name == n)) [
      | inl e ↦ (
        key.version,
        inl (
            ground (
              arith,
              e,
              rw e at h,
              text_Eq.same_iff key.namespace ns,
              text_Eq.same_iff key.name n,
            )),
      )
      | inr e ↦ let (v, i) = lookup_latest-In entries ns n u (rw e at h) in (v, inr i)
    ]

In-lookup_latest :
    (entries : List (WorkflowKey × Url)) (namespace name version : String) (u : Url)
    → In (key_of namespace name version, u) entries
    → (w : Url) × (lookup_latest entries namespace name ≡ some w)
unfolding lookup_latest
In-lookup_latest [] ns n v u i = absurd i
In-lookup_latest ((key, url) ∷ entries) ns n v u i =
    elim (Bool-cases (key.namespace == ns && key.name == n)) [
      | inl e ↦ (url, rw e)
      | inr e ↦ elim i [
        | inl p ↦
            ground (arith, e, p, text_Eq.same_iff key.namespace ns, text_Eq.same_iff key.name n)
        | inr j ↦ let (w, q) = In-lookup_latest entries ns n v u j in (w, rw e q)
      ]
    ]

module _ (range : Endpoints → List (WorkflowKey × Url)) (r : Resolver)
    (namespace name : String) where
  -- A URL that `ResolveExecution` answers stands in the table under the namespace and name of the
  -- request, and under its version too unless the request left the version empty.
  pub resolve_execution_sound :
      (version : String) (u : Url)
      → IsRange r.endpoints (range r.endpoints)
      → resolve_execution range r namespace name version ≡ ok u
      → (v : String) × (get (key_of namespace name v) r.endpoints ≡ some u)
        × (version ≢ "" → v ≡ version)
  unfolding resolve_execution
  resolve_execution_sound version u ranges h = elim (Bool-cases (version == "")) [
    | inl e ↦
        let (v, i) = lookup_latest-In (range r.endpoints) namespace name u (ground (arith, e, h)) in
        (v, ranges.sound _ u i, λ ne. absurd (ne (same-path version "" e)))
    | inr e ↦ (version, ground (arith, e, h), λ ne. refl)
  ]

  -- If the table has the namespace and name under some version, and the request names that version
  -- or leaves it empty, `ResolveExecution` answers a URL.
  pub resolve_execution_complete :
      (version v : String) (u : Url)
      → IsRange r.endpoints (range r.endpoints)
      → get (key_of namespace name v) r.endpoints ≡ some u
      → (version ≡ "") ⊎ (version ≡ v)
      → (w : Url) × (resolve_execution range r namespace name version ≡ ok w)
  unfolding resolve_execution
  resolve_execution_complete version v u ranges h fits = elim (Bool-cases (version == "")) [
    | inl e ↦
        let (w, p) =
          In-lookup_latest (range r.endpoints) namespace name v u (ranges.complete _ u h) in
        (w, rw (e, p))
    | inr e ↦ elim fits [
      | inl p ↦ absurd (ground (arith, e, p, text_Eq.same_iff version ""))
      | inr p ↦ (u, rw e (rw p (rw h)))
    ]
  ]

-- The table that `Replace` builds answers every key as the map that it was given.
pub get-replace :
    (m : Endpoints) (entries : List (WorkflowKey × Url)) (k : WorkflowKey)
    → IsRange m entries
    → get k (replace entries) ≡ get k m
unfolding replace
get-replace m entries k ranges = get-put_all_nil m entries k ranges

-- The versions of a workflow that the table holds share one URL.
abbrev pub SharesUrl : Endpoints → String → String → Type 0
SharesUrl m namespace name =
    (v w : String) (a b : Url)
    → get (key_of namespace name v) m ≡ some a
    → get (key_of namespace name w) m ≡ some b
    → a ≡ b

pub fits_of : (version v : String) → (version ≢ "" → v ≡ version) → (version ≡ "") ⊎ (version ≡ v)
fits_of version v h = elim (Bool-cases (version == "")) [
  | inl e ↦ inl (same-path version "" e)
  | inr e ↦ inr (sym (h (λ p. ground (arith, e, p, text_Eq.same_iff version ""))))
]

module _ (r : Resolver) (namespace name version : String)
    (share : SharesUrl r.endpoints namespace name) where
  ok_in_any_order :
      (range range' : Endpoints → List (WorkflowKey × Url)) (u : Url)
      → IsRange r.endpoints (range r.endpoints)
      → IsRange r.endpoints (range' r.endpoints)
      → resolve_execution range r namespace name version ≡ ok u
      → resolve_execution range' r namespace name version ≡ ok u
  ok_in_any_order range range' u s t h =
      let (v, found, exact) = resolve_execution_sound range r namespace name version u s h in
      let (w, answer) =
        resolve_execution_complete range' r namespace name version v u t found
          (fits_of version v exact) in
      let (v', found', exact') =
        resolve_execution_sound range' r namespace name version w t answer in
      answer ∙ ap ok (share v' v w u found' found)

  -- If all the versions of a workflow share one URL, `ResolveExecution` answers the same, an error
  -- included, whatever the order in which the loop over the table meets its entries.
  pub resolve_execution_order :
      (range range' : Endpoints → List (WorkflowKey × Url))
      → IsRange r.endpoints (range r.endpoints)
      → IsRange r.endpoints (range' r.endpoints)
      → resolve_execution range r namespace name version
        ≡ resolve_execution range' r namespace name version
  resolve_execution_order range range' s t =
      elim (Outcome-cases (resolve_execution range r namespace name version)) [
        | inl (u, h) ↦ h ∙ sym (ok_in_any_order range range' u s t h)
        | inr (workflow_not_found, h) ↦
            elim (Outcome-cases (resolve_execution range' r namespace name version)) [
              | inl (w, k) ↦ ok_in_any_order range' range w t s k ∙ sym k
              | inr (workflow_not_found, k) ↦ h ∙ sym k
            ]
      ]
