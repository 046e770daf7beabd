-- ===== src/Gateway/Platform/Trace.antt =====
-- The endpoint over every sequence of events of the informer and of the sync.
use mathlib.Core.Path.{subst}
use logic_operator.Prelude.{
  String, ◌≡◌, refl, ◌≢◌, ◌⊎◌, some, List, [], ◌∷◌, arith, text_Eq, ◌==◌, In, inl, inr, Bool-cases,
  same-path, ◌++◌, All, All-In, ok, err,
}
use logic_operator.Api.Platform.{LogicPlatform}
use logic_operator.Gateway.Platform.{
  PlatformStore, new_platform_store, endpoint, data_index_endpoint, sync_endpoint, Event, added,
  updated, deleted, synced, first_endpoint, handle, handle_all,
}

-- A list of the cache has platforms of the namespace that it is asked for.
abbrev pub Lists : String → Event → Type 0
Lists namespace (added p) = Unit
Lists namespace (updated p) = Unit
Lists namespace (deleted p) = Unit
Lists namespace (synced (err message)) = Unit
Lists namespace (synced (ok platforms)) =
    All (λ (p : LogicPlatform). p.namespace ≡ namespace) platforms

-- An event reports the platform: it is added or updated, or a sync lists it.
abbrev pub Told : List Event → LogicPlatform → Type 0
Told events p =
    In (added p) events
    ⊎ (In (updated p) events
        ⊎ ((platforms : List LogicPlatform) × In (synced (ok platforms)) events × In p platforms))

-- `u` is the endpoint that a platform of the namespace had when the watcher was told of it.
pub record IsSeen (namespace : String) (events : List Event) (u : String) : Type 0 where
  pub platform : LogicPlatform
  pub told : Told events platform
  pub own : platform.namespace ≡ namespace
  pub url : data_index_endpoint platform ≡ u
  pub there : u ≢ ""

sync_endpoint_cases :
    (namespace : String) (s : PlatformStore) (p : LogicPlatform) (u : String)
    → endpoint (sync_endpoint namespace s p) ≡ some u
    → (endpoint s ≡ some u) ⊎ ((p.namespace ≡ namespace) × (data_index_endpoint p ≡ u) × (u ≢ ""))
unfolding endpoint sync_endpoint
sync_endpoint_cases namespace s p u h = elim (Bool-cases (p.namespace == namespace)) [
  | inr other ↦ inl (ground (arith, other, h))
  | inl own ↦ elim (Bool-cases (data_index_endpoint p == "")) [
    | inl empty ↦ absurd (ground (arith, own, empty, h))
    | inr there ↦
        let e : data_index_endpoint p ≡ u = ground (arith, own, there, h) in
        inr (
          same-path p.namespace namespace own,
          e,
          λ q. ground (arith, there, e, q, text_Eq.same_iff (data_index_endpoint p) ""),
        )
  ]
]

first_endpoint-In :
    (s : PlatformStore) (platforms : List LogicPlatform) (u : String)
    → endpoint (first_endpoint s platforms) ≡ some u
    → (p : LogicPlatform) × In p platforms × (data_index_endpoint p ≡ u) × (u ≢ "")
unfolding endpoint first_endpoint
first_endpoint-In s [] u h = cc
first_endpoint-In s (p ∷ platforms) u h = elim (Bool-cases (data_index_endpoint p == "")) [
  | inl empty ↦
      let (q, i, url, there) = first_endpoint-In s platforms u (ground (arith, empty, h)) in
      (q, inr i, url, there)
  | inr there ↦
      let e : data_index_endpoint p ≡ u = ground (arith, there, h) in
      (
        p,
        inl refl,
        e,
        λ q. ground (arith, there, e, q, text_Eq.same_iff (data_index_endpoint p) ""),
      )
]

handle_endpoint :
    (namespace : String) (s : PlatformStore) (e : Event) (events : List Event) (u : String)
    → Lists namespace e
    → endpoint (handle namespace s e) ≡ some u
    → (endpoint s ≡ some u) ⊎ IsSeen namespace (e ∷ events) u
unfolding handle endpoint
handle_endpoint namespace s (added p) events u lists h =
    elim (sync_endpoint_cases namespace s p u h) [
      | inl old ↦ inl old
      | inr (own, url, there) ↦
          inr (record { platform = p; told = inl (inl refl); own = own; url = url; there = there })
    ]
handle_endpoint namespace s (updated p) events u lists h =
    elim (sync_endpoint_cases namespace s p u h) [
      | inl old ↦ inl old
      | inr (own, url, there) ↦ inr (record {
        platform = p;
        told = inr (inl (inl refl));
        own = own;
        url = url;
        there = there;
      })
    ]
handle_endpoint namespace s (deleted p) events u lists h = cc
handle_endpoint namespace s (synced (err message)) events u lists h = inl h
handle_endpoint namespace s (synced (ok platforms)) events u lists h =
    let (p, i, url, there) = first_endpoint-In s platforms u h in
    inr (record {
      platform = p;
      told = inr (inr (platforms, inl refl, i));
      own = All-In (λ (q : LogicPlatform). q.namespace ≡ namespace) platforms p lists i;
      url = url;
      there = there;
    })

later :
    (namespace : String) (e : Event) (events : List Event) (u : String)
    → IsSeen namespace events u
    → IsSeen namespace (e ∷ events) u
later namespace e events u x = record {
  platform = x.platform;
  told = elim x.told [
    | inl i ↦ inl (inr i)
    | inr (inl i) ↦ inr (inl (inr i))
    | inr (inr (platforms, i, j)) ↦ inr (inr (platforms, inr i, j))
  ];
  own = x.own;
  url = x.url;
  there = x.there;
}

handle_all_endpoint :
    (namespace : String) (s : PlatformStore) (events : List Event) (u : String)
    → All (Lists namespace) events
    → endpoint (handle_all namespace s events) ≡ some u
    → (endpoint s ≡ some u) ⊎ IsSeen namespace events u
unfolding handle_all
handle_all_endpoint namespace s [] u lists h = inl h
handle_all_endpoint namespace s (e ∷ events) u lists h =
    elim (handle_all_endpoint namespace (handle namespace s e) events u lists.1 h) [
      | inl before ↦ handle_endpoint namespace s e events u lists.0 before
      | inr seen ↦ inr (later namespace e events u seen)
    ]

-- Whatever the informer and the sync report, an endpoint of the store is not empty and is one that a
-- platform of the namespace of the gateway had in an add, an update or the list of a sync; platforms
-- of other namespaces never set it. A list of the cache has platforms of the namespace only.
pub endpoint-IsSeen :
    (namespace : String) (events : List Event) (u : String)
    → All (Lists namespace) events
    → endpoint (handle_all namespace new_platform_store events) ≡ some u
    → IsSeen namespace events u
endpoint-IsSeen namespace events u lists h =
    elim (handle_all_endpoint namespace new_platform_store events u lists h) [
      | inl start ↦ absurd (unfold endpoint in cc start)
      | inr seen ↦ seen
    ]

handle_all-append :
    (namespace : String) (s : PlatformStore) (events more : List Event)
    → handle_all namespace s (events ++ more)
      ≡ handle_all namespace (handle_all namespace s events) more
unfolding handle_all
handle_all-append namespace s [] more = refl
handle_all-append namespace s (e ∷ events) more =
    handle_all-append namespace (handle namespace s e) events more

-- After the deletion of a platform of any namespace, also one that the gateway does not serve, an
-- endpoint of the store is one that was reported after the deletion: what was known before is gone
-- until a platform of the namespace is added, updated or listed again.
pub endpoint-deleted :
    (namespace : String) (events more : List Event) (p : LogicPlatform) (u : String)
    → All (Lists namespace) more
    → endpoint (handle_all namespace new_platform_store (events ++ (deleted p ∷ more))) ≡ some u
    → IsSeen namespace more u
unfolding handle_all
endpoint-deleted namespace events more p u lists h =
    let before = handle_all namespace new_platform_store events in
    elim (handle_all_endpoint namespace (handle namespace before (deleted p)) more u lists (
      subst (λ s. endpoint s ≡ some u)
        (handle_all-append namespace new_platform_store events (deleted p ∷ more)) h)) [
          | inl kept ↦ absurd (unfold handle endpoint in cc kept)
          | inr seen ↦ seen
        ]
