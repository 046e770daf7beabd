-- ===== src/Prelude/Assoc/PutAll.antt =====
-- The loop that copies the entries of one map into another.
use logic_operator.Prelude.Tests.{Eq, Bool-cases, Option-cases, same-path, same_refl}
use logic_operator.Prelude.Lists.{In}
use logic_operator.Prelude.Assoc.{Assoc, get, put, put_all, get-put, IsRange}
use mathlib.Core.Path.{◌≡◌, refl, ap, ◌∙◌}
use mathlib.Core.Logic.{inl, inr}
use mathlib.Core.List.{List, [], ◌∷◌}
use mathlib.Core.Option.{Option, none, some}
use native.Mathlib.Omega.{arith}

abbrev pub or_else {ℓ} : {V : Type ℓ} → Option V → Option V → Option V
or_else (some v) rest = some v
or_else none rest = rest

module _ {K V : Type 0} ⦃e : Eq K⦄ where
  get-put_all_keep :
      (m : Assoc K V) (entries : List (K × V)) (k : K) (u : V)
      → get k m ≡ some u
      → ((v : V) → In (k, v) entries → v ≡ u)
      → get k (put_all m entries) ≡ some u
  unfolding put_all
  get-put_all_keep m [] k u h only = h
  get-put_all_keep m ((j, v) ∷ entries) k u h only =
      get-put_all_keep (put j v m) entries k u
        (elim (Bool-cases (e.same j k)) [
          | inl p ↦
              rw (get-put j k v m) (rw p (ap some (only v (inl (ground (arith, same-path j k p))))))
          | inr p ↦ rw (get-put j k v m) (rw p h)
        ])
        (λ w i. only w (inr i))

  get-put_all_found :
      (m : Assoc K V) (entries : List (K × V)) (k : K) (u : V)
      → In (k, u) entries
      → ((v : V) → In (k, v) entries → v ≡ u)
      → get k (put_all m entries) ≡ some u
  unfolding put_all
  get-put_all_found m [] k u i only = absurd i
  get-put_all_found m ((j, v) ∷ entries) k u (inl p) only =
      get-put_all_keep (put j v m) entries k u
        (rw (get-put j k v m) (ground (arith, p, same_refl j))) (λ w i. only w (inr i))
  get-put_all_found m ((j, v) ∷ entries) k u (inr i) only =
      get-put_all_found (put j v m) entries k u i (λ w q. only w (inr q))

  get-put_all_other :
      (m : Assoc K V) (entries : List (K × V)) (k : K)
      → ((v : V) → In (k, v) entries → ⊥)
      → get k (put_all m entries) ≡ get k m
  unfolding put_all
  get-put_all_other m [] k no_entry = refl
  get-put_all_other m ((j, v) ∷ entries) k no_entry =
      get-put_all_other (put j v m) entries k (λ w i. no_entry w (inr i))
      ∙ (elim (Bool-cases (e.same j k)) [
        | inl p ↦ absurd (no_entry v (inl (ground (arith, same-path j k p))))
        | inr p ↦ rw (get-put j k v m) (rw p)
      ])

  -- Copying a map over another gives its entries precedence, in whatever order they are met.
  pub get-put_all :
      (m n : Assoc K V) (entries : List (K × V)) (k : K)
      → IsRange n entries
      → get k (put_all m entries) ≡ or_else (get k n) (get k m)
  get-put_all m n entries k ranges = elim (Option-cases (get k n)) [
    | inl absent ↦
        rw absent (get-put_all_other m entries k (λ v i. ground (arith, ranges.sound k v i)))
    | inr (u, found) ↦ rw found (
        get-put_all_found m entries k u (ranges.complete k u found)
          (λ v i. ground (arith, ranges.sound k v i, found)))
  ]

  pub get-put_all_nil :
      (n : Assoc K V) (entries : List (K × V)) (k : K)
      → IsRange n entries
      → get k (put_all [] entries) ≡ get k n
  get-put_all_nil n entries k ranges = elim (Option-cases (get k n)) [
    | inl absent ↦ get-put_all [] n entries k ranges ∙ (rw absent (unfold get in refl))
    | inr (u, found) ↦ get-put_all [] n entries k ranges ∙ (rw found refl)
  ]
