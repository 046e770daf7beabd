-- ===== src/Prelude/Assoc.antt =====
-- Go's `map[K]V`: an association list. A program that ranges over a map sees its entries in an
-- order that the language leaves open; such a loop takes the entries as an argument, `IsRange`.
pub mod Entries
pub mod PutAll
use mathlib.Core.Path.{◌≡◌, refl}
use mathlib.Core.List.{List, [], ◌∷◌}
use mathlib.Core.Option.{Option, none, some}
use native.Mathlib.Omega.{arith}
use logic_operator.Prelude.Tests.{if◌then◌else◌, Eq}
use logic_operator.Prelude.Lists.{In}

abbrev pub Assoc {ℓ κ} : Type ℓ → Type κ → Type (ℓ ⊔ κ)
Assoc K V = List (K × V)

module _ {ℓ κ} {K : Type ℓ} {V : Type κ} ⦃e : Eq K⦄ where
  -- `m[k]`, with the second result of the comma-ok form as the option
  unfoldable pub get : K → Assoc K V → Option V
  get k [] = none
  get k ((j, v) ∷ m) = if e.same j k then some v else get k m

  -- `m[k] = v`
  unfoldable pub put : K → V → Assoc K V → Assoc K V
  put k v [] = (k, v) ∷ []
  put k v ((j, w) ∷ m) = if e.same j k then (k, v) ∷ m else (j, w) ∷ put k v m

  -- `delete(m, k)`
  unfoldable pub remove : K → Assoc K V → Assoc K V
  remove k [] = []
  remove k ((j, w) ∷ m) = let rest = remove k m in if e.same j k then rest else (j, w) ∷ rest

  -- `for k, v := range entries { m[k] = v }`
  unfoldable pub put_all : Assoc K V → List (K × V) → Assoc K V
  put_all m [] = m
  put_all m ((k, v) ∷ entries) = put_all (put k v m) entries

  pub get-put :
      (k j : K) (v : V) (m : Assoc K V)
      → get j (put k v m) ≡ (if e.same k j then some v else get j m)
  unfolding get put
  get-put k j v [] = refl
  get-put k j v ((i, w) ∷ m) =
      ground (arith, e.same_iff k j, e.same_iff i k, e.same_iff i j, get-put k j v m)

  pub get-remove :
      (k j : K) (m : Assoc K V) → get j (remove k m) ≡ (if e.same k j then none else get j m)
  unfolding get remove
  get-remove k j [] = ground arith
  get-remove k j ((i, w) ∷ m) =
      ground (arith, e.same_iff k j, e.same_iff i k, e.same_iff i j, get-remove k j m)

module _ {K V : Type 0} ⦃e : Eq K⦄ where
  -- The entries that a loop over `m` may see, in any order.
  pub record IsRange (m : Assoc K V) (entries : List (K × V)) : Type 0 where
    pub sound : (k : K) (v : V) → In (k, v) entries → get k m ≡ some v
    pub complete : (k : K) (v : V) → get k m ≡ some v → In (k, v) entries
