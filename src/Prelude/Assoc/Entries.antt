-- ===== src/Prelude/Assoc/Entries.antt =====
-- One order in which a loop over a map may meet its entries: that of the list, each key once.
use logic_operator.Prelude.Tests.{Eq, Bool-cases, same-path, same_refl}
use logic_operator.Prelude.Lists.{In}
use logic_operator.Prelude.Assoc.{Assoc, get, remove, IsRange}
use mathlib.Core.Path.{◌≡◌}
use mathlib.Core.Logic.{inl, inr}
use mathlib.Core.Bool.{false}
use mathlib.Core.List.{List, [], ◌∷◌}
use native.Mathlib.Omega.{arith}

module _ {K V : Type 0} ⦃e : Eq K⦄ where
  unfoldable pub entries_of : Assoc K V → List (K × V)
  entries_of [] = []
  entries_of ((k, v) ∷ m) = let rest = entries_of m in (k, v) ∷ remove k rest

  In-remove :
      (k j : K) (v : V) (m : Assoc K V)
      → In (j, v) (remove k m)
      → In (j, v) m × (e.same k j ≡ false)
  unfolding remove
  In-remove k j v [] i = absurd i
  In-remove k j v ((h, w) ∷ m) i = elim (Bool-cases (e.same h k)) [
    | inl p ↦ let (found, other) = In-remove k j v m (rw p at i) in (inr found, other)
    | inr p ↦ elim (rw p at i) [
      | inl q ↦ (inl q, ground (arith, p, q, e.same_iff k j, e.same_iff h k))
      | inr q ↦ let (found, other) = In-remove k j v m q in (inr found, other)
    ]
  ]

  remove-In :
      (k j : K) (v : V) (m : Assoc K V) → In (j, v) m → e.same k j ≡ false → In (j, v) (remove k m)
  unfolding remove
  remove-In k j v [] i other = absurd i
  remove-In k j v ((h, w) ∷ m) (inl q) other =
      let differ : e.same h k ≡ false = ground (arith, q, other, e.same_iff k j, e.same_iff h k) in
      rw differ (inl q)
  remove-In k j v ((h, w) ∷ m) (inr i) other = elim (Bool-cases (e.same h k)) [
    | inl p ↦ rw p (remove-In k j v m i other)
    | inr p ↦ rw p (inr (remove-In k j v m i other))
  ]

  pub entries_of-IsRange : (m : Assoc K V) → IsRange m (entries_of m)
  unfolding get entries_of
  entries_of-IsRange [] = record { sound = λ k v i. absurd i; complete = λ k v h. cc }
  entries_of-IsRange ((j, w) ∷ m) =
      let rest = entries_of-IsRange m in
      record {
        sound = λ k v i. elim i [
          | inl q ↦ ground (arith, q, same_refl j)
          | inr r ↦
              let (found, other) = In-remove j k v (entries_of m) r in
              rw other (rest.sound k v found)
        ];
        complete = λ k v h. elim (Bool-cases (e.same j k)) [
          | inl p ↦ inl (ground (arith, p, h, same-path j k p))
          | inr p ↦ inr (remove-In j k v (entries_of m) (rest.complete k v (rw p at h)) p)
        ];
      }
