-- ===== src/Prelude/Sort.antt =====
-- Go's `sort` on slices, as insertion, and the order of texts.
use logic_operator.Prelude.Tests.{if◌then◌else◌, ltb, nat_eq}
use logic_operator.Prelude.Lists.{In}
use logic_operator.Prelude.Text.{codes}
use Prim.Native.Nat.{ℕ}
use Prim.Native.String.{String}
use mathlib.Core.Path.{◌≡◌}
use mathlib.Core.Logic.{◌⊎◌, ◌↔◌}
use mathlib.Core.Bool.{Bool, true, false, ◌||◌, ◌&&◌}
use mathlib.Core.List.{List, [], ◌∷◌}
use native.Mathlib.Omega.{arith}

-- The order of code points, which is that of the bytes of UTF-8
unfoldable pub codes_less : List ℕ → List ℕ → Bool
codes_less [] [] = false
codes_less [] (y ∷ ys) = true
codes_less (x ∷ xs) [] = false
codes_less (x ∷ xs) (y ∷ ys) = ltb x y || (nat_eq x y && codes_less xs ys)

-- `s < t` on strings
unfoldable pub text_less : String → String → Bool
unfolding codes_less
text_less s t = codes_less (codes s) (codes t)

module _ {A : Type 0} (less : A → A → Bool) where
  unfoldable pub insert : A → List A → List A
  insert a [] = a ∷ []
  insert a (x ∷ xs) = let rest = insert a xs in if less a x then a ∷ x ∷ xs else x ∷ rest

  -- `sort.Slice`
  unfoldable pub sort : List A → List A
  unfolding insert
  sort [] = []
  sort (x ∷ xs) = insert x (sort xs)

  In-insert : (a b : A) (xs : List A) → In b (insert a xs) ↔ ((b ≡ a) ⊎ In b xs)
  unfolding insert
  In-insert a b [] = ground arith
  In-insert a b (x ∷ xs) = ground (arith, In-insert a b xs)

  -- Sorting keeps the items.
  pub In-sort : (b : A) (xs : List A) → In b (sort xs) ↔ In b xs
  unfolding sort
  In-sort b [] = ground arith
  In-sort b (x ∷ xs) = ground (arith, In-insert x b (sort xs), In-sort b xs)
