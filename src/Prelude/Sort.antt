-- ===== src/Prelude/Sort.antt =====
-- ORDER BY, as insertion sort: `le` says that a row may stand before another.
use mathlib.Core.Bool.{Bool}
use mathlib.Core.List.{List, [], ◌∷◌}
use autonomous_ai_software_e.Prelude.Tests.{if◌then◌else◌}

module _ {ℓ} {R : Type ℓ} (le : R → R → Bool) where
  unfoldable pub insert_by : R → List R → List R
  insert_by r [] = r ∷ []
  insert_by r (q ∷ rs) = let rest = insert_by r rs in if le r q then r ∷ q ∷ rs else q ∷ rest

  unfoldable pub sort_by : List R → List R
  unfolding insert_by
  sort_by [] = []
  sort_by (r ∷ rs) = insert_by r (sort_by rs)
