-- ===== src/Rollup/Grouping.antt =====
-- `GROUP BY`, `SUM` and `MAX` of the queries of cmd/projector/rollup.go.
use canebot_projector_repo.Base.{ℕ, ◌+◌, Bool, List, [], ◌∷◌, filter, ltb, if◌then◌else◌}

-- `SUM`
unfoldable pub sum_of {ℓ} : {A : Type ℓ} → (A → ℕ) → List A → ℕ
sum_of f [] = 0
sum_of f (x ∷ xs) = f x + sum_of f xs

-- `MAX`, or 0 of no rows.
unfoldable pub max_of {ℓ} : {A : Type ℓ} → (A → ℕ) → List A → ℕ
max_of f [] = 0
max_of f (x ∷ xs) = let rest = max_of f xs in if ltb rest (f x) then f x else rest

module _ {ℓ κ} {A : Type ℓ} {K : Type κ} (same : K → K → Bool) (key : A → K) where
  unfoldable pub add_group : K → List K → List K
  add_group k [] = k ∷ []
  add_group k (j ∷ ks) = if same j k then j ∷ ks else j ∷ add_group k ks

  -- The groups' keys, each once.
  unfoldable pub groups : List A → List K
  unfolding add_group
  groups [] = []
  groups (x ∷ xs) = add_group (key x) (groups xs)

  -- The rows of a group.
  unfoldable pub group_of : K → List A → List A
  group_of k = filter (λ x. same (key x) k)
