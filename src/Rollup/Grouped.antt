-- ===== src/Rollup/Grouped.antt =====
-- Each row is in one group: the sums over the groups are the sum over the rows.
use canebot_projector_repo.Base.{
  ℕ, ◌+◌, ◌*◌, ◌≤◌, ◌≡◌, refl, ap, ◌∙◌, ◌↔◌, Bool, true, List, [], ◌∷◌, length, sort, insert_sorted,
  All, sym, map, sort-All, IsIn, IsIn-later, arith, Bool-cases, inl, inr, if◌then◌else◌, ◌==◌,
}
use canebot_projector_repo.Rollup.Grouping.{sum_of, add_group, groups, group_of}

module _ {ℓ} {A : Type ℓ} where
  sum_of-insert_sorted :
      (before : A → A → Bool) (f : A → ℕ) (x : A) (ys : List A)
      → sum_of f (insert_sorted before x ys) ≡ f x + sum_of f ys
  unfolding sum_of
  sum_of-insert_sorted before f x [] = refl
  sum_of-insert_sorted before f x (y ∷ ys) = elim (Bool-cases (before y x)) [
    | inl e ↦ rw e (omega (arith, sum_of-insert_sorted before f x ys))
    | inr e ↦ rw e refl
  ]

  -- The order does not matter to a sum.
  pub sum_of-sort :
      (before : A → A → Bool) (f : A → ℕ) (xs : List A) → sum_of f (sort before xs) ≡ sum_of f xs
  unfolding sort sum_of
  sum_of-sort before f [] = refl
  sum_of-sort before f (x ∷ xs) =
      sum_of-insert_sorted before f x (sort before xs)
      ∙ ap {B = ℕ} (λ n. f x + n) (sum_of-sort before f xs)

  pub sum_of-one : (xs : List A) → sum_of (λ x. 1) xs ≡ length xs
  unfolding sum_of
  sum_of-one [] = refl
  sum_of-one (x ∷ xs) = omega (arith, sum_of-one xs)

-- How often the key is there.
abbrev pub occurs {κ} : {K : Type κ} → (K → K → Bool) → K → List K → ℕ
occurs same k = sum_of (λ j. if same k j then 1 else 0)

module _ {ℓ κ} {A : Type ℓ} {K : Type κ} (same : K → K → Bool) (key : A → K)
    (same_iff : (j k : K) → (same j k ≡ true) ↔ (j ≡ k)) where
  occurs-add_group :
      (k j : K) (ks : List K)
      → occurs same k (add_group same key j ks) ≡ (
          if same k j
          then (if occurs same k ks == 0 then 1 else occurs same k ks)
          else occurs same k ks)
  unfolding sum_of add_group
  occurs-add_group k j [] = ground arith
  occurs-add_group k j (i ∷ ks) =
      ground (arith, occurs-add_group k j ks, same_iff k j, same_iff k i, same_iff i j)

  pub occurs-groups : (k : K) (xs : List A) → occurs same k (groups same key xs) ≤ 1
  unfolding groups sum_of
  occurs-groups k [] = omega arith
  occurs-groups k (x ∷ xs) =
      ground (arith, occurs-add_group k (key x) (groups same key xs), occurs-groups k xs)

  -- The key of each row is there.
  occurs-later :
      (j : K) (ks : List K) (ys : List A)
      → All (λ y. 1 ≤ occurs same (key y) ks) ys
      → All (λ y. 1 ≤ occurs same (key y) (add_group same key j ks)) ys
  occurs-later j ks [] h = tt
  occurs-later j ks (y ∷ ys) h =
      (ground (arith, occurs-add_group (key y) j ks, h.0), occurs-later j ks ys h.1)

  occurs-All : (xs : List A) → All (λ x. 1 ≤ occurs same (key x) (groups same key xs)) xs
  unfolding groups
  occurs-All [] = tt
  occurs-All (x ∷ xs) = (
    ground (arith, occurs-add_group (key x) (key x) (groups same key xs), same_iff (key x) (key x)),
    occurs-later (key x) (groups same key xs) xs (occurs-All xs),
  )

  -- What a row adds to the groups' sums.
  sum_of-cons :
      (w : A → ℕ) (x : A) (xs : List A) (ks : List K)
      → sum_of (λ k. sum_of w (group_of same key k (x ∷ xs))) ks
        ≡ w x * occurs same (key x) ks + sum_of (λ k. sum_of w (group_of same key k xs)) ks
  unfolding sum_of group_of
  sum_of-cons w x xs [] = omega arith
  sum_of-cons w x xs (k ∷ ks) = elim (Bool-cases (same (key x) k)) [
    | inl e ↦ rw e (grind (arith, sum_of-cons w x xs ks))
    | inr e ↦ rw e (grind (arith, sum_of-cons w x xs ks))
  ]

  sum_of-nil : (w : A → ℕ) (ks : List K) → sum_of (λ k. sum_of w (group_of same key k [])) ks ≡ 0
  unfolding sum_of group_of
  sum_of-nil w [] = refl
  sum_of-nil w (k ∷ ks) = omega (arith, sum_of-nil w ks)

  sum_of-All :
      (w : A → ℕ) (ks : List K) (xs : List A)
      → All (λ x. 1 ≤ occurs same (key x) ks) xs
      → ((k : K) → occurs same k ks ≤ 1)
      → sum_of (λ k. sum_of w (group_of same key k xs)) ks ≡ sum_of w xs
  unfolding sum_of
  sum_of-All w ks [] h le = sum_of-nil w ks
  sum_of-All w ks (x ∷ xs) h le =
      let once : occurs same (key x) ks ≡ 1 = omega (arith, h.0, le (key x)) in
      sum_of-cons w x xs ks
      ∙ ap {B = ℕ} (λ n. w x * n + sum_of (λ k. sum_of w (group_of same key k xs)) ks) once
      ∙ omega (arith, sum_of-All w ks xs h.1 le)

  pub sum_of-groups :
      (w : A → ℕ) (before : K → K → Bool) (xs : List A)
      → sum_of (λ k. sum_of w (group_of same key k xs)) (sort before (groups same key xs))
        ≡ sum_of w xs
  sum_of-groups w before xs =
      sum_of-sort before _ (groups same key xs)
      ∙ sum_of-All w (groups same key xs) xs (occurs-All xs) (λ k. occurs-groups k xs)

  -- A group that is there has a row.
  abbrev HasRow : List A → K → Type 0
  HasRow xs k = 1 ≤ length (group_of same key k xs)

  HasRow-later : (x : A) (xs : List A) (ks : List K) → All (HasRow xs) ks → All (HasRow (x ∷ xs)) ks
  unfolding group_of
  HasRow-later x xs [] h = tt
  HasRow-later x xs (k ∷ ks) h = (ground (arith, h.0), HasRow-later x xs ks h.1)

  add_group-All {μ} :
      (P : K → Type μ) (k : K) (ks : List K) → P k → All P ks → All P (add_group same key k ks)
  unfolding add_group
  add_group-All P k [] p h = (p, tt)
  add_group-All P k (j ∷ ks) p h = elim (Bool-cases (same j k)) [
    | inl e ↦ rw e h
    | inr e ↦ rw e (h.0, add_group-All P k ks p h.1)
  ]

  HasRow-own : (x : A) (xs : List A) → HasRow (x ∷ xs) (key x)
  unfolding group_of
  HasRow-own x xs = ground (arith, same_iff (key x) (key x))

  groups-All : (xs : List A) → All (HasRow xs) (groups same key xs)
  unfolding groups
  groups-All [] = tt
  groups-All (x ∷ xs) =
      add_group-All (HasRow (x ∷ xs)) (key x) (groups same key xs) (HasRow-own x xs)
        (HasRow-later x xs (groups same key xs) (groups-All xs))

  pub sort-groups-All :
      (before : K → K → Bool) (xs : List A)
      → All (λ k. 1 ≤ length (group_of same key k xs)) (sort before (groups same key xs))
  sort-groups-All before xs = sort-All before (HasRow xs) (groups same key xs) (groups-All xs)

  occurs-IsIn :
      {B : Type 0} (row : K → B) (k : K) (ks : List K)
      → 1 ≤ occurs same k ks
      → IsIn (row k) (map row ks)
  unfolding sum_of
  occurs-IsIn row k [] h = absurd (omega (arith, h))
  occurs-IsIn row k (j ∷ ks) h = elim (Bool-cases (same k j)) [
    | inl e ↦ ([], map row ks, ap (λ i. row i ∷ map row ks) (sym ((same_iff k j).0 e)))
    | inr e ↦ IsIn-later (row k) (row j) (map row ks) (occurs-IsIn row k ks (ground (arith, e, h)))
  ]

  -- Each row's group has its row among those that are made of the groups.
  pub sort-groups-IsIn :
      {B : Type 0} (row : K → B) (before : K → K → Bool) (xs : List A)
      → All (λ x. IsIn (row (key x)) (map row (sort before (groups same key xs)))) xs
  sort-groups-IsIn row before xs = go xs (occurs-All xs)
    where
      go :
          (ys : List A)
          → All (λ y. 1 ≤ occurs same (key y) (groups same key xs)) ys
          → All (λ y. IsIn (row (key y)) (map row (sort before (groups same key xs)))) ys
      go [] h = tt
      go (y ∷ ys) h = (
        occurs-IsIn row (key y) (sort before (groups same key xs)) (
            omega (
              arith,
              h.0,
              sum_of-sort before (λ j. if same (key y) j then 1 else 0) (groups same key xs),
            )),
        go ys h.1,
      )

  -- The group of an item has a row.
  pub items-All : (xs : List A) → All (λ x. 1 ≤ length (group_of same key (key x) xs)) xs
  items-All [] = tt
  items-All (x ∷ xs) = (HasRow-own x xs, later x xs xs (items-All xs))
    where
      later :
          (x : A) (xs ys : List A)
          → All (λ y. HasRow xs (key y)) ys
          → All (λ y. HasRow (x ∷ xs) (key y)) ys
      later x xs [] h = tt
      later x xs (y ∷ ys) h = ((HasRow-later x xs (key y ∷ []) (h.0, tt)).0, later x xs ys h.1)
