-- ===== src/Base/Sorting.antt =====
-- The stable sort: it permutes, and it sorts by every strict order whose negation is transitive.
use mathlib.Core.Path.{◌≡◌}
use mathlib.Core.Bool.{Bool, true, false}
use mathlib.Core.List.{List, [], ◌∷◌, Perm}
use mathlib.Core.List.Perm
use mathlib.Core.Logic.{inl, inr}
use canebot_projector_repo.Base.Tests.{Bool-cases}
use canebot_projector_repo.Base.Lists.{All, insert_sorted, sort}

module _ {ℓ} {A : Type ℓ} (before : A → A → Bool) where
  insert_sorted-perm : (x : A) (ys : List A) → Perm (insert_sorted before x ys) (x ∷ ys)
  insert_sorted-perm x [] = Perm.refl _
  insert_sorted-perm x (y ∷ ys) = elim (Bool-cases (before y x)) [
    | inl e ↦ rw e (Perm.trans (Perm.cons y (insert_sorted-perm x ys)) (Perm.swap x y ys))
    | inr e ↦ rw e (Perm.refl _)
  ]

  pub sort-perm : (xs : List A) → Perm (sort before xs) xs
  unfolding sort
  sort-perm [] = Perm.refl _
  sort-perm (x ∷ xs) =
      Perm.trans (insert_sorted-perm x (sort before xs)) (Perm.cons x (sort-perm xs))

  -- No item comes before one that stands in front of it.
  abbrev pub IsSorted : List A → Type ℓ
  IsSorted [] = Unit
  IsSorted (x ∷ xs) = All (λ y. before y x ≡ false) xs × IsSorted xs

  pub insert_sorted-All {κ} :
      (P : A → Type κ) (x : A) (ys : List A) → P x → All P ys → All P (insert_sorted before x ys)
  insert_sorted-All P x [] h hs = (h, tt)
  insert_sorted-All P x (y ∷ ys) h hs = elim (Bool-cases (before y x)) [
    | inl e ↦ rw e (hs.0, insert_sorted-All P x ys h hs.1)
    | inr e ↦ rw e (h, hs)
  ]

  pub sort-All {κ} : (P : A → Type κ) (xs : List A) → All P xs → All P (sort before xs)
  unfolding sort
  sort-All P [] hs = tt
  sort-All P (x ∷ xs) hs = insert_sorted-All P x (sort before xs) hs.0 (sort-All P xs hs.1)

  module _ (asymmetric : (x y : A) → before x y ≡ true → before y x ≡ false)
      (negation_trans : (x y z : A)
        → before x y ≡ false
        → before y z ≡ false
        → before x z ≡ false) where
    All-below :
        (x y : A) (zs : List A)
        → before y x ≡ false
        → All (λ z. before z y ≡ false) zs
        → All (λ z. before z x ≡ false) zs
    All-below x y [] h hs = tt
    All-below x y (z ∷ zs) h hs = (negation_trans z y x hs.0 h, All-below x y zs h hs.1)

    insert_sorted-IsSorted :
        (x : A) (ys : List A) → IsSorted ys → IsSorted (insert_sorted before x ys)
    insert_sorted-IsSorted x [] s = (tt, tt)
    insert_sorted-IsSorted x (y ∷ ys) s = elim (Bool-cases (before y x)) [
      | inl e ↦ rw e (
        insert_sorted-All (λ z. before z y ≡ false) x ys (asymmetric y x e) s.0,
        insert_sorted-IsSorted x ys s.1,
      )
      | inr e ↦ rw e ((e, All-below x y ys e s.0), s)
    ]

    pub sort-IsSorted : (xs : List A) → IsSorted (sort before xs)
    unfolding sort
    sort-IsSorted [] = tt
    sort-IsSorted (x ∷ xs) = insert_sorted-IsSorted x (sort before xs) (sort-IsSorted xs)
