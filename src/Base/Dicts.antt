-- ===== src/Base/Dicts.antt =====
-- Go maps from texts, as association lists with one entry for each key.
use Prim.Native.String.{String, compare}
use Prim.Native.Nat.{Ordering}
use text.Mathlib.Text.{◌==◌ as str_eq}
use text.Mathlib.TextEquality.{eq_iff}
use mathlib.Core.Path.{◌≡◌, refl}
use mathlib.Core.Bool.{Bool, true, false}
use mathlib.Core.Option.{Option, none, some}
use mathlib.Core.List.{List, [], ◌∷◌}
use native.Mathlib.Omega.{arith}
use canebot_projector_repo.Base.Tests.{if◌then◌else◌}
use canebot_projector_repo.Base.Lists.{All, sort}

-- `s < t` of two texts: bytewise.
abbrev pub str_lt : String → String → Bool
str_lt s t = elim (compare s t) [ Ordering.lt ↦ true | _ ↦ false ]

-- `sort.Strings`.
unfoldable pub sort_strings : List String → List String
unfolding sort
sort_strings = sort str_lt

module _ {ℓ} {V : Type ℓ} where
  unfoldable pub lookup : (key : String) (dict : List (String × V)) → Option V
  lookup key [] = none
  lookup key ((name, value) ∷ rest) = if str_eq name key then some value else lookup key rest

  unfoldable pub insert : (key : String) (value : V) (dict : List (String × V)) → List (String × V)
  insert key value [] = (key, value) ∷ []
  insert key value ((name, old) ∷ rest) =
      if str_eq name key then (key, value) ∷ rest else (name, old) ∷ insert key value rest

  unfoldable pub delete : (key : String) (dict : List (String × V)) → List (String × V)
  delete key [] = []
  delete key ((name, old) ∷ rest) =
      if str_eq name key then delete key rest else (name, old) ∷ delete key rest

  abbrev pub keys : List (String × V) → List String
  keys [] = []
  keys ((name, value) ∷ rest) = name ∷ keys rest

  -- `m[key]`, with the zero value where there is no such key.
  abbrev pub lookup_or : V → String → List (String × V) → V
  lookup_or zero_value key dict = elim (lookup key dict) [ none ↦ zero_value | some value ↦ value ]

  pub lookup-insert :
      (key other : String) (value : V) (dict : List (String × V))
      → lookup other (insert key value dict)
        ≡ (if str_eq key other then some value else lookup other dict)
  unfolding lookup insert
  lookup-insert key other value [] = refl
  lookup-insert key other value ((name, old) ∷ rest) = ground (
    arith,
    lookup-insert key other value rest,
    eq_iff name key,
    eq_iff name other,
    eq_iff key other,
  )

  pub lookup-delete :
      (key other : String) (dict : List (String × V))
      → lookup other (delete key dict) ≡ (if str_eq key other then none else lookup other dict)
  unfolding lookup delete
  lookup-delete key other [] = ground arith
  lookup-delete key other ((name, old) ∷ rest) =
      ground
        (arith, lookup-delete key other rest, eq_iff name key, eq_iff name other, eq_iff key other)

-- A set of texts, as its members.
unfoldable pub add : String → List String → List String
add k [] = k ∷ []
add k (j ∷ s) = if str_eq j k then j ∷ s else j ∷ add k s

-- A property of the values that are stored.
module _ {ℓ κ} {V : Type ℓ} (P : V → Type κ) where
  abbrev pub AllValues : List (String × V) → Type κ
  AllValues = All (λ e. P e.1)

  pub insert-AllValues :
      (k : String) (v : V) (m : List (String × V)) → P v → AllValues m → AllValues (insert k v m)
  unfolding insert
  insert-AllValues k v [] h hm = (h, tt)
  insert-AllValues k v ((j, w) ∷ m) h hm = ground (arith, insert-AllValues k v m h hm.1)

  pub delete-AllValues : (k : String) (m : List (String × V)) → AllValues m → AllValues (delete k m)
  unfolding delete
  delete-AllValues k [] hm = tt
  delete-AllValues k ((j, w) ∷ m) hm = ground (arith, delete-AllValues k m hm.1)

  pub lookup-AllValues :
      (k : String) (m : List (String × V)) (v : V) → AllValues m → lookup k m ≡ some v → P v
  unfolding lookup
  lookup-AllValues k [] v hm e = cc
  lookup-AllValues k ((j, w) ∷ m) v hm e = ground (arith, lookup-AllValues k m v hm.1)
