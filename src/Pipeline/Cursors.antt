-- ===== src/Pipeline/Cursors.antt =====
-- The merge neither loses rows nor takes them out of order.
use canebot_projector_repo.Base.{
  ℕ, ◌≤◌, ◌<◌, ◌≡◌, refl, ap, true, false, Option, none, some, List, [], ◌∷◌, ◌++◌, Perm, All,
  IsSorted, sort, sort-perm, sort-All, sort-IsSorted, arith, Bool-cases, inl, inr,
}
use canebot_projector_repo.Pipeline.Merge.{
  TimelineItem, comes_before, concat, safe_up_to, is_beyond, split, merge,
}

pub comes_before-asymmetric :
    (a b : TimelineItem) → comes_before a b ≡ true → comes_before b a ≡ false
unfolding comes_before
comes_before-asymmetric a b h = ground arith

pub comes_before-negation :
    (a b c : TimelineItem)
    → comes_before a b ≡ false
    → comes_before b c ≡ false
    → comes_before a c ≡ false
unfolding comes_before
comes_before-negation a b c h k = ground arith

comes_before-at : (a b : TimelineItem) → comes_before b a ≡ false → a.at ≤ b.at
unfolding comes_before
comes_before-at a b h = ground arith

pub split-append :
    (safe : Option ℕ) (xs : List TimelineItem) → (split safe xs).0 ++ (split safe xs).1 ≡ xs
unfolding split
split-append safe [] = refl
split-append safe (x ∷ xs) = elim (Bool-cases (is_beyond safe x.at)) [
  | inl beyond ↦ simp beyond refl
  | inr within ↦ simp within (ap (λ ys. x ∷ ys) (split-append safe xs))
]

pub split-All {κ} :
    (P : TimelineItem → Type κ) (safe : Option ℕ) (xs : List TimelineItem)
    → All P xs
    → All P (split safe xs).0 × All P (split safe xs).1
unfolding split
split-All P safe [] h = (tt, tt)
split-All P safe (x ∷ xs) h = elim (Bool-cases (is_beyond safe x.at)) [
  | inl beyond ↦ simp beyond (tt, h)
  | inr within ↦ let (a, b) = split-All P safe xs h.1 in simp within ((h.0, a), b)
]

abbrev pub IsWithin : Option ℕ → TimelineItem → Type 0
IsWithin safe x = is_beyond safe x.at ≡ false

abbrev pub IsBeyond : Option ℕ → TimelineItem → Type 0
IsBeyond safe x = is_beyond safe x.at ≡ true

is_beyond-later :
    (safe : Option ℕ) (a b : ℕ) → a ≤ b → is_beyond safe a ≡ true → is_beyond safe b ≡ true
unfolding is_beyond
is_beyond-later none a b l h = h
is_beyond-later (some s) a b l h = ground arith

All-IsBeyond :
    (safe : Option ℕ) (x : TimelineItem) (xs : List TimelineItem)
    → is_beyond safe x.at ≡ true
    → All (λ y. comes_before y x ≡ false) xs
    → All (IsBeyond safe) xs
All-IsBeyond safe x [] h s = tt
All-IsBeyond safe x (y ∷ ys) h s =
    (is_beyond-later safe x.at y.at (comes_before-at x y s.0) h, All-IsBeyond safe x ys h s.1)

split-IsWithin :
    (safe : Option ℕ) (xs : List TimelineItem)
    → IsSorted comes_before xs
    → All (IsWithin safe) (split safe xs).0 × All (IsBeyond safe) (split safe xs).1
unfolding split
split-IsWithin safe [] s = (tt, tt)
split-IsWithin safe (x ∷ xs) s = elim (Bool-cases (is_beyond safe x.at)) [
  | inl beyond ↦ simp beyond (tt, (refl, All-IsBeyond safe x xs beyond s.0))
  | inr within ↦ let (a, b) = split-IsWithin safe xs s.1 in simp within ((refl, a), b)
]

-- The rows that are applied and those that are left are the rows of the batches, in the order of
-- time; applied are exactly those that are not beyond the bound.
pub merge_lem :
    (batch_size : ℕ) (batches : List (List TimelineItem))
    → let (applied, left) = merge batch_size batches in
      let safe = safe_up_to batch_size none batches in
      Perm (applied ++ left) (concat batches)
      × IsSorted comes_before (applied ++ left)
      × All (IsWithin safe) applied
      × All (IsBeyond safe) left
unfolding merge
merge_lem batch_size batches =
    let items = concat batches in
    let safe = safe_up_to batch_size none batches in
    let sorted = sort-IsSorted comes_before comes_before-asymmetric comes_before-negation items in
    let (within, beyond) = split-IsWithin safe (sort comes_before items) sorted in
    let e = split-append safe (sort comes_before items) in
    (rw e (sort-perm comes_before items), rw e sorted, within, beyond)

-- The rows of one table have ids in the order of time.
abbrev pub InIdOrder : TimelineItem → TimelineItem → Type 0
InIdOrder a b = a.kind ≡ b.kind → a.at < b.at → a.src_id ≤ b.src_id

abbrev pub AreInIdOrder : List TimelineItem → Type 0
AreInIdOrder items = All (λ a. All (InIdOrder a) items) items

pub in_front :
    (a b : TimelineItem)
    → comes_before b a ≡ false
    → InIdOrder a b
    → a.kind ≡ b.kind
    → a.src_id ≤ b.src_id
unfolding comes_before
in_front a b h o k = ground (arith, h, o k)

-- Where `a` comes in front of the rows, their ids are not below its own.
pub All-in_front :
    (a : TimelineItem) (xs : List TimelineItem)
    → All (λ b. comes_before b a ≡ false) xs
    → All (InIdOrder a) xs
    → All (λ b. a.kind ≡ b.kind → a.src_id ≤ b.src_id) xs
All-in_front a [] h o = tt
All-in_front a (b ∷ bs) h o = (λ k. in_front a b h.0 o.0 k, All-in_front a bs h.1 o.1)

split-ids :
    (safe : Option ℕ) (xs : List TimelineItem)
    → IsSorted comes_before xs
    → All (λ a. All (InIdOrder a) xs) xs
    → All
        (λ a. All (λ b. a.kind ≡ b.kind → a.src_id ≤ b.src_id) (split safe xs).1)
        (split safe xs).0
unfolding split
split-ids safe [] s o = tt
split-ids safe (x ∷ xs) s o = elim (Bool-cases (is_beyond safe x.at)) [
  | inl beyond ↦ simp beyond tt
  | inr within ↦
      let front = All-in_front x xs s.0 o.0.1 in
      simp within (
        (split-All (λ b. x.kind ≡ b.kind → x.src_id ≤ b.src_id) safe xs front).1,
        split-ids safe xs s.1 (tails x xs xs o.1),
      )
]
  where
    tails :
        (x : TimelineItem) (xs ys : List TimelineItem)
        → All (λ a. All (InIdOrder a) (x ∷ xs)) ys
        → All (λ a. All (InIdOrder a) xs) ys
    tails x xs [] h = tt
    tails x xs (y ∷ ys) h = (h.0.1, tails x xs ys h.1)

pub sort-AreInIdOrder :
    (xs : List TimelineItem) → AreInIdOrder xs → AreInIdOrder (sort comes_before xs)
sort-AreInIdOrder xs h =
    sort-All comes_before (λ a. All (InIdOrder a) (sort comes_before xs)) xs (inner xs xs h)
  where
    inner :
        (xs ys : List TimelineItem)
        → All (λ a. All (InIdOrder a) xs) ys
        → All (λ a. All (InIdOrder a) (sort comes_before xs)) ys
    inner xs [] h = tt
    inner xs (y ∷ ys) h = (sort-All comes_before (InIdOrder y) xs h.0, inner xs ys h.1)

-- Where ids follow time in each table, a row that is left has no smaller id than any row of its table
-- that is applied: the cursor, which is the id of an applied row, skips none of them.
pub merge-ids :
    (batch_size : ℕ) (batches : List (List TimelineItem))
    → AreInIdOrder (concat batches)
    → let (applied, left) = merge batch_size batches in
      All (λ a. All (λ b. a.kind ≡ b.kind → a.src_id ≤ b.src_id) left) applied
unfolding merge
merge-ids batch_size batches h =
    let items = concat batches in
    split-ids (safe_up_to batch_size none batches) (sort comes_before items)
      (sort-IsSorted comes_before comes_before-asymmetric comes_before-negation items)
      (sort-AreInIdOrder items h)
