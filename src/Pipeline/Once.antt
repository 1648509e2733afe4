-- ===== src/Pipeline/Once.antt =====
-- Each row is applied once: the cursors stand between the rows that were applied and those that were not.
use canebot_projector_repo.Base.{
  ℕ, ◌≤◌, ◌<◌, ◌≡◌, ◌≢◌, refl, sym, ap, subst, ◌∙◌, String, Bool, Option, none, some, List, [], ◌∷◌,
  ◌++◌, All, IsSorted, sort, insert_sorted, insert_sorted-All, sort-All, sort-IsSorted, arith, ltb,
  lt→ltb, ==_iff, ◌==◌, Bool-cases, inl, inr, if◌then◌else◌,
}
use canebot_projector_repo.Pipeline.Merge.{
  TimelineItem, comes_before, concat, safe_up_to, split, applied_id, merge,
}
use canebot_projector_repo.Pipeline.Cursors.{
  comes_before-asymmetric, comes_before-negation, InIdOrder, AreInIdOrder, All-in_front,
  split-append, sort-AreInIdOrder,
}
use canebot_projector_repo.Pipeline.Store.{Cursor, Store, cursor, set_cursor}
use canebot_projector_repo.Pipeline.Stored.{cursor-set_self}
use canebot_projector_repo.Pipeline.Tick.{save_cursor}

-- The relation holds of each item and those behind it.
abbrev pub Pairs {ℓ κ} : {A : Type ℓ} → (A → A → Type κ) → List A → Type κ
Pairs R [] = Unit
Pairs R (x ∷ xs) = All (R x) xs × Pairs R xs

module _ {ℓ κ} {A : Type ℓ} (R : A → A → Type κ) (R-sym : (a b : A) → R a b → R b a)
    (before : A → A → Bool) where
  insert_sorted-Pairs :
      (x : A) (ys : List A) → All (R x) ys → Pairs R ys → Pairs R (insert_sorted before x ys)
  insert_sorted-Pairs x [] h p = (tt, tt)
  insert_sorted-Pairs x (y ∷ ys) h p = elim (Bool-cases (before y x)) [
    | inl e ↦
        rw e (
          insert_sorted-All before (R y) x ys (R-sym x y h.0) p.0,
          insert_sorted-Pairs x ys h.1 p.1,
        )
    | inr e ↦ rw e (h, p)
  ]

  sort-Pairs : (xs : List A) → Pairs R xs → Pairs R (sort before xs)
  unfolding sort
  sort-Pairs [] p = tt
  sort-Pairs (x ∷ xs) p =
      insert_sorted-Pairs x (sort before xs) (sort-All before (R x) xs p.0) (sort-Pairs xs p.1)

-- No two rows of a table have the same id.
abbrev pub Differ : TimelineItem → TimelineItem → Type 0
Differ a b = a.kind ≡ b.kind → a.src_id ≢ b.src_id

-- Of two rows of a table, the first has the smaller id.
abbrev Rises : TimelineItem → TimelineItem → Type 0
Rises a b = a.kind ≡ b.kind → a.src_id < b.src_id

All-Rises :
    (a : TimelineItem) (xs : List TimelineItem)
    → All (λ b. a.kind ≡ b.kind → a.src_id ≤ b.src_id) xs
    → All (Differ a) xs
    → All (Rises a) xs
All-Rises a [] h d = tt
All-Rises a (x ∷ xs) h d = (λ k. ground (arith, h.0 k, d.0 k), All-Rises a xs h.1 d.1)

sorted-Rises :
    (xs : List TimelineItem)
    → IsSorted comes_before xs
    → Pairs InIdOrder xs
    → Pairs Differ xs
    → Pairs Rises xs
sorted-Rises [] s o d = tt
sorted-Rises (x ∷ xs) s o d =
    (All-Rises x xs (All-in_front x xs s.0 o.0) d.0, sorted-Rises xs s.1 o.1 d.1)

-- From all pairs, those in the order of the list.
module _ {ℓ κ} {A : Type ℓ} (R : A → A → Type κ) where
  All-tails :
      (x : A) (xs ys : List A) → All (λ a. All (R a) (x ∷ xs)) ys → All (λ a. All (R a) xs) ys
  All-tails x xs [] h = tt
  All-tails x xs (y ∷ ys) h = (h.0.1, All-tails x xs ys h.1)

  Pairs-All : (xs : List A) → All (λ a. All (R a) xs) xs → Pairs R xs
  Pairs-All [] h = tt
  Pairs-All (x ∷ xs) h = (h.0.1, Pairs-All xs (All-tails x xs xs h.1))

-- The cursor of table `k` behind the rows, where each that is of the table moves it.
abbrev follow : ℕ → ℕ → List TimelineItem → ℕ
follow k c [] = c
follow k c (x ∷ xs) = follow k (if x.kind == k then x.src_id else c) xs

-- The rows of table `k` have ids above `c`.
abbrev pub AreAbove : ℕ → ℕ → List TimelineItem → Type 0
AreAbove k c xs = All (λ x. x.kind ≡ k → c < x.src_id) xs

AreAbove-Rises :
    (k : ℕ) (x : TimelineItem) (xs : List TimelineItem)
    → x.kind ≡ k
    → All (Rises x) xs
    → AreAbove k x.src_id xs
AreAbove-Rises k x [] e h = tt
AreAbove-Rises k x (y ∷ ys) e h = (λ q. h.0 (e ∙ sym q), AreAbove-Rises k x ys e h.1)

-- The cursor stands behind the rows of the table among `xs`, and before those among `ys`.
abbrev IsBetween : ℕ → ℕ → ℕ → List TimelineItem → List TimelineItem → Type 0
IsBetween k c n xs ys =
    (c ≤ n) × All (λ x. x.kind ≡ k → (c < x.src_id) × (x.src_id ≤ n)) xs × AreAbove k n ys

IsBetween-earlier :
    (k c c' n : ℕ) (xs ys : List TimelineItem)
    → c ≤ c'
    → IsBetween k c' n xs ys
    → IsBetween k c n xs ys
IsBetween-earlier k c c' n xs ys le (l, below, above) = (omega (arith, l, le), go xs below, above)
  where
    go :
        (zs : List TimelineItem)
        → All (λ x. x.kind ≡ k → (c' < x.src_id) × (x.src_id ≤ n)) zs
        → All (λ x. x.kind ≡ k → (c < x.src_id) × (x.src_id ≤ n)) zs
    go [] h = tt
    go (z ∷ zs) h = (λ q. (omega (arith, le, (h.0 q).0), (h.0 q).1), go zs h.1)

follow-IsBetween :
    (k c : ℕ) (xs ys : List TimelineItem)
    → Pairs Rises (xs ++ ys)
    → AreAbove k c (xs ++ ys)
    → IsBetween k c (follow k c xs) xs ys
follow-IsBetween k c [] ys p h = (omega arith, tt, h)
follow-IsBetween k c (x ∷ xs) ys p h = elim (Bool-cases (x.kind == k)) [
  | inl e ↦
      let is_k = (==_iff x.kind k).0 e in
      let new : c < x.src_id = h.0 is_k in
      let n = follow k x.src_id xs in
      let step : n ≡ follow k c (x ∷ xs) =
        sym (ap (λ (b : Bool). follow k (if b then x.src_id else c) xs) e) in
      let rest = follow-IsBetween k x.src_id xs ys p.1 (AreAbove-Rises k x (xs ++ ys) is_k p.0) in
      let (le, below, above) = IsBetween-earlier k c x.src_id n xs ys (omega (arith, new)) rest in
      subst (λ n'. IsBetween k c n' (x ∷ xs) ys) step (le, ((λ q. (new, rest.0)), below), above)
  | inr e ↦
      let n = follow k c xs in
      let step : n ≡ follow k c (x ∷ xs) =
        sym (ap (λ (b : Bool). follow k (if b then x.src_id else c) xs) e) in
      let (le, below, above) = follow-IsBetween k c xs ys p.1 h.1 in
      subst (λ n'. IsBetween k c n' (x ∷ xs) ys) step
        (le, ((λ q. absurd (ground (arith, q, e))), below), above)
]

-- The value of `applied[table]`, or the cursor where there is none.
abbrev or_cursor : ℕ → Option ℕ → ℕ
or_cursor c none = c
or_cursor c (some id) = if ltb c id then id else c

applied_id-follow :
    (k c d : ℕ) (o : Option ℕ) (xs : List TimelineItem)
    → or_cursor c o ≡ d
    → c ≤ d
    → AreAbove k c xs
    → or_cursor c (applied_id k o xs) ≡ follow k d xs
unfolding applied_id
applied_id-follow k c d o [] e le h = e
applied_id-follow k c d o (x ∷ xs) e le h = elim (Bool-cases (x.kind == k)) [
  | inl q ↦
      let new : c < x.src_id = h.0 ((==_iff x.kind k).0 q) in
      rw q (
        applied_id-follow k c x.src_id (some x.src_id) xs (rw (lt→ltb _ _ new) refl)
          (omega (arith, new)) h.1)
  | inr q ↦ rw q (applied_id-follow k c d o xs e le h.1)
]

save_cursor-eq :
    (applied : List TimelineItem) (st : Store) (k : ℕ) (table : String)
    → (cursor (save_cursor applied st k table) table).last_src_id
      ≡ or_cursor (cursor st table).last_src_id (applied_id k none applied)
unfolding save_cursor
save_cursor-eq applied st k table = go (applied_id k none applied)
  where
    go :
        (o : Option ℕ)
        → let st' : Store = elim o [
          | none ↦ st
          | some id ↦ if ltb (cursor st table).last_src_id id then set_cursor st table id 0 else st
        ] in
          (cursor st' table).last_src_id ≡ or_cursor (cursor st table).last_src_id o
    go none = refl
    go (some id) = elim (Bool-cases (ltb (cursor st table).last_src_id id)) [
      | inl l ↦ rw l (ap {B = ℕ} (λ (c : Cursor). c.last_src_id) (cursor-set_self st table id 0))
      | inr l ↦ rw l refl
    ]

-- Where the rows of a table that are read lie behind its cursor, ids follow time, and no id is there
-- twice: the new cursor of the table stands between its rows that were applied and those that were
-- left. So none is applied twice, and none is skipped.
pub save_cursor-IsBetween :
    (batch_size : ℕ) (batches : List (List TimelineItem)) (st : Store) (k : ℕ) (table : String)
    → AreAbove k (cursor st table).last_src_id (concat batches)
    → AreInIdOrder (concat batches)
    → Pairs Differ (concat batches)
    → let (applied, left) = merge batch_size batches in
      let c = (cursor st table).last_src_id in
      let c' = (cursor (save_cursor applied st k table) table).last_src_id in
      (c ≤ c')
      × All (λ x. x.kind ≡ k → (c < x.src_id) × (x.src_id ≤ c')) applied
      × AreAbove k c' left
unfolding merge
save_cursor-IsBetween batch_size batches st k table above order differ =
    let items = concat batches in
    let safe = safe_up_to batch_size none batches in
    let sorted = sort comes_before items in
    let applied = (split safe sorted).0 in
    let left = (split safe sorted).1 in
    let c = (cursor st table).last_src_id in
    let whole = sym (split-append safe sorted) in
    let rising =
      sorted-Rises sorted
        (sort-IsSorted comes_before comes_before-asymmetric comes_before-negation items)
        (Pairs-All InIdOrder sorted (sort-AreInIdOrder items order))
        (sort-Pairs Differ (λ a b d k e. d (sym k) (sym e)) comes_before items differ) in
    let new = sort-All comes_before (λ x. x.kind ≡ k → c < x.src_id) items above in
    let between =
      follow-IsBetween k c applied left (subst (Pairs Rises) whole rising)
        (subst (AreAbove k c) whole new) in
    let e =
      save_cursor-eq applied st k table
      ∙ applied_id-follow k c c none applied refl (omega arith)
          (front applied left (subst (AreAbove k c) whole new)) in
    subst (λ n. IsBetween k c n applied left) (sym e) between
  where
    front :
        (xs ys : List TimelineItem)
        → AreAbove k (cursor st table).last_src_id (xs ++ ys)
        → AreAbove k (cursor st table).last_src_id xs
    front [] ys h = tt
    front (x ∷ xs) ys h = (h.0, front xs ys h.1)
