-- ===== src/Writer/Inserting.antt =====
-- What the single statements of a flush do to the tables.
use canebot_projector_repo.Base.{
  ◌≡◌, refl, sym, ap, ◌∙◌, String, true, false, ◌||◌, some, List, [], ◌∷◌, ◌++◌, str_eq, eq_iff,
  All, All-snoc, IsIn, IsIn-later, eq_refl, arith, Bool-cases, inl, inr, map, if◌then◌else◌,
}
use mathlib.Core.List.{append-nil, append_assoc}
use canebot_projector_repo.Writer.Tables.{Cycle, FaultRow}
use canebot_projector_repo.Writer.Flush.{
  coalesce, upsert_cycle, has_cycle, insert_rows, has_fault, insert_faults,
}

-- No two cycles are of the same order.
abbrev pub IsUnique : List Cycle → Type 0
IsUnique [] = Unit
IsUnique (c ∷ cs) = (has_cycle cs c.order_id ≡ false) × IsUnique cs

-- No two rows are of the same fault.
abbrev pub AreUniqueFaults : List FaultRow → Type 0
AreUniqueFaults [] = Unit
AreUniqueFaults (f ∷ fs) = (has_fault f.fault.fault_key fs ≡ false) × AreUniqueFaults fs

pub has_cycle-upsert_cycle :
    (new : Cycle) (cs : List Cycle) (k : String)
    → has_cycle (upsert_cycle new cs) k ≡ (has_cycle cs k || str_eq new.order_id k)
unfolding has_cycle upsert_cycle
has_cycle-upsert_cycle new [] k = ground arith
has_cycle-upsert_cycle new (c ∷ cs) k = ground (
  arith,
  has_cycle-upsert_cycle new cs k,
  eq_iff c.order_id new.order_id,
  eq_iff c.order_id k,
  eq_iff new.order_id k,
)

pub upsert_cycle-IsUnique :
    (new : Cycle) (cs : List Cycle) → IsUnique cs → IsUnique (upsert_cycle new cs)
unfolding upsert_cycle has_cycle
upsert_cycle-IsUnique new [] u = (refl, tt)
upsert_cycle-IsUnique new (c ∷ cs) u = elim (Bool-cases (str_eq c.order_id new.order_id)) [
  | inl same ↦ simp same (u.0, u.1)
  | inr other ↦ simp other (
    ground (
      arith,
      has_cycle-upsert_cycle new cs c.order_id,
      eq_iff c.order_id new.order_id,
      eq_iff new.order_id c.order_id,
      u.0,
    ),
    upsert_cycle-IsUnique new cs u.1,
  )
]

-- Rows of a cycle that is there are appended.
pub insert_rows-append {ℓ} :
    {A : Type ℓ} (key : A → String) (cycles : List Cycle) (k : String) (table xs : List A)
    → has_cycle cycles k ≡ true
    → All (λ x. key x ≡ k) xs
    → insert_rows key cycles table xs ≡ some (table ++ xs)
unfolding insert_rows
insert_rows-append key cycles k table [] h a = ap some (sym (append-nil table))
insert_rows-append key cycles k table (x ∷ xs) h a =
    let there : has_cycle cycles (key x) ≡ true = ap (has_cycle cycles) a.0 ∙ h in
    simp there (
      insert_rows-append key cycles k (table ++ x ∷ []) xs h a.1
      ∙ ap some (append_assoc table (x ∷ []) xs))

has_fault-append :
    (k : String) (fs gs : List FaultRow)
    → has_fault k (fs ++ gs) ≡ (has_fault k fs || has_fault k gs)
unfolding has_fault
has_fault-append k [] gs = refl
has_fault-append k (f ∷ fs) gs = ground (arith, has_fault-append k fs gs)

snoc-AreUniqueFaults :
    (fs : List FaultRow) (f : FaultRow)
    → has_fault f.fault.fault_key fs ≡ false
    → AreUniqueFaults fs
    → AreUniqueFaults (fs ++ f ∷ [])
unfolding has_fault
snoc-AreUniqueFaults [] f h u = (refl, tt)
snoc-AreUniqueFaults (g ∷ fs) f h u = (
  ground (
    arith,
    has_fault-append g.fault.fault_key fs (f ∷ []),
    u.0,
    h,
    eq_iff f.fault.fault_key g.fault.fault_key,
    eq_iff g.fault.fault_key f.fault.fault_key,
  ),
  snoc-AreUniqueFaults fs f (ground (arith, h)) u.1,
)

-- The table behind the insertion of faults: behind the rows of before stand some of the new ones, and
-- each new one is there, by its key.
abbrev pub AreInserted : List FaultRow → List FaultRow → List FaultRow → Type 0
AreInserted table fs out =
    ((added : List FaultRow) × (out ≡ table ++ added) × All (λ f. IsIn f fs) added)
    × All (λ (f : FaultRow). has_fault f.fault.fault_key out ≡ true) fs

All-IsIn-later :
    (f : FaultRow) (fs added : List FaultRow)
    → All (λ g. IsIn g fs) added
    → All (λ g. IsIn g (f ∷ fs)) added
All-IsIn-later f fs [] h = tt
All-IsIn-later f fs (g ∷ gs) h = (IsIn-later g f fs h.0, All-IsIn-later f fs gs h.1)

-- A fault whose key is in the table is passed over.
known-AreInserted :
    (table fs out : List FaultRow) (f : FaultRow)
    → has_fault f.fault.fault_key table ≡ true
    → AreInserted table fs out
    → AreInserted table (f ∷ fs) out
known-AreInserted table fs out f h ((added, e, a), there) = (
  (added, e, All-IsIn-later f fs added a),
  (
    ap (has_fault f.fault.fault_key) e
        ∙ has_fault-append f.fault.fault_key table added
        ∙ ap (λ b. b || has_fault f.fault.fault_key added) h,
    there,
  ),
)

new-AreInserted :
    (table fs out : List FaultRow) (f : FaultRow)
    → AreInserted (table ++ f ∷ []) fs out
    → AreInserted table (f ∷ fs) out
unfolding has_fault
new-AreInserted table fs out f ((added, e, a), there) = (
  (f ∷ added, e ∙ append_assoc table (f ∷ []) added, (([], fs, refl), All-IsIn-later f fs added a)),
  (
    ap (has_fault f.fault.fault_key) (e ∙ append_assoc table (f ∷ []) added)
        ∙ has_fault-append f.fault.fault_key table (f ∷ added)
        ∙ ground (arith, eq_refl f.fault.fault_key),
    there,
  ),
)

-- Faults of a cycle that is there are inserted, where the table has none of the key yet.
pub insert_faults-some :
    (cycles : List Cycle) (k : String) (table fs : List FaultRow)
    → has_cycle cycles k ≡ true
    → All (λ (f : FaultRow). f.fault.order_key ≡ k) fs
    → All (λ (f : FaultRow). has_cycle cycles f.fault.order_key ≡ true) table
    → AreUniqueFaults table
    → (out : List FaultRow) × (insert_faults cycles table fs ≡ some out)
      × All (λ (f : FaultRow). has_cycle cycles f.fault.order_key ≡ true) out
      × AreUniqueFaults out
      × AreInserted table fs out
unfolding insert_faults
insert_faults-some cycles k table [] h a hold u =
    (table, refl, hold, u, (([], sym (append-nil table), tt), tt))
insert_faults-some cycles k table (f ∷ fs) h a hold u =
    elim (Bool-cases (has_fault f.fault.fault_key table)) [
      | inl known ↦
          let (out, e, refer, unique, there) = insert_faults-some cycles k table fs h a.1 hold u in
          simp known (out, e, refer, unique, known-AreInserted table fs out f known there)
      | inr new ↦
          let there : has_cycle cycles f.fault.order_key ≡ true = ap (has_cycle cycles) a.0 ∙ h in
          let (out, e, refer, unique, ins) =
            insert_faults-some cycles k (table ++ f ∷ []) fs h a.1 (All-snoc _ table f hold there)
              (snoc-AreUniqueFaults table f new u) in
          simp (new, there) (out, e, refer, unique, new-AreInserted table fs out f ins)
    ]

-- A cycle of a new order is put behind the others.
pub upsert_cycle-new :
    (new : Cycle) (cs : List Cycle)
    → has_cycle cs new.order_id ≡ false
    → upsert_cycle new cs ≡ cs ++ new ∷ []
unfolding upsert_cycle has_cycle
upsert_cycle-new new [] h = refl
upsert_cycle-new new (c ∷ cs) h =
    let other : str_eq c.order_id new.order_id ≡ false = ground (arith, h) in
    simp other (ap (λ ds. c ∷ ds) (upsert_cycle-new new cs (ground (arith, h))))

-- What the conflict clause makes of a cycle: one of the order gets the recipe and the count of glasses
-- where it has none, and the others stay.
abbrev pub refreshed : Cycle → Cycle → Cycle
refreshed new c =
    if str_eq c.order_id new.order_id
    then record c {
      recipe_id = coalesce c.recipe_id new.recipe_id;
      glass_count = coalesce c.glass_count new.glass_count;
    }
    else c

map-refreshed :
    (new : Cycle) (cs : List Cycle)
    → has_cycle cs new.order_id ≡ false
    → map (refreshed new) cs ≡ cs
unfolding has_cycle
map-refreshed new [] h = refl
map-refreshed new (c ∷ cs) h =
    let other : str_eq c.order_id new.order_id ≡ false = ground (arith, h) in
    simp other (ap (λ ds. c ∷ ds) (map-refreshed new cs (ground (arith, h))))

pub upsert_cycle-known :
    (new : Cycle) (cs : List Cycle)
    → IsUnique cs
    → has_cycle cs new.order_id ≡ true
    → upsert_cycle new cs ≡ map (refreshed new) cs
unfolding upsert_cycle has_cycle
upsert_cycle-known new [] u h = cc
upsert_cycle-known new (c ∷ cs) u h = elim (Bool-cases (str_eq c.order_id new.order_id)) [
  | inl e ↦
      let rest =
        map-refreshed new cs
          (ap (has_cycle cs) (sym ((eq_iff c.order_id new.order_id).0 e)) ∙ u.0) in
      let new_c = record c {
        recipe_id = coalesce c.recipe_id new.recipe_id;
        glass_count = coalesce c.glass_count new.glass_count;
      } in
      simp e (ap (λ ds. new_c ∷ ds) (sym rest))
  | inr e ↦ simp e (ap (λ ds. c ∷ ds) (upsert_cycle-known new cs u.1 (ground (arith, e, h))))
]
