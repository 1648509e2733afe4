-- ===== src/Tracker/Dominant.antt =====
-- What `dominantKey` of cmd/projector/tracker.go finds, and what it says of a closed interval.
use canebot_projector_repo.Base.{
  ℕ, ◌≤◌, ◌≡◌, refl, ◌∙◌, ap, ◌⊎◌, inl, inr, String, true, false, none, List, [], ◌∷◌, eq_iff, ltb,
  arith, Bool-cases, lookup, lookup_or, keys, sort_strings,
}
use canebot_projector_repo.Labels.{contains}
use canebot_projector_repo.Tracker.State.{Interval}
use canebot_projector_repo.Tracker.Close.{dominant_from, dominant_key}
use canebot_projector_repo.Tracker.Invariant.Defs.{IsClosed, count_type}
use canebot_projector_repo.Tracker.Invariant.Frames.{contains-sort}

-- The loop's result is counted at least as often as the best so far, and as any key it visits.
dominant_from-max :
    (counts : List (String × ℕ)) (ks : List String) (best : String) (best_n : ℕ) (k : String)
    → best_n ≤ lookup_or 0 best counts
    → (contains ks k ≡ true) ⊎ (lookup_or 0 k counts ≤ best_n)
    → lookup_or 0 k counts ≤ lookup_or 0 (dominant_from counts ks best best_n) counts
unfolding dominant_from contains
dominant_from-max counts [] best best_n k b h = ground arith
dominant_from-max counts (j ∷ ks) best best_n k b h =
    let n = lookup_or 0 j counts in
    elim (Bool-cases (ltb best_n n)) [
      | inl more ↦ rw more (
          dominant_from-max counts ks j n k (omega arith)
            (ground (arith, eq_iff j k, ap (λ x. lookup_or 0 x counts) {x = j} {y = k})))
      | inr less ↦
          rw less (dominant_from-max counts ks best best_n k b (ground (arith, eq_iff j k)))
    ]

-- A key that is not in the map counts nothing.
lookup_missing :
    (k : String) (counts : List (String × ℕ))
    → contains (keys counts) k ≡ false
    → lookup k counts ≡ none
unfolding contains lookup
lookup_missing k [] h = refl
lookup_missing k ((j, n) ∷ counts) h = ground (arith, lookup_missing k counts)

-- No key is counted more often than the dominant one.
pub dominant_key-max :
    (counts : List (String × ℕ)) (k : String)
    → lookup_or 0 k counts ≤ lookup_or 0 (dominant_key counts) counts
unfolding dominant_key sort_strings
dominant_key-max counts k =
    dominant_from-max counts (sort_strings (keys counts)) "" 0 k (omega arith)
      (elim (Bool-cases (contains (keys counts) k)) [
        | inl here ↦ inl (contains-sort k (keys counts) ∙ here)
        | inr missing ↦ inr (rw (lookup_missing k counts missing, lookup_or) (omega arith))
      ])

-- The dominant fault type of a closed interval is the type of most of its fault rows.
pub IsClosed-dominant :
    (severity : String → String) (iv : Interval)
    → IsClosed severity iv
    → (k : String) → count_type k iv.faults ≤ count_type iv.dominant_fault_type iv.faults
IsClosed-dominant severity iv c k =
    rw (← c.was_open.tallies k, ← c.was_open.tallies iv.dominant_fault_type, c.dominant)
      (dominant_key-max iv.fault_type_counts k)
