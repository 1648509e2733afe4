-- ===== src/Rollup/CleansResume.antt =====
-- The cursor of a pass over the CIP runs, and what the next pass finds behind it.
use canebot_projector_repo.Base.{
  ℕ, ◌≤◌, ◌≡◌, refl, sym, ap, subst, ◌∙◌, inl, inr, String, Bool, true, false, List, [], ◌∷◌, ◌++◌,
  filter, sort, insert_sorted, IsSorted, sort-IsSorted, All, arith, Bool-cases, if◌then◌else◌,
}
use canebot_projector_repo.Writer.Tables.{CipRun, SpanRow, Replica}
use canebot_projector_repo.Writer.Marks.{guard, set_watermark}
use canebot_projector_repo.Rollup.CipRuns.{
  is_new_clean, exits_before, cip_run, new_cleans, emit_runs, emit_cip_runs,
}
use canebot_projector_repo.Rollup.Cleans.{
  exit, exits_before-asymmetric, exits_before-negation, exits_before-le, new_clean-early,
  sorted_within, sort_split,
}

-- The cursor behind the spans.
abbrev pub last_exit : ℕ → List SpanRow → ℕ
last_exit high [] = high
last_exit high (s ∷ ss) = last_exit (exit s) ss

emit_runs-high :
    (r : Replica) (marks : List (String × ℕ)) (high : ℕ) (ss : List SpanRow)
    → (emit_runs r marks high ss).2 ≡ last_exit high ss
unfolding emit_runs
emit_runs-high r marks high [] = refl
emit_runs-high r marks high (s ∷ ss) =
    emit_runs-high r (set_watermark marks "cip_runs" (guard marks "cip_runs" (exit s))) (exit s) ss

-- The loop over two lists of spans is the loop over the second, where that over the first has ended.
emit_runs-append :
    (r : Replica) (marks : List (String × ℕ)) (high : ℕ) (ss us : List SpanRow)
    → let (runs, marks', high') = emit_runs r marks high ss in
      let (runs', marks'', high'') = emit_runs r marks' high' us in
      emit_runs r marks high (ss ++ us) ≡ (runs ++ runs', marks'', high'')
unfolding emit_runs
emit_runs-append r marks high [] us = refl
emit_runs-append r marks high (s ∷ ss) us =
    let ts = guard marks "cip_runs" (exit s) in
    ap (λ (e : List CipRun × List (String × ℕ) × ℕ). (cip_run r ts s ∷ e.0, e.1, e.2))
      (emit_runs-append r (set_watermark marks "cip_runs" ts) (exit s) ss us)

-- A run does not depend on the watermarks or the runs of the replica.
emit_runs-same :
    (r : Replica) (cips : List CipRun) (ms marks : List (String × ℕ)) (high : ℕ) (ss : List SpanRow)
    → emit_runs (record r { cip_runs = cips; marks = ms }) marks high ss ≡ emit_runs r marks high ss
unfolding emit_runs cip_run
emit_runs-same r cips ms marks high [] = refl
emit_runs-same r cips ms marks high (s ∷ ss) =
    let ts = guard marks "cip_runs" (exit s) in
    ap (λ (e : List CipRun × List (String × ℕ) × ℕ). (cip_run r ts s ∷ e.0, e.1, e.2))
      (emit_runs-same r cips ms (set_watermark marks "cip_runs" ts) (exit s) ss)

-- Of spans in order, none ends behind the cursor.
last_exit-ge :
    (high : ℕ) (ss : List SpanRow)
    → IsSorted exits_before ss
    → All (λ s. high ≤ exit s) ss
    → (high ≤ last_exit high ss) × All (λ s. exit s ≤ last_exit high ss) ss
last_exit-ge high [] o h = (omega arith, tt)
last_exit-ge high (s ∷ ss) o h =
    let (le, all) = last_exit-ge (exit s) ss o.1 (behind s ss o.0) in
    (omega (arith, le, h.0), (le, all))
  where
    behind :
        (s : SpanRow) (ss : List SpanRow)
        → All (λ y. exits_before y s ≡ false) ss
        → All (λ y. exit s ≤ exit y) ss
    behind s [] a = tt
    behind s (y ∷ ys) a = (exits_before-le s y a.0, behind s ys a.1)

last_exit-le :
    (at high : ℕ) (ss : List SpanRow)
    → high ≤ at
    → All (λ s. exit s ≤ at) ss
    → last_exit high ss ≤ at
last_exit-le at high [] h a = h
last_exit-le at high (s ∷ ss) h a = last_exit-le at (exit s) ss a.0 a.1

All-insert_sorted :
    (P : SpanRow → Type 0) (x : SpanRow) (ys : List SpanRow)
    → All P (insert_sorted exits_before x ys)
    → P x × All P ys
All-insert_sorted P x [] = λ h. (h.0, tt)
All-insert_sorted P x (y ∷ ys) = elim (Bool-cases (exits_before y x)) [
  | inl b ↦ simp b (λ h. let (a, c) = All-insert_sorted P x ys h.1 in (a, (h.0, c)))
  | inr b ↦ simp b (λ h. h)
]

All-sort : (P : SpanRow → Type 0) (xs : List SpanRow) → All P (sort exits_before xs) → All P xs
unfolding sort
All-sort P [] h = tt
All-sort P (x ∷ xs) h =
    let (a, b) = All-insert_sorted P x (sort exits_before xs) h in (a, All-sort P xs b)

new_clean-new : (last soon : ℕ) (s : SpanRow) → is_new_clean last soon s ≡ true → last ≤ exit s
unfolding is_new_clean
new_clean-new last soon s h = ground (arith, h)

-- A span that the first pass does not take is found by the next pass, if it is in its reach.
same_new :
    (last high soon late : ℕ) (s : SpanRow)
    → last ≤ high
    → high ≤ soon
    → (is_new_clean last soon s ≡ true → exit s ≤ high)
    → is_new_clean high late s ≡ is_new_clean soon late s
unfolding is_new_clean
same_new last high soon late s l m h = elim (Bool-cases (is_new_clean last soon s)) [
  | inl e ↦ let le = h e in ground (arith, le)
  | inr e ↦ ground (arith, e)
]

-- Where no span of the first pass ends behind `high`, the next pass finds what it would have found
-- behind the first pass's time.
find_behind :
    (last high soon late : ℕ) (xs : List SpanRow)
    → last ≤ high
    → high ≤ soon
    → All (λ s. exit s ≤ high) (filter (is_new_clean last soon) xs)
    → filter (is_new_clean high late) xs ≡ filter (is_new_clean soon late) xs
find_behind last high soon late [] l m h = refl
find_behind last high soon late (x ∷ xs) l m h =
    let same = same_new last high soon late x l m (head (is_new_clean last soon) x xs h) in
    let ih = find_behind last high soon late xs l m (tail (is_new_clean last soon) x xs h) in
    ap
      (λ (b : Bool).
        if b then x ∷ filter (is_new_clean high late) xs else filter (is_new_clean high late) xs)
      same
    ∙ ap (λ ys. if is_new_clean soon late x then x ∷ ys else ys) ih
  where
    head :
        (p : SpanRow → Bool) (x : SpanRow) (xs : List SpanRow)
        → All (λ s. exit s ≤ high) (filter p (x ∷ xs))
        → p x ≡ true
        → exit x ≤ high
    head p x xs h e =
        (subst (λ (b : Bool). All (λ s. exit s ≤ high) (if b then x ∷ filter p xs else filter p xs))
          e h).0

    tail :
        (p : SpanRow → Bool) (x : SpanRow) (xs : List SpanRow)
        → All (λ s. exit s ≤ high) (filter p (x ∷ xs))
        → All (λ s. exit s ≤ high) (filter p xs)
    tail p x xs = elim (Bool-cases (p x)) [ inl e ↦ rw e (λ h. h.1) | inr e ↦ rw e (λ h. h) ]

-- Two passes take the spans that one pass would have taken, in the same order.
new_cleans-resume :
    (r : Replica) (last soon late : ℕ)
    → last ≤ soon
    → soon ≤ late
    → let (runs, marks, high) = emit_cip_runs r last soon in
      new_cleans r last soon ++ new_cleans r high late ≡ new_cleans r last late
unfolding emit_cip_runs new_cleans
new_cleans-resume r last soon late h k =
    let xs = r.state_durations in
    let first = sort exits_before (filter (is_new_clean last soon) xs) in
    let ordered =
      sort-IsSorted exits_before exits_before-asymmetric exits_before-negation
        (filter (is_new_clean last soon) xs) in
    let early =
      sorted_within (λ s. exit s ≤ soon) (is_new_clean last soon) xs (new_clean-early last soon) in
    let new =
      sorted_within (λ s. last ≤ exit s) (is_new_clean last soon) xs (new_clean-new last soon) in
    let (ge, behind) = last_exit-ge last first ordered new in
    let found =
      find_behind last (last_exit last first) soon late xs ge (last_exit-le soon last first h early)
        (All-sort (λ s. exit s ≤ last_exit last first) (filter (is_new_clean last soon) xs)
          behind) in
    ap (λ n. first ++ sort exits_before (filter (is_new_clean n late) xs))
      (emit_runs-high r r.marks last first)
    ∙ ap (λ ys. first ++ sort exits_before ys) found
    ∙ sort_split last soon late xs h k

-- Two passes over the same rows, of which the second sees the timeline at a later time, and the runs
-- and watermarks of the first in the replica, emit together the runs that one pass at the later time
-- emits, in the same order, and leave its watermarks and its cursor.
pub emit_cip_runs-resume :
    (r : Replica) (last soon late : ℕ)
    → last ≤ soon
    → soon ≤ late
    → let (runs, marks, high) = emit_cip_runs r last soon in
      let after = record r { cip_runs = r.cip_runs ++ runs; marks = marks } in
      let (runs', marks', high') = emit_cip_runs after high late in
      emit_cip_runs r last late ≡ (runs ++ runs', marks', high')
unfolding emit_cip_runs
emit_cip_runs-resume r last soon late h k =
    let first = new_cleans r last soon in
    let (runs, marks, high) = emit_runs r r.marks last first in
    let rest = new_cleans r high late in
    sym (ap (emit_runs r r.marks last) (new_cleans-resume r last soon late h k))
    ∙ emit_runs-append r r.marks last first rest
    ∙ ap (λ (e : List CipRun × List (String × ℕ) × ℕ). (runs ++ e.0, e.1, e.2))
        (sym (emit_runs-same r (r.cip_runs ++ runs) marks marks high rest))
