-- ===== src/Rollup/Cleans.antt =====
-- The CIP runs of two passes are those of one.
use canebot_projector_repo.Base.{
  ℕ, ◌≤◌, ◌<◌, ◌≡◌, refl, sym, ap, ◌∙◌, ◌⊎◌, inl, inr, Bool, true, false, List, [], ◌∷◌, ◌++◌,
  filter, sort, insert_sorted, sort-All, All, str_eq, ltb, leb, arith, Bool-cases,
}
use canebot_projector_repo.Writer.Tables.{SpanRow}
use canebot_projector_repo.Rollup.CipRuns.{is_new_clean, exits_before}

abbrev pub exit : SpanRow → ℕ
exit s = s.span.exited_at_ms

pub exits_before-asymmetric : (a b : SpanRow) → exits_before a b ≡ true → exits_before b a ≡ false
unfolding exits_before
exits_before-asymmetric a b h = ground arith

pub exits_before-negation :
    (a b c : SpanRow)
    → exits_before a b ≡ false
    → exits_before b c ≡ false
    → exits_before a c ≡ false
unfolding exits_before
exits_before-negation a b c h k = ground arith

pub exits_before-le : (a b : SpanRow) → exits_before b a ≡ false → exit a ≤ exit b
unfolding exits_before
exits_before-le a b h = ground arith

insert_sorted-first :
    (at : ℕ) (x : SpanRow) (ys zs : List SpanRow)
    → exit x ≤ at
    → All (λ z. at < exit z) zs
    → insert_sorted exits_before x (ys ++ zs) ≡ insert_sorted exits_before x ys ++ zs
unfolding exits_before
insert_sorted-first at x [] [] h k = refl
insert_sorted-first at x [] (z ∷ zs) h k =
    let b : ltb (exit z) (exit x) ≡ false = ground (arith, h, k.0) in simp b refl
insert_sorted-first at x (y ∷ ys) zs h k = elim (Bool-cases (ltb (exit y) (exit x))) [
  | inl b ↦ simp b (ap (λ l. y ∷ l) (insert_sorted-first at x ys zs h k))
  | inr b ↦ simp b refl
]

insert_sorted-second :
    (at : ℕ) (x : SpanRow) (ys zs : List SpanRow)
    → at < exit x
    → All (λ y. exit y ≤ at) ys
    → insert_sorted exits_before x (ys ++ zs) ≡ ys ++ insert_sorted exits_before x zs
unfolding exits_before
insert_sorted-second at x [] zs h k = refl
insert_sorted-second at x (y ∷ ys) zs h k =
    let b : ltb (exit y) (exit x) ≡ true = ground (arith, h, k.0) in
    simp b (ap (λ l. y ∷ l) (insert_sorted-second at x ys zs h k.1))

-- A span belongs to the first period, to the second, or to neither.
is_new_clean_split :
    (last soon late : ℕ) (s : SpanRow)
    → last ≤ soon
    → soon ≤ late
    → ((is_new_clean last soon s ≡ true)
        × (is_new_clean soon late s ≡ false)
        × (is_new_clean last late s ≡ true)
        × (exit s ≤ soon))
      ⊎ (((is_new_clean last soon s ≡ false)
            × (is_new_clean soon late s ≡ true)
            × (is_new_clean last late s ≡ true)
            × (soon < exit s))
          ⊎ ((is_new_clean last soon s ≡ false)
              × (is_new_clean soon late s ≡ false)
              × (is_new_clean last late s ≡ false)))
unfolding is_new_clean
is_new_clean_split last soon late s h k = elim (Bool-cases (str_eq s.span.state "Maintenance")) [
  | inr p ↦ inr (inr (ground (arith, p), ground (arith, p), ground (arith, p)))
  | inl p ↦ elim (Bool-cases (leb (exit s) soon)) [
    | inl early ↦ elim (Bool-cases (ltb last (exit s))) [
      | inl new ↦ inl (
        ground (arith, p, early, new),
        ground (arith, p, early),
        ground (arith, p, early, new, k),
        ground (arith, early),
      )
      | inr old ↦
          inr (inr (ground (arith, p, old), ground (arith, p, early), ground (arith, p, old)))
    ]
    | inr far ↦ elim (Bool-cases (leb (exit s) late)) [
      | inl new ↦ inr (
          inl (
            ground (arith, p, far),
            ground (arith, p, far, new),
            ground (arith, p, far, new, h),
            ground (arith, far),
          ))
      | inr behind ↦
          inr (inr (ground (arith, p, far), ground (arith, p, behind), ground (arith, p, behind)))
    ]
  ]
]

pub sorted_within :
    (P : SpanRow → Type 0) (p : SpanRow → Bool) (xs : List SpanRow)
    → ((x : SpanRow) → p x ≡ true → P x)
    → All P (sort exits_before (filter p xs))
sorted_within P p xs h = sort-All exits_before P (filter p xs) (go xs)
  where
    go : (ys : List SpanRow) → All P (filter p ys)
    go [] = tt
    go (y ∷ ys) = elim (Bool-cases (p y)) [ inl e ↦ rw e (h y e, go ys) | inr e ↦ rw e (go ys) ]

pub new_clean-early :
    (last soon : ℕ) (s : SpanRow) → is_new_clean last soon s ≡ true → exit s ≤ soon
unfolding is_new_clean
new_clean-early last soon s h = ground (arith, h)

new_clean-late : (soon late : ℕ) (s : SpanRow) → is_new_clean soon late s ≡ true → soon < exit s
unfolding is_new_clean
new_clean-late soon late s h = ground (arith, h)

pub sort_split :
    (last soon late : ℕ) (xs : List SpanRow)
    → last ≤ soon
    → soon ≤ late
    → sort exits_before (filter (is_new_clean last soon) xs)
        ++ sort exits_before (filter (is_new_clean soon late) xs)
      ≡ sort exits_before (filter (is_new_clean last late) xs)
unfolding sort
sort_split last soon late [] h k = refl
sort_split last soon late (x ∷ xs) h k =
    let ih = sort_split last soon late xs h k in
    let first = sort exits_before (filter (is_new_clean last soon) xs) in
    let second = sort exits_before (filter (is_new_clean soon late) xs) in
    elim (is_new_clean_split last soon late x h k) [
      | inl (a, b, c, l) ↦
          simp (a, b, c)
            (sym (
                insert_sorted-first soon x first second l
                  (sorted_within _ (is_new_clean soon late) xs (new_clean-late soon late)))
              ∙ ap (insert_sorted exits_before x) ih)
      | inr (inl (a, b, c, l)) ↦
          simp (a, b, c)
            (sym (
                insert_sorted-second soon x first second l
                  (sorted_within _ (is_new_clean last soon) xs (new_clean-early last soon)))
              ∙ ap (insert_sorted exits_before x) ih)
      | inr (inr (a, b, c)) ↦ simp (a, b, c) ih
    ]
