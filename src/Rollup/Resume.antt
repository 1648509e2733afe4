-- ===== src/Rollup/Resume.antt =====
-- Which buckets a pass emits, and that passes can be cut anywhere.
use canebot_projector_repo.Base.{
  ℕ, zero, suc, ◌+◌, ◌≤◌, ◌<◌, ◌≡◌, refl, ap, ◌∙◌, ◌⊎◌, inl, inr, false, Option, none, some, List,
  [], ◌∷◌, ◌++◌, arith, leb, leb→le, leb→lt, le→leb, ◌==◌, Bool-cases, Option-cases,
}
use canebot_projector_repo.Rollup.Buckets.{first_bucket, emit_from, emit_buckets, emit_derived}

-- The buckets begin at `b`, each where the one before it ends, and the last ends at `stop`.
abbrev pub IsProgression : ℕ → ℕ → List ℕ → ℕ → Type 0
IsProgression width b [] stop = b ≡ stop
IsProgression width b (x ∷ xs) stop = (x ≡ b) × IsProgression width (b + width) xs stop

-- The buckets are those from `b` on that have ended by `up_to`.
abbrev pub IsDue : ℕ → ℕ → ℕ → List ℕ → Type 0
IsDue width up_to b bs =
    (stop : ℕ) × IsProgression width b bs stop
    × (up_to < stop + width)
    × ((stop ≤ up_to) ⊎ (stop ≡ b))

emit_from-IsDue :
    (fuel width up_to b last : ℕ)
    → 0 < width
    → up_to < fuel + b
    → IsDue width up_to b (emit_from fuel width up_to b last).0
unfolding emit_from
emit_from-IsDue zero width up_to b last w f = (b, refl, omega arith, inr refl)
emit_from-IsDue (suc fuel) width up_to b last w f = elim (Bool-cases (leb (b + width) up_to)) [
  | inl more ↦
      let le = leb→le _ _ more in
      let (stop, p, l, r) = emit_from-IsDue fuel width up_to (b + width) b w (omega arith) in
      simp more (stop, (refl, p), l, inl (ground (arith, r, le)))
  | inr done ↦ simp done (b, refl, leb→lt _ _ done, inr refl)
]

emit_from_fuel :
    (f g width up_to b last : ℕ)
    → 0 < width
    → up_to < f + b
    → up_to < g + b
    → emit_from f width up_to b last ≡ emit_from g width up_to b last
unfolding emit_from
emit_from_fuel zero zero width up_to b last w hf hg = refl
emit_from_fuel zero (suc g) width up_to b last w hf hg = ground arith
emit_from_fuel (suc f) zero width up_to b last w hf hg = ground arith
emit_from_fuel (suc f) (suc g) width up_to b last w hf hg =
    elim (Bool-cases (leb (b + width) up_to)) [
      | inl more ↦ simp more (
          ap (λ (r : List ℕ × ℕ). (b ∷ r.0, r.1))
            (emit_from_fuel f g width up_to (b + width) b w (omega arith) (omega arith)))
      | inr done ↦ simp done refl
    ]

-- A pass up to `soon` and one up to `late` behind it emit what one pass up to `late` does.
emit_from_resume :
    (f g width soon late c : ℕ)
    → 0 < width
    → soon ≤ late
    → soon < f + (c + width)
    → late < g + (c + width)
    → let r = emit_from f width soon (c + width) c in
      let r' = emit_from (suc late) width late (r.1 + width) r.1 in
      ((r.0 ++ r'.0, r'.1) ≡ emit_from g width late (c + width) c)
unfolding emit_from
emit_from_resume zero g width soon late c w s hf hg =
    emit_from_fuel (suc late) g width late (c + width) c w (omega arith) hg
emit_from_resume (suc f) zero width soon late c w s hf hg =
    elim (Bool-cases (leb (c + width + width) soon)) [
      | inl more ↦ ground (arith, leb→le _ _ more)
      | inr done ↦
          simp done (emit_from_fuel (suc late) zero width late (c + width) c w (omega arith) hg)
    ]
emit_from_resume (suc f) (suc g) width soon late c w s hf hg =
    elim (Bool-cases (leb (c + width + width) soon)) [
      | inr done ↦
          simp done (emit_from_fuel (suc late) (suc g) width late (c + width) c w (omega arith) hg)
      | inl more ↦
          let le = leb→le _ _ more in
          let more' = le→leb (c + width + width) late (omega arith) in
          simp (more, more')
            (ap (λ (r : List ℕ × ℕ). ((c + width) ∷ r.0, r.1))
              (emit_from_resume f g width soon late (c + width) w s (omega arith) (omega arith)))
    ]

emit_buckets-some :
    (width : ℕ) (start : Option ℕ) (up_to last b : ℕ)
    → first_bucket width last start ≡ some b
    → emit_buckets width start up_to last ≡ emit_from (suc up_to) width up_to b last
unfolding emit_buckets
emit_buckets-some width start up_to last b e =
    ap
      (λ (o : Option ℕ). elim o [
        | none ↦ ([], last)
        | some c ↦ emit_from (suc up_to) width up_to c last
      ])
      e

-- A pass emits the buckets from the first one on that have ended: in order, none twice, none left
-- out, and none before its end.
pub emit_derived-IsDue :
    (width : ℕ) (start : Option ℕ) (up_to last b : ℕ)
    → 0 < width
    → first_bucket width last start ≡ some b
    → IsDue width up_to b (emit_derived width start up_to last).0
unfolding emit_derived
emit_derived-IsDue width start up_to last b w first = elim (Bool-cases (up_to == 0)) [
  | inl none_yet ↦ simp none_yet (b, refl, ground (arith, none_yet), inr refl)
  | inr some_yet ↦
      simp (some_yet, emit_buckets-some width start up_to last b first)
        (emit_from-IsDue (suc up_to) width up_to b last w (omega arith))
]

emit_buckets-none :
    (width : ℕ) (start : Option ℕ) (up_to last : ℕ)
    → first_bucket width last start ≡ none
    → emit_buckets width start up_to last ≡ ([], last)
unfolding emit_buckets
emit_buckets-none width start up_to last e =
    ap
      (λ (o : Option ℕ). elim o [
        | none ↦ ([], last)
        | some c ↦ emit_from (suc up_to) width up_to c last
      ])
      e

-- Behind the cursor, the first bucket is the next one.
first_bucket-behind :
    (width last : ℕ) (start : Option ℕ)
    → 0 < last
    → first_bucket width last start ≡ some (last + width)
unfolding first_bucket
first_bucket-behind width last start h = ground arith

emit_from_cursor :
    (fuel width up_to b last : ℕ)
    → 0 < b
    → ((emit_from fuel width up_to b last) ≡ ([], last))
      ⊎ (0 < (emit_from fuel width up_to b last).1)
unfolding emit_from
emit_from_cursor zero width up_to b last h = inl refl
emit_from_cursor (suc fuel) width up_to b last h = elim (Bool-cases (leb (b + width) up_to)) [
  | inr done ↦ simp done (inl refl)
  | inl more ↦ simp more (
      inr (elim (emit_from_cursor fuel width up_to (b + width) b (omega arith)) [
        | inl e ↦ rw (ap (λ (r : List ℕ × ℕ). r.1) e) h
        | inr l ↦ l
      ]))
]

-- The cursor of a bucket at 1970 would be that of no bucket.
abbrev pub IsLater : Option ℕ → Type 0
IsLater start = (b : ℕ) → start ≡ some b → 0 < b

first_bucket-positive :
    (width last b : ℕ) (start : Option ℕ)
    → 0 < width
    → IsLater start
    → first_bucket width last start ≡ some b
    → 0 < b
unfolding first_bucket
first_bucket-positive width last b none w later e = ground (arith, e)
first_bucket-positive width last b (some ms) w later e = ground (arith, e, later ms refl)

abbrev after : List ℕ × ℕ → List ℕ × ℕ → List ℕ × ℕ
after r r' = (r.0 ++ r'.0, r'.1)

emit_first-resume :
    (width : ℕ) (start : Option ℕ) (soon late last b : ℕ)
    → 0 < width
    → soon ≤ late
    → 0 < b
    → first_bucket width last start ≡ some b
    → let r = emit_from (suc soon) width soon b last in
      after r (emit_buckets width start late r.1) ≡ emit_from (suc late) width late b last
unfolding emit_from
emit_first-resume width start soon late last b w s pb first =
    elim (Bool-cases (leb (b + width) soon)) [
      | inr done ↦ simp done (emit_buckets-some width start late last b first)
      | inl more ↦
          let rest = emit_from soon width soon (b + width) b in
          let le = leb→le _ _ more in
          let more' = le→leb (b + width) late (omega arith) in
          let positive : 0 < rest.1 =
            elim (emit_from_cursor soon width soon (b + width) b (omega arith)) [
              | inl e ↦ rw (ap (λ (r : List ℕ × ℕ). r.1) e) pb
              | inr l ↦ l
            ] in
          let next =
            emit_buckets-some width start late rest.1 (rest.1 + width)
              (first_bucket-behind width rest.1 start positive) in
          simp (more, more')
            (ap (after (b ∷ rest.0, rest.1)) next
              ∙ ap (λ (r : List ℕ × ℕ). (b ∷ r.0, r.1))
                  (emit_from_resume soon late width soon late b w s (omega arith) (omega arith)))
    ]

emit_buckets-resume :
    (width : ℕ) (start : Option ℕ) (soon late last : ℕ)
    → 0 < width
    → soon ≤ late
    → IsLater start
    → let r = emit_buckets width start soon last in
      after r (emit_buckets width start late r.1) ≡ emit_buckets width start late last
emit_buckets-resume width start soon late last w s later =
    elim (Option-cases (first_bucket width last start)) [
      | inl e ↦ rw (emit_buckets-none width start soon last e) refl
      | inr (b, e) ↦
          rw
            (
              emit_buckets-some width start soon last b e,
              emit_buckets-some width start late last b e,
            )
            (emit_first-resume width start soon late last b w s
              (first_bucket-positive width last b start w later e) e)
    ]

-- Two passes, the second of which sees the timeline at a later time, emit the buckets that the second
-- would have emitted alone, and leave the same cursor.
pub emit_derived-resume :
    (width : ℕ) (start : Option ℕ) (soon late last : ℕ)
    → 0 < width
    → soon ≤ late
    → IsLater start
    → let (bs, cursor) = emit_derived width start soon last in
      let (bs', cursor') = emit_derived width start late cursor in
      (bs ++ bs', cursor') ≡ emit_derived width start late last
unfolding emit_derived
emit_derived-resume width start soon late last w s later = elim (Bool-cases (soon == 0)) [
  | inl none_yet ↦ simp none_yet refl
  | inr some_yet ↦
      let some_later : (late == 0) ≡ false = ground (arith, some_yet) in
      simp (some_yet, some_later) (emit_buckets-resume width start soon late last w s later)
]
