-- ===== src/Writer/Attribution.antt =====
-- Which dwell a pulse is linked to: `AttributeActuatorPulses` of cmd/projector/writer.go.
use canebot_projector_repo.Base.{
  ℕ, ◌≤◌, ◌≡◌, refl, ◌⊎◌, true, false, ◌&&◌, Option, none, some, List, [], ◌∷◌, ltb, All, arith,
  Bool-cases, Option-cases, inl, inr, IsIn, IsIn-later, ap,
}
use mathlib.Core.List.{head-eq_of_cons-eq, tail-eq_of_cons-eq}
use canebot_projector_repo.Rows.{OutActuatorInterval}
use canebot_projector_repo.Writer.Tables.{DwellRow, ActuatorRow}
use canebot_projector_repo.Writer.Pulses.{fell_inside, earliest_dwell, attribute_pulse}

-- The pulse began in the dwell.
abbrev pub IsInside : OutActuatorInterval → DwellRow → Type 0
IsInside a d = fell_inside a d ≡ true

-- The dwell does not start before `d` if the pulse began in it.
abbrev pub IsNoEarlier : OutActuatorInterval → DwellRow → DwellRow → Type 0
IsNoEarlier a d e = fell_inside a e ≡ true → d.dwell.started_at_ms ≤ e.dwell.started_at_ms

-- A member stays one where an item is put behind the first.
behind : (d best e : DwellRow) (ds : List DwellRow) → IsIn d (best ∷ ds) → IsIn d (best ∷ e ∷ ds)
behind d best e ds ([], tail, eq) = ([], e ∷ ds, ap (λ x. x ∷ e ∷ ds) (head-eq_of_cons-eq eq))
behind d best e ds (x ∷ front, tail, eq) =
    (best ∷ e ∷ front, tail, ap (λ zs. best ∷ e ∷ zs) (tail-eq_of_cons-eq eq))

earliest_from :
    (a : OutActuatorInterval) (best : DwellRow) (ds : List DwellRow)
    → IsInside a best
    → (d : DwellRow) × (earliest_dwell a (some best) ds ≡ some d)
      × IsInside a d
      × (d.dwell.started_at_ms ≤ best.dwell.started_at_ms)
      × All (IsNoEarlier a d) ds
      × IsIn d (best ∷ ds)
unfolding earliest_dwell
earliest_from a best [] h = (best, refl, h, omega arith, tt, ([], [], refl))
earliest_from a best (e ∷ ds) h =
    elim (Bool-cases (fell_inside a e && ltb e.dwell.started_at_ms best.dwell.started_at_ms)) [
      | inl better ↦
          let (d, eq, inside, le, all, there) = earliest_from a e ds (ground (arith, better)) in
          simp better
            (d, eq, inside, ground (arith, better, le), (λ _. le, all), IsIn-later d best _ there)
      | inr worse ↦
          let (d, eq, inside, le, all, there) = earliest_from a best ds h in
          simp worse
            (d, eq, inside, le, (λ i. ground (arith, worse, i, le), all), behind d best e ds there)
    ]

-- The dwell is one of the list that the pulse began in, and no such dwell of the list starts earlier;
-- there is none only if the pulse began in no dwell of the list.
abbrev pub IsEarliest : OutActuatorInterval → List DwellRow → Option DwellRow → Type 0
IsEarliest a ds none = All (λ e. fell_inside a e ≡ false) ds
IsEarliest a ds (some d) = IsIn d ds × IsInside a d × All (IsNoEarlier a d) ds

outside-IsEarliest :
    (a : OutActuatorInterval) (e : DwellRow) (ds : List DwellRow) (o : Option DwellRow)
    → fell_inside a e ≡ false
    → IsEarliest a ds o
    → IsEarliest a (e ∷ ds) o
outside-IsEarliest a e ds none h x = (h, x)
outside-IsEarliest a e ds (some d) h (there, inside, all) =
    (IsIn-later d e ds there, inside, (λ i. ground (arith, h, i), all))

earliest_dwell-IsEarliest :
    (a : OutActuatorInterval) (ds : List DwellRow) → IsEarliest a ds (earliest_dwell a none ds)
unfolding earliest_dwell
earliest_dwell-IsEarliest a [] = tt
earliest_dwell-IsEarliest a (e ∷ ds) = elim (Bool-cases (fell_inside a e)) [
  | inl h ↦
      let (d, eq, inside, le, all, there) = earliest_from a e ds h in
      simp h (rw eq (there, inside, (λ _. le, all)))
  | inr h ↦
      simp h
        (outside-IsEarliest a e ds (earliest_dwell a none ds) h (earliest_dwell-IsEarliest a ds))
]

abbrev pub seq_of : Option DwellRow → Option ℕ
seq_of none = none
seq_of (some d) = some d.dwell.seq_index

attribute_pulse-none :
    (dwells : List DwellRow) (a : ActuatorRow)
    → a.seq_index ≡ none
    → attribute_pulse dwells a
      ≡ record a { seq_index = seq_of (earliest_dwell a.pulse none dwells) }
unfolding attribute_pulse
attribute_pulse-none dwells a e = simp (e, attribute_pulse) refl

attribute_pulse-some :
    (dwells : List DwellRow) (a : ActuatorRow) (seq : ℕ)
    → a.seq_index ≡ some seq
    → attribute_pulse dwells a ≡ a
unfolding attribute_pulse
attribute_pulse-some dwells a seq e = simp (e, attribute_pulse) refl

-- A pulse that is linked stays as it is, and one that is not gets the index of the earliest of the
-- dwells that it began in, if there is one.
pub attribute_pulse_lem :
    (dwells : List DwellRow) (a : ActuatorRow)
    → ((seq : ℕ) × (a.seq_index ≡ some seq) × (attribute_pulse dwells a ≡ a))
      ⊎ ((o : Option DwellRow) × (a.seq_index ≡ none)
          × IsEarliest a.pulse dwells o
          × (attribute_pulse dwells a ≡ record a { seq_index = seq_of o }))
attribute_pulse_lem dwells a = elim (Option-cases a.seq_index) [
  | inl e ↦ inr (
    earliest_dwell a.pulse none dwells,
    e,
    earliest_dwell-IsEarliest a.pulse dwells,
    attribute_pulse-none dwells a e,
  )
  | inr (seq, e) ↦ inl (seq, e, attribute_pulse-some dwells a seq e)
]
