-- ===== src/Clock/Refined.antt =====
-- The watermarks in milliseconds, which the other modules have, stand for those by texts.
use canebot_projector_repo.Base.{
  ℕ, String, inl, inr, ◌/◌, ◌≤◌, ◌≡◌, refl, ap, ◌∙◌, true, false, not, ◌&&◌, none, some, Option,
  List, [], ◌∷◌, lookup, insert, All, ltb, leb, str_eq, arith, Bool-cases, if◌then◌else◌,
}
use canebot_projector_repo.Clock.Text.{bytes_lt, pad4, event_ts, date_text}
use canebot_projector_repo.Clock.Order.{event_ts-order}
use canebot_projector_repo.Clock.Dates.{last_day}
use canebot_projector_repo.Clock.Marks.{is_empty, watermark_text, set_watermark_text, guard_text}
use canebot_projector_repo.Writer.Marks.{set_watermark, guard}

-- The texts of watermarks.
abbrev pub shown : List (String × ℕ) → List (String × List ℕ)
shown [] = []
shown ((table, ms) ∷ marks) = (table, event_ts ms) ∷ shown marks

abbrev pub IsShort : ℕ → Type 0
IsShort ms = ms / 86400000 ≤ last_day

abbrev pub AreShort : List (String × ℕ) → Type 0
AreShort = All (λ (m : String × ℕ). IsShort m.1)

abbrev shown_one : Option ℕ → Option (List ℕ)
shown_one none = none
shown_one (some ms) = some (event_ts ms)

lookup-shown :
    (table : String) (marks : List (String × ℕ))
    → lookup table (shown marks) ≡ shown_one (lookup table marks)
unfolding lookup
lookup-shown table [] = refl
lookup-shown table ((name, ms) ∷ marks) = elim (Bool-cases (str_eq name table)) [
  | inl e ↦ rw e refl
  | inr e ↦ rw e (lookup-shown table marks)
]

insert-shown :
    (table : String) (ms : ℕ) (marks : List (String × ℕ))
    → insert table (event_ts ms) (shown marks) ≡ shown (insert table ms marks)
unfolding insert
insert-shown table ms [] = refl
insert-shown table ms ((name, old) ∷ marks) = elim (Bool-cases (str_eq name table)) [
  | inl e ↦ rw e refl
  | inr e ↦ rw e (ap (λ (r : List _). (name, event_ts old) ∷ r) (insert-shown table ms marks))
]

lookup-IsShort :
    (table : String) (marks : List (String × ℕ)) (ms : ℕ)
    → AreShort marks
    → lookup table marks ≡ some ms
    → IsShort ms
unfolding lookup
lookup-IsShort table [] ms h e = ground (arith, e)
lookup-IsShort table ((name, old) ∷ marks) ms (h, hs) e =
    ground (arith, h, e, lookup-IsShort table marks ms hs)

event_ts-some : (ms : ℕ) → is_empty (event_ts ms) ≡ false
unfolding event_ts date_text pad4
event_ts-some ms = refl

-- The test of `guard`, and what it returns.
guarded :
    (last ms : ℕ)
    → IsShort last
    → IsShort ms
    → (if not (is_empty (event_ts last)) && bytes_lt (event_ts ms) (event_ts last)
        then event_ts last
        else event_ts ms)
      ≡ event_ts (if ltb ms last then last else ms)
guarded last ms h k =
    rw (event_ts-some last, (event_ts-order ms last k h).0)
      (elim (Bool-cases (ltb ms last)) [ inl e ↦ rw e refl | inr e ↦ rw e refl ])

-- `guard` and `guard_text`, and the two stores, by what they find in the table.
abbrev guard_of : Option ℕ → ℕ → ℕ
guard_of o ms = elim o [ none ↦ ms | some last ↦ if ltb ms last then last else ms ]

abbrev guard_text_of : Option (List ℕ) → List ℕ → List ℕ
guard_text_of o ts =
    let last : List ℕ = elim o [ none ↦ [] | some value ↦ value ] in
    if not (is_empty last) && bytes_lt ts last then last else ts

guarded_of :
    (o : Option ℕ) (ms : ℕ)
    → ((last : ℕ) → o ≡ some last → IsShort last)
    → IsShort ms
    → guard_text_of (shown_one o) (event_ts ms) ≡ event_ts (guard_of o ms)
guarded_of none ms h k = refl
guarded_of (some last) ms h k = guarded last ms (h last refl) k

shown-guard :
    (marks : List (String × ℕ)) (table : String) (ms : ℕ)
    → AreShort marks
    → IsShort ms
    → guard_text (shown marks) table ms ≡ event_ts (guard marks table ms)
unfolding guard_text watermark_text guard
shown-guard marks table ms h k =
    ap (λ (o : Option (List ℕ)). guard_text_of o (event_ts ms)) (lookup-shown table marks)
    ∙ guarded_of (lookup table marks) ms (λ last. lookup-IsShort table marks last h) k

abbrev stored_of : Option ℕ → List (String × ℕ) → String → ℕ → List (String × ℕ)
stored_of o marks table ms = elim o [
  | none ↦ insert table ms marks
  | some cur ↦ if leb ms cur then marks else insert table ms marks
]

abbrev stored_text_of :
    Option (List ℕ) → List (String × List ℕ) → String → List ℕ → List (String × List ℕ)
stored_text_of o marks table ts = elim o [
  | none ↦ insert table ts marks
  | some cur ↦ if not (bytes_lt cur ts) then marks else insert table ts marks
]

stored :
    (o : Option ℕ) (marks : List (String × ℕ)) (table : String) (ms : ℕ)
    → ((cur : ℕ) → o ≡ some cur → IsShort cur)
    → IsShort ms
    → stored_text_of (shown_one o) (shown marks) table (event_ts ms)
      ≡ shown (stored_of o marks table ms)
stored none marks table ms h k = insert-shown table ms marks
stored (some cur) marks table ms h k =
    rw ((event_ts-order cur ms (h cur refl) k).0) (elim (Bool-cases (ltb cur ms)) [
      | inl f ↦
          let g : leb ms cur ≡ false = ground (arith, f) in rw (f, g) (insert-shown table ms marks)
      | inr f ↦ let g : leb ms cur ≡ true = ground (arith, f) in rw (f, g) refl
    ])

shown-set_watermark :
    (marks : List (String × ℕ)) (table : String) (ms : ℕ)
    → AreShort marks
    → IsShort ms
    → set_watermark_text (shown marks) table (event_ts ms) ≡ shown (set_watermark marks table ms)
unfolding set_watermark_text set_watermark
shown-set_watermark marks table ms h k =
    ap (λ (o : Option (List ℕ)). stored_text_of o (shown marks) table (event_ts ms))
      (lookup-shown table marks)
    ∙ stored (lookup table marks) marks table ms (λ cur. lookup-IsShort table marks cur h) k

-- Until the end of the year 9999, the guard and the store of watermarks, which compare texts, do on
-- the texts of timestamps what the guard and the watermarks in milliseconds do.
pub shown-marks :
    (marks : List (String × ℕ)) (table : String) (ms : ℕ)
    → AreShort marks
    → IsShort ms
    → (guard_text (shown marks) table ms ≡ event_ts (guard marks table ms))
      × (set_watermark_text (shown marks) table (event_ts ms)
          ≡ shown (set_watermark marks table ms))
shown-marks marks table ms h k =
    (shown-guard marks table ms h k, shown-set_watermark marks table ms h k)
