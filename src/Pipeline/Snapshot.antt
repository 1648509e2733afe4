-- ===== src/Pipeline/Snapshot.antt =====
-- A config that has not changed since the last tick is passed over.
use canebot_projector_repo.Base.{
  ℕ, ◌≡◌, refl, ap, ◌∙◌, String, Bool, true, false, Option, none, some, List, [], ◌∷◌, lookup,
  insert, lookup-insert, All, str_eq, eq_refl, arith, Bool-cases, inl, inr, if◌then◌else◌,
}
use canebot_projector_repo.Tracker.State.{Tracker}
use canebot_projector_repo.Pipeline.Config.{
  set_config_snapshot, is_unchanged, tell_change, diff_config, drain_config,
}

-- Each key has one value.
abbrev pub AreDistinct : List (String × String) → Type 0
AreDistinct [] = Unit
AreDistinct ((k, v) ∷ m) = All (λ (e : String × String). str_eq e.0 k ≡ false) m × AreDistinct m

-- The snapshot has the values.
abbrev pub Agrees : List (String × String) → List (String × String) → Type 0
Agrees snapshot m = All (λ (e : String × String). is_unchanged snapshot e.0 e.1 ≡ true) m

set_config_snapshot-other :
    (snapshot m : List (String × String)) (k : String)
    → All (λ (e : String × String). str_eq e.0 k ≡ false) m
    → lookup k (set_config_snapshot snapshot m) ≡ lookup k snapshot
unfolding set_config_snapshot
set_config_snapshot-other snapshot [] k h = refl
set_config_snapshot-other snapshot ((j, v) ∷ m) k h =
    set_config_snapshot-other (insert j v snapshot) m k h.1
    ∙ lookup-insert j k v snapshot
    ∙ ap (λ (b : Bool). if b then some v else lookup k snapshot) h.0

lookup-is_unchanged :
    (snapshot : List (String × String)) (k v : String)
    → lookup k snapshot ≡ some v
    → is_unchanged snapshot k v ≡ true
unfolding is_unchanged
lookup-is_unchanged snapshot k v e =
    ap (λ (o : Option String). elim o [ none ↦ false | some old ↦ str_eq old v ]) e ∙ eq_refl v

set_config_snapshot-Agrees :
    (snapshot m : List (String × String))
    → AreDistinct m
    → Agrees (set_config_snapshot snapshot m) m
unfolding set_config_snapshot
set_config_snapshot-Agrees snapshot [] d = tt
set_config_snapshot-Agrees snapshot ((k, v) ∷ m) d = (
  lookup-is_unchanged _ k v (
      set_config_snapshot-other (insert k v snapshot) m k d.0
      ∙ lookup-insert k k v snapshot
      ∙ ap (λ (b : Bool). if b then some v else lookup k snapshot) (eq_refl k)),
  set_config_snapshot-Agrees (insert k v snapshot) m d.1,
)

-- Nothing has changed only where the snapshot has the values.
diff_config-told :
    (previous : List (String × String)) (at : ℕ) (t : Tracker) (m : List (String × String))
    → (diff_config previous at t true m).1 ≡ true
unfolding diff_config
diff_config-told previous at t [] = refl
diff_config-told previous at t ((k, v) ∷ m) = elim (Bool-cases (is_unchanged previous k v)) [
  | inl h ↦ simp h (diff_config-told previous at t m)
  | inr h ↦ simp h (diff_config-told previous at (tell_change previous at t k v) m)
]

diff_config-Agrees :
    (previous : List (String × String)) (at : ℕ) (t : Tracker) (m : List (String × String))
    → (diff_config previous at t false m).1 ≡ false
    → Agrees previous m
unfolding diff_config
diff_config-Agrees previous at t [] = λ e. tt
diff_config-Agrees previous at t ((k, v) ∷ m) = elim (Bool-cases (is_unchanged previous k v)) [
  | inl h ↦ simp h (λ e. (refl, diff_config-Agrees previous at t m e))
  | inr h ↦
      simp h
        (λ e. ground (arith, e, diff_config-told previous at (tell_change previous at t k v) m))
]

Agrees-diff_config :
    (previous : List (String × String)) (at : ℕ) (t : Tracker) (m : List (String × String))
    → Agrees previous m
    → diff_config previous at t false m ≡ (t, false)
unfolding diff_config
Agrees-diff_config previous at t [] a = refl
Agrees-diff_config previous at t ((k, v) ∷ m) a = simp a.0 (Agrees-diff_config previous at t m a.1)

settled :
    (snapshot current : List (String × String)) (later : ℕ) (u : Tracker)
    → Agrees snapshot current
    → drain_config snapshot later u current ≡ (u, snapshot)
unfolding drain_config
settled snapshot current later u a = rw (Agrees-diff_config snapshot later u current a) refl

snapshot-Agrees :
    (previous current : List (String × String)) (at : ℕ) (t : Tracker)
    → AreDistinct current
    → Agrees (drain_config previous at t current).1 current
unfolding drain_config
snapshot-Agrees previous current at t d =
    elim (Bool-cases (diff_config previous at t false current).1) [
      | inl h ↦ rw h (set_config_snapshot-Agrees previous current d)
      | inr h ↦ rw h (diff_config-Agrees previous at t current h)
    ]

-- A drain with the values of the drain before it tells the tracker nothing, and keeps the snapshot:
-- a change is told once.
pub drain_config_again :
    (previous current : List (String × String)) (at later : ℕ) (t u : Tracker)
    → AreDistinct current
    → let (t', snapshot) = drain_config previous at t current in
      drain_config snapshot later u current ≡ (u, snapshot)
drain_config_again previous current at later t u d =
    settled (drain_config previous at t current).1 current later u
      (snapshot-Agrees previous current at t d)
