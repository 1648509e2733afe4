-- ===== src/Tracker/ConfigChange.antt =====
-- Which interval a config change ends up in: `ApplyConfigChange` of cmd/projector/tracker.go.
use canebot_projector_repo.Base.{
  ℕ, ◌≡◌, refl, ap, ◌∙◌, String, true, false, Option, none, some, str_eq, eq_iff, if◌then◌else◌,
  arith, Bool-cases, List, [], ◌∷◌, ◌++◌, inl, inr, subst,
}
use canebot_projector_repo.Rows.{OutConfigChange, unix_milli}
use canebot_projector_repo.Labels.{result_for_state}
use canebot_projector_repo.Tracker.State.{Interval, Tracker}
use canebot_projector_repo.Tracker.Inputs.{
  config_state, config_change, add_config, take_config_change, apply_config_change,
}
use canebot_projector_repo.Tracker.Invariant.Defs.{fits, IsOpen, IsValid, OnSome}
use canebot_projector_repo.Tracker.Ensured.{ensure_interval_lem}

as_result :
    (result k : String)
    → str_eq result k ≡ true
    → result_for_state k ≡ "idle"
    → result_for_state result ≡ "idle"
as_result result k e r = ap result_for_state ((eq_iff result k).0 e) ∙ r

-- No result of a synthetic interval is the name of a state that such an interval is opened for.
fits-idle : (result : String) → fits false result ≡ true → result_for_state result ≡ "idle"
unfolding fits result_for_state
fits-idle result h = elim (Bool-cases (str_eq result "idle")) [
  | inl a ↦ as_result result "idle" a refl
  | inr a ↦ elim (Bool-cases (str_eq result "maintenance")) [
    | inl b ↦ as_result result "maintenance" b refl
    | inr b ↦ elim (Bool-cases (str_eq result "manual")) [
      | inl c ↦ as_result result "manual" c refl
      | inr c ↦ as_result result "error" (ground (arith, h, a, b, c)) refl
    ]
  ]
]

config_state-idle :
    (severity : String → String) (t : Tracker)
    → IsValid severity t
    → result_for_state (config_state t) ≡ "idle"
unfolding config_state result_for_state
config_state-idle severity t v = go t.current v.working.interval
  where
    go :
        (c : Option Interval)
        → OnSome (IsOpen severity 0) c
        → let state : String = elim c [
          | none ↦ ""
          | some iv ↦ if iv.is_production then "" else iv.result
        ] in
          result_for_state state ≡ "idle"
    go none o = refl
    go (some iv) o = elim (Bool-cases iv.is_production) [
      | inl p ↦ simp p refl
      | inr p ↦ simp p (fits-idle iv.result (subst (λ b. fits b iv.result ≡ true) p o.result_fits))
    ]

take_config_change-some :
    (t : Tracker) (key old_val new_val : String) (at_ms : ℕ) (iv : Interval)
    → t.current ≡ some iv
    → (take_config_change t key old_val new_val at_ms).current
      ≡ some (add_config iv (config_change iv.order_key key old_val new_val at_ms))
unfolding take_config_change
take_config_change-some t key old_val new_val at_ms iv c = simp (c, take_config_change) refl

-- Behind a config change the open interval is not a production cycle but one with the result idle,
-- whatever interval was open before, also a production cycle or a maintenance, manual or error
-- interval; and the change is the last config row of that interval.
pub apply_config_change-idle :
    (severity : String → String) (t : Tracker) (key old_val new_val : String) (at : ℕ)
    → IsValid severity t
    → (iv : Interval) × ((apply_config_change t key old_val new_val at).current ≡ some iv)
      × (iv.is_production ≡ false)
      × (iv.result ≡ "idle")
      × (before : List OutConfigChange) × (iv.configs
          ≡ before ++ config_change iv.order_key key old_val new_val (unix_milli at) ∷ [])
unfolding apply_config_change add_config
apply_config_change-idle severity t key old_val new_val at v =
    let at_ms = unix_milli at in
    let (iv, c, (p, r), _) = ensure_interval_lem t "" (config_state t) at_ms in
    (
      add_config iv (config_change iv.order_key key old_val new_val at_ms),
      take_config_change-some _ key old_val new_val at_ms iv c,
      p,
      r ∙ config_state-idle severity t v,
      iv.configs,
      refl,
    )
