-- ===== src/Labels.antt =====
-- The words that rows are labelled by: lanes, results, key prefixes (cmd/projector/tracker.go),
-- fault severities (cmd/projector/main.go) and outcomes (cmd/projector/writer.go).
use canebot_projector_repo.Base.{
  ℕ, String, Bool, false, ◌||◌, not, List, [], ◌∷◌, str_eq, if◌then◌else◌,
}

-- `autoCycleCompleteStep`
abbrev pub auto_cycle_complete_step : ℕ
auto_cycle_complete_step = 19

-- `maxIntervalMS`: 15 minutes.
abbrev pub max_interval_ms : ℕ
max_interval_ms = 900000

unfoldable pub lane_for_state : String → String
lane_for_state state =
    if str_eq state "Tilter" then "tilter" else if str_eq state "Crusher" then "crusher" else "main"

unfoldable pub result_for_state : String → String
result_for_state state =
    if str_eq state "Maintenance"
    then "maintenance"
    else if str_eq state "Manual"
    then "manual"
    else if str_eq state "Error"
    then "error"
    else "idle"

unfoldable pub synth_prefix : String → String
synth_prefix result =
    if str_eq result "maintenance"
    then "MAINT"
    else if str_eq result "manual"
    then "MANUAL"
    else if str_eq result "error"
    then "ERR"
    else "IDLE"

unfoldable pub emits_dwell : String → Bool → Bool
emits_dwell state is_production = is_production || not (str_eq state "HomeIdle")

-- `severity == severityNonRecoverable`, and the result that a fault gives a production cycle.
unfoldable pub fault_result : String → String
fault_result severity =
    if str_eq severity "non_recoverable" then "faulted_non_recoverable" else "faulted_recoverable"

abbrev pub non_recoverable_faults : List String
non_recoverable_faults =
    "CaneSinglingMotorFault" ∷ "CrusherMotorFault" ∷ "MachineCIPPumpFault" ∷ "TilterMotorFault"
    ∷ "MachineDoorBlowerFault" ∷ "JuiceTrayLevelSensorMalf" ∷ "CupPresentSensorMalf"
    ∷ "GlassFillingFault" ∷ []

unfoldable pub contains : List String → String → Bool
contains [] s = false
contains (x ∷ xs) s = str_eq x s || contains xs s

unfoldable pub severity_for : String → String
unfolding contains
severity_for fault_type =
    if contains non_recoverable_faults fault_type then "non_recoverable" else "recoverable"

unfoldable pub outcome_for : String → Bool → String
outcome_for result is_production =
    if not is_production
    then "non_production"
    else if str_eq result "completed"
    then "success"
    else if str_eq result "faulted_recoverable"
    then "recovered"
    else "failed"
