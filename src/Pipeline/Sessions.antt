-- ===== src/Pipeline/Sessions.antt =====
-- What can happen to the projector and to what it has stored: ticks, pruning, the pass at the end, and
-- a new start, also in the middle of anything.
use canebot_projector_repo.Base.{ℕ, ◌≡◌, refl, sym, subst, String, ◌&&◌, Bool-cases, inl, inr}
use canebot_projector_repo.Tracker.Invariant.Runs.{new_tracker-IsValid}
use canebot_projector_repo.Writer.Tables.{Replica}
use canebot_projector_repo.Writer.Marks.{guard}
use canebot_projector_repo.Writer.Gaps.{record_gap}
use canebot_projector_repo.Writer.Pruning.{prune}
use canebot_projector_repo.Writer.Consistency.{IsConsistent}
use canebot_projector_repo.Writer.Upkeep.{mark-other, prune-IsConsistent}
use canebot_projector_repo.Pipeline.Reader.{Source}
use canebot_projector_repo.Pipeline.Collect.{Env}
use canebot_projector_repo.Pipeline.Store.{last_alive}
use canebot_projector_repo.Pipeline.Tick.{Projector, tick, final_flush}
use canebot_projector_repo.Pipeline.Startup.{Settings, was_away, start}
use canebot_projector_repo.Pipeline.Sound.{IsSound}
use canebot_projector_repo.Pipeline.Ticks.{tick-IsSound, final_flush-IsSound}

-- One move. The source is what it is at that time; a new start keeps the replica and the store only.
pub data Move (env : Env) (severity : String → String) (p u : Projector) : Type 0 where
  ticks : (src : Source) (now : ℕ) → u ≡ (tick env src now p).0 → Move env severity p u
  prunes : (cutoff : ℕ) → u ≡ record p { rep = (prune cutoff p.rep).0 } → Move env severity p u
  ends : (now : ℕ) → u ≡ (final_flush env now p).0 → Move env severity p u
  restarts :
      (s : Settings) (now : ℕ)
      → s.severity ≡ severity
      → u ≡ start s now p.rep p.st
      → Move env severity p u

pub data Reach (env : Env) (severity : String → String) (p : Projector) : Projector → Type 0 where
  here : Reach env severity p p
  next : {t u : Projector} → Reach env severity p t → Move env severity t u → Reach env severity p u

record_gap-IsConsistent :
    (r : Replica) (started_ms ended_ms : ℕ) (reason build branch : String)
    → IsConsistent r
    → IsConsistent (record_gap r started_ms ended_ms reason build branch)
unfolding record_gap
record_gap-IsConsistent r started_ms ended_ms reason build branch h = record {
  orders = h.orders;
  faults = h.faults;
  stamped = rw (mark-other "gaps" r.marks (guard r.marks "gaps" ended_ms) refl) h.stamped;
  spans_refer = h.spans_refer;
  dwells_refer = h.dwells_refer;
  faults_refer = h.faults_refer;
  toggles_refer = h.toggles_refer;
  doors_refer = h.doors_refer;
  configs_refer = h.configs_refer;
  pulses_refer = h.pulses_refer;
  runs_refer = h.runs_refer;
  keys = h.keys;
}

start-IsSound :
    (s : Settings) (now : ℕ) (p : Projector)
    → IsConsistent p.rep
    → IsSound s.severity (start s now p.rep p.st)
unfolding start
start-IsSound s now p h = record {
  trk = new_tracker-IsValid s.severity s.has_step_runs (s.has_step_runs && s.has_fault_cols);
  rep = elim (Bool-cases (was_away s (last_alive p.st) now)) [
    | inl e ↦ rw e (record_gap-IsConsistent p.rep _ now _ _ _ h)
    | inr e ↦ rw e h
  ];
}

Move-IsSound :
    (env : Env) (severity : String → String) (p u : Projector)
    → Move env severity p u
    → IsSound severity p
    → IsSound severity u
Move-IsSound env severity p u (ticks src now e) h =
    subst (IsSound severity) (sym e) (tick-IsSound severity env src now p h).0
Move-IsSound env severity p u (prunes cutoff e) h =
    subst (IsSound severity) (sym e)
      (record { trk = h.trk; rep = prune-IsConsistent cutoff p.rep h.rep })
Move-IsSound env severity p u (ends now e) h =
    subst (IsSound severity) (sym e) (final_flush-IsSound severity env now p h).1
Move-IsSound env severity p u (restarts s now same e) h =
    subst (IsSound severity) (sym e)
      (subst (λ f. IsSound f (start s now p.rep p.st)) same (start-IsSound s now p h.rep))

-- From a sound state, any ticks with any sources, failed ones included, any pruning, passes at the end
-- and restarts at any point lead to sound states only: the tracker is valid and the replica consistent.
pub Reach-IsSound :
    {env : Env} {severity : String → String} {p u : Projector}
    → IsSound severity p
    → Reach env severity p u
    → IsSound severity u
Reach-IsSound h here = h
Reach-IsSound {env} {severity} {p} {u} h (next r m) =
    Move-IsSound env severity _ u m (Reach-IsSound h r)
