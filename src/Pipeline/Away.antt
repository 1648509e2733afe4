-- ===== src/Pipeline/Away.antt =====
-- What a start makes of the heartbeat that the sessions before it have left.
use canebot_projector_repo.Base.{
  ℕ, ◌<◌, ◌≤◌, ◌-◌, ◌*◌, ◌/◌, ◌≡◌, refl, ◌∙◌, ap, String, Bool, true, false, Option, none, some, [],
  ◌∷◌, ◌++◌, ltb, arith, if◌then◌else◌, lt→ltb,
}
use canebot_projector_repo.Writer.Tables.{GapRow, Replica}
use canebot_projector_repo.Writer.Gaps.{gap_row, record_gap}
use canebot_projector_repo.Pipeline.Store.{Store, last_alive}
use canebot_projector_repo.Pipeline.Collect.{Env}
use canebot_projector_repo.Pipeline.Tick.{Projector, flush_step, derived_step, tick, final_flush}
use canebot_projector_repo.Pipeline.Heartbeat.{
  bind-alive, derived_step-alive, tick-heartbeat, last_alive-some,
}
use canebot_projector_repo.Pipeline.Startup.{Settings, was_away, start}
use canebot_projector_repo.Pipeline.Sessions.{Reach, ticks, prunes, ends, restarts, here, next}

-- The time of the last tick that succeeded, and before the first one the heartbeat that was there.
pub last_good :
    {env : Env} {severity : String → String} {p u : Projector} → Reach env severity p u → Option ℕ
last_good {env} {severity} {p} here = p.st.last_alive_ms
last_good {env} (next {t} r (ticks src now e)) =
    let before = last_good r in if (tick env src now t).1 then some now else before
last_good (next r (prunes cutoff e)) = last_good r
last_good (next r (ends now e)) = last_good r
last_good (next r (restarts s now same e)) = last_good r

final_flush-alive :
    (env : Env) (now : ℕ) (p : Projector)
    → (final_flush env now p).0.st.last_alive_ms ≡ p.st.last_alive_ms
unfolding final_flush flush_step
final_flush-alive env now p =
    bind-alive p.st.last_alive_ms _ (derived_step p.last_timeline_ms) refl
      (derived_step-alive p.last_timeline_ms)

tick-good :
    (now : ℕ) (at : Option ℕ) (ok : Bool) (after : Option ℕ)
    → (ok ≡ true → after ≡ some now)
    → (ok ≡ false → after ≡ at)
    → after ≡ (if ok then some now else at)
tick-good now at true after good bad = good refl
tick-good now at false after good bad = bad refl

-- The heartbeat of the store is the time of the last tick that succeeded.
last_good-alive :
    {env : Env} {severity : String → String} {p u : Projector} (r : Reach env severity p u)
    → u.st.last_alive_ms ≡ last_good r
unfolding last_good start
last_good-alive here = refl
last_good-alive {env} {severity} {p} (next {t} r (ticks src now e)) =
    let beats = tick-heartbeat env src now t in
    ap (λ (v : Projector). v.st.last_alive_ms) e
    ∙ tick-good now t.st.last_alive_ms (tick env src now t).1 _ beats.0 beats.1
    ∙ ap (λ (o : Option ℕ). if (tick env src now t).1 then some now else o) (last_good-alive r)
last_good-alive (next r (prunes cutoff e)) =
    ap (λ (v : Projector). v.st.last_alive_ms) e ∙ last_good-alive r
last_good-alive {env} (next {t} r (ends now e)) =
    ap (λ (v : Projector). v.st.last_alive_ms) e ∙ final_flush-alive env now t ∙ last_good-alive r
last_good-alive (next r (restarts s now same e)) =
    ap (λ (v : Projector). v.st.last_alive_ms) e ∙ last_good-alive r

-- The row says that the projector was not running from the one time to the other.
abbrev pub IsGap : ℕ → ℕ → GapRow → Type 0
IsGap from until g =
    (g.started_at_ms ≡ from)
    × (g.ended_at_ms ≡ until)
    × (g.duration_ms ≡ until - from)
    × (g.reason ≡ "projector not running")

start-away :
    (s : Settings) (started m : ℕ) (rep : Replica) (st : Store)
    → last_alive st ≡ m
    → was_away s m started ≡ true
    → (g : GapRow) × ((start s started rep st).rep.gaps ≡ rep.gaps ++ g ∷ []) × IsGap m started g
unfolding start record_gap gap_row
start-away s started m rep st e away = rw (e, away) (_, refl, (refl, refl, refl, refl))

start-present :
    (s : Settings) (started m : ℕ) (rep : Replica) (st : Store)
    → last_alive st ≡ m
    → was_away s m started ≡ false
    → (start s started rep st).rep ≡ rep
unfolding start
start-present s started m rep st e present = rw (e, present) refl

last_alive-none : (st : Store) → st.last_alive_ms ≡ none → last_alive st ≡ 0
unfolding last_alive
last_alive-none st e = ap {B = ℕ} (λ (o : Option ℕ). elim o [ none ↦ 0 | some ms ↦ ms ]) e

away_lem :
    (s : Settings) (m started : ℕ)
    → 0 < m
    → 2 * s.interval / 1000000 < started - m
    → was_away s m started ≡ true
unfolding was_away
away_lem s m started h k = rw (lt→ltb 0 m h, lt→ltb (2 * s.interval / 1000000) (started - m) k) refl

present_lem :
    (s : Settings) (m started : ℕ)
    → started - m ≤ 2 * s.interval / 1000000
    → was_away s m started ≡ false
unfolding was_away
present_lem s m started k =
    let late : ltb (2 * s.interval / 1000000) (started - m) ≡ false = ground (arith, k) in
    ground (arith, late)

never_away : (s : Settings) (started : ℕ) → was_away s 0 started ≡ false
unfolding was_away
never_away s started = ground arith

-- A start, behind any ticks, failed or not, pruning, passes at the end and other starts, writes one gap
-- row, from the last tick that succeeded to its own time, where these are more than two polling
-- intervals apart; it leaves the replica as it is where they are not, and where no tick has succeeded.
pub start-IsGap :
    {env : Env} {severity : String → String} {p u : Projector} (r : Reach env severity p u)
    (s : Settings) (started : ℕ)
    → let after = (start s started u.rep u.st).rep in
      ((m : ℕ)
        → last_good r ≡ some m
        → 0 < m
        → 2 * s.interval / 1000000 < started - m
        → (g : GapRow) × (after.gaps ≡ u.rep.gaps ++ g ∷ []) × IsGap m started g)
      × ((m : ℕ) → last_good r ≡ some m → started - m ≤ 2 * s.interval / 1000000 → after ≡ u.rep)
      × (last_good r ≡ none → after ≡ u.rep)
start-IsGap {u = u} r s started = (
  λ m e h k.
      start-away s started m u.rep u.st (last_alive-some u.st m (last_good-alive r ∙ e))
        (away_lem s m started h k),
  λ m e k.
      start-present s started m u.rep u.st (last_alive-some u.st m (last_good-alive r ∙ e))
        (present_lem s m started k),
  λ e.
      start-present s started 0 u.rep u.st (last_alive-none u.st (last_good-alive r ∙ e))
        (never_away s started),
)
