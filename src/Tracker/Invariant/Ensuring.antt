-- ===== src/Tracker/Invariant/Ensuring.antt =====
-- Closing and opening intervals keep the invariant.
use canebot_projector_repo.Base.{
  ℕ, ◌<◌, ◌≡◌, refl, sym, ◌∙◌, subst, ◌⊎◌, String, Bool, true, false, Option, none, some, str_eq,
  if◌then◌else◌, All, All-snoc, arith, leb, leb→lt, Bool-cases, Option-cases, inl, inr,
}
use canebot_projector_repo.Labels.{result_for_state}
use canebot_projector_repo.Tracker.State.{OpenStateSpan, OpenDwell, Interval, Tracker}
use canebot_projector_repo.Tracker.Close.{
  state_duration, add_state_duration, emit_dwell, add_step_dwell, finish, dominant_key,
  queue_interval, close_interval,
}
use canebot_projector_repo.Tracker.Ensure.{
  is_overdue, is_current_order, is_current_kind, forced_result, close_overdue, open_interval,
  reset_per_interval, open_synthetic, ensure_order, ensure_kind, ensure_interval,
}
use canebot_projector_repo.Tracker.Invariant.Defs.{
  IsOpen, IsClosed, IsOpenDwell, OnSome, IsValid, fits,
}
use canebot_projector_repo.Tracker.Invariant.Intervals.{
  emit_dwell-IsOpen, add_state_duration-IsOpen, state_duration-IsSpan, finish-IsOpen,
  new_interval-IsOpen,
}
use canebot_projector_repo.Tracker.Invariant.Closing.{close_parts-IsWorking}
use canebot_projector_repo.Tracker.Invariant.Frames.{
  parts, parts-Keeps, close_interval-Keeps, close_interval-current, close_interval-open_dwells,
}

-- The result that is forced on an interval is none, or one of its kind.
abbrev pub CanForce : String → Interval → Type 0
CanForce forced iv = (forced ≡ "") ⊎ (fits iv.is_production forced ≡ true)

result_kind-fits :
    (a b c : Bool)
    → fits false
        (if a then "maintenance" else if b then "manual" else if c then "error" else "idle")
      ≡ true
unfolding fits
result_kind-fits true b c = refl
result_kind-fits false true c = refl
result_kind-fits false false true = refl
result_kind-fits false false false = refl

pub result_for_state-fits : (state : String) → fits false (result_for_state state) ≡ true
unfolding result_for_state
result_for_state-fits state =
    result_kind-fits (str_eq state "Maintenance") (str_eq state "Manual") (str_eq state "Error")

module _ (severity : String → String) where
  abbrev Closable : String → Interval → Type 0
  Closable forced iv = IsOpen severity 0 iv × CanForce forced iv

  emit_dwell-Closable :
      (forced : String) (iv : Interval) (d : OpenDwell) (at_ms : ℕ)
      → IsOpenDwell d
      → Closable forced iv
      → Closable forced (emit_dwell iv d at_ms)
  unfolding emit_dwell add_step_dwell
  emit_dwell-Closable forced iv d at_ms lane (h, ok) =
      (emit_dwell-IsOpen iv h d at_ms lane, ground arith)

  add_state_duration-Closable :
      (forced : String) (iv : Interval) (s : OpenStateSpan) (at_ms : ℕ) (reason : String)
      → s.entered_ms < at_ms
      → Closable forced iv
      → Closable forced (add_state_duration iv (state_duration iv.order_key s at_ms reason))
  unfolding add_state_duration
  add_state_duration-Closable forced iv s at_ms reason late (h, ok) =
      (add_state_duration-IsOpen iv h _ (state_duration-IsSpan iv h s at_ms reason late), ok)

  queued-IsClosed :
      (forced : String) (iv : Interval) (at_ms : ℕ)
      → Closable forced iv
      → iv.started_ms < at_ms
      → IsClosed severity (record (finish iv at_ms forced) {
        dominant_fault_type = dominant_key iv.fault_type_counts;
      })
  unfolding finish
  queued-IsClosed forced iv at_ms (h, ok) late =
      let done : IsOpen severity 0 (finish iv at_ms forced) = finish-IsOpen iv h at_ms forced ok in
      record { was_open = assumption done; not_empty = late; dominant = refl }

  queue_interval-queue :
      (t : Tracker) (at_ms : ℕ) (forced : String)
      → OnSome (Closable forced) t.current
      → All (IsClosed severity) t.closed
      → All (IsClosed severity) (queue_interval t at_ms forced).closed
  unfolding queue_interval
  queue_interval-queue t at_ms forced c q = elim (Option-cases t.current) [
    | inl e ↦ rw (e, queue_interval) q
    | inr (iv, e) ↦ elim (Bool-cases (leb at_ms iv.started_ms)) [
      | inl early ↦ rw (e, early, queue_interval) q
      | inr late ↦
          rw (e, late, queue_interval)
            (All-snoc (IsClosed severity) t.closed _ q (
              queued-IsClosed forced iv at_ms (subst (OnSome (Closable forced)) e c)
                (leb→lt _ _ late)))
    ]
  ]

  close_interval-queue :
      (t : Tracker) (at_ms : ℕ) (forced : String)
      → IsValid severity t
      → OnSome (CanForce forced) t.current
      → All (IsClosed severity) (close_interval t at_ms forced).closed
  unfolding close_interval
  close_interval-queue t at_ms forced v ok = elim (Option-cases t.current) [
    | inl e ↦ rw (e, close_interval) v.queue
    | inr (iv, e) ↦
        rw (e, close_interval)
          (queue_interval-queue (parts t at_ms) at_ms forced
            (close_parts-IsWorking (Closable forced) (emit_dwell-Closable forced)
              (add_state_duration-Closable forced) t at_ms
              (record {
                interval = subst (OnSome (Closable forced)) (sym e) (
                  subst (OnSome (IsOpen severity 0)) e v.working.interval,
                  subst (OnSome (CanForce forced)) e ok,
                );
                open_dwells = v.working.open_dwells;
              })).interval
            (subst (All (IsClosed severity)) (sym (parts-Keeps t at_ms).1.0) v.queue))
  ]

  pub close_interval-IsValid :
      (t : Tracker) (at_ms : ℕ) (forced : String)
      → IsValid severity t
      → OnSome (CanForce forced) t.current
      → IsValid severity (close_interval t at_ms forced)
  close_interval-IsValid t at_ms forced v ok =
      let k = close_interval-Keeps t at_ms forced in
      let c = close_interval-current t at_ms forced in
      let d = close_interval-open_dwells t at_ms forced v.idle in
      record {
        classifier = k.severity ∙ v.classifier;
        working = record { interval = rw c tt; open_dwells = rw d tt };
        door = rw k.open_door_episode v.door;
        queue = close_interval-queue t at_ms forced v ok;
        idle = λ _. d;
      }

  pub forced_result-fits :
      (iv : Interval) → IsOpen severity 0 iv → fits iv.is_production (forced_result iv) ≡ true
  unfolding forced_result fits
  forced_result-fits iv h = elim (Bool-cases iv.is_production) [
    | inl p ↦ rw p refl
    | inr p ↦ rw p (subst (λ b. fits b iv.result ≡ true) p h.result_fits)
  ]

  pub close_overdue-IsValid :
      (t : Tracker) (at_ms : ℕ) → IsValid severity t → IsValid severity (close_overdue t at_ms)
  unfolding close_overdue
  close_overdue-IsValid t at_ms v = elim (Option-cases t.current) [
    | inl e ↦ simp (e, close_overdue) v
    | inr (iv, e) ↦
        let h = subst (OnSome (IsOpen severity 0)) e v.working.interval in
        elim (Bool-cases (is_overdue iv at_ms)) [
          | inl late ↦
              simp (e, late, close_overdue)
                (close_interval-IsValid t at_ms (forced_result iv) v
                  (rw e (inr (forced_result-fits iv h))))
          | inr early ↦ simp (e, early, close_overdue) v
        ]
  ]

  pub open_interval-IsValid :
      (t : Tracker) (iv : Interval)
      → IsValid severity t
      → IsOpen severity 0 iv
      → IsValid severity (open_interval t iv)
  unfolding open_interval reset_per_interval
  open_interval-IsValid t iv v h = record {
    classifier = v.classifier;
    working = record { interval = h; open_dwells = v.working.open_dwells };
    door = v.door;
    queue = v.queue;
    idle = λ e. cc;
  }

  none_forced : (c : Option Interval) → OnSome (CanForce "") c
  none_forced none = tt
  none_forced (some iv) = inl refl

  ensure_order-IsValid :
      (t : Tracker) (order_key : String) (at_ms : ℕ)
      → IsValid severity t
      → IsValid severity (ensure_order t order_key at_ms)
  unfolding ensure_order
  ensure_order-IsValid t order_key at_ms v = elim (Bool-cases (is_current_order t order_key)) [
    | inl same ↦ rw same v
    | inr other ↦ rw other (
        open_interval-IsValid _ _ (close_interval-IsValid t at_ms "" v (none_forced t.current))
          (new_interval-IsOpen severity order_key true at_ms "aborted" (unfold fits in refl)))
  ]

  count_key-IsValid :
      (t : Tracker) (n : ℕ) → IsValid severity t → IsValid severity (record t { synth_counter = n })
  count_key-IsValid t n v = record {
    classifier = v.classifier;
    working = record { interval = v.working.interval; open_dwells = v.working.open_dwells };
    door = v.door;
    queue = v.queue;
    idle = v.idle;
  }

  ensure_kind-IsValid :
      (t : Tracker) (state : String) (at_ms : ℕ)
      → IsValid severity t
      → IsValid severity (ensure_kind t (result_for_state state) at_ms)
  unfolding ensure_kind open_synthetic
  ensure_kind-IsValid t state at_ms v =
      let want = result_for_state state in
      elim (Bool-cases (is_current_kind t want)) [
        | inl same ↦ rw same v
        | inr other ↦ rw other (
            open_interval-IsValid _ _
              (count_key-IsValid _ _ (close_interval-IsValid t at_ms "" v (none_forced t.current)))
              (new_interval-IsOpen severity _ false at_ms want (result_for_state-fits state)))
      ]

  pub ensure_interval-IsValid :
      (t : Tracker) (order_key state : String) (at_ms : ℕ)
      → IsValid severity t
      → IsValid severity (ensure_interval t order_key state at_ms)
  unfolding ensure_interval
  ensure_interval-IsValid t order_key state at_ms v =
      let v' = close_overdue-IsValid t at_ms v in
      elim (Bool-cases (str_eq order_key "")) [
        | inl e ↦ rw e (ensure_kind-IsValid _ state at_ms v')
        | inr e ↦ rw e (ensure_order-IsValid _ order_key at_ms v')
      ]
