-- ===== src/Tracker/Ensured.antt =====
-- What `ensureInterval` of cmd/projector/tracker.go ensures.
use canebot_projector_repo.Base.{
  ℕ, suc, ◌+◌, ◌<◌, ◌≡◌, refl, ap, inl, inr, String, true, false, not, ◌&&◌, Option, some, str_eq,
  eq_iff, if◌then◌else◌, arith, Bool-cases, Option-cases,
}
use canebot_projector_repo.Labels.{result_for_state, max_interval_ms}
use canebot_projector_repo.Tracker.State.{Interval, new_interval, Tracker}
use canebot_projector_repo.Tracker.Close.{close_interval}
use canebot_projector_repo.Tracker.Ensure.{
  is_overdue, forced_result, close_overdue, reset_per_interval, open_interval, is_current_order,
  is_current_kind, ensure_order, open_synthetic, ensure_kind, ensure_interval, synth_key,
}
use canebot_projector_repo.Tracker.Invariant.Frames.{close_interval-current}

-- The interval has been open for less than the cap.
abbrev pub IsFresh : ℕ → Interval → Type 0
IsFresh at_ms iv = at_ms < iv.started_ms + max_interval_ms

-- The interval belongs to the order, or without one is a synthetic interval of the state's kind.
abbrev pub IsWanted : String → String → Interval → Type 0
IsWanted order_key state iv =
    if str_eq order_key ""
    then (iv.is_production ≡ false) × (iv.result ≡ result_for_state state)
    else (iv.order_key ≡ order_key)

close_overdue-IsFresh :
    (t : Tracker) (at_ms : ℕ) (iv : Interval)
    → (close_overdue t at_ms).current ≡ some iv
    → IsFresh at_ms iv
unfolding close_overdue is_overdue
close_overdue-IsFresh t at_ms iv h = elim (Option-cases t.current) [
  | inl c ↦ ground (arith, ap (λ (o : Option Interval). o) c)
  | inr (iv', c) ↦ ground (arith, close_interval-current t at_ms (forced_result iv'))
]

ensure_order_opens :
    (t : Tracker) (order_key : String) (at_ms : ℕ)
    → ((iv : Interval) → t.current ≡ some iv → IsFresh at_ms iv)
    → (iv : Interval) × ((ensure_order t order_key at_ms).current ≡ some iv)
      × (iv.order_key ≡ order_key)
      × IsFresh at_ms iv
unfolding ensure_order is_current_order open_interval reset_per_interval new_interval
ensure_order_opens t order_key at_ms fresh = elim (Option-cases t.current) [
  | inl c ↦ (new_interval order_key true at_ms "aborted", ground arith, refl, omega arith)
  | inr (iv, c) ↦ elim (Bool-cases (str_eq iv.order_key order_key)) [
    | inl same ↦ (iv, ground arith, (eq_iff iv.order_key order_key).0 same, fresh iv c)
    | inr other ↦ (new_interval order_key true at_ms "aborted", ground arith, refl, omega arith)
  ]
]

-- The synthetic interval that `ensureInterval` opens.
abbrev synthetic : Tracker → String → ℕ → Interval
unfolding new_interval
synthetic t want at_ms =
    let n = suc (close_interval t at_ms "").synth_counter in
    new_interval (synth_key want at_ms n) false at_ms want

ensure_kind_opens :
    (t : Tracker) (want : String) (at_ms : ℕ)
    → ((iv : Interval) → t.current ≡ some iv → IsFresh at_ms iv)
    → (iv : Interval) × ((ensure_kind t want at_ms).current ≡ some iv)
      × ((iv.is_production ≡ false) × (iv.result ≡ want))
      × IsFresh at_ms iv
unfolding ensure_kind is_current_kind open_synthetic open_interval reset_per_interval new_interval
ensure_kind_opens t want at_ms fresh = elim (Option-cases t.current) [
  | inl c ↦ (synthetic t want at_ms, ground arith, (refl, refl), omega arith)
  | inr (iv, c) ↦ elim (Bool-cases (not iv.is_production && str_eq iv.result want)) [
    | inl same ↦
        (iv, ground arith, (ground arith, (eq_iff iv.result want).0 (ground arith)), fresh iv c)
    | inr other ↦ (synthetic t want at_ms, ground arith, (refl, refl), omega arith)
  ]
]

-- Behind `ensureInterval` an interval is open. It is the order's, or without an order a synthetic one
-- of the state's kind; and it has been open for less than the cap of 15 minutes.
pub ensure_interval_lem :
    (t : Tracker) (order_key state : String) (at_ms : ℕ)
    → (iv : Interval) × ((ensure_interval t order_key state at_ms).current ≡ some iv)
      × IsWanted order_key state iv
      × IsFresh at_ms iv
unfolding ensure_interval
ensure_interval_lem t order_key state at_ms =
    let u = close_overdue t at_ms in
    let fresh = close_overdue-IsFresh t at_ms in
    elim (Bool-cases (str_eq order_key "")) [
      | inl e ↦ rw e (ensure_kind_opens u (result_for_state state) at_ms fresh)
      | inr e ↦ rw e (ensure_order_opens u order_key at_ms fresh)
    ]
