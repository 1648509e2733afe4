-- ===== src/Tracker/Invariant/Closing.antt =====
-- What closing spans and dwells keeps, for any property of the open interval that the two changes
-- of it keep.
use canebot_projector_repo.Base.{
  ℕ, ◌<◌, subst, String, List, [], ◌∷◌, leb, leb→lt, Bool-cases, Option-cases, inl, inr, lookup,
  delete-AllValues, lookup-AllValues,
}
use canebot_projector_repo.Tracker.State.{OpenStateSpan, OpenDwell, Interval, Tracker}
use canebot_projector_repo.Tracker.Close.{
  state_duration, add_state_duration, close_state_span_at, close_open_state_span, emit_dwell,
  close_dwell, close_dwells, close_open_dwells,
}
use canebot_projector_repo.Tracker.Invariant.Defs.{IsOpenDwell, OnSome, IsWorking}

module _ (P : Interval → Type 0)
    (keep_dwell : (iv : Interval) (d : OpenDwell) (at_ms : ℕ)
      → IsOpenDwell d
      → P iv
      → P (emit_dwell iv d at_ms))
    (keep_span : (iv : Interval) (s : OpenStateSpan) (at_ms : ℕ) (reason : String)
      → s.entered_ms < at_ms
      → P iv
      → P (add_state_duration iv (state_duration iv.order_key s at_ms reason))) where
  pub close_dwell-IsWorking :
      (t : Tracker) (lane : String) (at_ms : ℕ)
      → IsWorking P t
      → IsWorking P (close_dwell t lane at_ms)
  unfolding close_dwell
  close_dwell-IsWorking t lane at_ms w = elim (Option-cases (lookup lane t.open_dwells)) [
    | inl e ↦ rw (e, close_dwell) w
    | inr (d, e) ↦ elim (Option-cases t.current) [
      | inl c ↦ rw (e, c, close_dwell) w
      | inr (iv, c) ↦
          rw (e, c, close_dwell)
            (record {
              interval =
                  keep_dwell iv d at_ms
                    (lookup-AllValues IsOpenDwell lane t.open_dwells d w.open_dwells e)
                    (subst (OnSome P) c w.interval);
              open_dwells = delete-AllValues IsOpenDwell lane t.open_dwells w.open_dwells;
            })
    ]
  ]

  close_dwells-IsWorking :
      (t : Tracker) (lanes : List String) (at_ms : ℕ)
      → IsWorking P t
      → IsWorking P (close_dwells t lanes at_ms)
  unfolding close_dwells
  close_dwells-IsWorking t [] at_ms w = w
  close_dwells-IsWorking t (lane ∷ lanes) at_ms w =
      close_dwells-IsWorking (close_dwell t lane at_ms) lanes at_ms
        (close_dwell-IsWorking t lane at_ms w)

  pub close_state_span_at-IsWorking :
      (t : Tracker) (at_ms : ℕ) (reason : String)
      → IsWorking P t
      → IsWorking P (close_state_span_at t at_ms reason)
  unfolding close_state_span_at
  close_state_span_at-IsWorking t at_ms reason w = elim (Option-cases t.open_state) [
    | inl e ↦ rw (e, close_state_span_at) w
    | inr (s, e) ↦ elim (Option-cases t.current) [
      | inl c ↦ rw (e, c, close_state_span_at) w
      | inr (iv, c) ↦ elim (Bool-cases (leb at_ms s.entered_ms)) [
        | inl early ↦ rw (e, c, early, close_state_span_at) w
        | inr late ↦
            rw (e, c, late, close_state_span_at)
              (record {
                interval =
                    keep_span iv s at_ms reason (leb→lt _ _ late) (subst (OnSome P) c w.interval);
                open_dwells = w.open_dwells;
              })
      ]
    ]
  ]

  -- The first half of `closeInterval`.
  pub close_parts-IsWorking :
      (t : Tracker) (at_ms : ℕ)
      → IsWorking P t
      → IsWorking P (close_open_state_span (close_open_dwells t at_ms) at_ms "interval_end")
  unfolding close_open_state_span close_open_dwells
  close_parts-IsWorking t at_ms w =
      close_state_span_at-IsWorking _ at_ms "interval_end" (close_dwells-IsWorking t _ at_ms w)
