-- ===== src/Tracker/Invariant/Frames.antt =====
-- What closing leaves alone, and that closing the open dwells leaves none open.
use canebot_projector_repo.Base.{
  ℕ, ◌≡◌, refl, ◌∙◌, ap, String, true, ◌||◌, none, List, [], ◌∷◌, str_eq, eq_iff, eq_refl, All,
  arith, lookup, delete, keys, sort, insert_sorted, sort_strings, str_lt, is_some,
}
use canebot_projector_repo.Labels.{contains}
use canebot_projector_repo.Tracker.State.{OpenDwell, Tracker}
use canebot_projector_repo.Tracker.Close.{
  close_state_span_at, close_open_state_span, close_dwell, close_dwells, close_open_dwells,
  queue_interval, close_interval,
}
use canebot_projector_repo.Tracker.Invariant.Defs.{Keeps}

pub Keeps-refl : (t : Tracker) → Keeps t t
Keeps-refl t = ground arith

pub Keeps-trans : (t u v : Tracker) → Keeps t u → Keeps u v → Keeps t v
Keeps-trans t u v h k = ground arith

pub close_dwell-Keeps :
    (t : Tracker) (lane : String) (at_ms : ℕ) → Keeps t (close_dwell t lane at_ms)
unfolding close_dwell
close_dwell-Keeps t lane at_ms = ground arith

-- Neither the queue nor whether an interval is open changes.
abbrev pub SameQueue : Tracker → Tracker → Type 0
SameQueue t u = (u.closed ≡ t.closed) × (is_some u.current ≡ is_some t.current)

pub close_dwell-SameQueue :
    (t : Tracker) (lane : String) (at_ms : ℕ) → SameQueue t (close_dwell t lane at_ms)
unfolding close_dwell
close_dwell-SameQueue t lane at_ms = ground arith

close_dwells-Keeps :
    (t : Tracker) (lanes : List String) (at_ms : ℕ)
    → Keeps t (close_dwells t lanes at_ms) × SameQueue t (close_dwells t lanes at_ms)
unfolding close_dwells
close_dwells-Keeps t [] at_ms = (Keeps-refl t, (refl, refl))
close_dwells-Keeps t (lane ∷ lanes) at_ms =
    let u = close_dwell t lane at_ms in
    let (k, (q, o)) = close_dwells-Keeps u lanes at_ms in
    let (q', o') = close_dwell-SameQueue t lane at_ms in
    (Keeps-trans t u _ (close_dwell-Keeps t lane at_ms) k, (q ∙ q', o ∙ o'))

pub close_state_span_at-Keeps :
    (t : Tracker) (at_ms : ℕ) (reason : String)
    → Keeps t (close_state_span_at t at_ms reason)
      × SameQueue t (close_state_span_at t at_ms reason)
      × ((close_state_span_at t at_ms reason).open_dwells ≡ t.open_dwells)
unfolding close_state_span_at
close_state_span_at-Keeps t at_ms reason = ground arith

-- Membership among sorted texts.
contains-insert_sorted :
    (x k : String) (xs : List String)
    → contains (insert_sorted str_lt x xs) k ≡ (str_eq x k || contains xs k)
unfolding contains
contains-insert_sorted x k [] = refl
contains-insert_sorted x k (y ∷ ys) = ground (arith, contains-insert_sorted x k ys)

pub contains-sort : (k : String) (xs : List String) → contains (sort str_lt xs) k ≡ contains xs k
unfolding contains sort
contains-sort k [] = refl
contains-sort k (x ∷ xs) =
    contains-insert_sorted x k (sort str_lt xs) ∙ ap (λ b. str_eq x k || b) (contains-sort k xs)

-- Every key of the map is among the lanes.
abbrev Covered : List String → List (String × OpenDwell) → Type 0
Covered lanes = All (λ e. contains lanes e.0 ≡ true)

Covered-none : (m : List (String × OpenDwell)) → Covered [] m → m ≡ []
unfolding contains
Covered-none [] c = refl
Covered-none (e ∷ m) c = cc

Covered-delete :
    (lane : String) (lanes : List String) (m : List (String × OpenDwell))
    → Covered (lane ∷ lanes) m
    → Covered lanes (delete lane m)
unfolding contains delete
Covered-delete lane lanes [] c = tt
Covered-delete lane lanes ((k, d) ∷ m) c =
    ground (arith, Covered-delete lane lanes m c.1, eq_iff k lane, eq_iff lane k)

Covered-missing :
    (lane : String) (lanes : List String) (m : List (String × OpenDwell))
    → Covered (lane ∷ lanes) m
    → lookup lane m ≡ none
    → Covered lanes m
unfolding contains lookup
Covered-missing lane lanes [] c e = tt
Covered-missing lane lanes ((k, d) ∷ m) c e =
    ground (arith, Covered-missing lane lanes m c.1, eq_iff k lane, eq_iff lane k)

Covered-step :
    (t : Tracker) (lane : String) (lanes : List String) (at_ms : ℕ)
    → is_some t.current ≡ true
    → Covered (lane ∷ lanes) t.open_dwells
    → Covered lanes (close_dwell t lane at_ms).open_dwells
unfolding close_dwell
Covered-step t lane lanes at_ms o c =
    ground
      (arith, Covered-delete lane lanes t.open_dwells c, Covered-missing lane lanes t.open_dwells c)

close_dwells-empty :
    (t : Tracker) (lanes : List String) (at_ms : ℕ)
    → is_some t.current ≡ true
    → Covered lanes t.open_dwells
    → (close_dwells t lanes at_ms).open_dwells ≡ []
unfolding close_dwells
close_dwells-empty t [] at_ms o c = Covered-none t.open_dwells c
close_dwells-empty t (lane ∷ lanes) at_ms o c =
    close_dwells-empty (close_dwell t lane at_ms) lanes at_ms
      ((close_dwell-SameQueue t lane at_ms).1 ∙ o) (Covered-step t lane lanes at_ms o c)

Covered-weaken :
    (x : String) (lanes : List String) (m : List (String × OpenDwell))
    → Covered lanes m
    → Covered (x ∷ lanes) m
unfolding contains
Covered-weaken x lanes [] c = tt
Covered-weaken x lanes (e ∷ m) c = ground (arith, Covered-weaken x lanes m c.1)

Covered-keys : (m : List (String × OpenDwell)) → Covered (keys m) m
unfolding contains
Covered-keys [] = tt
Covered-keys ((k, d) ∷ m) = (rw eq_refl, Covered-weaken k (keys m) m (Covered-keys m))

Covered-sorted :
    (lanes : List String) (m : List (String × OpenDwell))
    → Covered lanes m
    → Covered (sort_strings lanes) m
unfolding sort_strings
Covered-sorted lanes [] c = tt
Covered-sorted lanes ((k, d) ∷ m) c = (contains-sort k lanes ∙ c.0, Covered-sorted lanes m c.1)

-- `closeOpenDwells` closes every open dwell of an open interval.
close_open_dwells-empty :
    (t : Tracker) (at_ms : ℕ)
    → is_some t.current ≡ true
    → (close_open_dwells t at_ms).open_dwells ≡ []
unfolding close_open_dwells
close_open_dwells-empty t at_ms o =
    close_dwells-empty t (sort_strings (keys t.open_dwells)) at_ms o
      (Covered-sorted (keys t.open_dwells) t.open_dwells (Covered-keys t.open_dwells))

abbrev pub parts : Tracker → ℕ → Tracker
parts t at_ms = close_open_state_span (close_open_dwells t at_ms) at_ms "interval_end"

-- The first half of `closeInterval`.
pub parts-Keeps : (t : Tracker) (at_ms : ℕ) → Keeps t (parts t at_ms) × SameQueue t (parts t at_ms)
unfolding close_open_state_span close_open_dwells
parts-Keeps t at_ms =
    let u = close_open_dwells t at_ms in
    let (k, (q, o)) = close_dwells-Keeps t (sort_strings (keys t.open_dwells)) at_ms in
    let (k', (q', o'), _) = close_state_span_at-Keeps u at_ms "interval_end" in
    (Keeps-trans t u _ k k', (q' ∙ q, o' ∙ o))

pub parts_empty :
    (t : Tracker) (at_ms : ℕ) → is_some t.current ≡ true → (parts t at_ms).open_dwells ≡ []
unfolding close_open_state_span
parts_empty t at_ms o =
    (close_state_span_at-Keeps (close_open_dwells t at_ms) at_ms "interval_end").2
    ∙ close_open_dwells-empty t at_ms o

queue_interval-Keeps :
    (t : Tracker) (at_ms : ℕ) (forced : String) → Keeps t (queue_interval t at_ms forced)
unfolding queue_interval
queue_interval-Keeps t at_ms forced = ground arith

pub close_interval-Keeps :
    (t : Tracker) (at_ms : ℕ) (forced : String) → Keeps t (close_interval t at_ms forced)
unfolding close_interval
close_interval-Keeps t at_ms forced =
    ground (arith, parts-Keeps t at_ms, queue_interval-Keeps (parts t at_ms) at_ms forced)

-- Nothing is open behind `closeInterval`.
pub close_interval-current :
    (t : Tracker) (at_ms : ℕ) (forced : String) → (close_interval t at_ms forced).current ≡ none
unfolding close_interval queue_interval
close_interval-current t at_ms forced = ground arith

pub close_interval-open_dwells :
    (t : Tracker) (at_ms : ℕ) (forced : String)
    → (t.current ≡ none → t.open_dwells ≡ [])
    → (close_interval t at_ms forced).open_dwells ≡ []
unfolding close_interval queue_interval
close_interval-open_dwells t at_ms forced idle = ground (arith, parts_empty t at_ms, idle)
