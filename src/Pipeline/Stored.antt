-- ===== src/Pipeline/Stored.antt =====
-- What is stored in the state store is what is read from it.
use canebot_projector_repo.Base.{
  ℕ, ◌≡◌, ap, ◌∙◌, String, Bool, false, Option, none, some, lookup, lookup-insert, str_eq, eq_refl,
  if◌then◌else◌,
}
use canebot_projector_repo.Pipeline.Store.{Cursor, Store, cursor, set_cursor}

-- The cursor of a table that is found, or zero.
abbrev or_new : Option Cursor → Cursor
or_new none = record { last_src_id = 0; last_closed_ms = 0 }
or_new (some c) = c

pub cursor-set_self :
    (st : Store) (table : String) (id ms : ℕ)
    → cursor (set_cursor st table id ms) table ≡ record { last_src_id = id; last_closed_ms = ms }
unfolding cursor set_cursor
cursor-set_self st table id ms =
    let c : Cursor = record { last_src_id = id; last_closed_ms = ms } in
    ap or_new (
      lookup-insert table table c st.cursors
      ∙ ap (λ (b : Bool). if b then some c else lookup table st.cursors) (eq_refl table))

pub cursor-set_other :
    (st : Store) (table other : String) (id ms : ℕ)
    → str_eq table other ≡ false
    → cursor (set_cursor st table id ms) other ≡ cursor st other
unfolding cursor set_cursor
cursor-set_other st table other id ms d =
    let c : Cursor = record { last_src_id = id; last_closed_ms = ms } in
    ap or_new (
      lookup-insert table other c st.cursors
      ∙ ap (λ (b : Bool). if b then some c else lookup other st.cursors) d)
