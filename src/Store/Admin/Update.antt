-- ===== src/Store/Admin/Update.antt =====
-- UpdateEvent of internal/store/admin/admin.go: the UPDATE that it builds from a map of columns.
pub mod Order
use lewly_pgpyewj.Prelude.{
  ℕ, Bool, true, false, ◌||◌, Option, none, some, List, [], ◌∷◌, Text, Uuid, Time, ◌==◌, any_where,
  count_where, if◌then◌else◌,
}
use lewly_pgpyewj.Prelude.Int.{ℤ}
use lewly_pgpyewj.Db.{
  Db, Event, Assignment, set_name, set_venue, set_category, set_metadata, set_start_time,
  set_end_time, set_created_at, set_capacity, set_reserved, set_likes,
  set_maximum_tickets_per_booking, set_ticket_price, set_cancellation_fee, set_status,
  set_event_seats,
}
use lewly_pgpyewj.Effect.{Exec, err, bad_statement, gets, sql, exec_counting, require_rows, ◌>>=◌}
use lewly_pgpyewj.Store.Events.{event_with, set_events}

abbrev pub column_of : Assignment → ℕ
column_of (set_name v) = 0
column_of (set_venue v) = 1
column_of (set_category v) = 2
column_of (set_metadata v) = 3
column_of (set_start_time v) = 4
column_of (set_end_time v) = 5
column_of (set_created_at v) = 6
column_of (set_capacity v) = 7
column_of (set_reserved v) = 8
column_of (set_likes v) = 9
column_of (set_maximum_tickets_per_booking v) = 10
column_of (set_ticket_price v) = 11
column_of (set_cancellation_fee v) = 12
column_of (set_status v) = 13
column_of (set_event_seats v) = 14

unfoldable pub assign : Assignment → Event → Event
assign (set_name v) e = record e { name = v }
assign (set_venue v) e = record e { venue = v }
assign (set_category v) e = record e { category = v }
assign (set_metadata v) e = record e { metadata = v }
assign (set_start_time v) e = record e { start_time = v }
assign (set_end_time v) e = record e { end_time = v }
assign (set_created_at v) e = record e { created_at = v }
assign (set_capacity v) e = record e { capacity = v }
assign (set_reserved v) e = record e { reserved = v }
assign (set_likes v) e = record e { likes = v }
assign (set_maximum_tickets_per_booking v) e = record e { maximum_tickets_per_booking = v }
assign (set_ticket_price v) e = record e { ticket_price = v }
assign (set_cancellation_fee v) e = record e { cancellation_fee = v }
assign (set_status v) e = record e { status = v }
-- the column seats of events, which nothing reads
assign (set_event_seats v) e = e

abbrev pub assign_all : List Assignment → Event → Event
assign_all [] e = e
assign_all (a ∷ rest) e = assign_all rest (assign a e)

-- Postgres refuses a column that is set twice.
abbrev pub sets_twice : List Assignment → Bool
sets_twice [] = false
sets_twice (a ∷ rest) = any_where (λ b. column_of b == column_of a) rest || sets_twice rest

abbrev pub also : Option Assignment → Option (List Assignment) → Option (List Assignment)
also (some a) (some rest) = some (a ∷ rest)
also _ _ = none

abbrev pub is_empty : {A : Type 0} → List A → Bool
is_empty [] = true
is_empty (x ∷ xs) = false

-- the UPDATE itself, and pgx.ErrNoRows if no row is affected
unfoldable pub set_row : Uuid → (Event → Event) → Exec (Unit {0})
set_row event_id f = do
  affected ←
      exec_counting (λ d. count_where (event_with event_id) d.events)
        (set_events (event_with event_id) f)
  require_rows affected

abbrev pub bound : (Text → Text → Option Assignment) → List (Text × Text) → Option (List Assignment)
bound bind [] = some []
bound bind ((field, value) ∷ rest) = also (bind field value) (bound bind rest)

abbrev pub run_update : Uuid → Option (List Assignment) → Exec (Unit {0})
run_update event_id none = sql (λ d. err bad_statement)
run_update event_id (some rest) =
    if sets_twice rest then sql (λ d. err bad_statement) else set_row event_id (assign_all rest)

-- UpdateEvent: without columns the statement is `SET , updated_at = now()`
unfoldable pub update_event : Uuid → List (Text × Text) → Exec (Unit {0})
update_event event_id us = do
  bind ← gets (λ w. w.bind_column)
  if is_empty us then sql (λ d. err bad_statement) else run_update event_id (bound bind us)
