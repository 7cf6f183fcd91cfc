-- ===== src/Store/Seats.antt =====
-- internal/store/seats/seats.go
use lewly_pgpyewj.Prelude.{
  suc, ◌&&◌, Option, none, some, List, [], ◌∷◌, ◌++◌, map, Text, Uuid, Time, ltb, ◌==◌,
  if◌then◌else◌, select, count_where, any_where, order_by,
}
use lewly_pgpyewj.Db.{Db, Event, Seat, SeatStatus, is_available, is_held, next_uuid}
use lewly_pgpyewj.Effect.{
  Result, ok, err, constraint, Exec, query, sql, exec, exec_counting, ◌>>=◌, with_tx, for_each,
  require_rows,
}
use lewly_pgpyewj.Store.BookingTx.{seat_at, released, booked_for, set_seats}

abbrev pub seat_row : Uuid → Text → Db → Seat
seat_row event_id label d = record {
  id = next_uuid d;
  event_id = event_id;
  seat_label = label;
  status = SeatStatus.available;
  held_until = none;
  held_by_booking = none;
}

unfoldable pub insert_seat : Uuid → Text → Db → Result (Unit {0} × Db)
insert_seat event_id label d =
    if any_where (λ (e : Event). e.id == event_id) d.events
    then ok
        (tt, record d { seats = d.seats ++ seat_row event_id label d ∷ []; drawn = suc d.drawn })
    else err constraint

-- CreateSeats
unfoldable pub create_seats : Uuid → List Text → Exec (Unit {0})
create_seats event_id labels = with_tx (for_each labels (λ label. sql (insert_seat event_id label)))

-- GetSeatsByEvent
unfoldable pub get_seats_by_event : Uuid → Exec (List Seat)
get_seats_by_event event_id = query (λ d.
    order_by (λ a b. ltb a.seat_label b.seat_label)
      (select (λ (s : Seat). s.event_id == event_id) d.seats))

-- GetAvailableSeats
unfoldable pub get_available_seats : Uuid → Exec (List Text)
get_available_seats event_id = query (λ d.
    map (λ (s : Seat). s.seat_label)
      (order_by (λ a b. ltb a.seat_label b.seat_label)
        (select (λ (s : Seat). s.event_id == event_id && is_available s.status) d.seats)))

-- UpdateSeatStatus
unfoldable pub update_seat_status :
    Uuid → Text → SeatStatus → Option Uuid → Option Time → Exec (Unit {0})
update_seat_status event_id label status held_by_booking held_until = do
  affected ←
      exec_counting (λ d. count_where (seat_at event_id label) d.seats)
        (set_seats (seat_at event_id label) (λ s. record s {
          status = status;
          held_by_booking = held_by_booking;
          held_until = held_until;
        }))
  require_rows affected

-- ReleaseSeats
unfoldable pub release_seats : Uuid → List Text → Exec (Unit {0})
release_seats event_id labels =
    with_tx (for_each labels (λ label. exec (set_seats (seat_at event_id label) released)))

-- BookSeats: only seats that are held
unfoldable pub book_seats : Uuid → List Text → Uuid → Exec (Unit {0})
book_seats event_id labels booking_id = with_tx (
    for_each labels (λ label.
      exec (set_seats (λ s. seat_at event_id label s && is_held s.status) (booked_for booking_id))))

abbrev pub held_for : Uuid → Time → Seat → Seat
held_for booking_id until s = record s {
  status = SeatStatus.held;
  held_by_booking = some booking_id;
  held_until = some until;
}

-- HoldSeats: only seats that are available
unfoldable pub hold_seats : Uuid → List Text → Uuid → Time → Exec (Unit {0})
hold_seats event_id labels booking_id until = with_tx (
    for_each labels (λ label. exec (
      set_seats (λ s. seat_at event_id label s && is_available s.status)
        (held_for booking_id until))))
