-- ===== src/Store/BookingTx.antt =====
-- The two transactions of internal/store/bookings/bookings.go.
pub mod Outcome
use lewly_pgpyewj.Prelude.{
  ℕ, suc, Bool, true, false, ◌&&◌, Option, none, some, List, [], ◌∷◌, ◌++◌, Text, Uuid, Time, ltb,
  ◌==◌, empty_text, if◌then◌else◌, select, first_where, update_where, count_where, any_where,
  order_by, page,
}
use lewly_pgpyewj.Prelude.Int.{ℤ, pos, negsuc, ◌+ℤ◌}
use lewly_pgpyewj.Db.{
  Db, BookingRow, BookingStatus, PaymentStatus, SeatStatus, SeatsJson, json_null, json_array,
  json_other, User, Event, Seat, is_pending, is_booked, next_uuid,
}
use mathlib.Core.Option
use lewly_pgpyewj.Effect.{
  Result, ok, err, constraint, no_rows, bad_json, Exec, pure, raise, lift, query, sql, exec,
  exec_counting, ◌>>=◌, ◌>>◌, with_tx, for_each, require_rows, scan_nullable,
}
use lewly_pgpyewj.Store.Bookings.{Booking, with_id, scan_booking, set_booking}

-- json.Unmarshal into []string, skipped for an empty column
abbrev pub decode_seats : Option SeatsJson → Result (List Text)
decode_seats none = ok []
decode_seats (some json_null) = ok []
decode_seats (some (json_array labels)) = ok labels
decode_seats (some json_other) = err bad_json

-- UPDATE events SET reserved = reserved + $n WHERE id = $1
unfoldable pub add_reserved : Uuid → ℤ → Db → Db
add_reserved event_id n d = record d {
  events =
      update_where (λ (e : Event). e.id == event_id) (λ e. record e { reserved = e.reserved +ℤ n })
        d.events;
}

abbrev pub seat_at : Uuid → Text → Seat → Bool
seat_at event_id label s = s.event_id == event_id && s.seat_label == label

-- UPDATE seats SET status = 'available', held_by_booking = NULL, held_until = NULL
abbrev pub released : Seat → Seat
released s = record s { status = SeatStatus.available; held_by_booking = none; held_until = none }

-- UPDATE seats SET status = 'booked', held_by_booking = $1, held_until = NULL
abbrev pub booked_for : Uuid → Seat → Seat
booked_for booking_id s = record s {
  status = SeatStatus.booked;
  held_by_booking = some booking_id;
  held_until = none;
}

unfoldable pub set_seats : (Seat → Bool) → (Seat → Seat) → Db → Db
set_seats p f d = record d { seats = update_where p f d.seats }

abbrev pub or_no_rows : Option BookingRow → Exec BookingRow
or_no_rows none = raise no_rows
or_no_rows (some row) = pure row

-- what CancelBookingTx does for a booking that was booked
unfoldable pub release_booked : Booking → Exec (Unit {0})
release_booked b = do
  exec (add_reserved b.event_id (negsuc 0))
  labels ← lift (decode_seats b.seats)
  for_each labels (λ label. exec (set_seats (seat_at b.event_id label) released))

-- CancelBookingTx
unfoldable pub cancel_booking_tx : Uuid → Exec (Booking × Bool)
cancel_booking_tx booking_id = with_tx do
  found ← query (λ d. first_where (with_id booking_id) d.bookings)
  row ← or_no_rows found
  b ← scan_booking row
  exec (set_booking booking_id (λ r. record r { status = BookingStatus.cancelled }))
  if is_booked b.status then release_booked b else pure tt
  pure (record b { status = BookingStatus.cancelled }, is_booked b.status)

-- UPDATE bookings SET status = 'booked', … WHERE id = $3 AND status = 'pending'
unfoldable pub book_pending : Uuid → SeatsJson → ℤ → Db → Db
book_pending booking_id seats amount_paid d = record d {
  bookings =
      update_where (λ (b : BookingRow). b.id == booking_id && is_pending b.status)
        (λ b. record b {
          status = BookingStatus.booked;
          seats = some seats;
          amount_paid = amount_paid;
          payment_status = PaymentStatus.paid;
        })
        d.bookings;
}

-- FinalizeBooking
unfoldable pub finalize_booking : Uuid → SeatsJson → ℤ → Exec (Unit {0})
finalize_booking booking_id seats amount_paid = with_tx do
  found ← query (λ d. first_where (with_id booking_id) d.bookings)
  row ← or_no_rows found
  exec (book_pending booking_id seats amount_paid)
  labels ← lift (decode_seats (some seats))
  for_each labels (λ label. exec (set_seats (seat_at row.event_id label) (booked_for booking_id)))
  exec (add_reserved row.event_id (pos 1))
