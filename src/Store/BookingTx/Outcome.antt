-- ===== src/Store/BookingTx/Outcome.antt =====
-- What the two transactions leave in the database, against a description without loops.
use lewly_pgpyewj.Prelude.{
  Bool-cases, inl, inr, ◌≡◌, refl, ap, sym, ◌∙◌, arith, Bool, ◌&&◌, none, some, List, [], ◌∷◌, Uuid,
  Text, ◌==◌, if◌then◌else◌, first_where, update_where, any_where,
}
use lewly_pgpyewj.Prelude.Int.{ℤ, pos, negsuc, ◌+ℤ◌}
use lewly_pgpyewj.Db.{
  Db, BookingRow, BookingStatus, PaymentStatus, Seat, SeatStatus, Event, json_array, is_booked,
  is_pending,
}
use lewly_pgpyewj.Effect.{Result, ok, World, calm, call, query, sql, exec, for_each, with_tx, ◌>>=◌}
use lewly_pgpyewj.Store.Bookings.{Booking, with_id, scan_booking, set_booking}
use lewly_pgpyewj.Store.BookingTx.{
  decode_seats, cancel_booking_tx, seat_at, released, booked_for, set_seats, add_reserved,
  book_pending, finalize_booking, release_booked,
}

-- a seat of the event with one of the labels
abbrev pub seat_among : Uuid → List Text → Seat → Bool
seat_among event_id labels s =
    s.event_id == event_id && any_where (λ label. s.seat_label == label) labels

-- an UPDATE that keeps the key of a seat, and that does nothing the second time
pub record IsSeatUpdate (f : Seat → Seat) : Type 0 where
  pub same_event : (s : Seat) → (f s).event_id ≡ s.event_id
  pub same_label : (s : Seat) → (f s).seat_label ≡ s.seat_label
  pub once : (s : Seat) → f (f s) ≡ f s

pub booked_for-IsSeatUpdate : (id : Uuid) → IsSeatUpdate (booked_for id)
booked_for-IsSeatUpdate id = record {
  same_event = λ s. refl;
  same_label = λ s. refl;
  once = λ s. refl;
}

pub released-IsSeatUpdate : IsSeatUpdate released
released-IsSeatUpdate = record { same_event = λ s. refl; same_label = λ s. refl; once = λ s. refl }

abbrev done_with : World → List Seat → Result (Unit {0}) × World
done_with w seats = (ok tt, record (calm w) { db = record w.db { seats = seats } })

module _ (f : Seat → Seat) (law : IsSeatUpdate f) (event_id : Uuid) where
  update_one_more :
      (label : Text) (labels : List Text) (seats : List Seat)
      → update_where (seat_among event_id labels) f (update_where (seat_at event_id label) f seats)
        ≡ update_where (seat_among event_id (label ∷ labels)) f seats
  update_one_more label labels [] = refl
  update_one_more label labels (s ∷ seats) =
      ground
        (arith, law.same_event s, law.same_label s, law.once s, update_one_more label labels seats)

  update_none : (seats : List Seat) → update_where (seat_among event_id []) f seats ≡ seats
  update_none [] = refl
  update_none (s ∷ seats) = ground (arith, update_none seats)

  -- One UPDATE for each label is one UPDATE for all of them.
  pub for_each-set_seats :
      (labels : List Text) (w : World)
      → for_each labels (λ label. exec (set_seats (seat_at event_id label) f)) (calm w)
        ≡ (ok tt, record (calm w) { db = set_seats (seat_among event_id labels) f w.db })
  unfolding for_each exec sql call set_seats ◌>>=◌
  for_each-set_seats [] w = ap (done_with w) (sym (update_none w.db.seats))
  for_each-set_seats (label ∷ labels) w =
      for_each-set_seats labels (record (calm w) { db = set_seats (seat_at event_id label) f w.db })
      ∙ ap (done_with w) (update_one_more label labels w.db.seats)

-- a seat of a finalized booking
abbrev pub taken_by : Uuid → Seat → Seat
taken_by booking_id s = record s {
  status = SeatStatus.booked;
  held_by_booking = some booking_id;
  held_until = none;
}

-- what a finalized booking leaves: each table of the three, row by row
abbrev pub finalized : Uuid → Uuid → List Text → ℤ → Db → Db
finalized event_id booking_id labels amount d = record d {
  bookings =
      update_where (λ (b : BookingRow). b.id == booking_id && is_pending b.status)
        (λ b. record b {
          status = BookingStatus.booked;
          seats = some (json_array labels);
          amount_paid = amount;
          payment_status = PaymentStatus.paid;
        })
        d.bookings;
  seats = update_where (seat_among event_id labels) (taken_by booking_id) d.seats;
  events =
      update_where (λ (e : Event). e.id == event_id)
        (λ e. record e { reserved = e.reserved +ℤ pos 1 }) d.events;
}

-- When no call fails, FinalizeBooking of a booking that exists succeeds. It makes the booking
-- booked and paid if it is pending; it makes every seat of its event with one of the labels booked
-- by it, whoever had booked the seat; and it raises the event's reserved count by 1, whatever the
-- status of the booking and the number of labels.
pub finalize_booking-finalized :
    (id : Uuid) (labels : List Text) (amount : ℤ) (w : World) (row : BookingRow)
    → first_where (with_id id) w.db.bookings ≡ some row
    → finalize_booking id (json_array labels) amount (calm w)
      ≡ (ok tt, record (calm w) { db = finalized row.event_id id labels amount w.db })
unfolding finalize_booking with_tx query exec sql call ◌>>=◌ add_reserved set_seats book_pending
finalize_booking-finalized id labels amount w row found =
    rw
      (
        found,
        for_each-set_seats (booked_for id) (booked_for-IsSeatUpdate id) row.event_id labels
            (record w { db = book_pending id (json_array labels) amount w.db }),
      )
      refl

-- what a cancelled booking leaves, whose seats are `labels`
abbrev pub cancelled : Booking → Uuid → List Text → Db → Db
cancelled b id labels d =
    let marked = set_booking id (λ r. record r { status = BookingStatus.cancelled }) d in
    if is_booked b.status
    then set_seats (seat_among b.event_id labels) released
        (add_reserved b.event_id (negsuc 0) marked)
    else marked

release_booked_ok :
    (b : Booking) (labels : List Text) (w : World)
    → decode_seats b.seats ≡ ok labels
    → release_booked b (calm w) ≡ (
      ok tt,
      record (calm w) {
        db =
            set_seats
              (seat_among b.event_id labels)
              released
              (add_reserved b.event_id (negsuc 0) w.db);
      },
    )
unfolding release_booked exec sql call ◌>>=◌
release_booked_ok b labels w decoded = rw decoded (
    for_each-set_seats released released-IsSeatUpdate b.event_id labels
      (record w { db = add_reserved b.event_id (negsuc 0) w.db }))

-- When no call fails, CancelBookingTx of a booking that is scanned without an error, and whose seat
-- list is decoded, succeeds and says whether the booking was booked. It makes the booking
-- cancelled, whatever its status was; only if it was booked, it lowers the event's reserved count
-- by 1 and makes every seat of the event with one of the booking's labels available, whoever holds
-- the seat.
pub cancel_booking_tx-cancelled :
    (id : Uuid) (labels : List Text) (w : World) (row : BookingRow) (b : Booking)
    → first_where (with_id id) w.db.bookings ≡ some row
    → scan_booking row (calm w) ≡ (ok b, calm w)
    → decode_seats b.seats ≡ ok labels
    → cancel_booking_tx id (calm w) ≡ (
      ok (record b { status = BookingStatus.cancelled }, is_booked b.status),
      record (calm w) { db = cancelled b id labels w.db },
    )
unfolding cancel_booking_tx with_tx query exec sql call ◌>>=◌
cancel_booking_tx-cancelled id labels w row b found scanned decoded =
    let marked = record w {
      db = set_booking id (λ r. record r { status = BookingStatus.cancelled }) w.db;
    } in
    elim (Bool-cases (is_booked b.status)) [
      | inl booked ↦ rw (found, scanned, booked, release_booked_ok b labels marked decoded) refl
      | inr other ↦ rw (found, scanned, other) refl
    ]
