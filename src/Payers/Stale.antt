-- ===== src/Payers/Stale.antt =====
-- A payment that has read a booking which other requests have changed since.
use lewly_pgpyewj.Prelude.{
  ◌≡◌, refl, ap, ◌∙◌, arith, ◌&&◌, true, false, some, List, Text, Uuid, ◌==◌, if◌then◌else◌,
  first_where, first_where-update, first_where-true, update_where, length,
}
use lewly_pgpyewj.Prelude.Int.{ℤ, pos, ◌+ℤ◌, ltb_ℤ}
use lewly_pgpyewj.Prelude.Float.{of_cents}
use lewly_pgpyewj.Db.{Db, BookingRow, BookingStatus, PaymentStatus, Event, json_array, is_pending}
use lewly_pgpyewj.Effect.{ok, World, calm, scan_nullable, ◌>>=◌}
use lewly_pgpyewj.Effect.Cut.{go_on, replies}
use lewly_pgpyewj.Store.Events.{event_with}
use lewly_pgpyewj.Store.Bookings.{Booking, with_id, scan_booking, set_booking}
use lewly_pgpyewj.Store.BookingTx.Outcome.{finalized, seat_among, taken_by}
use lewly_pgpyewj.Service.Payment.{PaymentRequest, accepted, paid_seats, expected_amount}
use lewly_pgpyewj.Service.Payment.Paid.{
  marked_paid, paid_row, set_booking-row, pay_booking_accepts, get_by_id_ok,
}
use lewly_pgpyewj.Payers.{Stage, advance}
use lewly_pgpyewj.Payers.Alone.{found_alone}

-- one more place that is reserved
abbrev pub counted : Event → Event
counted e = record e { reserved = e.reserved +ℤ pos 1 }

finalized-event :
    (e id : Uuid) (labels : List Text) (amount : ℤ) (d : Db) (event : Event)
    → first_where (event_with e) d.events ≡ some event
    → first_where (event_with e) (finalized e id labels amount d).events ≡ some (counted event)
finalized-event e id labels amount d event there =
    rw
      (
        first_where-update (event_with e) (event_with e) counted (λ x. refl) d.events event there,
        first_where-true (event_with e) d.events event there,
      )
      refl

-- a booking that is paid, booked and given its seats
abbrev pub booked_row : List Text → ℤ → BookingRow → BookingRow
booked_row labels amount b = record b {
  status = BookingStatus.booked;
  seats = some (json_array labels);
  amount_paid = amount;
  payment_status = PaymentStatus.paid;
}

finalized-row :
    (e id : Uuid) (labels : List Text) (amount : ℤ) (d : Db) (row : BookingRow)
    → first_where (with_id id) d.bookings ≡ some row
    → first_where (with_id id) (finalized e id labels amount d).bookings
      ≡ some (if is_pending row.status then booked_row labels amount row else row)
finalized-row e id labels amount d row found =
    rw
      (
        first_where-update (with_id id) (λ b. b.id == id && is_pending b.status)
            (booked_row labels amount) (λ b. refl) d.bookings row found,
        first_where-true (with_id id) d.bookings row found,
      )
      refl

marked_paid-events : (req : PaymentRequest) (d : Db) → (marked_paid req d).events ≡ d.events
unfolding set_booking
marked_paid-events req d = refl

finalized-seats :
    (e : Uuid) (req : PaymentRequest) (labels : List Text) (d : Db)
    → (finalized e req.booking_id labels req.amount (marked_paid req d)).seats
      ≡ update_where (seat_among e labels) (taken_by req.booking_id) d.seats
unfolding set_booking
finalized-seats e req labels d = refl

-- what an accepted payment leaves
abbrev pub paid_world : PaymentRequest → Booking → BookingRow → World → World
paid_world req b row w = record (calm w) {
  db = finalized row.event_id req.booking_id (paid_seats b) req.amount (marked_paid req w.db);
}

-- the hypotheses of an accepted payment: what was read, and what is there when it goes on
pub record Accepts (req : PaymentRequest) (b : Booking) (w : World) (row : BookingRow)
    (event : Event) : Type 0 where
  pub pending_then : is_pending b.status ≡ true
  pub same_event : b.event_id ≡ row.event_id
  pub found : first_where (with_id req.booking_id) w.db.bookings ≡ some row
  pub there : first_where (event_with row.event_id) w.db.events ≡ some event
  pub enough : ltb_ℤ (of_cents req.amount) (expected_amount event (length (paid_seats b))) ≡ false

module _ {req : PaymentRequest} {b : Booking} {w : World} {row : BookingRow} {event : Event}
    (h : Accepts req b w row event) where
  resumed :
      go_on (advance req) 3 (Stage.found (some b), calm w)
      ≡ (Stage.replied (ok (accepted req.booking_id)), paid_world req b row w)
  resumed =
      found_alone req (some b) (calm w)
      ∙ ap (replies Stage.replied) (
          pay_booking_accepts req b w row event h.found h.pending_then (rw h.same_event h.there)
            h.enough)

  paid_world-event :
      first_where (event_with row.event_id) (paid_world req b row w).db.events
      ≡ some (counted event)
  paid_world-event =
      finalized-event row.event_id req.booking_id (paid_seats b) req.amount (marked_paid req w.db)
        event (rw (marked_paid-events req w.db) h.there)

  paid_world-row :
      first_where (with_id req.booking_id) (paid_world req b row w).db.bookings
      ≡ some (
          if is_pending row.status
          then booked_row (paid_seats b) req.amount (paid_row req row)
          else paid_row req row)
  paid_world-row =
      finalized-row row.event_id req.booking_id (paid_seats b) req.amount (marked_paid req w.db)
        (paid_row req row)
        (set_booking-row req.booking_id (paid_row req) (λ r. refl) w.db row h.found)

-- When no call fails, a payment that read the booking while it was pending, of the booking's event,
-- which exists, and of an amount that is, as a float64, not below the rounded product of the ticket
-- price and the number of seats that were read, goes on to be accepted although the booking is no longer pending by then, cancelled or booked by another payment: it is
-- marked paid with the amount and keeps its status, its event's reserved count is raised by 1, and
-- every seat of the event with one of the labels that were read is booked by it.
pub stale_payment-accepted :
    (req : PaymentRequest) (b : Booking) (w : World) (row : BookingRow) (event : Event)
    → is_pending b.status ≡ true
    → is_pending row.status ≡ false
    → b.event_id ≡ row.event_id
    → first_where (with_id req.booking_id) w.db.bookings ≡ some row
    → first_where (event_with row.event_id) w.db.events ≡ some event
    → ltb_ℤ (of_cents req.amount) (expected_amount event (length (paid_seats b))) ≡ false
    → let (stage, w') = go_on (advance req) 3 (Stage.found (some b), calm w) in
      (stage ≡ Stage.replied (ok (accepted req.booking_id)))
      × (first_where (with_id req.booking_id) w'.db.bookings ≡ some (paid_row req row))
      × (first_where (event_with row.event_id) w'.db.events ≡ some (counted event))
      × (w'.db.seats
          ≡ update_where
              (seat_among row.event_id (paid_seats b))
              (taken_by req.booking_id)
              w.db.seats)
stale_payment-accepted req b w row event pending_then settled same found there enough =
    let h : Accepts req b w row event = record {
      pending_then = pending_then;
      same_event = same;
      found = found;
      there = there;
      enough = enough;
    } in
    rw (resumed h) (
      refl,
      rw settled at (paid_world-row h),
      paid_world-event h,
      finalized-seats row.event_id req (paid_seats b) w.db,
    )

read_first :
    (req : PaymentRequest) (w : World) (row : BookingRow) (b : Booking)
    → first_where (with_id req.booking_id) w.db.bookings ≡ some row
    → scan_booking row (calm w) ≡ (ok b, calm w)
    → advance req Stage.arrived (calm w) ≡ (Stage.found (some b), calm w)
unfolding advance
read_first req w row b found scanned = rw (get_by_id_ok req.booking_id w row b found scanned) refl

-- two payments that have both read the booking before either goes on
abbrev pub overlap : PaymentRequest → PaymentRequest → World → Stage × Stage × World
overlap first second w =
    let (s1, w1) = advance first Stage.arrived w in
    let (s2, w2) = advance second Stage.arrived w1 in
    let (r1, w3) = go_on (advance first) 3 (s1, w2) in
    let (r2, w4) = go_on (advance second) 3 (s2, w3) in (r1, r2, w4)

scanned_fields :
    (row : BookingRow) (b : Booking) (w w' : World)
    → scan_booking row w ≡ (ok b, w')
    → (b.event_id ≡ row.event_id) × (b.status ≡ row.status)
unfolding scan_booking scan_nullable ◌>>=◌
scanned_fields row b w w' scanned = ground arith

-- When no call fails, two payments of one pending booking that is scanned without an error, of an
-- event that exists, and each of an amount that is, as a float64, not below the rounded product of the
-- ticket price and the number of the booking's seats, that both read the booking before either goes on, are
-- both accepted: the user has paid twice, and the event's reserved count is raised by 2 for the one
-- booking.
pub overlapping_payments-accepted :
    (first second : PaymentRequest) (b : Booking) (w : World) (row : BookingRow) (event : Event)
    → second.booking_id ≡ first.booking_id
    → first_where (with_id first.booking_id) w.db.bookings ≡ some row
    → scan_booking row (calm w) ≡ (ok b, calm w)
    → is_pending row.status ≡ true
    → first_where (event_with row.event_id) w.db.events ≡ some event
    → ltb_ℤ (of_cents first.amount) (expected_amount event (length (paid_seats b))) ≡ false
    → ltb_ℤ (of_cents second.amount) (expected_amount event (length (paid_seats b))) ≡ false
    → let (reply, reply', w') = overlap first second (calm w) in
      (reply ≡ Stage.replied (ok (accepted first.booking_id)))
      × (reply' ≡ Stage.replied (ok (accepted first.booking_id)))
      × (first_where (event_with row.event_id) w'.db.events ≡ some (counted (counted event)))
overlapping_payments-accepted first second b w row event one found scanned due there enough
      enough' =
    let fields = scanned_fields row b (calm w) (calm w) scanned in
    let h : Accepts first b w row event = record {
      pending_then = rw fields.1 due;
      same_event = fields.0;
      found = found;
      there = there;
      enough = enough;
    } in
    let after : World = paid_world first b row w in
    let row' : BookingRow = booked_row (paid_seats b) first.amount (paid_row first row) in
    let h' : Accepts second b after row' (counted event) = record {
      pending_then = rw fields.1 due;
      same_event = fields.0;
      found = rw one (rw due at (paid_world-row h));
      there = paid_world-event h;
      enough = enough';
    } in
    rw
      (
        read_first first w row b found scanned,
        read_first second w row b (rw one found) scanned,
        resumed h,
        resumed h',
      )
      (refl, rw one refl, paid_world-event h')
