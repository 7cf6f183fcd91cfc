-- ===== src/Service/Payment/Paid.antt =====
-- What a payment that is accepted does.
use lewly_pgpyewj.Prelude.{
  ◌≡◌, refl, arith, true, false, some, List, [], ◌∷◌, Uuid, ◌==◌, first_where, count_where, length,
  first_where-update, first_where-true,
}
use lewly_pgpyewj.Prelude.Int.{ℤ, ltb_ℤ}
use lewly_pgpyewj.Prelude.Float.{of_cents}
use lewly_pgpyewj.Db.{Db, BookingRow, Event, PaymentStatus, is_pending}
use lewly_pgpyewj.Effect.{ok, World, calm, call, query, sql, exec_counting, require_rows, ◌>>=◌}
use lewly_pgpyewj.Store.Events
use lewly_pgpyewj.Store.Events.{event_with}
use lewly_pgpyewj.Store.Bookings.{
  Booking, with_id, scan_booking, scan_found, get_by_id, set_booking, update_booking,
  update_payment_status,
}
use lewly_pgpyewj.Store.BookingTx.Outcome.{finalized, finalize_booking-finalized}
use lewly_pgpyewj.Service.Payment.{
  PaymentRequest, accepted, paid_seats, expected_amount, charge, pay_booking,
  process_booking_payment,
}

count_found :
    (id : Uuid) (bs : List BookingRow) (row : BookingRow)
    → first_where (with_id id) bs ≡ some row
    → (count_where (with_id id) bs == 0) ≡ false
count_found id [] row found = cc
count_found id (b ∷ bs) row found = ground (arith, count_found id bs row)

-- UpdatePaymentStatus of a booking that is there
pub update_payment_status_ok :
    (id : Uuid) (s : PaymentStatus) (n : ℤ) (w : World) (row : BookingRow)
    → first_where (with_id id) w.db.bookings ≡ some row
    → update_payment_status id s n (calm w) ≡ (
      ok tt,
      record (calm w) {
        db = set_booking id (λ b. record b { payment_status = s; amount_paid = n }) w.db;
      },
    )
unfolding update_payment_status update_booking exec_counting sql call ◌>>=◌ require_rows
update_payment_status_ok id s n w row found = rw (count_found id w.db.bookings row found) refl

pub get_by_id_ok :
    (id : Uuid) (w : World) (row : BookingRow) (b : Booking)
    → first_where (with_id id) w.db.bookings ≡ some row
    → scan_booking row (calm w) ≡ (ok b, calm w)
    → get_by_id id (calm w) ≡ (ok (some b), calm w)
unfolding get_by_id query sql call ◌>>=◌ scan_found
get_by_id_ok id w row b found scanned = rw (found, scanned) refl

-- the booking marked as paid, before it is finalized
abbrev pub marked_paid : PaymentRequest → Db → Db
marked_paid req =
    set_booking req.booking_id
      (λ b. record b { payment_status = PaymentStatus.paid; amount_paid = req.amount })

abbrev pub paid_row : PaymentRequest → BookingRow → BookingRow
paid_row req row = record row { payment_status = PaymentStatus.paid; amount_paid = req.amount }

-- the row that UPDATE … WHERE id = $1 leaves
pub set_booking-row :
    (id : Uuid) (f : BookingRow → BookingRow)
    → ((b : BookingRow) → (f b).id ≡ b.id)
    → (d : Db) (row : BookingRow) → first_where (with_id id) d.bookings ≡ some row
    → first_where (with_id id) (set_booking id f d).bookings ≡ some (f row)
unfolding set_booking
set_booking-row id f same d row found =
    rw
      (
        first_where-update (with_id id) (with_id id) f (λ b. rw (same b) refl) d.bookings row found,
        first_where-true (with_id id) d.bookings row found,
      )
      refl

-- A payment goes on with what it has read, whatever the row is like by then.
pub pay_booking_accepts :
    (req : PaymentRequest) (b : Booking) (w : World) (row : BookingRow) (event : Event)
    → first_where (with_id req.booking_id) w.db.bookings ≡ some row
    → is_pending b.status ≡ true
    → first_where (event_with b.event_id) w.db.events ≡ some event
    → ltb_ℤ (of_cents req.amount) (expected_amount event (length (paid_seats b))) ≡ false
    → pay_booking req (some b) (calm w) ≡ (
      ok (accepted req.booking_id),
      record (calm w) {
        db = finalized row.event_id req.booking_id (paid_seats b) req.amount (marked_paid req w.db);
      },
    )
unfolding pay_booking charge Events.get query sql call ◌>>=◌ set_booking
pay_booking_accepts req b w row event found pending_then there enough =
    rw
      (
        pending_then,
        there,
        enough,
        update_payment_status_ok req.booking_id PaymentStatus.paid req.amount w row found,
        finalize_booking-finalized req.booking_id (paid_seats b) req.amount
            (record w { db = marked_paid req w.db }) (paid_row req row)
            (set_booking-row req.booking_id (paid_row req) (λ r. refl) w.db row found),
      )
      refl

-- When no call fails, a payment of a pending booking that is scanned without an error, of an event
-- that exists, and of an amount that is, as a float64, not below the product of the ticket price and the
-- number of the booking's seats, rounded as float64 arithmetic rounds it, is accepted. The
-- booking is marked paid with the amount and then finalized with its seats, or with the one label
-- "seat1" if it has none or its list is not decoded.
pub process_booking_payment_accepts :
    (req : PaymentRequest) (w : World) (row : BookingRow) (b : Booking) (event : Event)
    → first_where (with_id req.booking_id) w.db.bookings ≡ some row
    → scan_booking row (calm w) ≡ (ok b, calm w)
    → is_pending b.status ≡ true
    → first_where (event_with b.event_id) w.db.events ≡ some event
    → ltb_ℤ (of_cents req.amount) (expected_amount event (length (paid_seats b))) ≡ false
    → process_booking_payment req (calm w) ≡ (
      ok (accepted req.booking_id),
      record (calm w) {
        db = finalized row.event_id req.booking_id (paid_seats b) req.amount (marked_paid req w.db);
      },
    )
unfolding process_booking_payment ◌>>=◌
process_booking_payment_accepts req w row b event found scanned pending_now there enough =
    rw (get_by_id_ok req.booking_id w row b found scanned)
      (pay_booking_accepts req b w row event found pending_now there enough)
