-- ===== src/Payers.antt =====
-- Several payments at once: ProcessBookingPayment of internal/service/payment/payment.go, cut
-- wherever another request can come between two of its calls. FinalizeBooking is one transaction.
pub mod Alone
pub mod Stale
use lewly_pgpyewj.Prelude.{Option, none, some, length, if◌then◌else◌}
use lewly_pgpyewj.Prelude.Int.{ltb_ℤ}
use lewly_pgpyewj.Prelude.Float.{of_cents}
use lewly_pgpyewj.Db.{Event, PaymentStatus, is_pending, is_booked}
use lewly_pgpyewj.Effect.{
  Error, Result, ok, err, booking_not_found, event_not_found, already_paid, bad_status,
  invalid_amount, World,
}
use lewly_pgpyewj.Effect.Cut.{one_call}
use lewly_pgpyewj.Store.Events
use lewly_pgpyewj.Store.Bookings.{Booking, get_by_id, update_payment_status}
use lewly_pgpyewj.Store.BookingTx.{finalize_booking}
use lewly_pgpyewj.Service.Bookings.{encode_seats}
use lewly_pgpyewj.Service.Payment.{
  PaymentRequest, PaymentResponse, simulate_payment_processing, paid_seats, accepted, refused,
  expected_amount,
}

-- how far a payment has come, and what it has read
pub data Stage : Type 0 where
  arrived : Stage
  found : Option Booking → Stage
  priced : Booking → Option Event → Stage
  marked : Booking → Stage
  replied : Result PaymentResponse → Stage

abbrev gives_up : Error → World → Stage × World
gives_up e w = (Stage.replied (err e), w)

-- once the booking has been read: its status is tested, and its event is read
unfoldable pub look_up : Option Booking → World → Stage × World
look_up none = gives_up booking_not_found
look_up (some b) =
    if is_pending b.status
    then one_call Stage.replied (Stage.priced b) (Events.get b.event_id)
    else if is_booked b.status
    then gives_up already_paid
    else gives_up (bad_status b.status)

-- once the event has been read: the amount is tested, and the booking is marked as paid
unfoldable pub mark : PaymentRequest → Booking → Option Event → World → Stage × World
mark req b none = gives_up event_not_found
mark req b (some event) =
    if ltb_ℤ (of_cents req.amount) (expected_amount event (length (paid_seats b)))
    then gives_up invalid_amount
    else if simulate_payment_processing req.payment_id req.amount
    then one_call Stage.replied (λ r. Stage.marked b)
        (update_payment_status req.booking_id PaymentStatus.paid req.amount)
    else (λ w. (Stage.replied (ok refused), w))

-- the next call of a payment
unfoldable pub advance : PaymentRequest → Stage → World → Stage × World
advance req Stage.arrived = one_call Stage.replied Stage.found (get_by_id req.booking_id)
advance req (Stage.found b) = look_up b
advance req (Stage.priced b event) = mark req b event
advance req (Stage.marked b) =
    one_call Stage.replied (λ r. Stage.replied (ok (accepted req.booking_id)))
      (finalize_booking req.booking_id (encode_seats (paid_seats b)) req.amount)
advance req (Stage.replied reply) = λ w. (Stage.replied reply, w)
