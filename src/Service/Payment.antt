-- ===== src/Service/Payment.antt =====
-- internal/service/payment/payment.go
pub mod Refusals
pub mod Paid
pub mod Refunds
use lewly_pgpyewj.Prelude.{
  ℕ, Bool, true, false, Option, none, some, List, [], ◌∷◌, Text, Uuid, length, if◌then◌else◌,
}
use lewly_pgpyewj.Prelude.Int.{ℤ, pos, ◌-ℤ◌, ltb_ℤ}
use lewly_pgpyewj.Prelude.Float.{Float64, of_cents, times}
use lewly_pgpyewj.Db.{
  Event, BookingStatus, PaymentStatus, SeatsJson, is_pending, is_booked, is_paid,
}
use lewly_pgpyewj.Effect.{
  Result, ok, err, booking_not_found, event_not_found, already_paid, bad_status, invalid_amount,
  not_paid, Exec, pure, raise, ignore, for_each, ◌>>=◌, ◌>>◌,
}
use lewly_pgpyewj.Store.Events
use lewly_pgpyewj.Store.Bookings.{Booking, get_by_id, list_by_event, update_payment_status}
use lewly_pgpyewj.Store.BookingTx.{decode_seats, finalize_booking}
use lewly_pgpyewj.Service.Bookings.{encode_seats, seats_or_none}

-- `amount` is in cents, for the float64 that is nearest to it: what ParseFloat gives for a decimal
-- with two digits after the point, and what Postgres rounds to that NUMERIC(12,2).
pub record PaymentRequest : Type 0 where
  pub booking_id : Uuid
  pub amount : ℤ
  pub payment_id : Text

-- without the message
pub record PaymentResponse : Type 0 where
  pub success : Bool
  pub booking_id : Option Uuid

-- always succeeds, for the demo
abbrev pub simulate_payment_processing : Text → ℤ → Bool
simulate_payment_processing payment_id amount = true

abbrev pub simulate_refund_processing : Uuid → ℤ → Bool
simulate_refund_processing booking_id amount = true

-- the label "seat1" that stands in for an empty or unreadable list
abbrev pub seat1 : Text
seat1 = 1

abbrev pub or_seat1 : List Text → List Text
or_seat1 [] = seat1 ∷ []
or_seat1 (label ∷ labels) = label ∷ labels

abbrev pub paid_seats : Booking → List Text
paid_seats b = or_seat1 (seats_or_none (decode_seats b.seats))

abbrev pub refused : PaymentResponse
refused = record { success = false; booking_id = none }

abbrev pub accepted : Uuid → PaymentResponse
accepted id = record { success = true; booking_id = some id }

-- event.TicketPrice * float64(len(seats))
abbrev pub expected_amount : Event → ℕ → Float64
expected_amount event n = times (of_cents event.ticket_price) n

-- ProcessBookingPayment, from the amount on
unfoldable pub charge : PaymentRequest → Booking → Event → Exec PaymentResponse
charge req b event =
    if ltb_ℤ (of_cents req.amount) (expected_amount event (length (paid_seats b)))
    then raise invalid_amount
    else if simulate_payment_processing req.payment_id req.amount
    then (do
      update_payment_status req.booking_id PaymentStatus.paid req.amount
      finalize_booking req.booking_id (encode_seats (paid_seats b)) req.amount
      pure (accepted req.booking_id))
    else pure refused

abbrev pub or_no_event : Option Event → Exec Event
or_no_event none = raise event_not_found
or_no_event (some event) = pure event

-- ProcessBookingPayment, once the booking has been read
unfoldable pub pay_booking : PaymentRequest → Option Booking → Exec PaymentResponse
pay_booking req none = raise booking_not_found
pay_booking req (some b) =
    if is_pending b.status
    then (do found ← Events.get b.event_id; event ← or_no_event found; charge req b event)
    else if is_booked b.status
    then raise already_paid
    else raise (bad_status b.status)

-- ProcessBookingPayment
unfoldable pub process_booking_payment : PaymentRequest → Exec PaymentResponse
process_booking_payment req = do b ← get_by_id req.booking_id; pay_booking req b

-- the amount paid less the cancellation fee, and not below 0
abbrev pub refund_amount : Booking → Event → ℤ
refund_amount b event =
    if ltb_ℤ (b.amount_paid -ℤ event.cancellation_fee) (pos 0)
    then pos 0
    else b.amount_paid -ℤ event.cancellation_fee

-- ProcessCancellationRefund, once the event has been read
unfoldable pub refund : Uuid → Booking → Event → Exec PaymentResponse
refund booking_id b event =
    if simulate_refund_processing b.id (refund_amount b event)
    then (do
      update_payment_status booking_id PaymentStatus.refunded (refund_amount b event)
      pure (accepted booking_id))
    else pure refused

unfoldable pub refund_booking : Uuid → Option Booking → Exec PaymentResponse
refund_booking booking_id none = raise booking_not_found
refund_booking booking_id (some b) =
    if is_paid b.payment_status
    then (do found ← Events.get b.event_id; event ← or_no_event found; refund booking_id b event)
    else raise not_paid

-- ProcessCancellationRefund
unfoldable pub process_cancellation_refund : Uuid → Exec PaymentResponse
process_cancellation_refund booking_id = do b ← get_by_id booking_id; refund_booking booking_id b

-- the body of the loop over the event's bookings; errors are logged
unfoldable pub refund_in_full : Booking → Exec (Unit {0})
refund_in_full b =
    if is_paid b.payment_status
    then (if simulate_refund_processing b.id b.amount_paid
        then ignore (update_payment_status b.id PaymentStatus.refunded b.amount_paid)
        else pure tt)
    else pure tt

-- ProcessEventCancellationRefund: at most 1000 bookings
unfoldable pub process_event_cancellation_refund : Uuid → Exec (Unit {0})
process_event_cancellation_refund event_id = do
  bookings ← list_by_event event_id 1000 0
  found ← Events.get event_id
  or_no_event found
  for_each bookings refund_in_full
