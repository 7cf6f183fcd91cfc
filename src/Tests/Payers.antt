-- ===== src/Tests/Payers.antt =====
-- The theorems on overlapping payments, at concrete payments.
use lewly_pgpyewj.Prelude.{◌≡◌, refl, ◌∷◌, [], some, first_where, update_where}
use lewly_pgpyewj.Prelude.Float.{times, of_cents, rounded, spacing}
use lewly_pgpyewj.Prelude.Int.{pos}
use lewly_pgpyewj.Db.{BookingStatus, PaymentStatus}
use lewly_pgpyewj.Effect.{ok, calm, effects}
use lewly_pgpyewj.Effect.Cut.{go_on}
use lewly_pgpyewj.Store.Bookings.{with_id, scan_booking}
use lewly_pgpyewj.Store.Events.{event_with}
use lewly_pgpyewj.Store.BookingTx.Outcome.{seat_among, taken_by}
use lewly_pgpyewj.Service.Payment.{PaymentRequest, accepted}
use lewly_pgpyewj.Service.Payment.Paid.{paid_row}
use lewly_pgpyewj.Payers.{Stage, advance}
use lewly_pgpyewj.Payers.Stale.{
  counted, overlap, stale_payment-accepted, overlapping_payments-accepted,
}
use lewly_pgpyewj.Tests.Data.{show, pending_world, cancelled_world, row_of, booking_of}

abbrev first_payment : PaymentRequest
first_payment = record { booking_id = 100; amount = pos 1000; payment_id = 3 }

abbrev second_payment : PaymentRequest
second_payment = record { booking_id = 100; amount = pos 1200; payment_id = 4 }

-- The booking was pending when it was read, and is cancelled by now.
stale_payment-accepted_example :
    let (stage, w') = go_on (advance first_payment) 3 (
      Stage.found (some (booking_of BookingStatus.pending PaymentStatus.pending (pos 0))),
      calm cancelled_world,
    ) in
    (stage ≡ Stage.replied (ok (accepted 100)))
    × (first_where (with_id 100) w'.db.bookings
        ≡ some (
            paid_row first_payment
              (row_of BookingStatus.cancelled PaymentStatus.refunded (pos 900))))
    × (first_where (event_with 10) w'.db.events ≡ some (counted show))
    × (w'.db.seats
        ≡ update_where (seat_among 10 (61 ∷ 62 ∷ [])) (taken_by 100) cancelled_world.db.seats)
unfolding times of_cents rounded spacing
stale_payment-accepted_example =
    stale_payment-accepted first_payment
      (booking_of BookingStatus.pending PaymentStatus.pending (pos 0)) cancelled_world
      (row_of BookingStatus.cancelled PaymentStatus.refunded (pos 900)) show refl refl refl refl
      refl refl

overlapping_payments-accepted_example :
    let (reply, reply', w') = overlap first_payment second_payment (calm pending_world) in
    (reply ≡ Stage.replied (ok (accepted 100)))
    × (reply' ≡ Stage.replied (ok (accepted 100)))
    × (first_where (event_with 10) w'.db.events ≡ some (counted (counted show)))
unfolding effects scan_booking times of_cents rounded spacing
overlapping_payments-accepted_example =
    overlapping_payments-accepted first_payment second_payment
      (booking_of BookingStatus.pending PaymentStatus.pending (pos 0)) pending_world
      (row_of BookingStatus.pending PaymentStatus.pending (pos 0)) show refl refl refl refl refl
      refl refl
