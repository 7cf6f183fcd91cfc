-- ===== src/Service/Payment/Refunds.antt =====
-- What a refund pays back.
use lewly_pgpyewj.Prelude.{◌≡◌, refl, true, false, some, Uuid, first_where}
use lewly_pgpyewj.Prelude.Int.{ℤ, pos, ◌≤ℤ◌, int_laws}
use lewly_pgpyewj.Db.{Db, BookingRow, Event, PaymentStatus, is_paid}
use lewly_pgpyewj.Effect.{ok, World, calm, call, query, sql, ◌>>=◌, succeeds}
use lewly_pgpyewj.Store.Events
use lewly_pgpyewj.Store.Events.{event_with}
use lewly_pgpyewj.Store.Bookings.{Booking, with_id, scan_booking, set_booking}
use lewly_pgpyewj.Service.Payment.{
  accepted, refund_amount, refund, refund_booking, process_cancellation_refund,
}
use lewly_pgpyewj.Service.Payment.Paid.{get_by_id_ok, update_payment_status_ok, set_booking-row}
use lewly_pgpyewj.Service.Payment.Refusals.{process_cancellation_refund_refuses}

-- A refund is not negative, and not more than what was paid, if neither that nor the cancellation
-- fee is negative.
pub refund_amount-bounds :
    (b : Booking) (event : Event)
    → pos 0 ≤ℤ b.amount_paid
    → pos 0 ≤ℤ event.cancellation_fee
    → (pos 0 ≤ℤ refund_amount b event) × (refund_amount b event ≤ℤ b.amount_paid)
refund_amount-bounds b event paid fee = grind int_laws

-- the database after the refund of a booking
abbrev pub refunded : Uuid → ℤ → Db → Db
refunded id amount =
    set_booking id (λ b. record b { payment_status = PaymentStatus.refunded; amount_paid = amount })

-- When no call fails, the refund of a booking that is scanned without an error and marked paid, of
-- an event that exists, is accepted, and the refund becomes its amount paid and its payment status
-- is refunded. That is so whatever the status of the booking: it need not be cancelled. A second
-- refund of the same booking, in any world with that database, does not succeed and changes
-- nothing in the database, whichever of its calls fail.
pub process_cancellation_refund_once :
    (id : Uuid) (w w' : World) (row : BookingRow) (b : Booking) (event : Event)
    → first_where (with_id id) w.db.bookings ≡ some row
    → scan_booking row (calm w) ≡ (ok b, calm w)
    → is_paid b.payment_status ≡ true
    → first_where (event_with b.event_id) w.db.events ≡ some event
    → w'.db ≡ refunded id (refund_amount b event) w.db
    → (process_cancellation_refund id (calm w)
        ≡ (ok (accepted id), record (calm w) { db = refunded id (refund_amount b event) w.db }))
      × (succeeds (process_cancellation_refund id w').0 ≡ false)
      × ((process_cancellation_refund id w').1.db ≡ w'.db)
unfolding process_cancellation_refund refund_booking refund Events.get query sql call ◌>>=◌
    set_booking
process_cancellation_refund_once id w w' row b event found scanned paid there after =
    let n = refund_amount b event in
    let again =
      set_booking-row id
        (λ r. record r { payment_status = PaymentStatus.refunded; amount_paid = n }) (λ r. refl)
        w.db row found in
    let refusal =
      process_cancellation_refund_refuses id w'
        (record row { payment_status = PaymentStatus.refunded; amount_paid = n }) (rw after again)
        refl in
    (
      rw
          (
            get_by_id_ok id w row b found scanned,
            paid,
            there,
            update_payment_status_ok id PaymentStatus.refunded n w row found,
          )
          refl,
      refusal.0,
      refusal.1,
    )
