-- ===== src/Service/Payment/Refusals.antt =====
-- What ProcessBookingPayment and ProcessCancellationRefund refuse.
use lewly_pgpyewj.Prelude.{
  Bool-cases, inl, inr, ◌≡◌, refl, ap, ◌∙◌, arith, false, Option, none, some, Uuid, first_where,
}
use lewly_pgpyewj.Db.{BookingRow, is_pending, is_paid}
use lewly_pgpyewj.Effect.{
  Result, ok, err, panic, World, call, query, sql, ◌>>=◌, scan_nullable, succeeds, next_fault,
  later_faults, resume,
}
use lewly_pgpyewj.Store.Bookings.{Booking, with_id, scan_booking, scan_found, get_by_id}
use lewly_pgpyewj.Service.Payment.{
  PaymentRequest, pay_booking, process_booking_payment, refund_booking, process_cancellation_refund,
}

-- the fields that the service looks at
abbrev pub SameFields : BookingRow → Booking → Type 0
SameFields row b =
    (b.status ≡ row.status)
    × (b.payment_status ≡ row.payment_status)
    × (b.amount_paid ≡ row.amount_paid)

-- what GetByID may return for a booking that is there: an error, or these fields
abbrev pub Reads : BookingRow → Result (Option Booking) → Type 0
Reads row (ok (some b)) = SameFields row b
Reads row (ok none) = ⊥
Reads row _ = Unit {0}

scan_found-Reads :
    (row : BookingRow) (w : World)
    → Reads row (scan_found (some row) w).0 × ((scan_found (some row) w).1 ≡ w)
unfolding scan_found scan_booking scan_nullable ◌>>=◌
scan_found-Reads row w = ground arith

pub get_by_id-Reads :
    (id : Uuid) (w : World) (row : BookingRow)
    → first_where (with_id id) w.db.bookings ≡ some row
    → Reads row (get_by_id id w).0 × ((get_by_id id w).1.db ≡ w.db)
unfolding get_by_id query sql call ◌>>=◌
get_by_id-Reads id w row found =
    let read = scan_found-Reads row (record w { faults = later_faults w.faults }) in
    elim (Bool-cases (next_fault w.faults)) [
      | inl down ↦ rw down (tt, refl)
      | inr up ↦ rw (up, found) (read.0, ap (λ (v : World). v.db) read.1)
    ]

pay_booking_refuses :
    (req : PaymentRequest) (r : Result (Option Booking)) (w : World) (row : BookingRow)
    → Reads row r
    → is_pending row.status ≡ false
    → (succeeds (resume r (pay_booking req) w).0 ≡ false)
      × ((resume r (pay_booking req) w).1.db ≡ w.db)
unfolding pay_booking
pay_booking_refuses req (ok none) w row read settled = absurd read
pay_booking_refuses req (ok (some b)) w row read settled = ground arith
pay_booking_refuses req (err e) w row read settled = (refl, refl)
pay_booking_refuses req panic w row read settled = (refl, refl)

-- A payment for a booking that is not pending, such as one that is paid or cancelled already, never
-- succeeds and leaves the database as it was, whichever calls fail.
pub process_booking_payment_refuses :
    (req : PaymentRequest) (w : World) (row : BookingRow)
    → first_where (with_id req.booking_id) w.db.bookings ≡ some row
    → is_pending row.status ≡ false
    → (succeeds (process_booking_payment req w).0 ≡ false)
      × ((process_booking_payment req w).1.db ≡ w.db)
unfolding process_booking_payment ◌>>=◌
process_booking_payment_refuses req w row found settled =
    let read = get_by_id-Reads req.booking_id w row found in
    let (r, w') = get_by_id req.booking_id w in
    let refusal = pay_booking_refuses req r w' row read.0 settled in (refusal.0, refusal.1 ∙ read.1)

refund_booking_refuses :
    (id : Uuid) (r : Result (Option Booking)) (w : World) (row : BookingRow)
    → Reads row r
    → is_paid row.payment_status ≡ false
    → (succeeds (resume r (refund_booking id) w).0 ≡ false)
      × ((resume r (refund_booking id) w).1.db ≡ w.db)
unfolding refund_booking
refund_booking_refuses id (ok none) w row read settled = absurd read
refund_booking_refuses id (ok (some b)) w row read settled = ground arith
refund_booking_refuses id (err e) w row read settled = (refl, refl)
refund_booking_refuses id panic w row read settled = (refl, refl)

-- A refund of a booking whose payment status is not paid, such as one that is refunded already,
-- never succeeds and leaves the database as it was, whichever calls fail.
pub process_cancellation_refund_refuses :
    (id : Uuid) (w : World) (row : BookingRow)
    → first_where (with_id id) w.db.bookings ≡ some row
    → is_paid row.payment_status ≡ false
    → (succeeds (process_cancellation_refund id w).0 ≡ false)
      × ((process_cancellation_refund id w).1.db ≡ w.db)
unfolding process_cancellation_refund ◌>>=◌
process_cancellation_refund_refuses id w row found settled =
    let read = get_by_id-Reads id w row found in
    let (r, w') = get_by_id id w in
    let refusal = refund_booking_refuses id r w' row read.0 settled in
    (refusal.0, refusal.1 ∙ read.1)
