-- ===== src/Lifecycle/Cancelled.antt =====
-- CancelBookingTx of internal/store/bookings/bookings.go and the life of a booking.
use lewly_pgpyewj.Prelude.{
  ◌≡◌, refl, arith, Bool, false, Option, none, some, Uuid, first_where, update_where, List, [], ◌∷◌,
  if◌then◌else◌,
}
use lewly_pgpyewj.Db.{Db, BookingRow, BookingStatus, is_booked}
use lewly_pgpyewj.Effect.{pure, exec, query}
use lewly_pgpyewj.Effect.Ensures.{
  Ensures, Ensures-pure, Ensures-if, Ensures-raise, Ensures-query, Ensures-exec, Ensures-bind,
  Ensures-with_tx, Ensures-Obeys, Ensures-scan_nullable,
}
use lewly_pgpyewj.Store.Bookings.{Booking, with_id, scan_booking, set_booking}
use lewly_pgpyewj.Store.BookingTx.{or_no_rows, release_booked, cancel_booking_tx}
use lewly_pgpyewj.Lifecycle.Rows.{status_in, stays_cancelled}
use lewly_pgpyewj.Lifecycle.Store.{Lifecycle-StatementsObey}
use lewly_pgpyewj.Store.Statements.{release_booked-Obeys}

scan_booking-status :
    (P : Db → Type 0) (row : BookingRow)
    → Ensures P (scan_booking row) (λ b d. P d × (b.status ≡ row.status))
unfolding scan_booking
scan_booking-status P row =
    Ensures-bind (λ t. P) _ _ _ (Ensures-scan_nullable P row.user_id)
      (λ user_id.
        Ensures-bind (λ t. P) _ _ _ (Ensures-scan_nullable P row.idempotency_key)
          (λ key. Ensures-pure _ (λ d p. (p, refl))))

update-cancelled :
    (id : Uuid) (bs : List BookingRow) (row : BookingRow)
    → first_where (with_id id) bs ≡ some row
    → status_in
        (update_where (with_id id) (λ r. record r { status = BookingStatus.cancelled }) bs)
        id
      ≡ some BookingStatus.cancelled
update-cancelled id [] row found = cc
update-cancelled id (b ∷ bs) row found = ground (arith, update-cancelled id bs row)

found_not_booked :
    (id : Uuid) (bs : List BookingRow) (row : BookingRow)
    → first_where (with_id id) bs ≡ some row
    → status_in bs id ≡ some BookingStatus.cancelled
    → is_booked row.status ≡ false
found_not_booked id bs row found was = ground arith

abbrev pub IsCancelled : Uuid → Db → Type 0
IsCancelled id d = status_in d.bookings id ≡ some BookingStatus.cancelled

module _ (id : Uuid) (before : Db) where
  abbrev Found : Option BookingRow → Db → Type 0
  Found found d = (first_where (with_id id) d.bookings ≡ found) × (d ≡ before)

  -- the booking is cancelled, and `was_booked` is false if it was so before
  abbrev pub Cancels : Bool → Db → Type 0
  Cancels was_booked d = IsCancelled id d × (IsCancelled id before → was_booked ≡ false)

  or_no_rows-Found :
      (found : Option BookingRow)
      → Ensures (Found found) (or_no_rows found) (λ row d. Found (some row) d)
  or_no_rows-Found none = Ensures-raise _
  or_no_rows-Found (some row) = Ensures-pure row (λ d h. h)

  set_cancelled :
      (row : BookingRow) (b : Booking)
      → Ensures
          (λ d. Found (some row) d × (b.status ≡ row.status))
          (exec (set_booking id (λ r. record r { status = BookingStatus.cancelled })))
          (λ u d. Cancels (is_booked b.status) d)
  unfolding set_booking
  set_cancelled row b =
      Ensures-exec (set_booking id (λ r. record r { status = BookingStatus.cancelled })) (λ d h. (
        update-cancelled id d.bookings row h.0.0,
        λ was. rw h.1 (found_not_booked id d.bookings row h.0.0 (rw h.0.1 was)),
      ))

  released :
      (b : Booking)
      → Ensures
          (λ d. Cancels (is_booked b.status) d)
          (if is_booked b.status then release_booked b else pure tt)
          (λ u d. Cancels (is_booked b.status) d)
  released b =
      Ensures-if (is_booked b.status) _ _
        (λ was.
          Ensures-Obeys (release_booked b) (release_booked-Obeys Lifecycle-StatementsObey b)
            (λ d d' u h life. (stays_cancelled _ _ (life id) h.0, h.1)))
        (λ was. Ensures-pure tt (λ d h. h))

  pub cancel_booking_tx-Cancels :
      Ensures (λ d. d ≡ before) (cancel_booking_tx id) (λ x d. Cancels x.1 d)
  unfolding cancel_booking_tx
  cancel_booking_tx-Cancels = Ensures-with_tx _ (
      Ensures-bind Found _ (query (λ d. first_where (with_id id) d.bookings)) _
        (Ensures-query (λ d. first_where (with_id id) d.bookings) (λ d e. (refl, e)))
        (λ found.
          Ensures-bind (λ row. Found (some row)) _ (or_no_rows found) _ (or_no_rows-Found found)
            (λ row.
              Ensures-bind (λ b d. Found (some row) d × (b.status ≡ row.status)) _
                (scan_booking row) _ (scan_booking-status (Found (some row)) row)
                (λ b.
                  Ensures-bind (λ u. Cancels (is_booked b.status)) _ _ _ (set_cancelled row b)
                    (λ u.
                      Ensures-bind (λ v. Cancels (is_booked b.status)) _ _ _ (released b)
                        (λ v. Ensures-pure _ (λ d h. h)))))))
