-- ===== src/Tests/Services.antt =====
-- The theorems on the services at concrete inputs.
use lewly_pgpyewj.Prelude.{Text, ◌≡◌, refl, false, none, some, [], ◌∷◌}
use lewly_pgpyewj.Prelude.Float.{times, of_cents, rounded, spacing}
use lewly_pgpyewj.Prelude.Int.{pos, ◌+ℤ◌, ◌-ℤ◌}
use lewly_pgpyewj.Db.{Db, BookingStatus, PaymentStatus, json_array}
use lewly_pgpyewj.Effect.{World, ok, err, constraint, calm, effects, succeeds}
use lewly_pgpyewj.Store.Bookings.{scan_booking, insert_pending, pending_row, set_booking}
use lewly_pgpyewj.Store.BookingTx.Outcome.{finalized}
use lewly_pgpyewj.Store.Waitlist.{next_entry}
use lewly_pgpyewj.Redis.Conservation.{level}
use lewly_pgpyewj.Service.Auth.{verify_password_change_otp}
use lewly_pgpyewj.Store.Users.{user_with, set_users}
use lewly_pgpyewj.Service.Auth.Otp.{verify_password_change_otp_once}
use lewly_pgpyewj.Service.Bookings.{settle_cancelled}
use lewly_pgpyewj.Service.Bookings.Cancel.{settle_cancelled-both}
use lewly_pgpyewj.Service.Finalize.{handle_booking_timeout}
use lewly_pgpyewj.Service.Finalize.Timeout.{
  expired, handle_booking_timeout_keeps_tokens, handle_booking_timeout_promotes_nobody,
}
use lewly_pgpyewj.Service.Payment.{
  PaymentRequest, accepted, process_booking_payment, process_cancellation_refund,
}
use lewly_pgpyewj.Service.Payment.Paid.{marked_paid, process_booking_payment_accepts}
use lewly_pgpyewj.Service.Payment.Refusals.{process_booking_payment_refuses}
use lewly_pgpyewj.Service.Payment.Refunds.{refunded, process_cancellation_refund_once}
use lewly_pgpyewj.Tests.Data.{
  alice, root, show, pending_world, booked_world, waiting_world, waiting, row_of, booking_of,
  payload, crypto,
}

abbrev payment : PaymentRequest
payment = record { booking_id = 100; amount = pos 1000; payment_id = 3 }

process_booking_payment_accepts_example : process_booking_payment payment (calm pending_world) ≡ (
  ok (accepted 100),
  record (calm pending_world) {
    db = finalized 10 100 (61 ∷ 62 ∷ []) (pos 1000) (marked_paid payment pending_world.db);
  },
)
unfolding effects scan_booking times of_cents rounded spacing
process_booking_payment_accepts_example =
    process_booking_payment_accepts payment pending_world
      (row_of BookingStatus.pending PaymentStatus.pending (pos 0))
      (booking_of BookingStatus.pending PaymentStatus.pending (pos 0)) show refl refl refl refl refl

process_booking_payment_refuses_example :
    (succeeds (process_booking_payment payment booked_world).0 ≡ false)
    × ((process_booking_payment payment booked_world).1.db ≡ booked_world.db)
process_booking_payment_refuses_example =
    process_booking_payment_refuses payment booked_world
      (row_of BookingStatus.booked PaymentStatus.paid (pos 1000)) refl refl

abbrev refunded_world : World
refunded_world = record booked_world { db = refunded 100 (pos 900) booked_world.db }

process_cancellation_refund_once_example :
    (process_cancellation_refund 100 (calm booked_world) ≡ (
      ok (accepted 100),
      record (calm booked_world) { db = refunded 100 (pos 900) booked_world.db },
    ))
    × (succeeds (process_cancellation_refund 100 refunded_world).0 ≡ false)
    × ((process_cancellation_refund 100 refunded_world).1.db ≡ refunded_world.db)
unfolding effects scan_booking ◌-ℤ◌
process_cancellation_refund_once_example =
    process_cancellation_refund_once 100 booked_world refunded_world
      (row_of BookingStatus.booked PaymentStatus.paid (pos 1000))
      (booking_of BookingStatus.booked PaymentStatus.paid (pos 1000)) show refl refl refl refl refl

abbrev inserted : Db
inserted = record booked_world.db {
  bookings =
      row_of BookingStatus.booked PaymentStatus.paid (pos 1000)
      ∷ pending_row 2 10 none (json_array (61 ∷ 62 ∷ [])) booked_world.db
      ∷ [];
  drawn = 1001;
}

settle_cancelled-both_example :
    let w' =
      (settle_cancelled
        (booking_of BookingStatus.booked PaymentStatus.paid (pos 1000))
        100
        (calm booked_world)).1 in
    (level w' 10 ≡ pos 5) × (w'.db.bookings ≡ inserted.bookings)
unfolding next_entry insert_pending ◌+ℤ◌
settle_cancelled-both_example =
    settle_cancelled-both (booking_of BookingStatus.booked PaymentStatus.paid (pos 1000)) 100
      booked_world show alice root waiting
      (pending_row 2 10 none (json_array (61 ∷ 62 ∷ [])) booked_world.db) inserted refl refl refl
      refl refl

handle_booking_timeout_keeps_tokens_example :
    handle_booking_timeout payload (calm pending_world)
    ≡ (ok tt, record (calm pending_world) { db = expired 100 pending_world.db })
unfolding effects scan_booking next_entry set_booking
handle_booking_timeout_keeps_tokens_example =
    handle_booking_timeout_keeps_tokens payload (61 ∷ 62 ∷ []) pending_world
      (row_of BookingStatus.pending PaymentStatus.pending (pos 0))
      (booking_of BookingStatus.pending PaymentStatus.pending (pos 0)) show refl refl refl refl refl
      refl

handle_booking_timeout_promotes_nobody_example :
    handle_booking_timeout payload (calm waiting_world)
    ≡ (err constraint, record (calm waiting_world) { db = expired 100 waiting_world.db })
unfolding effects scan_booking next_entry set_booking
handle_booking_timeout_promotes_nobody_example =
    handle_booking_timeout_promotes_nobody payload (61 ∷ 62 ∷ []) waiting_world
      (row_of BookingStatus.pending PaymentStatus.pending (pos 0))
      (booking_of BookingStatus.pending PaymentStatus.pending (pos 0)) show refl refl refl refl
      waiting refl refl refl refl

-- the code 9 is stored for every email
abbrev otp_world : World
otp_world = record pending_world { otps = λ email. some (9, 2000) }

verify_password_change_otp_once_example :
    let (r, w') = verify_password_change_otp crypto 21 9 6 (calm otp_world) in
    (r ≡ ok tt)
    × (w'.db ≡ set_users (user_with 1) (λ v. record v { password_hash = 6 }) otp_world.db)
    × ((next_otp next_password : Text)
        → succeeds (verify_password_change_otp crypto 21 next_otp next_password w').0 ≡ false)
verify_password_change_otp_once_example =
    verify_password_change_otp_once crypto 21 9 6 6 otp_world alice refl refl refl refl
