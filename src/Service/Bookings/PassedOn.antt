-- ===== src/Service/Bookings/PassedOn.antt =====
-- The methods of internal/service/bookings/bookings.go that pass their call on to a repository.
use lewly_pgpyewj.Prelude.{ℕ, Option, List, Text, Uuid}
use lewly_pgpyewj.Prelude.Int.{ℤ}
use lewly_pgpyewj.Db.{BookingStatus}
use lewly_pgpyewj.Effect.{Exec}
use lewly_pgpyewj.Store.Events
use lewly_pgpyewj.Store.Bookings.{Booking}
use lewly_pgpyewj.Store.Bookings as Repository
use lewly_pgpyewj.Store.BookingTx
use lewly_pgpyewj.Service.Bookings.{encode_seats}

-- GetBookingStatus
abbrev pub get_booking_status : Uuid → Exec (Option BookingStatus)
get_booking_status = Repository.get_booking_status

-- GetAvailableSeats
abbrev pub get_available_seats : Uuid → Exec (List Text)
get_available_seats = Events.get_available_seats

-- ListUserBookings
abbrev pub list_user_bookings : Uuid → ℕ → ℕ → Exec (List Booking)
list_user_bookings = Repository.list_by_user

-- FinalizeBooking
abbrev pub finalize_booking : Uuid → List Text → ℤ → Exec (Unit {0})
finalize_booking booking_id seats amount_paid =
    BookingTx.finalize_booking booking_id (encode_seats seats) amount_paid
