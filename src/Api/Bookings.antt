-- ===== src/Api/Bookings.antt =====
-- internal/api/bookings/bookings.go
use lewly_pgpyewj.Prelude.{ℕ, Option, none, some, List, Text, Uuid, ◌==◌, empty_text, if◌then◌else◌}
use lewly_pgpyewj.Db.{BookingStatus}
use lewly_pgpyewj.Effect.{Exec, pure}
use lewly_pgpyewj.Service.Bookings.PassedOn.{get_booking_status, list_user_bookings as list_by_user}
use lewly_pgpyewj.Service.Bookings
use lewly_pgpyewj.Api.Respond.{respond, internal_error, code_of}

-- book; `key` is what uuid.NewString() returns. Every error is answered with 409.
unfoldable pub book : Uuid → Uuid → Text → Option (List Text) → Exec ℕ
book event_id user_id key none = pure 400
book event_id user_id key (some seats) =
    if user_id == empty_text
    then pure 401
    else if event_id == empty_text
    then pure 400
    else respond (λ r. r.0) (λ e. 409) (Bookings.create event_id user_id (some key) seats)

abbrev pub found_status : Option BookingStatus → ℕ
found_status none = 404
found_status (some status) = 200

-- getStatus
unfoldable pub get_status : Uuid → Exec ℕ
get_status id = respond found_status internal_error (get_booking_status id)

-- listUserBookings
unfoldable pub list_user_bookings : Uuid → ℕ → ℕ → Exec ℕ
list_user_bookings user_id limit offset =
    respond (λ bs. 200) internal_error (list_by_user user_id limit offset)

-- cancel
unfoldable pub cancel : Uuid → Exec ℕ
cancel id = respond (λ r. r.0) code_of (Bookings.cancel id)
