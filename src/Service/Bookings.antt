-- ===== src/Service/Bookings.antt =====
-- internal/service/bookings/bookings.go
pub mod PassedOn
pub mod Earlier
pub mod Create
pub mod Reserve
pub mod Cancel
use lewly_pgpyewj.Prelude.{
  ℕ, Bool, true, false, Option, none, some, List, [], ◌∷◌, Text, Uuid, ltb, ◌==◌, empty_text,
  length, if◌then◌else◌,
}
use lewly_pgpyewj.Prelude.Int.{pos, ltb_ℤ}
use lewly_pgpyewj.Db.{
  Event, EventStatus, BookingStatus, SeatsJson, json_array, json_null, User, WaitlistEntry,
}
use lewly_pgpyewj.Effect.{
  Result, ok, err, panic, Error, with_code, event_not_found, event_expired, too_many_tickets,
  FinalizePayload, cancellation, waitlist_promotion, Exec, pure, raise, crash, gets, Returned,
  value, failure, attempt, ignore, on_error, ◌>>=◌, ◌>>◌,
}
use lewly_pgpyewj.Store.Events
use lewly_pgpyewj.Store.Users
use lewly_pgpyewj.Store.Waitlist
use lewly_pgpyewj.Store.Bookings.{
  Booking, create_pending, get_by_idempotency, get_booking_status, list_by_user,
}
use lewly_pgpyewj.Store.BookingTx.{decode_seats, cancel_booking_tx, finalize_booking}
use lewly_pgpyewj.Redis.{reserve, release}
use lewly_pgpyewj.Service.Outgoing.{publish, send}

-- an empty booking_id and a position of 0 are left out of the JSON
pub record BookingResponse : Type 0 where
  pub booking_id : Uuid
  pub status : BookingStatus
  pub position : ℕ

-- json.Marshal of a slice that is not nil, as the handler's binding makes sure of it for Create
abbrev pub encode_seats : List Text → SeatsJson
encode_seats labels = json_array labels

-- json.Marshal of a slice that may be nil
abbrev pub encode_slice : Bool → List Text → SeatsJson
encode_slice is_nil labels = if is_nil then json_null else encode_seats labels

-- whether json.Unmarshal leaves a nil slice nil
abbrev pub stays_nil : Option SeatsJson → Bool
stays_nil (some (json_array labels)) = false
stays_nil _ = true

abbrev pub found_booking : Returned (Option Booking) → Option Booking
found_booking (value b) = b
found_booking (failure e) = none

-- the idempotency check: an error of the lookup is passed over
unfoldable pub earlier_booking : Option Text → Exec (Option Booking)
earlier_booking none = pure none
earlier_booking (some key) =
    if key == empty_text
    then pure none
    else do found ← attempt (get_by_idempotency key); pure (found_booking found)

abbrev pub finalize_payload : Uuid → Uuid → Uuid → List Text → Option Text → FinalizePayload
finalize_payload booking_id event_id user_id seats key = record {
  booking_id = booking_id;
  event_id = event_id;
  user_id = user_id;
  seats = seats;
  nil_seats = false;
  idempotency_key = key;
}

-- Create, once the reservation of the tokens has been answered
unfoldable pub create_reserved :
    Uuid → Uuid → Option Text → List Text → Bool → Exec (ℕ × BookingResponse)
create_reserved event_id user_id key seats true = do
  b ← on_error (with_code 500) (create_pending user_id event_id key (encode_seats seats))
  ignore (publish event_id (finalize_payload b.id event_id user_id seats key))
  pure (202, record { booking_id = b.id; status = BookingStatus.pending; position = 0 })
create_reserved event_id user_id key seats false = do
  position ← on_error (with_code 500) (Waitlist.add event_id user_id)
  pure (
    200,
    record { booking_id = empty_text; status = BookingStatus.waitlisted; position = position },
  )

-- Create, once the idempotency check has been made
unfoldable pub create_checked :
    Uuid → Uuid → Option Text → List Text → Option Booking → Exec (ℕ × BookingResponse)
create_checked event_id user_id key seats (some b) =
    pure (200, record { booking_id = b.id; status = b.status; position = 0 })
create_checked event_id user_id key seats none = do
  granted ← on_error (with_code 500) (reserve event_id (length seats))
  create_reserved event_id user_id key seats granted

-- Create, once the event has been read
unfoldable pub create_for :
    Uuid → Uuid → Option Text → List Text → Option Event → Exec (ℕ × BookingResponse)
create_for event_id user_id key seats none = raise (with_code 404 event_not_found)
create_for event_id user_id key seats (some event) = do
  now ← gets (λ w. w.db.clock)
  if ltb event.end_time now
      then ignore (Events.update_status event_id EventStatus.expired)
        >> raise (with_code 400 event_expired)
      else if ltb_ℤ event.maximum_tickets_per_booking (pos (length seats))
      then raise (with_code 400 too_many_tickets)
      else do earlier ← earlier_booking key; create_checked event_id user_id key seats earlier

-- Create: the HTTP status and the response, or an error with its status
unfoldable pub create : Uuid → Uuid → Option Text → List Text → Exec (ℕ × BookingResponse)
create event_id user_id key seats = do
  event ← on_error (with_code 500) (Events.get event_id)
  create_for event_id user_id key seats event

-- json.Unmarshal with its error passed over
abbrev pub seats_or_none : Result (List Text) → List Text
seats_or_none (ok labels) = labels
seats_or_none _ = []

abbrev pub seat_count : List Text → ℕ
seat_count [] = 1
seat_count (label ∷ labels) = length (label ∷ labels)

abbrev pub or_crash : {A : Type 0} → Option A → Exec A
or_crash none = crash
or_crash (some a) = pure a

-- the message, the removal from the waitlist and the mail, once the new booking is there
unfoldable pub announce :
    Uuid → Event → WaitlistEntry → Option SeatsJson → Returned Booking → Exec (Unit {0})
announce event_id event entry column (failure e) = pure tt
announce event_id event entry column (value pb) = do
  let seats = seats_or_none (decode_seats column)
  ignore (
      publish event_id
        (record (finalize_payload pb.id event_id entry.user_id seats (some pb.idempotency_key)) {
          nil_seats = stays_nil column;
        }))
  ignore (Waitlist.remove entry.id)
  found ← on_error (with_code 409) (Users.get_by_id entry.user_id)
  promoted ← or_crash found
  ignore (send (waitlist_promotion promoted.email event.name))

-- the next on the waitlist gets a pending booking for the seats of the cancelled one, which are
-- `column`
unfoldable pub promote :
    Uuid → Event → Option SeatsJson → Returned (Option WaitlistEntry) → Exec (Unit {0})
promote event_id event column (failure e) = pure tt
promote event_id event column (value none) = pure tt
promote event_id event column (value (some entry)) = do
  let seats = encode_slice (stays_nil column) (seats_or_none (decode_seats column))
  created ← attempt (create_pending entry.user_id event_id none seats)
  announce event_id event entry column created

-- what Cancel does for a booking that was booked
unfoldable pub settle_cancelled : Booking → Uuid → Exec (Unit {0})
settle_cancelled b booking_id = do
  let seats = seats_or_none (decode_seats b.seats)
  ignore (release b.event_id (seat_count seats))
  event ← on_error (with_code 409) (Events.get b.event_id)
  user ← on_error (with_code 409) (Users.get_by_id b.user_id)
  holder ← or_crash user
  cancelled_event ← or_crash event
  ignore (send (cancellation holder.email cancelled_event.cancellation_fee booking_id))
  next ← attempt (Waitlist.next_active b.event_id)
  promote b.event_id cancelled_event b.seats next

-- Cancel
unfoldable pub cancel : Uuid → Exec (ℕ × Uuid × BookingStatus)
cancel booking_id = do
  cancelled ← on_error (with_code 409) (cancel_booking_tx booking_id)
  if cancelled.1 then settle_cancelled cancelled.0 booking_id else pure tt
  pure (200, cancelled.0.id, cancelled.0.status)
