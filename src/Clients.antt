-- ===== src/Clients.antt =====
-- Several bookings at once: BookingsService.Create of internal/service/bookings/bookings.go, cut
-- wherever another request can come between two of its calls, with the repository methods that it
-- calls cut in the same way.
pub mod Alone
pub mod Seats
pub mod Bookings
use lewly_pgpyewj.Prelude.{
  ℕ, ◌+◌, ◌≡◌, Bool, true, false, Option, none, some, List, [], ◌∷◌, Uuid, Text, length, ltb, ◌==◌,
  empty_text, if◌then◌else◌,
}
use lewly_pgpyewj.Prelude.Int.{pos, ltb_ℤ}
use lewly_pgpyewj.Prelude.Picks.{Replaced}
use lewly_pgpyewj.Db.{Event, EventStatus, BookingStatus}
use lewly_pgpyewj.Effect.{
  Result, ok, err, panic, with_code, event_not_found, event_expired, too_many_tickets, World, Exec,
  pure, raise, gets, query, sql, ignore, on_error, ◌>>=◌, ◌>>◌,
}
use lewly_pgpyewj.Effect.Cut.{one_call}
use lewly_pgpyewj.Store.Events
use lewly_pgpyewj.Store.Bookings.{Booking, create_pending}
use lewly_pgpyewj.Store.Waitlist.{next_position, insert_entry}
use lewly_pgpyewj.Redis.{reserve}
use lewly_pgpyewj.Service.Outgoing.{publish}
use lewly_pgpyewj.Service.Bookings.{
  BookingResponse, earlier_booking, encode_seats, finalize_payload,
}

-- the arguments of Create
pub record BookRequest : Type 0 where
  pub event_id : Uuid
  pub user_id : Uuid
  pub key : Option Text
  pub seats : List Text

-- how far a call of Create has come, and what its last call returned
pub data Stage : Type 0 where
  arrived : Stage
  found : Option Event → Stage
  checked : Option Booking → Stage
  answered : Bool → Stage
  inserted : Booking → Stage
  positioned : ℕ → Stage
  replied : Result (ℕ × BookingResponse) → Stage

-- the tests on the event, and the idempotency check
unfoldable pub admit : BookRequest → Event → Exec (Option Booking)
admit r event = do
  now ← gets (λ w. w.db.clock)
  if ltb event.end_time now
      then ignore (Events.update_status r.event_id EventStatus.expired)
        >> raise (with_code 400 event_expired)
      else if ltb_ℤ event.maximum_tickets_per_booking (pos (length r.seats))
      then raise (with_code 400 too_many_tickets)
      else earlier_booking r.key

abbrev accepted : Booking → ℕ × BookingResponse
accepted b = (202, record { booking_id = b.id; status = BookingStatus.pending; position = 0 })

abbrev waitlisted : ℕ → ℕ × BookingResponse
waitlisted position = (
  200,
  record { booking_id = empty_text; status = BookingStatus.waitlisted; position = position },
)

abbrev repeated : Booking → ℕ × BookingResponse
repeated b = (200, record { booking_id = b.id; status = b.status; position = 0 })

-- the next call of Create
unfoldable pub advance : BookRequest → Stage → World → Stage × World
advance r Stage.arrived =
    one_call Stage.replied Stage.found (on_error (with_code 500) (Events.get r.event_id))
advance r (Stage.found none) =
    one_call Stage.replied Stage.checked (raise (with_code 404 event_not_found))
advance r (Stage.found (some event)) = one_call Stage.replied Stage.checked (admit r event)
advance r (Stage.checked (some b)) = one_call Stage.replied Stage.replied (pure (ok (repeated b)))
advance r (Stage.checked none) =
    one_call Stage.replied Stage.answered
      (on_error (with_code 500) (reserve r.event_id (length r.seats)))
advance r (Stage.answered true) =
    one_call Stage.replied Stage.inserted
      (on_error (with_code 500) (create_pending r.user_id r.event_id r.key (encode_seats r.seats)))
advance r (Stage.answered false) =
    one_call Stage.replied Stage.positioned
      (on_error (with_code 500) (query (next_position r.event_id)))
advance r (Stage.inserted b) =
    one_call Stage.replied (λ _. Stage.replied (ok (accepted b)))
      (ignore (publish r.event_id (finalize_payload b.id r.event_id r.user_id r.seats r.key)))
advance r (Stage.positioned position) =
    one_call Stage.replied (λ _. Stage.replied (ok (waitlisted position)))
      (on_error (with_code 500) (sql (insert_entry r.event_id r.user_id position)))
advance r (Stage.replied reply) = λ w. (Stage.replied reply, w)

pub record Client : Type 0 where
  pub request : BookRequest
  pub stage : Stage

pub record Site : Type 0 where
  pub world : World
  pub clients : List Client

-- `Calm w w'` says what else may change the world between two calls.
pub data Step (Calm : World → World → Type 0) (s : Site) : Site → Type 0 where
  arrives :
      (r : BookRequest)
      → Step Calm s
          (record s { clients = record { request = r; stage = Stage.arrived } ∷ s.clients })
  acts :
      {c : Client} {stage : Stage} {cs : List Client} {w : World}
      → advance c.request c.stage s.world ≡ (stage, w)
      → Replaced c (record c { stage = stage }) s.clients cs
      → Step Calm s (record { world = w; clients = cs })
  others : (w : World) → Calm s.world w → Step Calm s (record s { world = w })

pub data Reach (Calm : World → World → Type 0) (w : World) : Site → Type 0 where
  start : Reach Calm w (record { world = w; clients = [] })
  later : {s t : Site} → Reach Calm w s → Step Calm s t → Reach Calm w t
