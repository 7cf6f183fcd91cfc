-- ===== src/Service/Finalize.antt =====
-- internal/service/worker/finalize.go, and the message loop of internal/worker/finalizer.go
pub mod Timeout
pub mod Link
use lewly_pgpyewj.Prelude.{
  ℕ, ◌+◌, Bool, true, false, Option, none, some, List, [], ◌∷◌, ◌++◌, Text, Uuid, ◌==◌, empty_text,
  length, if◌then◌else◌,
}
use lewly_pgpyewj.Prelude.Float.{Float64}
use lewly_pgpyewj.Db.{Event, WaitlistEntry, is_pending}
use lewly_pgpyewj.Effect.{
  ok, Error, bad_json, booking_not_found, event_not_found, user_not_found, mail_failed, Message,
  FinalizePayload, Timer, payment_request, waitlist_promotion, World, Exec, pure, raise, Returned,
  value, failure, attempt, ignore, on_error, ◌>>=◌, ◌>>◌,
}
use lewly_pgpyewj.Store.Events
use lewly_pgpyewj.Store.Users
use lewly_pgpyewj.Store.Waitlist
use lewly_pgpyewj.Store.Bookings.{Booking, get_by_id, create_pending}
use lewly_pgpyewj.Store.BookingTx.{cancel_booking_tx}
use lewly_pgpyewj.Redis.{add_booking, get_booking, delete_booking, processed}
use lewly_pgpyewj.Service.Outgoing.{send, publish_dead, commit}
use lewly_pgpyewj.Service.Bookings.{encode_slice, or_crash}
use lewly_pgpyewj.Service.Payment.{or_no_event, expected_amount}

-- 15 * time.Minute
abbrev pub payment_timeout : ℕ
payment_timeout = 900

-- time.Sleep of the goroutine
unfoldable pub sleep_until_timeout : FinalizePayload → Exec (Unit {0})
sleep_until_timeout payload w = (
  ok tt,
  record w {
    timers = w.timers ++ record { due = w.db.clock + payment_timeout; payload = payload } ∷ [];
  },
)

-- scheduleBookingTimeout: the goroutine up to its sleep
unfoldable pub schedule_booking_timeout : FinalizePayload → Exec (Unit {0})
schedule_booking_timeout payload = do
  ignore (add_booking payload.event_id payload.booking_id)
  sleep_until_timeout payload

abbrev pub or_no_booking : Option Booking → Exec Booking
or_no_booking none = raise booking_not_found
or_no_booking (some b) = pure b

abbrev pub amount_of : Event → FinalizePayload → Float64
amount_of event payload = expected_amount event (length payload.seats)

-- HandleBookingFinalization
unfoldable pub handle_booking_finalization : FinalizePayload → Exec (Unit {0})
handle_booking_finalization payload = do
  booking ← get_by_id payload.booking_id
  or_no_booking booking
  found ← Events.get payload.event_id
  event ← or_no_event found
  account ← on_error (λ _. user_not_found) (Users.get_by_id payload.user_id)
  holder ← or_crash account
  on_error (λ _. mail_failed)
      (send (payment_request holder.email event.name (amount_of event payload) payload.booking_id))
  schedule_booking_timeout (record payload { idempotency_key = none })

-- the first result of NextActive, which HandleBookingTimeout takes for the user
abbrev pub first_result : Option WaitlistEntry → Uuid
first_result none = empty_text
first_result (some entry) = entry.id

-- the new booking for the next on the waitlist
unfoldable pub promote_next : FinalizePayload → Event → Uuid → Exec (Unit {0})
promote_next payload event user_id = do
  b ← create_pending user_id payload.event_id none (encode_slice payload.nil_seats payload.seats)
  account ← on_error (λ _. user_not_found) (Users.get_by_id payload.user_id)
  holder ← or_crash account
  ignore (send (waitlist_promotion holder.email event.name))
  on_error (λ _. mail_failed)
      (send (payment_request holder.email event.name (amount_of event payload) b.id))
  schedule_booking_timeout
      (record payload { booking_id = b.id; user_id = user_id; idempotency_key = none })

-- HandleBookingTimeout, for a booking that is still pending
unfoldable pub expire_booking : FinalizePayload → Exec (Unit {0})
expire_booking payload = do
  cancel_booking_tx payload.booking_id
  found ← Events.get payload.event_id
  event ← or_no_event found
  entry ← Waitlist.next_active payload.event_id
  if first_result entry == empty_text
      then pure tt
      else promote_next payload event (first_result entry)

-- HandleBookingTimeout
unfoldable pub handle_booking_timeout : FinalizePayload → Exec (Unit {0})
handle_booking_timeout payload = do
  found ← get_by_id payload.booking_id
  b ← or_no_booking found
  if is_pending b.status then expire_booking payload else pure tt

abbrev pub mark_of : Returned Text → Text
mark_of (value v) = v
mark_of (failure e) = empty_text

-- scheduleBookingTimeout: the goroutine after its sleep
unfoldable pub wake_up : FinalizePayload → Exec (Unit {0})
wake_up payload = do
  mark ← attempt (get_booking payload.event_id payload.booking_id)
  if mark_of mark == processed then pure tt else ignore (handle_booking_timeout payload)
  ignore (delete_booking payload.event_id payload.booking_id)

-- handleMessage, once the value has been decoded
unfoldable pub handle_value : Option FinalizePayload → Exec (Unit {0})
handle_value none = raise bad_json
handle_value (some payload) = handle_booking_finalization payload

-- handleMessage
abbrev pub handle_message : Message → Exec (Unit {0})
handle_message m = handle_value m.value

-- what becomes of a message, by the call that settled it
pub data Outcome : Type 0 where
  committed uncommitted dead_lettered lost : Outcome

abbrev pub commit_outcome : Returned (Unit {0}) → Outcome
commit_outcome (value done) = Outcome.committed
commit_outcome (failure e) = Outcome.uncommitted

abbrev pub dead_letter_outcome : Returned (Unit {0}) → Outcome
dead_letter_outcome (value done) = Outcome.dead_lettered
dead_letter_outcome (failure e) = Outcome.lost

-- after the message has been handled: the errors of both calls are dropped
unfoldable pub settle : Message → Returned (Unit {0}) → Exec Outcome
settle m (value done) = do answer ← attempt (commit m); pure (commit_outcome answer)
settle m (failure e) = do answer ← attempt (publish_dead m); pure (dead_letter_outcome answer)

-- the goroutine that Run starts for a message
unfoldable pub work_on : Message → Exec Outcome
work_on m = do done ← attempt (handle_message m); settle m done
