-- ===== src/Service/Admin.antt =====
-- internal/service/admin/admin.go
use lewly_pgpyewj.Prelude.{Option, none, some, List, Text, Uuid, Time, length, if◌then◌else◌}
use lewly_pgpyewj.Prelude.Int.{ℤ, pos, eqb_ℤ}
use lewly_pgpyewj.Db.{Event, EventStatus, User, is_paid}
use lewly_pgpyewj.Effect.{
  Exec, pure, raise, crash, seats_mismatch, event_cancellation, Returned, value, failure, attempt,
  ignore, for_each, ◌>>=◌, ◌>>◌,
}
use lewly_pgpyewj.Store.Events
use lewly_pgpyewj.Store.Events.{NewEvent}
use lewly_pgpyewj.Store.Users
use lewly_pgpyewj.Store.Seats.{create_seats}
use lewly_pgpyewj.Store.Bookings.{Booking, list_by_event}
use lewly_pgpyewj.Store.Admin
use lewly_pgpyewj.Store.Admin.{AnalyticsSummary}
use lewly_pgpyewj.Store.Admin.Update
use lewly_pgpyewj.Redis.{init_tokens}
use lewly_pgpyewj.Service.Outgoing.{send}
use lewly_pgpyewj.Service.Payment.{or_no_event}

-- AdminEvent
pub record AdminEvent : Type 0 where
  pub name : Text
  pub venue : Text
  pub category : Text
  pub start_time : Time
  pub end_time : Time
  pub capacity : ℤ
  pub metadata : Option Text
  pub ticket_price : ℤ
  pub cancellation_fee : ℤ
  pub maximum_tickets_per_booking : ℤ
  pub seats : List Text

abbrev pub to_new_event : AdminEvent → NewEvent
to_new_event i = record {
  name = i.name;
  venue = i.venue;
  start_time = i.start_time;
  end_time = i.end_time;
  category = i.category;
  capacity = i.capacity;
  metadata = i.metadata;
  status = EventStatus.upcoming;
  ticket_price = i.ticket_price;
  cancellation_fee = i.cancellation_fee;
  maximum_tickets_per_booking = i.maximum_tickets_per_booking;
}

-- CreateEvent: a failure to create the seats is only logged
unfoldable pub create_event : AdminEvent → Exec Event
create_event i =
    if eqb_ℤ (pos (length i.seats)) i.capacity
    then (do
      event ← Events.create (to_new_event i)
      ignore (create_seats event.id i.seats)
      ignore (init_tokens event.id event.capacity)
      pure event)
    else raise seats_mismatch

-- GetSummary
abbrev pub get_summary : Time → Time → Exec AnalyticsSummary
get_summary = Admin.get_summary

-- UpdateEvent
abbrev pub update_event : Uuid → List (Text × Text) → Exec (Unit {0})
update_event = Update.update_event

-- CreateAdminFromUser
abbrev pub create_admin_from_user : Uuid → Exec (Unit {0})
create_admin_from_user = Admin.create_admin_from_user

-- RemoveAdmin
abbrev pub remove_admin : Uuid → Exec (Unit {0})
remove_admin = Admin.remove_admin

-- RemoveUser
abbrev pub remove_user : Uuid → Exec (Unit {0})
remove_user = Admin.remove_user

-- GetUserByEmail
abbrev pub get_user_by_email : Text → Exec (Option User)
get_user_by_email = Users.get_by_email

-- An error is logged, and the nil user is then dereferenced; so is that of a missing row.
abbrev pub user_or_crash : Returned (Option User) → Exec User
user_or_crash (value (some u)) = pure u
user_or_crash (value none) = crash
user_or_crash (failure e) = crash

unfoldable pub notify_cancelled : Event → Booking → Exec (Unit {0})
notify_cancelled event b =
    if is_paid b.payment_status
    then (do
      found ← attempt (Users.get_by_id b.user_id)
      holder ← user_or_crash found
      ignore (send (event_cancellation holder.email event.name event.ticket_price)))
    else pure tt

-- CancelEvent
unfoldable pub cancel_event : Uuid → Exec (Unit {0})
cancel_event event_id = do
  found ← Events.get event_id
  event ← or_no_event found
  Admin.cancel_event event_id
  bookings ← list_by_event event_id 1000 0
  for_each bookings (notify_cancelled event)
