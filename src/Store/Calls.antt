-- ===== src/Store/Calls.antt =====
-- The calls of repository methods that write, each of which any operation can make at any moment.
use lewly_pgpyewj.Prelude.{Option, List, Text, Uuid}
use lewly_pgpyewj.Prelude.Int.{ℤ}
use lewly_pgpyewj.Db.{Role, Event, EventStatus, PaymentStatus, SeatsJson}
use lewly_pgpyewj.Effect.{Exec, World, ignore, sql}
use lewly_pgpyewj.Effect.Obeys.{Obeys, Obeys-ignore}
use lewly_pgpyewj.Store.Laws.{StoreObeys}
use lewly_pgpyewj.Store.Bookings
use lewly_pgpyewj.Store.BookingTx
use lewly_pgpyewj.Store.Events
use lewly_pgpyewj.Store.Events.{NewEvent}
use lewly_pgpyewj.Store.Seats
use lewly_pgpyewj.Store.Waitlist
use lewly_pgpyewj.Store.Users
use lewly_pgpyewj.Store.Admin
use lewly_pgpyewj.Store.Admin.Update
use lewly_pgpyewj.Cmd.Reconcile

pub data Call : Type 0 where
  create_pending : Uuid → Uuid → Option Text → SeatsJson → Call
  update_payment_status : Uuid → PaymentStatus → ℤ → Call
  cancel_booking_tx : Uuid → Call
  finalize_booking : Uuid → SeatsJson → ℤ → Call
  create_event : NewEvent → Call
  update_status : Uuid → EventStatus → Call
  like_event unlike_event : Uuid → Uuid → Call
  update_expired_events : Call
  create_seats : Uuid → List Text → Call
  add_to_waitlist opt_out : Uuid → Uuid → Call
  remove_from_waitlist : Uuid → Call
  create_user : Text → Text → Text → Text → Role → Call
  update_password : Uuid → Text → Call
  update_profile : Uuid → Text → Text → Call
  cancel_event : Uuid → Call
  set_row : Uuid → (Event → Event) → Call
  create_admin_from_user remove_admin remove_user : Uuid → Call
  insert_capacity : Event → Call

-- one call, whatever it returns
unfoldable pub make : Call → Exec (Unit {0})
make (Call.create_pending user_id event_id key seats) =
    ignore (Bookings.create_pending user_id event_id key seats)
make (Call.update_payment_status id s n) = ignore (Bookings.update_payment_status id s n)
make (Call.cancel_booking_tx id) = ignore (BookingTx.cancel_booking_tx id)
make (Call.finalize_booking id seats n) = ignore (BookingTx.finalize_booking id seats n)
make (Call.create_event n) = ignore (Events.create n)
make (Call.update_status id s) = ignore (Events.update_status id s)
make (Call.like_event event_id user_id) = ignore (Events.like_event event_id user_id)
make (Call.unlike_event event_id user_id) = ignore (Events.unlike_event event_id user_id)
make Call.update_expired_events = ignore Events.update_expired_events
make (Call.create_seats event_id labels) = ignore (Seats.create_seats event_id labels)
make (Call.add_to_waitlist event_id user_id) = ignore (Waitlist.add event_id user_id)
make (Call.opt_out event_id user_id) = ignore (Waitlist.opt_out event_id user_id)
make (Call.remove_from_waitlist id) = ignore (Waitlist.remove id)
make (Call.create_user name email phone hash r) = ignore (Users.create name email phone hash r)
make (Call.update_password id hash) = ignore (Users.update_password id hash)
make (Call.update_profile id name phone) = ignore (Users.update_profile id name phone)
make (Call.cancel_event id) = ignore (Admin.cancel_event id)
make (Call.set_row id f) = ignore (Update.set_row id f)
make (Call.create_admin_from_user id) = ignore (Admin.create_admin_from_user id)
make (Call.remove_admin id) = ignore (Admin.remove_admin id)
make (Call.remove_user id) = ignore (Admin.remove_user id)
make (Call.insert_capacity e) = ignore (sql (Reconcile.insert_capacity e))

-- What every method obeys, every call obeys.
pub make-Obeys : {R : World → World → Type 0} → StoreObeys R → (k : Call) → Obeys R (make k)
unfolding make
make-Obeys s (Call.create_pending user_id event_id key seats) =
    Obeys-ignore s.preorder _ (s.create_pending user_id event_id key seats)
make-Obeys s (Call.update_payment_status id p n) =
    Obeys-ignore s.preorder _ (s.update_payment_status id p n)
make-Obeys s (Call.cancel_booking_tx id) = Obeys-ignore s.preorder _ (s.cancel_booking_tx id)
make-Obeys s (Call.finalize_booking id seats n) =
    Obeys-ignore s.preorder _ (s.finalize_booking id seats n)
make-Obeys s (Call.create_event n) = Obeys-ignore s.preorder _ (s.create n)
make-Obeys s (Call.update_status id e) = Obeys-ignore s.preorder _ (s.update_status id e)
make-Obeys s (Call.like_event event_id user_id) =
    Obeys-ignore s.preorder _ (s.like_event event_id user_id)
make-Obeys s (Call.unlike_event event_id user_id) =
    Obeys-ignore s.preorder _ (s.unlike_event event_id user_id)
make-Obeys s Call.update_expired_events = Obeys-ignore s.preorder _ s.update_expired_events
make-Obeys s (Call.create_seats event_id labels) =
    Obeys-ignore s.preorder _ (s.create_seats event_id labels)
make-Obeys s (Call.add_to_waitlist event_id user_id) =
    Obeys-ignore s.preorder _ (s.add event_id user_id)
make-Obeys s (Call.opt_out event_id user_id) =
    Obeys-ignore s.preorder _ (s.opt_out event_id user_id)
make-Obeys s (Call.remove_from_waitlist id) = Obeys-ignore s.preorder _ (s.remove id)
make-Obeys s (Call.create_user name email phone hash r) =
    Obeys-ignore s.preorder _ (s.create_user name email phone hash r)
make-Obeys s (Call.update_password id hash) = Obeys-ignore s.preorder _ (s.update_password id hash)
make-Obeys s (Call.update_profile id name phone) =
    Obeys-ignore s.preorder _ (s.update_profile id name phone)
make-Obeys s (Call.cancel_event id) = Obeys-ignore s.preorder _ (s.cancel_event id)
make-Obeys s (Call.set_row id f) = Obeys-ignore s.preorder _ (s.set_row id f)
make-Obeys s (Call.create_admin_from_user id) =
    Obeys-ignore s.preorder _ (s.create_admin_from_user id)
make-Obeys s (Call.remove_admin id) = Obeys-ignore s.preorder _ (s.remove_admin id)
make-Obeys s (Call.remove_user id) = Obeys-ignore s.preorder _ (s.remove_user id)
make-Obeys s (Call.insert_capacity e) = Obeys-ignore s.preorder _ (s.insert_capacity e)
