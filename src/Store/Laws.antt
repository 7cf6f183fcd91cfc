-- ===== src/Store/Laws.antt =====
-- The interface between the repositories and the services for a relation between the world before
-- and after: each method that writes obeys it, and so does each call outside of Postgres. What a
-- service does follows from that.
use lewly_pgpyewj.Prelude.{Option, List, Text, Uuid}
use lewly_pgpyewj.Prelude.Int.{ℤ}
use lewly_pgpyewj.Db.{Role, Event, EventStatus, PaymentStatus, SeatsJson}
use lewly_pgpyewj.Effect.{sql, World}
use lewly_pgpyewj.Effect.Obeys.{IsPreorder, Obeys}
use lewly_pgpyewj.Store.Bookings
use lewly_pgpyewj.Store.BookingTx
use lewly_pgpyewj.Store.Events
use lewly_pgpyewj.Store.Events.{NewEvent}
use lewly_pgpyewj.Store.Seats
use lewly_pgpyewj.Store.Waitlist
use lewly_pgpyewj.Store.Users
use lewly_pgpyewj.Store.Admin
use lewly_pgpyewj.Store.Admin.Update
use lewly_pgpyewj.Cmd.Reconcile
use lewly_pgpyewj.Service.Laws.{OutsideObeys}

pub record StoreObeys (R : World → World → Type 0) : Type 0 where
  pub preorder : IsPreorder R
  pub outside : OutsideObeys R
  pub create_pending :
      (user_id event_id : Uuid) (key : Option Text) (seats : SeatsJson)
      → Obeys R (Bookings.create_pending user_id event_id key seats)
  pub update_payment_status :
      (id : Uuid) (s : PaymentStatus) (n : ℤ) → Obeys R (Bookings.update_payment_status id s n)
  pub cancel_booking_tx : (id : Uuid) → Obeys R (BookingTx.cancel_booking_tx id)
  pub finalize_booking :
      (id : Uuid) (seats : SeatsJson) (n : ℤ) → Obeys R (BookingTx.finalize_booking id seats n)
  pub create : (n : NewEvent) → Obeys R (Events.create n)
  pub update_status : (id : Uuid) (s : EventStatus) → Obeys R (Events.update_status id s)
  pub like_event : (event_id user_id : Uuid) → Obeys R (Events.like_event event_id user_id)
  pub unlike_event : (event_id user_id : Uuid) → Obeys R (Events.unlike_event event_id user_id)
  pub update_expired_events : Obeys R Events.update_expired_events
  pub create_seats :
      (event_id : Uuid) (labels : List Text) → Obeys R (Seats.create_seats event_id labels)
  pub add : (event_id user_id : Uuid) → Obeys R (Waitlist.add event_id user_id)
  pub remove : (id : Uuid) → Obeys R (Waitlist.remove id)
  pub opt_out : (event_id user_id : Uuid) → Obeys R (Waitlist.opt_out event_id user_id)
  pub create_user :
      (name email phone hash : Text) (r : Role) → Obeys R (Users.create name email phone hash r)
  pub update_password : (id : Uuid) (hash : Text) → Obeys R (Users.update_password id hash)
  pub update_profile :
      (id : Uuid) (name phone : Text) → Obeys R (Users.update_profile id name phone)
  pub cancel_event : (event_id : Uuid) → Obeys R (Admin.cancel_event event_id)
  pub set_row : (id : Uuid) (f : Event → Event) → Obeys R (Update.set_row id f)
  pub create_admin_from_user : (id : Uuid) → Obeys R (Admin.create_admin_from_user id)
  pub remove_admin : (id : Uuid) → Obeys R (Admin.remove_admin id)
  pub remove_user : (id : Uuid) → Obeys R (Admin.remove_user id)
  pub insert_capacity : (e : Event) → Obeys R (sql (Reconcile.insert_capacity e))
