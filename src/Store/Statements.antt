-- ===== src/Store/Statements.antt =====
-- The interface between the statements of the repositories and a relation between the world before
-- and after: if each statement obeys it, then so does each method that writes.
use lewly_pgpyewj.Prelude.{Bool, true, Option, none, some, Text, Uuid}
use lewly_pgpyewj.Prelude.Int.{ℤ}
use lewly_pgpyewj.Db.{
  Db, Role, Event, BookingRow, BookingStatus, PaymentStatus, SeatsJson, Seat, WaitlistEntry, User,
}
use lewly_pgpyewj.Effect.{Result, World}
use lewly_pgpyewj.Effect.Obeys.{
  IsPreorder, Obeys, left_by, Obeys-sql, Obeys-exec, Obeys-exec_counting, obeys_rules,
}
use lewly_pgpyewj.Store.Bookings
use lewly_pgpyewj.Store.Bookings.{
  Booking, insert_pending, set_booking, update_booking, scan_booking,
}
use lewly_pgpyewj.Store.BookingTx
use lewly_pgpyewj.Store.BookingTx.{
  or_no_rows, set_seats, add_reserved, release_booked, book_pending,
}
use lewly_pgpyewj.Store.Events
use lewly_pgpyewj.Store.Events.{
  NewEvent, insert_event, set_events, insert_like, count_like, delete_like, uncount_like,
}
use lewly_pgpyewj.Store.Seats
use lewly_pgpyewj.Store.Seats.{insert_seat}
use lewly_pgpyewj.Store.Waitlist
use lewly_pgpyewj.Store.Waitlist.{delete_entry, set_entries}
use lewly_pgpyewj.Store.Users
use lewly_pgpyewj.Store.Users.{insert_user, set_users, update_users, delete_users}
use lewly_pgpyewj.Store.Admin
use lewly_pgpyewj.Store.Admin.{cancel_live}
use lewly_pgpyewj.Store.Admin.Update
use lewly_pgpyewj.Store.Laws.{StoreObeys}
use lewly_pgpyewj.Service.Laws.{OutsideObeys}
use lewly_pgpyewj.Cmd.Reconcile

-- what a statement makes of the database
abbrev pub Changes : (World → World → Type 0) → (Db → Db) → Type 0
Changes R f = (w : World) → R w (record w { db = f w.db })

abbrev pub Inserts : {A : Type 0} → (World → World → Type 0) → (Db → Result (A × Db)) → Type 0
Inserts R f = Changes R (λ d. left_by d (f d))

pub record StatementsObey (R : World → World → Type 0) : Type 0 where
  pub preorder : IsPreorder R
  pub insert_pending :
      (u e : Uuid) (key : Option Text) (seats : SeatsJson)
      → Inserts R (Bookings.insert_pending u e key seats)
  pub set_cancelled :
      (id : Uuid) → Changes R (set_booking id (λ r. record r { status = BookingStatus.cancelled }))
  pub set_payment :
      (id : Uuid) (s : PaymentStatus) (n : ℤ)
      → Changes R (set_booking id (λ b. record b { payment_status = s; amount_paid = n }))
  pub book_pending :
      (id : Uuid) (seats : SeatsJson) (n : ℤ) → Changes R (BookingTx.book_pending id seats n)
  pub cancel_live : (id : Uuid) → Changes R (Admin.cancel_live id)
  pub set_seats : (p : Seat → Bool) (f : Seat → Seat) → Changes R (BookingTx.set_seats p f)
  pub insert_seat : (e : Uuid) (label : Text) → Inserts R (Seats.insert_seat e label)
  pub add_reserved : (id : Uuid) (n : ℤ) → Changes R (BookingTx.add_reserved id n)
  pub insert_event : (n : NewEvent) → Inserts R (Events.insert_event n)
  pub set_events : (p : Event → Bool) (f : Event → Event) → Changes R (Events.set_events p f)
  pub insert_like : (e u : Uuid) → Inserts R (Events.insert_like e u)
  pub count_like : (e u : Uuid) → Changes R (Events.count_like e u)
  pub delete_like : (e u : Uuid) → Changes R (Events.delete_like e u)
  pub uncount_like : (e : Uuid) → Changes R (Events.uncount_like e)
  pub add : (e u : Uuid) → Obeys R (Waitlist.add e u)
  pub delete_entry : (id : Uuid) → Changes R (Waitlist.delete_entry id)
  pub opt_out_where :
      (p : WaitlistEntry → Bool)
      → Changes R (set_entries p (λ (e : WaitlistEntry). record e { opted_out = true }))
  pub insert_user :
      (name email phone hash : Text) (r : Role)
      → Inserts R (Users.insert_user name email phone hash r)
  pub set_users : (p : User → Bool) (f : User → User) → Changes R (Users.set_users p f)
  pub delete_users : (p : User → Bool) → Changes R (Users.delete_users p)
  pub insert_capacity : (e : Event) → Inserts R (Reconcile.insert_capacity e)

module _ {R : World → World → Type 0} (s : StatementsObey R) where
  scan_booking-Obeys : (row : BookingRow) → Obeys R (scan_booking row)
  unfolding scan_booking
  scan_booking-Obeys row = search (obeys_rules, s.preorder)

  or_no_rows-Obeys : (o : Option BookingRow) → Obeys R (or_no_rows o)
  or_no_rows-Obeys none = search (obeys_rules, s.preorder)
  or_no_rows-Obeys (some row) = search (obeys_rules, s.preorder)

  ruleset rules = (
    obeys_rules, Obeys-sql, Obeys-exec, Obeys-exec_counting, scan_booking-Obeys, or_no_rows-Obeys,
  )

  pub release_booked-Obeys : (b : Booking) → Obeys R (release_booked b)
  unfolding release_booked
  release_booked-Obeys b = search (rules, s.preorder, s.add_reserved, s.set_seats) depth 11

  pub cancel_booking_tx-Obeys : (id : Uuid) → Obeys R (BookingTx.cancel_booking_tx id)
  unfolding BookingTx.cancel_booking_tx
  cancel_booking_tx-Obeys id =
      search (rules, s.preorder, s.set_cancelled, release_booked-Obeys) depth 13

  pub methods : OutsideObeys R → StoreObeys R
  unfolding Bookings.create_pending Bookings.update_payment_status update_booking
      BookingTx.finalize_booking Events.create Events.update_status Events.like_event
      Events.unlike_event Events.update_expired_events Seats.create_seats Waitlist.remove
      Waitlist.opt_out Users.create Users.update_password Users.update_profile update_users
      Admin.cancel_event Admin.create_admin_from_user Admin.remove_admin Admin.remove_user
      Update.set_row
  methods outside = record {
    preorder = s.preorder;
    outside = outside;
    create_pending =
        λ user_id event_id key seats. search (rules, s.preorder, s.insert_pending) depth 9;
    update_payment_status = λ id st n. search (rules, s.preorder, s.set_payment) depth 9;
    cancel_booking_tx = cancel_booking_tx-Obeys;
    finalize_booking = λ id seats n.
        search (rules, s.preorder, s.book_pending, s.set_seats, s.add_reserved) depth 13;
    create = λ n. search (rules, s.preorder, s.insert_event) depth 9;
    update_status = λ id st. search (rules, s.preorder, s.set_events) depth 9;
    like_event =
        λ event_id user_id. search (rules, s.preorder, s.insert_like, s.count_like) depth 9;
    unlike_event =
        λ event_id user_id. search (rules, s.preorder, s.delete_like, s.uncount_like) depth 9;
    update_expired_events = search (rules, s.preorder, s.set_events) depth 9;
    create_seats = λ event_id labels. search (rules, s.preorder, s.insert_seat) depth 9;
    add = s.add;
    remove = λ id. search (rules, s.preorder, s.delete_entry) depth 9;
    opt_out = λ event_id user_id. search (rules, s.preorder, s.opt_out_where) depth 9;
    create_user = λ name email phone hash r. search (rules, s.preorder, s.insert_user) depth 9;
    update_password = λ id hash. search (rules, s.preorder, s.set_users) depth 9;
    update_profile = λ id name phone. search (rules, s.preorder, s.set_users) depth 9;
    cancel_event = λ event_id.
        search (rules, s.preorder, s.set_events, s.cancel_live, s.opt_out_where) depth 9;
    set_row = λ id f. search (rules, s.preorder, s.set_events) depth 9;
    create_admin_from_user = λ id. search (rules, s.preorder, s.set_users) depth 9;
    remove_admin = λ id. search (rules, s.preorder, s.set_users) depth 9;
    remove_user = λ id. search (rules, s.preorder, s.delete_users) depth 9;
    insert_capacity = λ e. search (rules, s.preorder, s.insert_capacity) depth 9;
  }
