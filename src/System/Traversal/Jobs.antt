-- ===== src/System/Traversal/Jobs.antt =====
-- The services for accounts and events, and the jobs.
use lewly_pgpyewj.Prelude.{
  ℕ, zero, suc, ◌≡◌, sym, ◌∙◌, arith, length, Option, none, some, List, Uuid, Text,
}
use lewly_pgpyewj.Prelude.Int.{ℤ, pos, negsuc, eqb_ℤ, eqb_ℤ-eq}
use lewly_pgpyewj.Db.{Assignment, Event, EventCapacity, User}
use lewly_pgpyewj.Effect.{
  World, ok, with_tx, sql, call, pure, ◌>>◌, Returned, value, failure, ignore,
}
use lewly_pgpyewj.Redis.{reserve, init_tokens}
use lewly_pgpyewj.Store.Seats.{create_seats}
use lewly_pgpyewj.Effect.Obeys.{
  Obeys, Obeys-bind, Obeys-bind_knowing, Obeys-call, Obeys-raise, Obeys-gets, Obeys-if, Obeys-sql,
}
use lewly_pgpyewj.Store.Bookings.{Booking}
use lewly_pgpyewj.Store.Admin.Update.{
  run_update, sets_twice, assign_all, is_empty, bound, update_event,
}
use lewly_pgpyewj.Store.Laws.{StoreObeys}
use lewly_pgpyewj.Service.Admin
use lewly_pgpyewj.Service.Admin.{AdminEvent}
use lewly_pgpyewj.Service.Auth
use lewly_pgpyewj.Service.Auth.{Crypto}
use lewly_pgpyewj.Service.Events as EventsService
use lewly_pgpyewj.Store.Events
use lewly_pgpyewj.Config.DefaultAdmin.{insert_admin, create_default_admin}
use lewly_pgpyewj.Cmd.Reconcile
use lewly_pgpyewj.Cmd.Server.{new_db, create_admin_with, boot}
use lewly_pgpyewj.System.Traversal.Outside.{outside_rules}
use lewly_pgpyewj.System.Traversal.Views.{log_in-Obeys}

create-capacity :
    (n : Events.NewEvent) (w : World) (e : Event)
    → (Events.create n w).0 ≡ ok e
    → e.capacity ≡ n.capacity
unfolding Events.create Events.insert_event Events.insert_with with_tx sql call
create-capacity n w e made = ground arith

module _ {R : World → World → Type 0} (store : StoreObeys R) where
  open_event-Obeys :
      (labels : List Text) (e : Event) (n : ℕ)
      → e.capacity ≡ pos n
      → Obeys R
          (ignore (create_seats e.id labels) >> (ignore (init_tokens e.id e.capacity) >> pure e))
  open_event-Obeys labels e n capacity =
      rw capacity
        (search (outside_rules, store.preorder, store.outside, store.create_seats) depth 9)

  -- The bucket gets the number of the seats, which is not negative.
  pub create_event-Obeys : (i : AdminEvent) → Obeys R (Admin.create_event i)
  unfolding Admin.create_event
  create_event-Obeys i =
      Obeys-if store.preorder (eqb_ℤ (pos (length i.seats)) i.capacity) _ _
        (λ match.
          Obeys-bind_knowing store.preorder (Events.create (Admin.to_new_event i)) _
            (store.create (Admin.to_new_event i))
            (λ w e made.
              open_event-Obeys i.seats e (length i.seats)
                (create-capacity (Admin.to_new_event i) w e made ∙ sym (eqb_ℤ-eq _ _ match))))
        (λ _. Obeys-raise store.preorder _)

  run_update-Obeys : (id : Uuid) (o : Option (List Assignment)) → Obeys R (run_update id o)
  run_update-Obeys id none = Obeys-sql store.preorder _ store.preorder.same
  run_update-Obeys id (some rest) =
      Obeys-if store.preorder (sets_twice rest) _ _
        (λ _. Obeys-sql store.preorder _ store.preorder.same)
        (λ _. store.set_row id (assign_all rest))

  pub update_event-Obeys : (id : Uuid) (us : List (Text × Text)) → Obeys R (update_event id us)
  unfolding update_event
  update_event-Obeys id us =
      Obeys-bind store.preorder _ _ (Obeys-gets store.preorder (λ w. w.bind_column)) (λ bind.
        Obeys-if store.preorder (is_empty us) _ _
          (λ _. Obeys-sql store.preorder _ store.preorder.same)
          (λ _. run_update-Obeys id (bound bind us)))

  notify_cancelled-Obeys : (e : Event) (b : Booking) → Obeys R (Admin.notify_cancelled e b)
  unfolding Admin.notify_cancelled
  notify_cancelled-Obeys e b = search (outside_rules, store.preorder, store.outside) depth 9

  pub cancel_event-Obeys : (id : Uuid) → Obeys R (Admin.cancel_event id)
  unfolding Admin.cancel_event
  cancel_event-Obeys id =
      search (outside_rules, store.preorder, store.cancel_event, notify_cancelled-Obeys) depth 12

  sign_up_checked-Obeys :
      (c : Crypto) (name email password phone : Text) (r : Returned (Option User))
      → Obeys R (Auth.sign_up_checked c name email password phone r)
  unfolding Auth.sign_up_checked
  sign_up_checked-Obeys c name email password phone (value (some u)) =
      search (outside_rules, store.preorder)
  sign_up_checked-Obeys c name email password phone (value none) =
      search (outside_rules, store.preorder, store.create_user, log_in-Obeys store.preorder) depth 7
  sign_up_checked-Obeys c name email password phone (failure e) =
      search (outside_rules, store.preorder, store.create_user, log_in-Obeys store.preorder) depth 7

  pub signup-Obeys :
      (c : Crypto) (name email password phone : Text)
      → Obeys R (Auth.signup c name email password phone)
  unfolding Auth.signup
  signup-Obeys c name email password phone =
      search (outside_rules, store.preorder, sign_up_checked-Obeys)

  insert_admin-Obeys :
      (c : Crypto) (email password : Text) → Obeys R (insert_admin c email password)
  unfolding insert_admin
  insert_admin-Obeys c email password =
      search (outside_rules, store.preorder, store.create_user) depth 9

  create_default_admin-Obeys :
      (c : Crypto) (email password : Text) → Obeys R (create_default_admin c email password)
  unfolding create_default_admin
  create_default_admin-Obeys c email password =
      search (outside_rules, store.preorder, insert_admin-Obeys) depth 9

  create_admin_with-Obeys :
      (c : Crypto) (email password : Text) (r : Returned (Unit {0}))
      → Obeys R (create_admin_with c email password r)
  create_admin_with-Obeys c email password (value u) =
      search (outside_rules, store.preorder, create_default_admin-Obeys)
  create_admin_with-Obeys c email password (failure e) = search (outside_rules, store.preorder)

  new_db-Obeys : Obeys R new_db
  unfolding new_db
  new_db-Obeys = Obeys-call store.preorder _ (search (outside_rules, store.preorder))

  pub boot-Obeys : (c : Crypto) (email password : Text) → Obeys R (boot c email password)
  unfolding boot
  boot-Obeys c email password =
      search (outside_rules, store.preorder, new_db-Obeys, create_admin_with-Obeys) depth 9

  pub change_password-Obeys :
      (c : Crypto) (id : Uuid) (old new : Text) → Obeys R (Auth.change_password c id old new)
  unfolding Auth.change_password
  change_password-Obeys c id old new =
      search (outside_rules, store.preorder, store.update_password) depth 12

  request_otp_for-Obeys :
      (email otp : Text) (r : Returned (Option User)) → Obeys R (Auth.request_otp_for email otp r)
  unfolding Auth.request_otp_for
  request_otp_for-Obeys email otp (failure e) = search (outside_rules, store.preorder)
  request_otp_for-Obeys email otp (value found) =
      search (outside_rules, store.preorder, store.outside) depth 9

  pub request_password_change_otp-Obeys :
      (email otp : Text) → Obeys R (Auth.request_password_change_otp email otp)
  unfolding Auth.request_password_change_otp
  request_password_change_otp-Obeys email otp =
      search (outside_rules, store.preorder, request_otp_for-Obeys)

  pub verify_password_change_otp-Obeys :
      (c : Crypto) (email otp new : Text)
      → Obeys R (Auth.verify_password_change_otp c email otp new)
  unfolding Auth.verify_password_change_otp
  verify_password_change_otp-Obeys c email otp new =
      search (outside_rules, store.preorder, store.outside, store.update_password) depth 14

  pub update_profile-Obeys :
      (id : Uuid) (name phone : Text) → Obeys R (Auth.update_profile id name phone)
  unfolding Auth.update_profile
  update_profile-Obeys id name phone =
      search (outside_rules, store.preorder, store.update_profile) depth 9

  pub check_expired-Obeys : Obeys R EventsService.check_and_update_expired_events
  unfolding EventsService.check_and_update_expired_events
  check_expired-Obeys = store.update_expired_events

  consume-Obeys : (id : Uuid) (n : ℕ) → Obeys R (Reconcile.consume id n)
  unfolding Reconcile.consume
  consume-Obeys id zero = search (outside_rules, store.preorder)
  consume-Obeys id (suc n) =
      let rest = consume-Obeys id n in
      Obeys-bind store.preorder (ignore (reserve id 1)) (λ _. Reconcile.consume id n)
        (search (outside_rules, store.preorder, store.outside)) (λ _. rest)

  adjust-Obeys : (id : Uuid) (diff : ℤ) → Obeys R (Reconcile.adjust id diff)
  unfolding Reconcile.adjust
  adjust-Obeys id (pos zero) = search (outside_rules, store.preorder)
  adjust-Obeys id (pos (suc n)) = search (outside_rules, store.preorder, store.outside)
  adjust-Obeys id (negsuc n) = consume-Obeys id (suc n)

  reconcile_event-Obeys : (c : EventCapacity) → Obeys R (Reconcile.reconcile_event c)
  unfolding Reconcile.reconcile_event
  reconcile_event-Obeys c = search (outside_rules, store.preorder, adjust-Obeys)

  pub reconcile-Obeys : Obeys R Reconcile.reconcile
  unfolding Reconcile.reconcile
  reconcile-Obeys =
      search (outside_rules, store.preorder, store.insert_capacity, reconcile_event-Obeys) depth 9
