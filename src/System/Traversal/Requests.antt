-- ===== src/System/Traversal/Requests.antt =====
-- The handlers, the routes and the whole program.
use lewly_pgpyewj.Prelude.{true, false, Option, none, some, List, [], ◌∷◌, Uuid, Text}
use lewly_pgpyewj.Effect.{World}
use lewly_pgpyewj.Effect.Obeys.{Obeys}
use lewly_pgpyewj.Store.Laws.{StoreObeys}
use lewly_pgpyewj.Middleware.Auth as Gate
use lewly_pgpyewj.Api.Bookings
use lewly_pgpyewj.Api.Payment
use lewly_pgpyewj.Api.Waitlist
use lewly_pgpyewj.Api.Events
use lewly_pgpyewj.Api.Auth
use lewly_pgpyewj.Api.Admin
use lewly_pgpyewj.Service.Auth.{Crypto}
use lewly_pgpyewj.Service.Admin.{AdminEvent}
use lewly_pgpyewj.System.{UserRoute, AdminRoute, Request, user_route, admin_route, handle, serve}
use lewly_pgpyewj.System.Views.{user_view_route, admin_view_route}
use lewly_pgpyewj.System.Traversal.Outside.{outside_rules}
use lewly_pgpyewj.System.Traversal.Views.{
  respond-Obeys, guarded-Obeys, view-Obeys, user_view-Obeys, admin_view-Obeys,
}
use lewly_pgpyewj.System.Traversal.Services.{
  create-Obeys, cancel-Obeys, process_booking_payment-Obeys, process_cancellation_refund-Obeys,
  process_event_cancellation_refund-Obeys, work_on-Obeys, wake_up-Obeys,
}
use lewly_pgpyewj.System.Traversal.Jobs.{
  boot-Obeys, create_event-Obeys, update_event-Obeys, cancel_event-Obeys, signup-Obeys,
  change_password-Obeys, request_password_change_otp-Obeys, verify_password_change_otp-Obeys,
  update_profile-Obeys, check_expired-Obeys, reconcile-Obeys,
}

module _ {R : World → World → Type 0} (store : StoreObeys R) where
  module _ (c : Crypto) (parse : Text → Option Gate.Claims) where
    user_route-Obeys : (route : UserRoute) (uid : Uuid) → Obeys R (user_route c parse route uid)
    unfolding user_route Bookings.book Bookings.cancel Waitlist.join Waitlist.optout
        Events.like_event Events.unlike_event Auth.update_profile Auth.change_password
    user_route-Obeys (UserRoute.book event_id key none) uid = search (outside_rules, store.preorder)
    user_route-Obeys (UserRoute.book event_id key (some seats)) uid =
        search (outside_rules, store.preorder, respond-Obeys, create-Obeys store) depth 7
    user_route-Obeys (UserRoute.cancel_booking id) uid =
        search (respond-Obeys, store.preorder, cancel-Obeys store)
    user_route-Obeys (UserRoute.join id) uid = search (respond-Obeys, store.preorder, store.add)
    user_route-Obeys (UserRoute.optout id) uid =
        search (respond-Obeys, store.preorder, store.opt_out)
    user_route-Obeys (UserRoute.like id) uid =
        search (outside_rules, store.preorder, respond-Obeys, store.like_event)
    user_route-Obeys (UserRoute.unlike id) uid =
        search (outside_rules, store.preorder, respond-Obeys, store.unlike_event)
    user_route-Obeys (UserRoute.update_profile none) uid = search (outside_rules, store.preorder)
    user_route-Obeys (UserRoute.update_profile (some (name, phone))) uid =
        search (outside_rules, store.preorder, respond-Obeys, update_profile-Obeys store)
    user_route-Obeys (UserRoute.change_password none) uid = search (outside_rules, store.preorder)
    user_route-Obeys (UserRoute.change_password (some (old, new))) uid =
        search (outside_rules, store.preorder, respond-Obeys, change_password-Obeys store)

    create_route-Obeys : (i : Option AdminEvent) → Obeys R (Admin.create_event i)
    unfolding Admin.create_event
    create_route-Obeys none = search (outside_rules, store.preorder)
    create_route-Obeys (some i) = search (respond-Obeys, store.preorder, create_event-Obeys store)

    update_route-Obeys :
        (id : Uuid) (us : Option (List (Text × Text))) → Obeys R (Admin.update_event id us)
    unfolding Admin.update_event
    update_route-Obeys id none = search (outside_rules, store.preorder)
    update_route-Obeys id (some us) =
        search (respond-Obeys, store.preorder, update_event-Obeys store)

    admin_route-Obeys : (route : AdminRoute) → Obeys R (admin_route c parse route)
    unfolding admin_route Admin.cancel_event Admin.create_admin Admin.remove_admin Admin.remove_user
        Payment.process_event_cancellation_refund
    admin_route-Obeys (AdminRoute.create_event i) = create_route-Obeys i
    admin_route-Obeys (AdminRoute.cancel_event id) =
        search (respond-Obeys, store.preorder, cancel_event-Obeys store)
    admin_route-Obeys (AdminRoute.update_event id us) = update_route-Obeys id us
    admin_route-Obeys (AdminRoute.create_admin id) =
        search (respond-Obeys, store.preorder, store.create_admin_from_user)
    admin_route-Obeys (AdminRoute.remove_admin id) =
        search (respond-Obeys, store.preorder, store.remove_admin)
    admin_route-Obeys (AdminRoute.remove_user id) =
        search (respond-Obeys, store.preorder, store.remove_user)
    admin_route-Obeys (AdminRoute.refund_event id) =
        search (respond-Obeys, store.preorder, process_event_cancellation_refund-Obeys store)

    pub handle-Obeys : (r : Request) → Obeys R (handle c parse r)
    unfolding handle Payment.process_booking_payment Payment.process_refund Auth.signup
        Auth.request_password_change_otp Auth.verify_password_change_otp
    handle-Obeys (Request.as_user h route) =
        guarded-Obeys store.preorder parse false h (user_route c parse route)
          (user_route-Obeys route)
    handle-Obeys (Request.as_admin h route) =
        guarded-Obeys store.preorder parse true h (λ uid. admin_route c parse route)
          (λ uid. admin_route-Obeys route)
    handle-Obeys (Request.look v) = view-Obeys store.preorder c v
    handle-Obeys (Request.look_as_user h v) =
        guarded-Obeys store.preorder parse false h (user_view_route v)
          (user_view-Obeys store.preorder v)
    handle-Obeys (Request.look_as_admin h v) =
        guarded-Obeys store.preorder parse true h (λ uid. admin_view_route v)
          (λ uid. admin_view-Obeys store.preorder v)
    handle-Obeys (Request.pay id none payment_id) = search (outside_rules, store.preorder)
    handle-Obeys (Request.pay id (some amount) payment_id) =
        search (outside_rules, store.preorder, respond-Obeys, process_booking_payment-Obeys store)
          depth 7
    handle-Obeys (Request.refund id) =
        search (respond-Obeys, store.preorder, process_cancellation_refund-Obeys store)
    handle-Obeys (Request.signup none) = search (outside_rules, store.preorder)
    handle-Obeys (Request.signup (some b)) =
        search (respond-Obeys, store.preorder, signup-Obeys store)
    handle-Obeys (Request.request_otp otp none) = search (outside_rules, store.preorder)
    handle-Obeys (Request.request_otp otp (some email)) =
        search (respond-Obeys, store.preorder, request_password_change_otp-Obeys store)
    handle-Obeys (Request.verify_otp none) = search (outside_rules, store.preorder)
    handle-Obeys (Request.verify_otp (some b)) =
        search (respond-Obeys, store.preorder, verify_password_change_otp-Obeys store)
    handle-Obeys (Request.deliver m) = search (outside_rules, store.preorder, work_on-Obeys store)
    handle-Obeys (Request.timeout p) = search (outside_rules, store.preorder, wake_up-Obeys store)
    handle-Obeys (Request.start_server email password) =
        search (outside_rules, store.preorder, boot-Obeys store) depth 7
    handle-Obeys Request.check_expired =
        search (outside_rules, store.preorder, check_expired-Obeys store)
    handle-Obeys Request.run_reconcile =
        search (outside_rules, store.preorder, reconcile-Obeys store)

    pub serve-Obeys : (rs : List Request) (w : World) → R w (serve c parse rs w)
    unfolding serve
    serve-Obeys [] w = store.preorder.same w
    serve-Obeys (r ∷ rs) w =
        store.preorder.chain w _ _ ((handle-Obeys r).at w) (serve-Obeys rs (handle c parse r w).1)
