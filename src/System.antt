-- ===== src/System.antt =====
-- The whole program: what it serves, one request, message, timer or job after another. The routes
-- are those of internal/api (the Register methods), the others are the worker's loop
-- (internal/worker/finalizer.go), the timeouts, the status checker and cmd/reconcile.
pub mod Admission
pub mod Cancellation
pub mod Front
pub mod Lifecycle
pub mod Reading
pub mod Tokens
pub mod Traversal
pub mod Views
use lewly_pgpyewj.Prelude.{ℕ, Bool, true, false, Option, List, [], ◌∷◌, Text, Uuid}
use lewly_pgpyewj.Prelude.Int.{ℤ}
use lewly_pgpyewj.Effect.{Message, FinalizePayload, World, Exec, pure, ignore, ◌>>=◌, ◌>>◌}
use lewly_pgpyewj.Middleware.Auth.{Claims, Header}
use lewly_pgpyewj.Api.Guard.{guarded}
use lewly_pgpyewj.Api.Bookings
use lewly_pgpyewj.Api.Payment
use lewly_pgpyewj.Api.Waitlist
use lewly_pgpyewj.Api.Events
use lewly_pgpyewj.Api.Auth
use lewly_pgpyewj.Api.Auth.{SignupRequest, OtpVerifyRequest}
use lewly_pgpyewj.Api.Admin
use lewly_pgpyewj.Service.Admin.{AdminEvent}
use lewly_pgpyewj.Service.Auth.{Crypto}
use lewly_pgpyewj.Service.Events.{check_and_update_expired_events}
use lewly_pgpyewj.Service.Finalize.{work_on, wake_up}
use lewly_pgpyewj.Cmd.Server.{boot}
use lewly_pgpyewj.Cmd.Reconcile.{reconcile}
use lewly_pgpyewj.System.Views.{
  View, UserView, AdminView, view_route, user_view_route, admin_view_route,
}

-- What the routes do behind the middleware for users, then behind that for admins.
pub data UserRoute : Type 0 where
  book : Uuid → Text → Option (List Text) → UserRoute
  cancel_booking : Uuid → UserRoute
  join optout like unlike : Uuid → UserRoute
  update_profile change_password : Option (Text × Text) → UserRoute

pub data AdminRoute : Type 0 where
  create_event : Option AdminEvent → AdminRoute
  update_event : Uuid → Option (List (Text × Text)) → AdminRoute
  cancel_event create_admin remove_admin remove_user refund_event : Uuid → AdminRoute

-- `look` and its like only read.
pub data Request : Type 0 where
  as_user : Header → UserRoute → Request
  as_admin : Header → AdminRoute → Request
  look : View → Request
  look_as_user : Header → UserView → Request
  look_as_admin : Header → AdminView → Request
  pay : Uuid → Option ℤ → Text → Request
  refund : Uuid → Request
  signup : Option SignupRequest → Request
  request_otp : Text → Option Text → Request
  verify_otp : Option OtpVerifyRequest → Request
  deliver : Message → Request
  timeout : FinalizePayload → Request
  start_server : Text → Text → Request
  check_expired : Request
  run_reconcile : Request

module _ (c : Crypto) (parse : Text → Option Claims) where
  unfoldable pub user_route : UserRoute → Uuid → Exec ℕ
  user_route (book event_id key seats) uid = Bookings.book event_id uid key seats
  user_route (cancel_booking id) uid = Bookings.cancel id
  user_route (join event_id) uid = Waitlist.join event_id uid
  user_route (optout event_id) uid = Waitlist.optout event_id uid
  user_route (like event_id) uid = Events.like_event event_id uid
  user_route (unlike event_id) uid = Events.unlike_event event_id uid
  user_route (update_profile body) uid = Auth.update_profile uid body
  user_route (change_password body) uid = Auth.change_password c uid body

  unfoldable pub admin_route : AdminRoute → Exec ℕ
  admin_route (create_event i) = Admin.create_event i
  admin_route (update_event id us) = Admin.update_event id us
  admin_route (cancel_event id) = Admin.cancel_event id
  admin_route (create_admin id) = Admin.create_admin id
  admin_route (remove_admin id) = Admin.remove_admin id
  admin_route (remove_user id) = Admin.remove_user id
  admin_route (refund_event id) = Payment.process_event_cancellation_refund id

  -- the HTTP status, and 0 for what answers nobody
  unfoldable pub handle : Request → Exec ℕ
  handle (as_user header route) = guarded parse false header (user_route route)
  handle (as_admin header route) = guarded parse true header (λ uid. admin_route route)
  handle (look view) = view_route c view
  handle (look_as_user header view) = guarded parse false header (user_view_route view)
  handle (look_as_admin header view) = guarded parse true header (λ uid. admin_view_route view)
  handle (pay id amount payment_id) = Payment.process_booking_payment id amount payment_id
  handle (refund id) = Payment.process_refund id
  handle (signup body) = Auth.signup c body
  handle (request_otp otp body) = Auth.request_password_change_otp otp body
  handle (verify_otp body) = Auth.verify_password_change_otp c body
  handle (deliver m) = do outcome ← work_on m; pure 0
  handle (timeout payload) = do wake_up payload; pure 0
  handle (start_server email password) = do routes ← boot c email password; pure 0
  handle check_expired = do n ← check_and_update_expired_events; pure 0
  handle run_reconcile = do reconcile; pure 0

  -- One after another; a panic ends its own request.
  unfoldable pub serve : List Request → World → World
  serve [] w = w
  serve (r ∷ rs) w = serve rs (handle r w).1
