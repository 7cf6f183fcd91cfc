-- ===== src/System/Views.antt =====
-- The routes that only read: the open ones, those behind the middleware for users and those behind
-- that for admins (the Register methods of internal/api).
use lewly_pgpyewj.Prelude.{ℕ, Bool, Option, Text, Uuid, Time}
use lewly_pgpyewj.Effect.{Exec}
use lewly_pgpyewj.Api.Bookings
use lewly_pgpyewj.Api.Waitlist
use lewly_pgpyewj.Api.Events
use lewly_pgpyewj.Api.Auth
use lewly_pgpyewj.Api.Admin
use lewly_pgpyewj.Service.Auth.{Crypto}

-- The first argument of `list_events` is ILIKE.
pub data View : Type 0 where
  list_events : (Text → Text → Bool) → ℕ → ℕ → Text → Option Time → Option Time → View
  list_all list_upcoming list_popular : ℕ → ℕ → View
  get_event available_seats waitlist_count : Uuid → View
  waitlist : Uuid → ℕ → ℕ → View
  login : Option (Text × Text) → View
  logout : View

pub data UserView : Type 0 where
  booking_status : Uuid → UserView
  user_bookings : ℕ → ℕ → UserView
  profile : UserView

pub data AdminView : Type 0 where
  summary : Time → Time → AdminView
  find_user : Option Text → AdminView

unfoldable pub view_route : Crypto → View → Exec ℕ
view_route c (View.list_events matches limit offset q from to) =
    Events.list matches limit offset q from to
view_route c (View.list_all limit offset) = Events.list_all limit offset
view_route c (View.list_upcoming limit offset) = Events.list_upcoming limit offset
view_route c (View.list_popular limit offset) = Events.list_popular limit offset
view_route c (View.get_event id) = Events.get id
view_route c (View.available_seats id) = Events.get_available_seats id
view_route c (View.waitlist_count id) = Waitlist.get_count id
view_route c (View.waitlist id limit offset) = Waitlist.list id limit offset
view_route c (View.login body) = Auth.login c body
view_route c View.logout = Auth.logout

unfoldable pub user_view_route : UserView → Uuid → Exec ℕ
user_view_route (UserView.booking_status id) uid = Bookings.get_status id
user_view_route (UserView.user_bookings limit offset) uid =
    Bookings.list_user_bookings uid limit offset
user_view_route UserView.profile uid = Auth.get_profile uid

unfoldable pub admin_view_route : AdminView → Exec ℕ
admin_view_route (AdminView.summary from to) = Admin.summary from to
admin_view_route (AdminView.find_user email) = Admin.get_user_by_email email
