-- ===== src/System/Traversal/Views.antt =====
-- The middleware and the routes that only read.
use lewly_pgpyewj.Prelude.{ℕ, Bool, true, false, Option, none, some, Uuid, Text}
use lewly_pgpyewj.Db.{User}
use lewly_pgpyewj.Effect.{Error, World, Exec, attempt, pure}
use lewly_pgpyewj.Effect.Obeys.{IsPreorder, Obeys, Obeys-attempt, Obeys-bind, Obeys-pure}
use lewly_pgpyewj.Store.Admin
use lewly_pgpyewj.Store.Bookings as BookingsRepository
use lewly_pgpyewj.Store.Events as EventsRepository
use lewly_pgpyewj.Store.Waitlist as WaitlistRepository
use lewly_pgpyewj.Service.Auth as AuthService
use lewly_pgpyewj.Service.Auth.{Crypto}
use lewly_pgpyewj.Service.Events as EventsService
use lewly_pgpyewj.Middleware.Auth as Gate
use lewly_pgpyewj.Api.Respond.{respond, status_of}
use lewly_pgpyewj.Api.Guard.{behind, guarded}
use lewly_pgpyewj.Api.Bookings
use lewly_pgpyewj.Api.Waitlist
use lewly_pgpyewj.Api.Events
use lewly_pgpyewj.Api.Auth
use lewly_pgpyewj.Api.Admin as AdminApi
use lewly_pgpyewj.System.Views.{
  View, UserView, AdminView, view_route, user_view_route, admin_view_route,
}
use lewly_pgpyewj.System.Traversal.Outside.{read_rules}

module _ {R : World → World → Type 0} (pre : IsPreorder R) where
  pub respond-Obeys :
      {A : Type 0} (f : A → ℕ) (g : Error → ℕ) (m : Exec A) → Obeys R m → Obeys R (respond f g m)
  unfolding respond
  respond-Obeys f g m k =
      Obeys-bind pre (attempt m) (λ r. pure (status_of f g r)) (Obeys-attempt pre m k)
        (λ r. Obeys-pure pre (status_of f g r))

  is_user_admin-Obeys : (id : Uuid) → Obeys R (Gate.is_user_admin_in_db id)
  unfolding Gate.is_user_admin_in_db
  is_user_admin-Obeys id = search (read_rules, pre)

  check_claims-Obeys :
      (require_admin : Bool) (claims : Option Gate.Claims)
      → Obeys R (Gate.check_claims require_admin claims)
  unfolding Gate.check_claims
  check_claims-Obeys require_admin none = search (read_rules, pre)
  check_claims-Obeys false (some claims) = search (read_rules, pre)
  check_claims-Obeys true (some claims) = search (read_rules, pre, is_user_admin-Obeys) depth 7

  middleware-Obeys :
      (parse : Text → Option Gate.Claims) (require_admin : Bool) (h : Gate.Header)
      → Obeys R (Gate.middleware parse require_admin h)
  unfolding Gate.middleware
  middleware-Obeys parse require_admin Gate.no_bearer = search (read_rules, pre)
  middleware-Obeys parse require_admin (Gate.bearer token) =
      check_claims-Obeys require_admin (parse token)

  behind-Obeys :
      (handler : Uuid → Exec ℕ) (gate : Gate.Gate)
      → ((id : Uuid) → Obeys R (handler id))
      → Obeys R (behind handler gate)
  behind-Obeys handler Gate.unauthorized k = search (read_rules, pre)
  behind-Obeys handler Gate.forbidden k = search (read_rules, pre)
  behind-Obeys handler (Gate.pass claims) k = k claims.user_id

  pub guarded-Obeys :
      (parse : Text → Option Gate.Claims) (require_admin : Bool) (h : Gate.Header)
      (handler : Uuid → Exec ℕ)
      → ((id : Uuid) → Obeys R (handler id))
      → Obeys R (guarded parse require_admin h handler)
  unfolding guarded
  guarded-Obeys parse require_admin h handler k =
      search (read_rules, pre, middleware-Obeys, behind-Obeys)

  pub log_in-Obeys : (c : Crypto) (u : User) → Obeys R (AuthService.log_in c u)
  unfolding AuthService.log_in
  log_in-Obeys c u = search (read_rules, pre) depth 7

  login-Obeys : (c : Crypto) (body : Option (Text × Text)) → Obeys R (Auth.login c body)
  unfolding Auth.login AuthService.login
  login-Obeys c none = search (read_rules, pre)
  login-Obeys c (some (email, password)) =
      respond-Obeys _ _ _ (search (read_rules, pre, log_in-Obeys) depth 12)

  pub view-Obeys : (c : Crypto) (v : View) → Obeys R (view_route c v)
  unfolding view_route Events.list Events.list_all Events.list_upcoming Events.list_popular
      Events.get Events.get_available_seats Waitlist.get_count Waitlist.list Auth.logout
      EventsRepository.list EventsRepository.list_all EventsRepository.list_upcoming
      EventsRepository.list_popular EventsRepository.get_available_seats
      EventsService.get_with_tokens WaitlistRepository.count WaitlistRepository.list_by_event
  view-Obeys c (View.list_events matches limit offset q from to) =
      search (read_rules, pre, respond-Obeys)
  view-Obeys c (View.list_all limit offset) = search (read_rules, pre, respond-Obeys)
  view-Obeys c (View.list_upcoming limit offset) = search (read_rules, pre, respond-Obeys)
  view-Obeys c (View.list_popular limit offset) = search (read_rules, pre, respond-Obeys)
  view-Obeys c (View.get_event id) = search (read_rules, pre, respond-Obeys) depth 9
  view-Obeys c (View.available_seats id) = search (read_rules, pre, respond-Obeys)
  view-Obeys c (View.waitlist_count id) = search (read_rules, pre, respond-Obeys)
  view-Obeys c (View.waitlist id limit offset) = search (read_rules, pre, respond-Obeys)
  view-Obeys c (View.login body) = login-Obeys c body
  view-Obeys c View.logout = search (read_rules, pre)

  pub user_view-Obeys : (v : UserView) (uid : Uuid) → Obeys R (user_view_route v uid)
  unfolding user_view_route Bookings.get_status Bookings.list_user_bookings Auth.get_profile
      AuthService.get_profile BookingsRepository.get_booking_status BookingsRepository.list_by_user
  user_view-Obeys (UserView.booking_status id) uid = search (read_rules, pre, respond-Obeys) depth 7
  user_view-Obeys (UserView.user_bookings limit offset) uid =
      search (read_rules, pre, respond-Obeys) depth 7
  user_view-Obeys UserView.profile uid = search (read_rules, pre, respond-Obeys) depth 9

  pub admin_view-Obeys : (v : AdminView) → Obeys R (admin_view_route v)
  unfolding admin_view_route AdminApi.summary AdminApi.get_user_by_email Admin.get_summary
  admin_view-Obeys (AdminView.summary from to) = search (read_rules, pre, respond-Obeys) depth 9
  admin_view-Obeys (AdminView.find_user none) = search (read_rules, pre)
  admin_view-Obeys (AdminView.find_user (some email)) = search (read_rules, pre, respond-Obeys)
