-- ===== src/Store/Admin.antt =====
-- internal/store/admin/admin.go
pub mod Closing
pub mod Update
use lewly_pgpyewj.Prelude.{
  ℕ, Bool, true, not, ◌&&◌, ◌||◌, List, [], ◌∷◌, Text, Uuid, Time, ltb, leb, ◌==◌, if◌then◌else◌,
  select, update_where, count_where, order_by, page, map,
}
use lewly_pgpyewj.Prelude.Int.{ℤ, pos, ◌+ℤ◌, ltb_ℤ}
use lewly_pgpyewj.Db.{
  Db, User, Role, Event, EventStatus, BookingRow, BookingStatus, WaitlistEntry, is_pending,
  is_booked, is_admin,
}
use lewly_pgpyewj.Effect.{
  Exec, pure, query, exec, exec_counting, ◌>>=◌, ◌>>◌, with_tx, require_rows,
}
use lewly_pgpyewj.Store.Events.{event_with, set_events}
use lewly_pgpyewj.Store.Users.{user_with, update_users, delete_users}
use lewly_pgpyewj.Store.Waitlist.{set_entries}

abbrev pub live_booking_of : Uuid → BookingRow → Bool
live_booking_of event_id b = b.event_id == event_id && (is_pending b.status || is_booked b.status)

-- UPDATE bookings SET status = 'cancelled' WHERE event_id = $1 AND status IN (…)
unfoldable pub cancel_live : Uuid → Db → Db
cancel_live event_id d = record d {
  bookings =
      update_where (live_booking_of event_id)
        (λ (b : BookingRow). record b { status = BookingStatus.cancelled }) d.bookings;
}

-- CancelEvent
unfoldable pub cancel_event : Uuid → Exec (Unit {0})
cancel_event event_id = with_tx do
  exec (set_events (event_with event_id) (λ e. record e { status = EventStatus.cancelled }))
  exec (cancel_live event_id)
  exec (
      set_entries (λ e. e.event_id == event_id)
        (λ (e : WaitlistEntry). record e { opted_out = true }))

-- CreateAdminFromUser
unfoldable pub create_admin_from_user : Uuid → Exec (Unit {0})
create_admin_from_user user_id =
    update_users (user_with user_id) (λ u. record u { role = Role.admin })

-- RemoveAdmin
unfoldable pub remove_admin : Uuid → Exec (Unit {0})
remove_admin user_id =
    update_users (λ u. user_with user_id u && is_admin u.role) (λ u. record u { role = Role.user })

abbrev pub removable : Uuid → User → Bool
removable user_id u = user_with user_id u && not (is_admin u.role)

-- RemoveUser
unfoldable pub remove_user : Uuid → Exec (Unit {0})
remove_user user_id = do
  affected ←
      exec_counting (λ d. count_where (removable user_id) d.users)
        (delete_users (removable user_id))
  require_rows affected

pub record PopularEvent : Type 0 where
  pub id : Uuid
  pub name : Text
  pub bookings : ℕ
  pub likes : ℤ

-- The utilization is the quotient of the two sums, in percent, or 0 without capacity.
pub record AnalyticsSummary : Type 0 where
  pub total_bookings : ℕ
  pub total_events : ℕ
  pub total_users : ℕ
  pub reserved_sum : ℤ
  pub capacity_sum : ℤ
  pub most_popular_events : List PopularEvent

abbrev pub between : Time → Time → Time → Bool
between from to t = leb from t && leb t to

abbrev pub sum_of : (Event → ℤ) → List Event → ℤ
sum_of f [] = pos 0
sum_of f (e ∷ es) = f e +ℤ sum_of f es

abbrev pub popular : Time → Time → Db → Event → PopularEvent
popular from to d e = record {
  id = e.id;
  name = e.name;
  bookings =
      count_where
        (λ (b : BookingRow).
          b.event_id == e.id && is_booked b.status && between from to b.created_at)
        d.bookings;
  likes = e.likes;
}

abbrev pub more_popular : PopularEvent → PopularEvent → Bool
more_popular a b =
    if a.bookings == b.bookings then ltb_ℤ b.likes a.likes else ltb b.bookings a.bookings

-- GetSummary: five statements
unfoldable pub get_summary : Time → Time → Exec AnalyticsSummary
get_summary from to = do
  total_bookings ← query (λ d.
      count_where (λ (b : BookingRow). between from to b.created_at && is_booked b.status)
        d.bookings)
  total_events ← query (λ d. count_where (λ (e : Event). between from to e.created_at) d.events)
  total_users ← query (λ d. count_where (λ (u : User). between from to u.created_at) d.users)
  sums ← query {A = ℤ × ℤ} (λ d.
      let es = select (λ (e : Event). between from to e.created_at) d.events in
      (sum_of (λ e. e.reserved) es, sum_of (λ e. e.capacity) es))
  top ← query (λ d. page 10 0 (
      order_by more_popular
        (map (popular from to d) (select (λ (e : Event). between from to e.created_at) d.events))))
  pure (record {
    total_bookings = total_bookings;
    total_events = total_events;
    total_users = total_users;
    reserved_sum = sums.0;
    capacity_sum = sums.1;
    most_popular_events = top;
  })
