-- ===== src/Store/Events.antt =====
-- internal/store/events/events.go
pub mod Upkeep
use lewly_pgpyewj.Prelude.{
  ℕ, suc, Bool, true, false, not, ◌&&◌, Option, none, some, List, [], ◌∷◌, ◌++◌, Text, Uuid, Time,
  ltb, leb, ◌==◌, empty_text, if◌then◌else◌, select, first_where, update_where, delete_where,
  count_where, any_where, order_by, page, map, is_some,
}
use lewly_pgpyewj.Prelude.Int.{ℤ, pos, negsuc, ◌+ℤ◌, ltb_ℤ, eqb_ℤ}
use lewly_pgpyewj.Db.{
  Db, User, Event, EventLike, EventStatus, Seat, is_upcoming, is_expired, is_available, next_uuid,
}
use lewly_pgpyewj.Effect.{
  Result, ok, err, constraint, Exec, pure, query, sql, exec, exec_counting, ◌>>=◌, ◌>>◌, with_tx,
  require_rows,
}

-- The fields of an Event that Create writes.
pub record NewEvent : Type 0 where
  pub name : Text
  pub venue : Text
  pub start_time : Time
  pub end_time : Time
  pub category : Text
  pub capacity : ℤ
  pub metadata : Option Text
  pub status : EventStatus
  pub ticket_price : ℤ
  pub cancellation_fee : ℤ
  pub maximum_tickets_per_booking : ℤ

-- the new row, with the table's defaults in the other columns
abbrev pub event_row : NewEvent → Text → Db → Event
event_row n metadata d = record {
  id = next_uuid d;
  name = n.name;
  venue = n.venue;
  start_time = n.start_time;
  end_time = n.end_time;
  category = n.category;
  capacity = n.capacity;
  reserved = pos 0;
  metadata = metadata;
  status = n.status;
  ticket_price = n.ticket_price;
  cancellation_fee = n.cancellation_fee;
  likes = pos 0;
  maximum_tickets_per_booking = n.maximum_tickets_per_booking;
  created_at = d.clock;
}

-- without metadata a NULL is inserted, which the column refuses
unfoldable pub insert_with : NewEvent → Option Text → Db → Result (Event × Db)
insert_with n none d = err constraint
insert_with n (some metadata) d = ok (
  event_row n metadata d,
  record d { events = d.events ++ event_row n metadata d ∷ []; drawn = suc d.drawn },
)

unfoldable pub insert_event : NewEvent → Db → Result (Event × Db)
insert_event n d = insert_with n n.metadata d

-- Create
unfoldable pub create : NewEvent → Exec Event
create n = with_tx (sql (insert_event n))

abbrev pub event_with : Uuid → Event → Bool
event_with id e = e.id == id

-- Get
unfoldable pub get : Uuid → Exec (Option Event)
get id = query (λ d. first_where (event_with id) d.events)

-- start_time ASC
abbrev pub earlier : Event → Event → Bool
earlier a b = ltb a.start_time b.start_time

-- likes DESC, start_time ASC
abbrev pub more_liked : Event → Event → Bool
more_liked a b = if eqb_ℤ a.likes b.likes then earlier a b else ltb_ℤ b.likes a.likes

-- The filters of List; `matches` is ILIKE over the names.
abbrev pub listed : (Text → Text → Bool) → Text → Option Time → Option Time → Event → Bool
listed matches q from to e =
    (if q == empty_text then true else matches q e.name)
    && (elim from [ none ↦ true | some t ↦ leb t e.start_time ])
    && (elim to [ none ↦ true | some t ↦ leb e.start_time t ])

-- List
unfoldable pub list :
    (Text → Text → Bool) → ℕ → ℕ → Text → Option Time → Option Time → Exec (List Event)
list matches limit offset q from to =
    query (λ d. page limit offset (order_by earlier (select (listed matches q from to) d.events)))

-- ListAll
unfoldable pub list_all : ℕ → ℕ → Exec (List Event)
list_all limit offset =
    query
      (λ d. page limit offset (order_by earlier (select (λ e. ltb d.clock e.end_time) d.events)))

-- ListUpcoming
unfoldable pub list_upcoming : ℕ → ℕ → Exec (List Event)
list_upcoming limit offset = query (λ d.
    page limit offset
      (order_by earlier (select (λ e. ltb d.clock e.start_time && is_upcoming e.status) d.events)))

-- ListPopular
unfoldable pub list_popular : ℕ → ℕ → Exec (List Event)
list_popular limit offset =
    query
      (λ d. page limit offset (order_by more_liked (select (λ e. is_upcoming e.status) d.events)))

unfoldable pub set_events : (Event → Bool) → (Event → Event) → Db → Db
set_events p f d = record d { events = update_where p f d.events }

-- Update: every column of the struct but reserved and likes
abbrev pub updated : Event → Event → Event
updated n e = record e {
  name = n.name;
  venue = n.venue;
  start_time = n.start_time;
  end_time = n.end_time;
  category = n.category;
  capacity = n.capacity;
  metadata = n.metadata;
  status = n.status;
  ticket_price = n.ticket_price;
  cancellation_fee = n.cancellation_fee;
  maximum_tickets_per_booking = n.maximum_tickets_per_booking;
}

unfoldable pub update : Event → Exec (Unit {0})
update n = do
  affected ←
      exec_counting (λ d. count_where (event_with n.id) d.events)
        (set_events (event_with n.id) (updated n))
  require_rows affected

-- UpdateStatus
unfoldable pub update_status : Uuid → EventStatus → Exec (Unit {0})
update_status id status = do
  affected ←
      exec_counting (λ d. count_where (event_with id) d.events)
        (set_events (event_with id) (λ e. record e { status = status }))
  require_rows affected

abbrev pub like_of : Uuid → Uuid → EventLike → Bool
like_of event_id user_id l = l.user_id == user_id && l.event_id == event_id

-- INSERT INTO event_likes … ON CONFLICT DO NOTHING, under the foreign keys
unfoldable pub insert_like : Uuid → Uuid → Db → Result (Unit {0} × Db)
insert_like event_id user_id d =
    if any_where (like_of event_id user_id) d.event_likes
    then ok (tt, d)
    else if any_where (λ (u : User). u.id == user_id) d.users
        && any_where (event_with event_id) d.events
    then ok (
      tt,
      record d {
        event_likes = d.event_likes ++ record { user_id = user_id; event_id = event_id } ∷ [];
      },
    )
    else err constraint

-- UPDATE events SET likes = likes + 1 WHERE id = $1 AND EXISTS (…)
unfoldable pub count_like : Uuid → Uuid → Db → Db
unfolding set_events
count_like event_id user_id d =
    set_events (λ e. event_with event_id e && any_where (like_of event_id user_id) d.event_likes)
      (λ e. record e { likes = e.likes +ℤ pos 1 }) d

-- LikeEvent
unfoldable pub like_event : Uuid → Uuid → Exec (Unit {0})
like_event event_id user_id =
    with_tx (sql (insert_like event_id user_id) >> exec (count_like event_id user_id))

-- DELETE FROM event_likes WHERE user_id = $1 AND event_id = $2
unfoldable pub delete_like : Uuid → Uuid → Db → Db
delete_like event_id user_id d = record d {
  event_likes = delete_where (like_of event_id user_id) d.event_likes;
}

-- GREATEST(likes - 1, 0)
abbrev pub one_less : ℤ → ℤ
one_less n = if ltb_ℤ (n +ℤ negsuc 0) (pos 0) then pos 0 else n +ℤ negsuc 0

unfoldable pub uncount_like : Uuid → Db → Db
unfolding set_events
uncount_like event_id =
    set_events (event_with event_id) (λ e. record e { likes = one_less e.likes })

-- UnlikeEvent
unfoldable pub unlike_event : Uuid → Uuid → Exec (Unit {0})
unlike_event event_id user_id = with_tx do
  affected ←
      exec_counting (λ d. count_where (like_of event_id user_id) d.event_likes)
        (delete_like event_id user_id)
  if affected == 0 then pure tt else exec (uncount_like event_id)

-- IsLiked
unfoldable pub is_liked : Uuid → Uuid → Exec Bool
is_liked event_id user_id =
    query (λ d. is_some (first_where (like_of event_id user_id) d.event_likes))

abbrev pub seat_label_before : Text → Text → Bool
seat_label_before a b = ltb a b

-- GetAvailableSeats
unfoldable pub get_available_seats : Uuid → Exec (List Text)
get_available_seats event_id = query (λ d. order_by seat_label_before (
    map (λ s. s.seat_label)
      (select (λ (s : Seat). s.event_id == event_id && is_available s.status) d.seats)))

abbrev pub is_overdue : Time → Event → Bool
is_overdue now e = not (is_expired e.status) && ltb e.end_time now

-- UpdateExpiredEvents
unfoldable pub update_expired_events : Exec ℕ
update_expired_events =
    exec_counting (λ d. count_where (is_overdue d.clock) d.events)
      (λ d. set_events (is_overdue d.clock) (λ e. record e { status = EventStatus.expired }) d)
