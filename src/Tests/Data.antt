-- ===== src/Tests/Data.antt =====
-- A small world: one event with three seats, two users, one booking and one who waits.
use lewly_pgpyewj.Prelude.{
  ◌==◌, if◌then◌else◌, Bool, true, false, Option, none, some, List, [], ◌∷◌, Uuid, Text,
}
use lewly_pgpyewj.Prelude.Int.{ℤ, pos}
use lewly_pgpyewj.Db.{
  Db, User, Role, Event, EventStatus, BookingRow, BookingStatus, PaymentStatus, Seat, SeatStatus,
  WaitlistEntry, EventCapacity, json_array, Assignment, set_ticket_price, set_name,
}
use lewly_pgpyewj.Effect.{World, FinalizePayload}
use lewly_pgpyewj.Store.Bookings.{Booking}
use lewly_pgpyewj.Service.Auth.{Crypto}
use lewly_pgpyewj.Middleware.Auth.{Claims}

abbrev pub alice : User
alice = record {
  id = 1;
  name = 11;
  email = 21;
  phone = 31;
  password_hash = 41;
  role = Role.user;
  created_at = 0;
}

abbrev pub root : User
root = record {
  id = 2;
  name = 12;
  email = 22;
  phone = 32;
  password_hash = 42;
  role = Role.admin;
  created_at = 0;
}

abbrev pub show : Event
show = record {
  id = 10;
  name = 51;
  venue = 52;
  start_time = 2000;
  end_time = 3000;
  category = 0;
  capacity = pos 3;
  reserved = pos 0;
  metadata = 0;
  status = EventStatus.upcoming;
  ticket_price = pos 500;
  cancellation_fee = pos 100;
  likes = pos 1;
  maximum_tickets_per_booking = pos 2;
  created_at = 0;
}

abbrev pub row_of : BookingStatus → PaymentStatus → ℤ → BookingRow
row_of status payment_status amount = record {
  id = 100;
  user_id = some 1;
  event_id = 10;
  status = status;
  seats = some (json_array (61 ∷ 62 ∷ []));
  idempotency_key = some 71;
  amount_paid = amount;
  payment_status = payment_status;
  created_at = 5;
  version = 1;
}

abbrev pub booking_of : BookingStatus → PaymentStatus → ℤ → Booking
booking_of status payment_status amount = record {
  id = 100;
  user_id = 1;
  event_id = 10;
  status = status;
  seats = some (json_array (61 ∷ 62 ∷ []));
  idempotency_key = 71;
  amount_paid = amount;
  payment_status = payment_status;
  created_at = 5;
  version = 1;
}

abbrev pub seat : Uuid → Text → Seat
seat id label = record {
  id = id;
  event_id = 10;
  seat_label = label;
  status = SeatStatus.available;
  held_until = none;
  held_by_booking = none;
}

abbrev pub waiting : WaitlistEntry
waiting = record {
  id = 81;
  event_id = 10;
  user_id = 2;
  position = 1;
  opted_out = false;
  notified_at = none;
}

abbrev pub capacity : EventCapacity
capacity = record { event_id = 10; capacity = pos 3; reserved_count = pos 1 }

abbrev pub db_with : List BookingRow → List WaitlistEntry → Db
db_with bookings waitlist = record {
  users = alice ∷ root ∷ [];
  events = show ∷ [];
  event_likes = record { user_id = 1; event_id = 10 } ∷ [];
  bookings = bookings;
  seats = seat 91 61 ∷ seat 92 62 ∷ seat 93 63 ∷ [];
  waitlist = waitlist;
  event_capacity = capacity ∷ [];
  uuid = λ n. n;
  drawn = 1000;
  clock = 1000;
}

-- field 1 is the price, field 2 the name
abbrev pub bind_column : Text → Text → Option Assignment
bind_column field value =
    if field == 1
    then some (set_ticket_price (pos value))
    else if field == 2
    then some (set_name value)
    else none

-- NULL is an error of the driver here
abbrev pub world_of : Db → List Bool → World
world_of d faults = record {
  db = d;
  tokens = λ e. some (pos 3);
  timeouts = λ e b. none;
  otps = λ e. none;
  published = [];
  dead_letters = [];
  mails = [];
  timers = [];
  faults = faults;
  scan_text = λ column. column;
  bind_column = bind_column;
}

abbrev pub pending_world : World
pending_world =
    world_of (db_with (row_of BookingStatus.pending PaymentStatus.pending (pos 0) ∷ []) []) []

abbrev pub waiting_world : World
waiting_world =
    world_of
      (db_with (row_of BookingStatus.pending PaymentStatus.pending (pos 0) ∷ []) (waiting ∷ [])) []

abbrev pub booked_world : World
booked_world =
    world_of
      (db_with (row_of BookingStatus.booked PaymentStatus.paid (pos 1000) ∷ []) (waiting ∷ [])) []

abbrev pub cancelled_world : World
cancelled_world =
    world_of (db_with (row_of BookingStatus.cancelled PaymentStatus.refunded (pos 900) ∷ []) []) []

abbrev pub payload : FinalizePayload
payload = record {
  booking_id = 100;
  event_id = 10;
  user_id = 1;
  seats = 61 ∷ 62 ∷ [];
  nil_seats = false;
  idempotency_key = none;
}

abbrev pub crypto : Crypto
crypto = record {
  hash = λ password. some password;
  compare = λ hash password. true;
  sign = λ id admin expires. some id;
}

-- every token is one of root's
abbrev pub parse : Text → Option Claims
parse token = some (record { user_id = 2; admin = true })
