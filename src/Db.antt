-- ===== src/Db.antt =====
-- The Postgres tables (cmd/migrate/migrations) and the rows that the repositories of
-- internal/store read and write. Status columns are data types with the values that the CHECK
-- constraints allow. Columns that no code reads (updated_at, the unused event seats) are left out.
use lewly_pgpyewj.Prelude.{ℕ, Bool, true, false, Option, List, Text, Uuid, Time}
use lewly_pgpyewj.Prelude.Int.{ℤ}

pub data Role : Type 0 where
  user admin : Role

pub data EventStatus : Type 0 where
  upcoming ongoing cancelled expired : EventStatus

pub data BookingStatus : Type 0 where
  pending booked cancelled waitlisted expired : BookingStatus

pub data PaymentStatus : Type 0 where
  pending paid failed refunded : PaymentStatus

pub data SeatStatus : Type 0 where
  available held booked : SeatStatus

abbrev pub is_admin : Role → Bool
is_admin Role.admin = true
is_admin Role.user = false

abbrev pub is_upcoming : EventStatus → Bool
is_upcoming EventStatus.upcoming = true
is_upcoming _ = false

abbrev pub is_expired : EventStatus → Bool
is_expired EventStatus.expired = true
is_expired _ = false

abbrev pub is_pending : BookingStatus → Bool
is_pending BookingStatus.pending = true
is_pending _ = false

abbrev pub is_booked : BookingStatus → Bool
is_booked BookingStatus.booked = true
is_booked _ = false

abbrev pub is_cancelled : BookingStatus → Bool
is_cancelled BookingStatus.cancelled = true
is_cancelled _ = false

abbrev pub is_paid : PaymentStatus → Bool
is_paid PaymentStatus.paid = true
is_paid _ = false

abbrev pub is_available : SeatStatus → Bool
is_available SeatStatus.available = true
is_available _ = false

abbrev pub is_held : SeatStatus → Bool
is_held SeatStatus.held = true
is_held _ = false

-- The value of the JSONB column `seats`: an array of labels, `null`, or anything else.
pub data SeatsJson : Type 0 where
  json_null : SeatsJson
  json_array : List Text → SeatsJson
  json_other : SeatsJson

pub record User : Type 0 where
  pub id : Uuid
  pub name : Text
  pub email : Text
  pub phone : Text
  pub password_hash : Text
  pub role : Role
  pub created_at : Time

-- amounts of money are whole cents, as in NUMERIC(12,2)
pub record Event : Type 0 where
  pub id : Uuid
  pub name : Text
  pub venue : Text
  pub start_time : Time
  pub end_time : Time
  pub category : Text
  pub capacity : ℤ
  pub reserved : ℤ
  pub metadata : Text
  pub status : EventStatus
  pub ticket_price : ℤ
  pub cancellation_fee : ℤ
  pub likes : ℤ
  pub maximum_tickets_per_booking : ℤ
  pub created_at : Time

pub record EventLike : Type 0 where
  pub user_id : Uuid
  pub event_id : Uuid

-- `none` is NULL
pub record BookingRow : Type 0 where
  pub id : Uuid
  pub user_id : Option Uuid
  pub event_id : Uuid
  pub status : BookingStatus
  pub seats : Option SeatsJson
  pub idempotency_key : Option Text
  pub amount_paid : ℤ
  pub payment_status : PaymentStatus
  pub created_at : Time
  pub version : ℕ

pub record Seat : Type 0 where
  pub id : Uuid
  pub event_id : Uuid
  pub seat_label : Text
  pub status : SeatStatus
  pub held_until : Option Time
  pub held_by_booking : Option Uuid

pub record WaitlistEntry : Type 0 where
  pub id : Uuid
  pub event_id : Uuid
  pub user_id : Uuid
  pub position : ℕ
  pub opted_out : Bool
  pub notified_at : Option Time

pub record EventCapacity : Type 0 where
  pub event_id : Uuid
  pub capacity : ℤ
  pub reserved_count : ℤ

-- `uuid n` is what the n-th call of gen_random_uuid() returns, and `drawn` counts the calls.
-- `clock` is now(), which is time.Now() too.
pub record Db : Type 0 where
  pub users : List User
  pub events : List Event
  pub event_likes : List EventLike
  pub bookings : List BookingRow
  pub seats : List Seat
  pub waitlist : List WaitlistEntry
  pub event_capacity : List EventCapacity
  pub uuid : ℕ → Uuid
  pub drawn : ℕ
  pub clock : Time

-- the id of the next row that an INSERT adds
abbrev pub next_uuid : Db → Uuid
next_uuid d = d.uuid d.drawn

-- a column of `events` and the value that it gets
pub data Assignment : Type 0 where
  set_name set_venue set_category set_metadata set_event_seats : Text → Assignment
  set_start_time set_end_time set_created_at : Time → Assignment
  set_capacity set_reserved set_likes set_maximum_tickets_per_booking : ℤ → Assignment
  set_ticket_price set_cancellation_fee : ℤ → Assignment
  set_status : EventStatus → Assignment
