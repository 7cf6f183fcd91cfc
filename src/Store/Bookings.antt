-- ===== src/Store/Bookings.antt =====
-- internal/store/bookings/bookings.go
use lewly_pgpyewj.Prelude.{
  ℕ, suc, Bool, true, false, ◌&&◌, Option, none, some, List, [], ◌∷◌, ◌++◌, Text, Uuid, Time, ltb,
  ◌==◌, empty_text, if◌then◌else◌, select, first_where, update_where, count_where, any_where,
  order_by, page,
}
use lewly_pgpyewj.Prelude.Int.{ℤ, pos}
use lewly_pgpyewj.Db.{
  Db, BookingRow, BookingStatus, PaymentStatus, SeatsJson, User, Event, next_uuid,
}
use mathlib.Core.Option
use lewly_pgpyewj.Effect.{
  Result, ok, err, constraint, Exec, pure, query, sql, exec_counting, ◌>>=◌, require_rows,
  scan_nullable,
}

-- the struct, with Go strings where the table has nullable columns
pub record Booking : Type 0 where
  pub id : Uuid
  pub user_id : Text
  pub event_id : Uuid
  pub status : BookingStatus
  pub seats : Option SeatsJson
  pub idempotency_key : Text
  pub amount_paid : ℤ
  pub payment_status : PaymentStatus
  pub created_at : Time
  pub version : ℕ

abbrev pub or_empty : Option Text → Text
or_empty none = empty_text
or_empty (some t) = t

-- INSERT INTO bookings, under the foreign keys and `unique_event_idempotency`
abbrev pub same_key : Option Text → Option Text → Bool
same_key none _ = false
same_key (some k) none = false
same_key (some k) (some j) = k == j

abbrev pub pending_row : Uuid → Uuid → Option Text → SeatsJson → Db → BookingRow
pending_row user_id event_id key seats d = record {
  id = next_uuid d;
  user_id = some user_id;
  event_id = event_id;
  status = BookingStatus.pending;
  seats = some seats;
  idempotency_key = key;
  amount_paid = pos 0;
  payment_status = PaymentStatus.pending;
  created_at = d.clock;
  version = 1;
}

unfoldable pub insert_pending :
    Uuid → Uuid → Option Text → SeatsJson → Db → Result (BookingRow × Db)
insert_pending user_id event_id key seats d =
    if any_where (λ (u : User). u.id == user_id) d.users
      && any_where (λ (e : Event). e.id == event_id) d.events
      && (if any_where
            (λ (b : BookingRow). b.event_id == event_id && same_key key b.idempotency_key)
            d.bookings
          then false
          else true)
    then ok (
      pending_row user_id event_id key seats d,
      record d {
        bookings = d.bookings ++ pending_row user_id event_id key seats d ∷ [];
        drawn = suc d.drawn;
      },
    )
    else err constraint

abbrev pub pending_booking : Uuid → Uuid → Option Text → SeatsJson → BookingRow → Booking
pending_booking user_id event_id key seats row = record {
  id = row.id;
  user_id = user_id;
  event_id = event_id;
  status = BookingStatus.pending;
  seats = some seats;
  idempotency_key = or_empty key;
  amount_paid = pos 0;
  payment_status = PaymentStatus.pending;
  created_at = row.created_at;
  version = row.version;
}

-- CreatePending
unfoldable pub create_pending : Uuid → Uuid → Option Text → SeatsJson → Exec Booking
create_pending user_id event_id key seats = do
  row ← sql (insert_pending user_id event_id key seats)
  pure (pending_booking user_id event_id key seats row)

-- Scan of a row into the struct
unfoldable pub scan_booking : BookingRow → Exec Booking
scan_booking row = do
  user_id ← scan_nullable row.user_id
  key ← scan_nullable row.idempotency_key
  pure (record {
    id = row.id;
    user_id = user_id;
    event_id = row.event_id;
    status = row.status;
    seats = row.seats;
    idempotency_key = key;
    amount_paid = row.amount_paid;
    payment_status = row.payment_status;
    created_at = row.created_at;
    version = row.version;
  })

abbrev pub with_id : Uuid → BookingRow → Bool
with_id id b = b.id == id

-- pgx.ErrNoRows becomes nil
unfoldable pub scan_found : Option BookingRow → Exec (Option Booking)
scan_found none = pure none
scan_found (some row) = do b ← scan_booking row; pure (some b)

-- GetByID
unfoldable pub get_by_id : Uuid → Exec (Option Booking)
get_by_id id = do row ← query (λ d. first_where (with_id id) d.bookings); scan_found row

-- GetByIdempotency
unfoldable pub get_by_idempotency : Text → Exec (Option Booking)
get_by_idempotency key = do
  row ← query (λ d. first_where (λ b. same_key (some key) b.idempotency_key) d.bookings)
  scan_found row

unfoldable pub scan_all : List BookingRow → Exec (List Booking)
scan_all [] = pure []
scan_all (row ∷ rows) = do b ← scan_booking row; rest ← scan_all rows; pure (b ∷ rest)

-- created_at DESC
abbrev pub newer : BookingRow → BookingRow → Bool
newer a b = ltb b.created_at a.created_at

-- ListByUser
unfoldable pub list_by_user : Uuid → ℕ → ℕ → Exec (List Booking)
list_by_user user_id limit offset = do
  rows ← query (λ d.
      page limit offset
        (order_by newer (select (λ b. same_key (some user_id) b.user_id) d.bookings)))
  scan_all rows

-- ListByEvent
unfoldable pub list_by_event : Uuid → ℕ → ℕ → Exec (List Booking)
list_by_event event_id limit offset = do
  rows ←
      query
        (λ d. page limit offset (order_by newer (select (λ b. b.event_id == event_id) d.bookings)))
  scan_all rows

-- UPDATE bookings SET … WHERE id = $n
unfoldable pub set_booking : Uuid → (BookingRow → BookingRow) → Db → Db
set_booking id f d = record d { bookings = update_where (with_id id) f d.bookings }

unfoldable pub update_booking : Uuid → (BookingRow → BookingRow) → Exec (Unit {0})
update_booking id f = do
  affected ← exec_counting (λ d. count_where (with_id id) d.bookings) (set_booking id f)
  require_rows affected

-- UpdateStatus
unfoldable pub update_status : Uuid → BookingStatus → Exec (Unit {0})
update_status id status = update_booking id (λ b. record b { status = status })

-- UpdatePaymentStatus
unfoldable pub update_payment_status : Uuid → PaymentStatus → ℤ → Exec (Unit {0})
update_payment_status id payment_status amount_paid =
    update_booking id (λ b. record b { payment_status = payment_status; amount_paid = amount_paid })

-- UpdateSeats
unfoldable pub update_seats : Uuid → SeatsJson → Exec (Unit {0})
update_seats id seats = update_booking id (λ b. record b { seats = some seats })

-- GetBookingStatus; `none` is the empty string
unfoldable pub get_booking_status : Uuid → Exec (Option BookingStatus)
get_booking_status booking_id = do
  found ← query (λ d. first_where (with_id booking_id) d.bookings)
  pure (Option.map (λ (b : BookingRow). b.status) found)
