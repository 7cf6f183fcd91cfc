-- ===== src/Service/Bookings/Cancel.antt =====
-- What Cancel does for a booked booking while somebody waits.
use lewly_pgpyewj.Prelude.{
  Bool-cases, inl, inr, count_where, ◌==◌, ==_self, ◌≡◌, refl, none, some, Uuid, first_where,
}
use lewly_pgpyewj.Prelude.Int.{pos, ◌+ℤ◌}
use lewly_pgpyewj.Db.{Db, BookingRow, Event, User, WaitlistEntry}
use lewly_pgpyewj.Effect.{
  ok, World, calm, call, query, sql, ◌>>=◌, ignore, attempt, on_error, exec_counting, require_rows,
}
use lewly_pgpyewj.Store.Bookings.{Booking, insert_pending, create_pending}
use lewly_pgpyewj.Store.BookingTx.{decode_seats}
use lewly_pgpyewj.Store.Events
use lewly_pgpyewj.Store.Events.{event_with}
use lewly_pgpyewj.Store.Users
use lewly_pgpyewj.Store.Users.{user_with}
use lewly_pgpyewj.Store.Waitlist
use lewly_pgpyewj.Store.Waitlist.{next_entry, delete_entry, entry_with}
use lewly_pgpyewj.Redis.{release}
use lewly_pgpyewj.Redis.Conservation.{level}
use lewly_pgpyewj.Service.Outgoing.{publish, send}
use lewly_pgpyewj.Service.Bookings.{
  encode_slice, stays_nil, seats_or_none, seat_count, settle_cancelled, promote, announce,
}

-- This part of Cancel runs after a booked booking has been cancelled. When no call fails, the
-- event, the booking's user and the user of the next entry in the waitlist exist, and a booking
-- can be inserted for that user: the bucket of the event gets back a token for each seat of the
-- cancelled booking, or one if it lists none, and the pending booking for the same seats is added;
-- no token is taken for it, so the seats are on sale and promised at once.
pub settle_cancelled-both :
    (b : Booking) (id : Uuid) (w : World) (event : Event) (holder waiting : User)
    (entry : WaitlistEntry) (row : BookingRow) (d : Db)
    → first_where (event_with b.event_id) w.db.events ≡ some event
    → first_where (user_with b.user_id) w.db.users ≡ some holder
    → next_entry b.event_id w.db ≡ some entry
    → first_where (user_with entry.user_id) d.users ≡ some waiting
    → insert_pending entry.user_id b.event_id none
        (encode_slice (stays_nil b.seats) (seats_or_none (decode_seats b.seats)))
        w.db
      ≡ ok (row, d)
    → let w' = (settle_cancelled b id (calm w)).1 in
      (level w' b.event_id
        ≡ level w b.event_id +ℤ pos (seat_count (seats_or_none (decode_seats b.seats))))
      × (w'.db.bookings ≡ d.bookings)
unfolding settle_cancelled promote announce release publish send ignore attempt on_error Events.get
    Users.get_by_id Waitlist.next_active Waitlist.remove delete_entry exec_counting require_rows
    create_pending query sql call ◌>>=◌
settle_cancelled-both b id w event holder waiting entry row d there held next known inserted =
    elim (Bool-cases (count_where (entry_with entry.id) d.waitlist == 0)) [
      | inl gone ↦ rw (there, held, next, inserted, gone, known, ==_self b.event_id) (refl, refl)
      | inr listed ↦
          rw (there, held, next, inserted, listed, known, ==_self b.event_id) (refl, refl)
    ]
