-- ===== src/Service/Bookings/Reserve.antt =====
-- What Create answers when no call fails: a pending booking while there are tokens, and a place on
-- the waitlist otherwise.
use lewly_pgpyewj.Prelude.{
  ◌≡◌, refl, true, false, Option, none, some, List, [], ◌∷◌, ◌++◌, Uuid, Text, length, first_where,
  ltb, empty_text, ◌==◌,
}
use lewly_pgpyewj.Prelude.Int.{pos, ◌-ℤ◌, ltb_ℤ, leb_ℤ}
use lewly_pgpyewj.Db.{Db, BookingRow, BookingStatus, Event}
use lewly_pgpyewj.Effect.{ok, World, calm, call, query, sql, ◌>>=◌, ignore, on_error, attempt}
use lewly_pgpyewj.Store.Bookings.{
  Booking, same_key, scan_booking, scan_found, get_by_idempotency, create_pending, insert_pending,
}
use lewly_pgpyewj.Store.Events
use lewly_pgpyewj.Store.Events.{event_with}
use lewly_pgpyewj.Store.Waitlist
use lewly_pgpyewj.Store.Waitlist.{next_position, insert_entry}
use lewly_pgpyewj.Redis.{set_key, reserve}
use lewly_pgpyewj.Redis.Conservation.{level}
use lewly_pgpyewj.Service.Outgoing.{publish}
use lewly_pgpyewj.Service.Bookings.{
  encode_seats, earlier_booking, finalize_payload, create_reserved, create_checked, create_for,
  create,
}

module _ (event_id user_id : Uuid) (key : Option Text) (seats : List Text) (w : World)
    (event : Event) (there : first_where (event_with event_id) w.db.events ≡ some event)
    (running : ltb event.end_time w.db.clock ≡ false)
    (within : ltb_ℤ event.maximum_tickets_per_booking (pos (length seats)) ≡ false) where
  -- When no call fails, the event exists and is not over, the seats are no more than it allows, no
  -- earlier booking has the key, the bucket holds a token for each seat, and the row can be
  -- inserted: then Create answers 202 with the pending row that it inserts, takes a token for each
  -- seat, and publishes the booking under the key of the event.
  pub create_reserves :
      (row : BookingRow) (d : Db)
      → earlier_booking key (calm w) ≡ (ok none, calm w)
      → leb_ℤ (pos (length seats)) (level w event_id) ≡ true
      → insert_pending user_id event_id key (encode_seats seats) w.db ≡ ok (row, d)
      → create event_id user_id key seats (calm w) ≡ (
        ok (202, record { booking_id = row.id; status = BookingStatus.pending; position = 0 }),
        record (calm w) {
          db = d;
          tokens = set_key w.tokens event_id (level w event_id -ℤ pos (length seats));
          published =
              w.published
              ++ record {
                key = event_id;
                value = some (finalize_payload row.id event_id user_id seats key);
              }
                ∷ [];
        },
      )
  unfolding create create_for create_checked create_reserved create_pending Events.get on_error
      ignore publish reserve query sql call ◌>>=◌
  create_reserves row d fresh enough inserted =
      rw (there, running, within, fresh, enough, inserted) refl

  -- When no call fails, the event exists and is not over, the seats are no more than it allows,
  -- and no earlier booking has the key, but the bucket does not hold a token for each seat, and
  -- the entry can be inserted: then Create answers 200 with the position of the entry that it adds
  -- to the waitlist, and does nothing else.
  pub create_waits :
      (d : Db)
      → earlier_booking key (calm w) ≡ (ok none, calm w)
      → leb_ℤ (pos (length seats)) (level w event_id) ≡ false
      → insert_entry event_id user_id (next_position event_id w.db) w.db ≡ ok (tt, d)
      → create event_id user_id key seats (calm w) ≡ (
        ok (
          200,
          record {
            booking_id = empty_text;
            status = BookingStatus.waitlisted;
            position = next_position event_id w.db;
          },
        ),
        record (calm w) { db = d },
      )
  unfolding create create_for create_checked create_reserved Waitlist.add Events.get on_error
      reserve query sql call ◌>>=◌
  create_waits d fresh short inserted = rw (there, running, within, fresh, short, inserted) refl

  -- When no call fails, the event exists and is not over, and the seats are no more than it
  -- allows: if a booking has the key already, which is not empty, and is scanned without an error,
  -- then Create answers 200 with the id and the status of that booking and changes nothing,
  -- whatever event and user that booking is for.
  pub create_repeats :
      (k : Text) (row : BookingRow) (b : Booking)
      → key ≡ some k
      → k == empty_text ≡ false
      → first_where (λ (r : BookingRow). same_key (some k) r.idempotency_key) w.db.bookings
        ≡ some row
      → scan_booking row (calm w) ≡ (ok b, calm w)
      → create event_id user_id key seats (calm w)
        ≡ (ok (200, record { booking_id = b.id; status = b.status; position = 0 }), calm w)
  unfolding create create_for create_checked earlier_booking get_by_idempotency scan_found
      Events.get attempt on_error query sql call ◌>>=◌
  create_repeats k row b keyed given found scanned =
      rw (there, running, within, keyed, earlier_booking, given, found, scanned) refl
