-- ===== src/Service/Finalize/Timeout.antt =====
-- What the timeout of a booking that was not paid does.
use lewly_pgpyewj.Prelude.{
  ◌≡◌, refl, false, none, some, List, Uuid, Text, ◌==◌, empty_text, first_where, any_where,
}
use lewly_pgpyewj.Db.{Db, BookingRow, BookingStatus, Event, User, WaitlistEntry}
use lewly_pgpyewj.Effect.{
  ok, err, constraint, FinalizePayload, World, calm, call, query, sql, ◌>>=◌,
}
use lewly_pgpyewj.Store.Bookings.{
  Booking, with_id, scan_booking, insert_pending, create_pending, set_booking,
}
use lewly_pgpyewj.Store.BookingTx.{decode_seats}
use lewly_pgpyewj.Store.BookingTx.Outcome.{cancel_booking_tx-cancelled}
use lewly_pgpyewj.Store.Events
use lewly_pgpyewj.Store.Events.{event_with}
use lewly_pgpyewj.Store.Waitlist
use lewly_pgpyewj.Store.Waitlist.{next_entry}
use lewly_pgpyewj.Service.Payment.Paid.{get_by_id_ok}
use lewly_pgpyewj.Service.Finalize.{expire_booking, promote_next, handle_booking_timeout}

-- the database with the booking cancelled
abbrev pub expired : Uuid → Db → Db
expired id = set_booking id (λ r. record r { status = BookingStatus.cancelled })

module _ (payload : FinalizePayload) (labels : List Text) (w : World) (row : BookingRow)
    (b : Booking) (event : Event)
    (found : first_where (with_id payload.booking_id) w.db.bookings ≡ some row)
    (scanned : scan_booking row (calm w) ≡ (ok b, calm w))
    (decoded : decode_seats b.seats ≡ ok labels)
    (there : first_where (event_with payload.event_id) w.db.events ≡ some event) where
  -- When no call fails, the timeout of a booking that is scanned without an error, whose seat list
  -- is decoded, that is still pending, and of an event that exists and for which nobody waits,
  -- cancels the booking and does nothing else: the tokens that it took are not released.
  pub handle_booking_timeout_keeps_tokens :
      b.status ≡ BookingStatus.pending
      → next_entry payload.event_id (expired payload.booking_id w.db) ≡ none
      → handle_booking_timeout payload (calm w)
        ≡ (ok tt, record (calm w) { db = expired payload.booking_id w.db })
  unfolding handle_booking_timeout expire_booking Events.get Waitlist.next_active query sql call
      ◌>>=◌ set_booking
  handle_booking_timeout_keeps_tokens waits nobody =
      rw
        (
          get_by_id_ok payload.booking_id w row b found scanned,
          waits,
          cancel_booking_tx-cancelled payload.booking_id labels w row b found scanned decoded,
          waits,
          there,
          nobody,
        )
        refl

  -- When no call fails and somebody waits for the event, the timeout of a booking that is scanned
  -- without an error, whose seat list is decoded, that is still pending, and of an event that
  -- exists, takes the id of the entry in the waitlist for the id of the user. If that id is not
  -- empty and no user has it, the timeout cancels the booking and then fails on the foreign key:
  -- nobody is promoted, and the entry stays.
  pub handle_booking_timeout_promotes_nobody :
      (entry : WaitlistEntry)
      → b.status ≡ BookingStatus.pending
      → next_entry payload.event_id (expired payload.booking_id w.db) ≡ some entry
      → entry.id == empty_text ≡ false
      → any_where (λ (u : User). u.id == entry.id) w.db.users ≡ false
      → handle_booking_timeout payload (calm w)
        ≡ (err constraint, record (calm w) { db = expired payload.booking_id w.db })
  unfolding handle_booking_timeout expire_booking promote_next create_pending insert_pending
      Events.get Waitlist.next_active query sql call ◌>>=◌ set_booking
  handle_booking_timeout_promotes_nobody entry waits next named unknown =
      rw
        (
          get_by_id_ok payload.booking_id w row b found scanned,
          waits,
          cancel_booking_tx-cancelled payload.booking_id labels w row b found scanned decoded,
          waits,
          there,
          next,
          named,
          unknown,
        )
        refl
