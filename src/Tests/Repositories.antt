-- ===== src/Tests/Repositories.antt =====
-- The theorems on the repositories at concrete inputs.
use lewly_pgpyewj.Prelude.{none, ◌≡◌, refl, true, [], ◌∷◌}
use lewly_pgpyewj.Prelude.Int.{pos}
use lewly_pgpyewj.Db.{BookingStatus, PaymentStatus, json_array}
use lewly_pgpyewj.Effect.{World, ok, calm, effects}
use lewly_pgpyewj.Store.Bookings.{scan_booking}
use lewly_pgpyewj.Store.BookingTx.{finalize_booking, cancel_booking_tx}
use lewly_pgpyewj.Store.BookingTx.Outcome.{
  finalized, cancelled, finalize_booking-finalized, cancel_booking_tx-cancelled,
}
use lewly_pgpyewj.Store.Waitlist.{next_entry}
use lewly_pgpyewj.Store.Admin.{cancel_event}
use lewly_pgpyewj.Store.Admin.Closing.{is_open, cancel_event_closes}
use lewly_pgpyewj.Prelude.{any_where, ◌&&◌, ◌==◌, false}
use mathlib.Core.List.{Permᴰ}
use lewly_pgpyewj.Store.Admin.Update.{update_event, set_row, assign}
use lewly_pgpyewj.Store.Events.{set_events}
use lewly_pgpyewj.Store.Admin.Update.Order.{update_event-Perm}
use lewly_pgpyewj.Tests.Data.{show, pending_world, booked_world, row_of, booking_of}

finalize_booking-finalized_example :
    finalize_booking 100 (json_array (61 ∷ 62 ∷ [])) (pos 1000) (calm pending_world) ≡ (
      ok tt,
      record (calm pending_world) {
        db = finalized 10 100 (61 ∷ 62 ∷ []) (pos 1000) pending_world.db;
      },
    )
finalize_booking-finalized_example =
    finalize_booking-finalized 100 (61 ∷ 62 ∷ []) (pos 1000) pending_world
      (row_of BookingStatus.pending PaymentStatus.pending (pos 0)) refl

cancel_booking_tx-cancelled_example : cancel_booking_tx 100 (calm booked_world) ≡ (
  ok (booking_of BookingStatus.cancelled PaymentStatus.paid (pos 1000), true),
  record (calm booked_world) {
    db =
        cancelled
          (booking_of BookingStatus.booked PaymentStatus.paid (pos 1000))
          100
          (61 ∷ 62 ∷ [])
          booked_world.db;
  },
)
unfolding effects scan_booking
cancel_booking_tx-cancelled_example =
    cancel_booking_tx-cancelled 100 (61 ∷ 62 ∷ []) booked_world
      (row_of BookingStatus.booked PaymentStatus.paid (pos 1000))
      (booking_of BookingStatus.booked PaymentStatus.paid (pos 1000)) refl refl refl

-- the event is over
abbrev over_world : World
over_world = record pending_world { db = record pending_world.db { clock = 4000 } }

cancel_event_closes_example :
    let (r, w') = cancel_event 10 (calm booked_world) in
    (r ≡ ok tt)
    × (any_where (λ b. b.event_id == 10 && is_open b.status) w'.db.bookings ≡ false)
    × (next_entry 10 w'.db ≡ none)
cancel_event_closes_example = cancel_event_closes 10 booked_world

-- the name and the price of the event, in either order
update_event-Perm_example :
    update_event 10 ((2, 77) ∷ (1, 900) ∷ []) pending_world
    ≡ update_event 10 ((1, 900) ∷ (2, 77) ∷ []) pending_world
update_event-Perm_example = update_event-Perm 10 pending_world (Permᴰ.swap refl refl)

update_event_run :
    (update_event 10 ((2, 77) ∷ (1, 900) ∷ []) pending_world).1.db.events
    ≡ record show { name = 77; ticket_price = pos 900 } ∷ []
unfolding effects update_event set_row set_events assign
update_event_run = refl
