-- ===== src/Store/Admin/Closing.antt =====
-- What the cancellation of an event leaves of its bookings and of its waitlist.
use lewly_pgpyewj.Prelude.{
  ◌≡◌, refl, arith, true, none, List, [], ◌∷◌, Uuid, ◌==◌, select, update_where, any_where, Bool,
  false, ◌&&◌,
}
use lewly_pgpyewj.Db.{BookingRow, BookingStatus, WaitlistEntry}
use lewly_pgpyewj.Effect.{ok, World, calm, call, sql, exec, with_tx, ◌>>=◌}
use lewly_pgpyewj.Store.Events.{set_events}
use lewly_pgpyewj.Store.Waitlist.{set_entries, next_entry, active_for}
use lewly_pgpyewj.Store.Admin.{live_booking_of, cancel_live, cancel_event}

abbrev pub is_open : BookingStatus → Bool
is_open BookingStatus.pending = true
is_open BookingStatus.booked = true
is_open _ = false

none_live :
    (event_id : Uuid) (bs : List BookingRow)
    → any_where
        (λ b. b.event_id == event_id && is_open b.status)
        (update_where
          (live_booking_of event_id)
          (λ (b : BookingRow). record b { status = BookingStatus.cancelled })
          bs)
      ≡ false
none_live event_id [] = refl
none_live event_id (b ∷ bs) = ground (arith, none_live event_id bs)

none_active :
    (event_id : Uuid) (es : List WaitlistEntry)
    → select (active_for event_id) (
        update_where
          (λ (e : WaitlistEntry). e.event_id == event_id)
          (λ e. record e { opted_out = true })
          es)
      ≡ []
none_active event_id [] = refl
none_active event_id (e ∷ es) = ground (arith, none_active event_id es)

-- When no call fails, CancelEvent of the admin repository succeeds, and afterwards no booking of
-- the event has the status pending or booked, and nobody who waits for it can be promoted.
pub cancel_event_closes :
    (event_id : Uuid) (w : World)
    → let (r, w') = cancel_event event_id (calm w) in
      (r ≡ ok tt)
      × (any_where (λ b. b.event_id == event_id && is_open b.status) w'.db.bookings ≡ false)
      × (next_entry event_id w'.db ≡ none)
unfolding cancel_event cancel_live set_entries set_events next_entry with_tx exec sql call ◌>>=◌
cancel_event_closes event_id w =
    (refl, none_live event_id w.db.bookings, rw (none_active event_id w.db.waitlist) refl)
