-- ===== src/Clients/Alone.antt =====
-- A call of Create that nobody comes between, next to `create`.
use lewly_pgpyewj.Prelude.{ℕ, ◌≡◌, refl, ap, ◌∙◌, arith, Bool, true, false, Option, none, some}
use lewly_pgpyewj.Effect.{Result, pure, ◌>>◌, World, call, query, sql, ignore, on_error, ◌>>=◌}
use lewly_pgpyewj.Store.Bookings.{Booking}
use lewly_pgpyewj.Db.{Event, BookingStatus}
use lewly_pgpyewj.Store.Waitlist
use lewly_pgpyewj.Service.Bookings.{
  BookingResponse, create_reserved, create_checked, create_for, create, finalize_payload,
}
use lewly_pgpyewj.Clients.{BookRequest, Stage, advance, admit}
use lewly_pgpyewj.Effect.Cut.{go_on, replies, bind_alone}
use lewly_pgpyewj.Service.Outgoing.{publish}

over :
    (r : BookRequest) (answer : Result (ℕ × BookingResponse)) (w : World)
    → advance r (Stage.replied answer) w ≡ (Stage.replied answer, w)
unfolding advance
over r answer w = refl

add_alone :
    (r : BookRequest) (w : World)
    → go_on (advance r) 2 (Stage.answered false, w)
      ≡ replies Stage.replied (create_reserved r.event_id r.user_id r.key r.seats false w)
unfolding go_on advance create_reserved on_error ◌>>=◌ Waitlist.add query sql call
add_alone r w = ground arith

published_alone :
    (r : BookRequest) (b : Booking) (w : World)
    → go_on (advance r) 1 (Stage.inserted b, w)
      ≡ replies Stage.replied (
          (ignore (publish r.event_id (finalize_payload b.id r.event_id r.user_id r.seats r.key))
              >> pure
                  (202, record { booking_id = b.id; status = BookingStatus.pending; position = 0 }))
            w)
unfolding go_on advance ignore ◌>>=◌ publish call
published_alone r b w = ground arith

reserved_alone :
    (r : BookRequest) (granted : Bool) (w : World)
    → go_on (advance r) 2 (Stage.answered granted, w)
      ≡ replies Stage.replied (create_reserved r.event_id r.user_id r.key r.seats granted w)
unfolding go_on advance create_reserved
reserved_alone r true w =
    bind_alone (advance r) Stage.replied (over r) 1 Stage.inserted _ (published_alone r) _ w
reserved_alone r false w = add_alone r w

checked_alone :
    (r : BookRequest) (earlier : Option Booking) (w : World)
    → go_on (advance r) 3 (Stage.checked earlier, w)
      ≡ replies Stage.replied (create_checked r.event_id r.user_id r.key r.seats earlier w)
unfolding go_on advance create_checked
checked_alone r (some b) w = refl
checked_alone r none w =
    bind_alone (advance r) Stage.replied (over r) 2 Stage.answered _ (reserved_alone r) _ w

admit_then :
    (r : BookRequest) (event : Event) (w : World)
    → (admit r event >>= create_checked r.event_id r.user_id r.key r.seats) w
      ≡ create_for r.event_id r.user_id r.key r.seats (some event) w
unfolding admit create_for ◌>>=◌ ignore
admit_then r event w = ground arith

found_alone :
    (r : BookRequest) (event : Option Event) (w : World)
    → go_on (advance r) 4 (Stage.found event, w)
      ≡ replies Stage.replied (create_for r.event_id r.user_id r.key r.seats event w)
unfolding go_on advance create_for
found_alone r none w = refl
found_alone r (some event) w =
    bind_alone (advance r) Stage.replied (over r) 3 Stage.checked _ (checked_alone r)
      (admit r event) w
    ∙ ap (replies Stage.replied) (admit_then r event w)

-- For every request and every world, whichever calls fail: when nothing comes between its calls,
-- a client that arrives has after five of them the reply of `create`, and the world is the one that
-- `create` leaves.
pub create-alone :
    (r : BookRequest) (w : World)
    → go_on (advance r) 5 (Stage.arrived, w)
      ≡ replies Stage.replied (create r.event_id r.user_id r.key r.seats w)
unfolding go_on advance create
create-alone r w = bind_alone (advance r) Stage.replied (over r) 4 Stage.found _ (found_alone r) _ w
