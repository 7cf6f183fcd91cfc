-- ===== src/Tests/Programs.antt =====
-- The theorems on the whole program, on the tokens and on the bookings service, at concrete inputs.
use lewly_pgpyewj.Prelude.{
  some, none, Option, Text, ◌++◌, ◌≡◌, refl, true, false, List, ◌⊎◌, [], ◌∷◌, first_where, arith,
}
use lewly_pgpyewj.Prelude.Int.{◌-ℤ◌, pos, ◌+ℤ◌, ◌≤ℤ◌}
use lewly_pgpyewj.Db.{Db, json_array, BookingStatus, PaymentStatus}
use lewly_pgpyewj.Effect.{calm, World, ok, effects}
use lewly_pgpyewj.Lifecycle.Rows.{Lifecycle}
use lewly_pgpyewj.Store.Bookings.{
  pending_row, scan_booking, scan_found, create_pending, insert_pending, get_by_idempotency,
}
use lewly_pgpyewj.Store.Events
use lewly_pgpyewj.Store.Events.{event_with}
use lewly_pgpyewj.Redis.{set_key, reserve}
use lewly_pgpyewj.Redis.Conservation.{
  level, TokenCall, reserves, releases, serve_all, serve_all_balance,
}
use lewly_pgpyewj.Middleware.Auth.{Claims, bearer}
use lewly_pgpyewj.Service.Outgoing.{publish}
use lewly_pgpyewj.Store.Waitlist.{entry_row, insert_entry, next_position}
use lewly_pgpyewj.Service.Bookings.Reserve.{create_reserves, create_waits, create_repeats}
use lewly_pgpyewj.System.Admission.{Refuses, handle-Refuses}
use lewly_pgpyewj.Service.Bookings.{
  finalize_payload, BookingResponse, create, create_for, create_checked, create_reserved,
  earlier_booking, cancel,
}
use lewly_pgpyewj.Service.Bookings.Create.{Accepted, Bookable, create_accepts}
use lewly_pgpyewj.System.{Request, UserRoute, AdminRoute, handle, serve}
use lewly_pgpyewj.System.Views.{UserView}
use lewly_pgpyewj.System.Lifecycle.{serve-Lifecycle}
use lewly_pgpyewj.System.Cancellation.{OnlyDb, cancel_once}
use lewly_pgpyewj.System.Reading.{Unchanged, handle-Unchanged}
use lewly_pgpyewj.System.Tokens.{serve-tokens}
use lewly_pgpyewj.Waitlist.Order.{IsOrdered}
use lewly_pgpyewj.Waitlist.Laws.{serve-IsOrdered}
use lewly_pgpyewj.Tests.Data.{
  show, waiting, row_of, booking_of, pending_world, booked_world, waiting_world, crypto, parse,
  payload, world_of, db_with,
}

abbrev requests : List Request
requests =
    Request.as_user (bearer 7) (UserRoute.join 10)
    ∷ Request.pay 100 (some (pos 1000)) 3
    ∷ Request.as_user (bearer 7) (UserRoute.cancel_booking 100)
    ∷ Request.timeout payload
    ∷ []

serve-Lifecycle_example : Lifecycle pending_world.db (serve crypto parse requests pending_world).db
serve-Lifecycle_example = serve-Lifecycle crypto parse requests pending_world

-- the first of two cancellations of a booked booking
abbrev once_cancelled : World
once_cancelled = (cancel 100 booked_world).1

cancel_once_example :
    OnlyDb booked_world once_cancelled
    ⊎ OnlyDb
        (serve crypto parse requests once_cancelled)
        (cancel 100 (serve crypto parse requests once_cancelled)).1
cancel_once_example = cancel_once crypto parse requests booked_world 100

waiting_world-IsOrdered : IsOrdered waiting_world.db
waiting_world-IsOrdered id = ground arith

serve-IsOrdered_example : IsOrdered (serve crypto parse requests waiting_world).db
serve-IsOrdered_example =
    serve-IsOrdered crypto parse requests waiting_world waiting_world-IsOrdered

abbrev calls : List TokenCall
calls = reserves 10 2 ∷ reserves 10 2 ∷ releases 10 1 ∷ reserves 10 2 ∷ []

abbrev flaky_world : World
flaky_world = world_of (db_with [] []) (false ∷ true ∷ [])

serve_all_balance_example :
    let (w', out, back) = serve_all 10 calls flaky_world in
    (level w' 10 +ℤ pos out ≡ level flaky_world 10 +ℤ pos back) × (pos 0 ≤ℤ level w' 10)
serve_all_balance_example = serve_all_balance 10 calls flaky_world (omega arith)

abbrev response : BookingResponse
response = record { booking_id = 1000; status = BookingStatus.pending; position = 0 }

create_accepts_example :
    Accepted 10 1
      (some 72)
      (61 ∷ 63 ∷ [])
      pending_world.db
      pending_world.tokens
      (create 10 1 (some 72) (61 ∷ 63 ∷ []) pending_world).1
    × Bookable 10 1
        (some 72)
        (61 ∷ 63 ∷ [])
        (first_where (event_with 10) pending_world.db.events)
        pending_world.db
unfolding effects create create_for create_checked create_reserved earlier_booking
    get_by_idempotency scan_found scan_booking create_pending insert_pending publish reserve
    Events.get
create_accepts_example = create_accepts 10 1 (some 72) (61 ∷ 63 ∷ []) pending_world response refl

abbrev reserved_db : Db
reserved_db = record pending_world.db {
  bookings =
      pending_world.db.bookings
      ++ pending_row 1 10 (some 72) (json_array (61 ∷ 63 ∷ [])) pending_world.db ∷ [];
  drawn = 1001;
}

abbrev sold_out_world : World
sold_out_world = record waiting_world { tokens = λ e. some (pos 1) }

abbrev waitlisted_db : Db
waitlisted_db = record sold_out_world.db {
  waitlist = waiting ∷ entry_row 10 1 2 sold_out_world.db ∷ [];
  drawn = 1001;
}

create_reserves_example : create 10 1 (some 72) (61 ∷ 63 ∷ []) (calm pending_world) ≡ (
  ok (202, response),
  record (calm pending_world) {
    db = reserved_db;
    tokens = set_key pending_world.tokens 10 (pos 1);
    published =
        record { key = 10; value = some (finalize_payload 1000 10 1 (61 ∷ 63 ∷ []) (some 72)) }
        ∷ [];
  },
)
unfolding effects earlier_booking get_by_idempotency scan_found scan_booking insert_pending ◌-ℤ◌
create_reserves_example =
    create_reserves 10 1 (some 72) (61 ∷ 63 ∷ []) pending_world show refl refl refl
      (pending_row 1 10 (some 72) (json_array (61 ∷ 63 ∷ [])) pending_world.db) reserved_db refl
      refl refl

create_waits_example : create 10 1 none (61 ∷ 63 ∷ []) (calm sold_out_world) ≡ (
  ok (200, record { booking_id = 0; status = BookingStatus.waitlisted; position = 2 }),
  record (calm sold_out_world) { db = waitlisted_db },
)
unfolding effects earlier_booking insert_entry next_position
create_waits_example =
    create_waits 10 1 none (61 ∷ 63 ∷ []) sold_out_world show refl refl refl waitlisted_db refl refl
      refl

create_repeats_example : create 10 2 (some 71) (63 ∷ []) (calm pending_world) ≡ (
  ok (200, record { booking_id = 100; status = BookingStatus.pending; position = 0 }),
  calm pending_world,
)
unfolding effects scan_booking
create_repeats_example =
    create_repeats 10 2 (some 71) (63 ∷ []) pending_world show refl refl refl 71
      (row_of BookingStatus.pending PaymentStatus.pending (pos 0))
      (booking_of BookingStatus.pending PaymentStatus.pending (pos 0)) refl refl refl refl

-- the token of a user without the role admin, with claims that say otherwise
abbrev parse_alice : Text → Option Claims
parse_alice token = some (record { user_id = 1; admin = true })

handle-Refuses_example :
    Refuses
      (handle crypto parse_alice
        (Request.as_admin (bearer 7) (AdminRoute.cancel_event 10))
        pending_world).0
    × ((handle crypto parse_alice
          (Request.as_admin (bearer 7) (AdminRoute.cancel_event 10))
          pending_world).1.db
        ≡ pending_world.db)
handle-Refuses_example =
    handle-Refuses crypto parse_alice (Request.as_admin (bearer 7) (AdminRoute.cancel_event 10))
      (bearer 7) pending_world refl refl

handle-Unchanged_example :
    Unchanged waiting_world
      (handle crypto parse
        (Request.look_as_user (bearer 7) (UserView.booking_status 100))
        waiting_world).1
handle-Unchanged_example =
    handle-Unchanged crypto parse (Request.look_as_user (bearer 7) (UserView.booking_status 100))
      waiting_world refl

serve-tokens_example :
    pos 0
    ≤ℤ level
        (serve crypto parse
          (Request.run_reconcile
            ∷ Request.as_user (bearer 7) (UserRoute.book 10 73 (some (61 ∷ 62 ∷ [])))
            ∷ [])
          pending_world)
        10
serve-tokens_example =
    serve-tokens crypto parse
      (Request.run_reconcile
        ∷ Request.as_user (bearer 7) (UserRoute.book 10 73 (some (61 ∷ 62 ∷ [])))
        ∷ [])
      pending_world 10 (omega arith)
