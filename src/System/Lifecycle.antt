-- ===== src/System/Lifecycle.antt =====
-- The life of a booking over a whole run of the program.
use lewly_pgpyewj.Prelude.{◌≡◌, Option, some, List, Uuid, Text}
use lewly_pgpyewj.Db.{BookingStatus}
use lewly_pgpyewj.Effect.{World}
use lewly_pgpyewj.Middleware.Auth.{Claims}
use lewly_pgpyewj.Service.Auth.{Crypto}
use lewly_pgpyewj.Lifecycle.Rows.{Lifecycle, status_in, stays_cancelled}
use lewly_pgpyewj.Lifecycle.Store.{Lifecycle-StoreObeys}
use lewly_pgpyewj.System.{Request, serve}
use lewly_pgpyewj.System.Traversal.Requests.{serve-Obeys}

-- Whatever requests, messages, timeouts and jobs are served, one after another, and whichever calls
-- to Postgres, Redis, Kafka and SMTP fail on the way: every booking that was there is still there
-- afterwards, its status is the same, or went from pending to booked, or became cancelled, and its
-- event, its idempotency key and its time are the same, and so is its user, unless it has none any
-- more.
pub serve-Lifecycle :
    (c : Crypto) (parse : Text → Option Claims) (rs : List Request) (w : World)
    → Lifecycle w.db (serve c parse rs w).db
serve-Lifecycle c parse rs w = serve-Obeys Lifecycle-StoreObeys c parse rs w

-- A booking that is cancelled is cancelled after any requests, whichever calls fail.
pub serve-cancelled :
    (c : Crypto) (parse : Text → Option Claims) (rs : List Request) (w : World) (id : Uuid)
    → status_in w.db.bookings id ≡ some BookingStatus.cancelled
    → status_in (serve c parse rs w).db.bookings id ≡ some BookingStatus.cancelled
serve-cancelled c parse rs w id e = stays_cancelled _ _ (serve-Lifecycle c parse rs w id) e
