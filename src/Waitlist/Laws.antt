-- ===== src/Waitlist/Laws.antt =====
-- The order of the waitlists over a whole run of the program.
use lewly_pgpyewj.Prelude.{Option, List, Text}
use lewly_pgpyewj.Effect.{World}
use lewly_pgpyewj.Middleware.Auth.{Claims}
use lewly_pgpyewj.Service.Auth.{Crypto}
use lewly_pgpyewj.System.{Request, serve}
use lewly_pgpyewj.System.Traversal.Requests.{serve-Obeys}
use lewly_pgpyewj.Waitlist.Order.{IsOrdered}
use lewly_pgpyewj.Waitlist.Methods.{KeepsOrder-StoreObeys}

-- Served one after another, any requests, messages, timeouts and jobs keep every waitlist in the
-- order of its positions, whichever calls fail on the way: if in every event each active entry has
-- a greater position than those before it, this still holds afterwards.
pub serve-IsOrdered :
    (c : Crypto) (parse : Text → Option Claims) (rs : List Request) (w : World)
    → IsOrdered w.db
    → IsOrdered (serve c parse rs w).db
serve-IsOrdered c parse rs w = serve-Obeys KeepsOrder-StoreObeys c parse rs w
