-- ===== src/Tests/Front.antt =====
-- The theorem on what stands in front of the handlers, at a concrete row of requests.
use lewly_pgpyewj.Prelude.{◌≡◌, ◌∷◌, [], true, none, some}
use lewly_pgpyewj.Prelude.Int.{pos}
use lewly_pgpyewj.Middleware.HybridLimit.{Arrival}
use lewly_pgpyewj.System.{Request, serve}
use lewly_pgpyewj.System.Front
use lewly_pgpyewj.System.Front.{Incoming, visit_all, let_through, visit_all-serve}
use lewly_pgpyewj.Tests.Data.{pending_world, crypto, parse}

-- Redis answers, and the client has sent nothing before.
abbrev arrival : Arrival
arrival = record {
  host = 5;
  client_ip = 5;
  uid = 0;
  seconds = 100;
  nanoseconds = 100000000000;
  ping = true;
  script = true;
}

abbrev fresh : Front.Front
fresh = record { world = pending_world; limits = record { sets = λ k. []; buckets = λ h. none } }

abbrev payment : Incoming
payment = Incoming.http arrival (Request.pay 100 (some (pos 1000)) 3)

visit_all-serve_example :
    (visit_all crypto parse
      (λ path. none)
      true
      (Incoming.page Front.root ∷ payment ∷ Incoming.inner Request.check_expired ∷ [])
      fresh).world
    ≡ serve crypto parse
        (let_through
          (Incoming.page Front.root ∷ payment ∷ Incoming.inner Request.check_expired ∷ [])
          fresh.limits)
        pending_world
visit_all-serve_example =
    visit_all-serve crypto parse (λ path. none)
      (Incoming.page Front.root ∷ payment ∷ Incoming.inner Request.check_expired ∷ []) fresh
