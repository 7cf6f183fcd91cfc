-- ===== src/Tests/Gates.antt =====
-- The theorems on the middleware and on the reconciliation at concrete inputs.
use lewly_pgpyewj.Prelude.{◌+◌, ◌-◌, ◌*◌, ◌≤◌, ◌≡◌, refl, true, none, Text, [], ◌∷◌, arith}
use lewly_pgpyewj.Prelude.Int.{pos, ◌-ℤ◌}
use lewly_pgpyewj.Redis.Conservation.{level}
use lewly_pgpyewj.Cmd.Reconcile.{reconcile_event}
use lewly_pgpyewj.Cmd.Reconcile.Tokens.{level-reconcile_event}
use lewly_pgpyewj.Middleware.Auth.{Claims}
use lewly_pgpyewj.Middleware.MemoryLimit.{Bucket, unit, rate_limit}
use lewly_pgpyewj.Middleware.MemoryLimit.Bounds.{admitted_bound}
use lewly_pgpyewj.Middleware.RedisLimit.Bounds.{AllGoOn, requests, redis_rate_limit-open}
use lewly_pgpyewj.Middleware.HybridLimit.{Limits, Arrival, hybrid, serve_all}
use lewly_pgpyewj.Middleware.HybridLimit.Isolation.{hybrid-isolated}
use lewly_pgpyewj.Tests.Data.{pending_world, capacity}

abbrev claims : Claims
claims = record { user_id = 2; admin = true }

level-reconcile_event_example : level (reconcile_event capacity pending_world).1 10 ≡ pos 2
unfolding ◌-ℤ◌
level-reconcile_event_example = level-reconcile_event capacity pending_world refl (omega arith)

abbrev bucket : Bucket
bucket = record { tokens = 2 * unit; last = 100 }

admitted_bound_example : 2 * unit ≤ 2 * unit + (200 - 100) * 5
unfolding rate_limit
admitted_bound_example =
    admitted_bound 5 10 bucket (150 ∷ 200 ∷ []) (omega arith, (omega arith, tt)) (refl, (refl, tt))

abbrev nearly_empty : Bucket
nearly_empty = record { tokens = 0; last = 0 }

redis_rate_limit-open_example : AllGoOn (requests 50 100 (7 ∷ 7 ∷ 8 ∷ []) [])
redis_rate_limit-open_example =
    redis_rate_limit-open 50 100 (7 ∷ 7 ∷ 8 ∷ []) (omega arith) (omega arith)
      (omega arith, (omega arith, (omega arith, tt)))

abbrev arrival : Text → Arrival
arrival ip = record {
  host = ip;
  client_ip = ip;
  uid = 0;
  seconds = 100;
  nanoseconds = 100000000000;
  ping = true;
  script = true;
}

abbrev no_limits : Limits
no_limits = record { sets = λ key. []; buckets = λ host. none }

hybrid-isolated_example :
    (hybrid 1 1 (arrival 5) (serve_all 1 1 (hybrid 1 1) (arrival 6 ∷ arrival 7 ∷ []) no_limits).0).1
    ≡ (hybrid 1 1 (arrival 5) no_limits).1
hybrid-isolated_example =
    hybrid-isolated 1 1 (arrival 5) (arrival 6 ∷ arrival 7 ∷ []) no_limits (ground arith)
