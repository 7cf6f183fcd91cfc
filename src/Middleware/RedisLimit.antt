-- ===== src/Middleware/RedisLimit.antt =====
-- internal/middleware/redis_ratelimit.go: the Lua script over the sorted set of one client, whose
-- members are their own scores, and the handler around it. The EXPIRE of the script removes nothing
-- that the next ZREMRANGEBYSCORE would not.
pub mod Bounds
use lewly_pgpyewj.Prelude.{
  ℕ, ◌+◌, ◌-◌, ◌*◌, ◌/◌, Bool, true, false, Option, none, some, List, [], ◌∷◌, ltb, leb, ◌==◌,
  length, any_where, delete_where, if◌then◌else◌,
}

-- ZREMRANGEBYSCORE key 0 bound, where bound is now - window
abbrev pub remove_old : ℕ → ℕ → List ℕ → List ℕ
remove_old window now = delete_where (λ score. leb (score + window) now)

-- ZADD key now now: a member that is there already is not added again
abbrev pub add_member : ℕ → List ℕ → List ℕ
add_member now members = if any_where (λ m. m == now) members then members else now ∷ members

-- the script: the set afterwards, and what it returns
unfoldable pub limit_script : ℕ → ℕ → ℕ → List ℕ → List ℕ × (ℕ × ℕ)
limit_script window limit now members =
    let kept = remove_old window now members in
    if ltb (length kept) limit
    then (add_member now kept, (1, limit - length kept - 1))
    else (kept, (0, 0))

-- int(window.Seconds()) for time.Duration(burst) * time.Second / time.Duration(rps)
abbrev pub window_seconds : ℕ → ℕ → ℕ
window_seconds rps burst = burst * 1000000000 / rps / 1000000000

-- what the handler does: go on, with the headers of a request that was counted, or answer 429
pub data Verdict : Type 0 where
  next : Verdict
  next_with_headers : ℕ → ℕ → ℕ → Verdict
  too_many_requests : ℕ → Verdict

-- the handler; `reachable` is whether the script ran
unfoldable pub redis_rate_limit : ℕ → ℕ → ℕ → Bool → List ℕ → List ℕ × Verdict
redis_rate_limit rps burst now false members = (members, next)
redis_rate_limit rps burst now true members =
    let (members', reply) = limit_script (window_seconds rps burst) burst now members in
    if reply.0 == 0
    then (members', too_many_requests (window_seconds rps burst))
    else (members', next_with_headers burst reply.1 (now + window_seconds rps burst))
