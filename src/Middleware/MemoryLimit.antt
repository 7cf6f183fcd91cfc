-- ===== src/Middleware/MemoryLimit.antt =====
-- The bucket of one host in internal/middleware/ratelimit.go. Times are nanoseconds and a token is
-- 10^9 units, so that `elapsed * refill` is the exact product of nanoseconds and requests per second,
-- where the source rounds to a float64. The clock does not run backwards.
pub mod Bounds
use lewly_pgpyewj.Prelude.{
  ℕ, ◌+◌, ◌-◌, ◌*◌, Bool, true, false, Option, none, some, List, [], ◌∷◌, ltb, if◌then◌else◌,
}

pub record Bucket : Type 0 where
  pub tokens : ℕ
  pub last : ℕ

-- one token
abbrev pub unit : ℕ
unit = 1000000000

-- min of the source
abbrev pub min : ℕ → ℕ → ℕ
min a b = if ltb a b then a else b

abbrev pub or_fresh : ℕ → ℕ → Option Bucket → Bucket
or_fresh burst now none = record { tokens = burst * unit; last = now }
or_fresh burst now (some b) = b

-- what the bucket holds at `now`
abbrev pub refilled : ℕ → ℕ → ℕ → Bucket → ℕ
refilled rps burst now b = min (burst * unit) (b.tokens + (now - b.last) * rps)

-- the handler between Lock and Unlock: the bucket afterwards, and whether the request goes on
unfoldable pub rate_limit : ℕ → ℕ → ℕ → Option Bucket → Bucket × Bool
rate_limit rps burst now found =
    let b = or_fresh burst now found in
    if ltb (refilled rps burst now b) unit
    then (record b { tokens = refilled rps burst now b }, false)
    else (record { tokens = refilled rps burst now b - unit; last = now }, true)
