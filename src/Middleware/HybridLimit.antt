-- ===== src/Middleware/HybridLimit.antt =====
-- The limiters of internal/middleware over all their clients: RedisRateLimit and
-- RedisRateLimitByUser with the sorted sets of Redis under their keys, RateLimit with its map of
-- hosts, and HybridRateLimit, which chooses between the two.
pub mod Isolation
use lewly_pgpyewj.Prelude.{
  ℕ, Bool, true, false, Option, none, some, List, [], ◌∷◌, Text, Uuid, ◌==◌, empty_text,
  if◌then◌else◌,
}
use lewly_pgpyewj.Middleware.MemoryLimit.{Bucket, rate_limit}
use lewly_pgpyewj.Middleware.RedisLimit.{Verdict, next, too_many_requests, redis_rate_limit}

-- rate_limit:<ip> and rate_limit_user:<uid>
pub data Key : Type 0 where
  rate_limit_of rate_limit_user_of : Text → Key

abbrev pub same_key : Key → Key → Bool
same_key (Key.rate_limit_of a) (Key.rate_limit_of b) = a == b
same_key (Key.rate_limit_user_of a) (Key.rate_limit_user_of b) = a == b
same_key _ _ = false

-- the sets of Redis, and the map of the in-memory limiter
pub record Limits : Type 0 where
  pub sets : Key → List ℕ
  pub buckets : Text → Option Bucket

-- What a request brings: the address of its connection and the client's IP, empty if there is none,
-- the user of the auth middleware, the times in seconds and in nanoseconds, and whether Redis
-- answers the PING and runs the script.
pub record Arrival : Type 0 where
  pub host : Text
  pub client_ip : Text
  pub uid : Uuid
  pub seconds : ℕ
  pub nanoseconds : ℕ
  pub ping : Bool
  pub script : Bool

-- the text "unknown"
abbrev pub unknown : Text
unknown = 1

abbrev pub or_unknown : Text → Text
or_unknown ip = if ip == empty_text then unknown else ip

abbrev set_members : (Key → List ℕ) → Key → List ℕ → Key → List ℕ
set_members sets key members k = if same_key k key then members else sets k

abbrev set_bucket : (Text → Option Bucket) → Text → Bucket → Text → Option Bucket
set_bucket buckets host b h = if h == host then some b else buckets h

abbrev pub host_of : Arrival → Text
host_of a = if a.host == empty_text then a.client_ip else a.host

module _ (rps burst : ℕ) where
  -- what both handlers do once they have their key
  unfoldable pub limit_by : Key → Arrival → Limits → Limits × Verdict
  limit_by key a l =
      let (members, verdict) = redis_rate_limit rps burst a.seconds a.script (l.sets key) in
      (record l { sets = set_members l.sets key members }, verdict)

  -- RedisRateLimit
  unfoldable pub limit_by_ip : Arrival → Limits → Limits × Verdict
  limit_by_ip a = limit_by (Key.rate_limit_of (or_unknown a.client_ip)) a

  -- RedisRateLimitByUser; the script always returns a pair of integers
  unfoldable pub limit_by_user : Arrival → Limits → Limits × Verdict
  limit_by_user a =
      if a.uid == empty_text then limit_by_ip a else limit_by (Key.rate_limit_user_of a.uid) a

  -- RateLimit; its answer 429 has no Retry-After
  unfoldable pub limit_in_memory : Arrival → Limits → Limits × Verdict
  limit_in_memory a l =
      let (b, goes_on) = rate_limit rps burst a.nanoseconds (l.buckets (host_of a)) in
      (
        record l { buckets = set_bucket l.buckets (host_of a) b },
        if goes_on then next else too_many_requests 0,
      )

  -- HybridRateLimit
  unfoldable pub hybrid : Arrival → Limits → Limits × Verdict
  hybrid a = if a.ping then limit_by_ip a else limit_in_memory a

  -- the limits after a row of requests, and the verdicts
  unfoldable pub serve_all :
      (Arrival → Limits → Limits × Verdict) → List Arrival → Limits → Limits × List Verdict
  serve_all limiter [] l = (l, [])
  serve_all limiter (a ∷ later) l =
      let (l', v) = limiter a l in let (l'', vs) = serve_all limiter later l' in (l'', v ∷ vs)
