-- ===== src/Config/Range.antt =====
-- The numbers of the configuration.
use lewly_pgpyewj.Prelude.{ℕ, ◌≤◌, ◌<◌, arith, Option, none, some, [], ◌∷◌}
use lewly_pgpyewj.Prelude.Int.{ℤ, pos_part, neg_part}
use lewly_pgpyewj.Prelude.Codes.{Bytes}
use lewly_pgpyewj.Config.{int_limit, to_int, to_negative, magnitude, atoi, getenv_int, load}

-- an int of Go
abbrev pub IsInt : ℤ → Type 0
IsInt i = (pos_part i < int_limit) × (neg_part i ≤ int_limit)

abbrev AllInt : Option ℤ → Type 0
AllInt none = Unit
AllInt (some i) = IsInt i

to_int-IsInt : (o : Option ℕ) → AllInt (to_int o)
to_int-IsInt none = tt
to_int-IsInt (some n) = ground arith

to_negative-IsInt : (o : Option ℕ) → AllInt (to_negative o)
to_negative-IsInt none = tt
to_negative-IsInt (some n) = ground arith

atoi-IsInt : (s : Bytes) → AllInt (atoi s)
unfolding atoi
atoi-IsInt [] = tt
atoi-IsInt (c ∷ s) = ground (
  arith,
  to_negative-IsInt (magnitude s),
  to_int-IsInt (magnitude s),
  to_int-IsInt (magnitude (c ∷ s)),
)

getenv_int-IsInt :
    (env : Bytes → Bytes) (key : Bytes) (def : ℤ) → IsInt def → IsInt (getenv_int env key def)
unfolding getenv_int
getenv_int-IsInt env key def h = ground (arith, atoi-IsInt (env key))

-- Whatever the environment holds, the four numbers of the configuration that Load returns are
-- within the range of Go's 64-bit int.
pub load-IsInt :
    (env : Bytes → Bytes)
    → IsInt (load env).http_port
      × IsInt (load env).smtp_port
      × IsInt (load env).max_worker_routine_count
      × IsInt (load env).max_db_connections
unfolding load
load-IsInt env = (
  getenv_int-IsInt env _ _ (ground arith),
  getenv_int-IsInt env _ _ (ground arith),
  getenv_int-IsInt env _ _ (ground arith),
  getenv_int-IsInt env _ _ (ground arith),
)
