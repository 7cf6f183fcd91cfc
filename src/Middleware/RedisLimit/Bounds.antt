-- ===== src/Middleware/RedisLimit/Bounds.antt =====
-- How many members the sorted set of one client can hold. The members are times in whole seconds,
-- and requests of the same second share one.
use native.Mathlib.Nat.{div-add-mod}
use lewly_pgpyewj.Prelude.{
  ℕ, suc, ◌+◌, ◌*◌, ◌/◌, ◌≤◌, ◌<◌, ◌≡◌, true, false, List, [], ◌∷◌, arith, ltb, ◌==◌, length,
  any_where, if◌then◌else◌,
}
use lewly_pgpyewj.Middleware.RedisLimit.{
  remove_old, add_member, limit_script, window_seconds, redis_rate_limit, Verdict, next,
  next_with_headers, too_many_requests,
}

-- newest first, each below `n` and below the one before
abbrev pub Descends : ℕ → List ℕ → Type 0
Descends n [] = Unit {0}
Descends n (m ∷ ms) = (m < n) × Descends m ms

Descends-mono : (n k : ℕ) (ms : List ℕ) → n ≤ k → Descends n ms → Descends k ms
Descends-mono n k [] h d = tt
Descends-mono n k (m ∷ ms) h d = (omega arith, d.1)

remove_old-Descends :
    (window now n : ℕ) (ms : List ℕ) → Descends n ms → Descends n (remove_old window now ms)
remove_old-Descends window now n [] d = tt
remove_old-Descends window now n (m ∷ ms) d =
    ground
      (arith, remove_old-Descends window now m ms d.1, Descends-mono m n (remove_old window now ms))

-- What is kept lies in the window, one member for each second of it at most.
length-remove_old :
    (window now n : ℕ) (ms : List ℕ)
    → Descends n ms
    → length (remove_old window now ms) + now
      < n + window + (if ltb 0 (length (remove_old window now ms)) then 0 else now + 1)
length-remove_old window now n [] d = omega arith
length-remove_old window now n (m ∷ ms) d = ground (arith, length-remove_old window now m ms d.1)

Descends-strict :
    (n : ℕ) (ms : List ℕ) → Descends (suc n) ms → any_where (λ m. m == n) ms ≡ false → Descends n ms
Descends-strict n [] d absent = tt
Descends-strict n (m ∷ ms) d absent = ground arith

add_member-Descends :
    (now : ℕ) (ms : List ℕ) → Descends (suc now) ms → Descends (suc now) (add_member now ms)
add_member-Descends now ms d = ground (arith, Descends-strict now ms d)

half_at_least : (a rps : ℕ) → 2 ≤ rps → 2 * (a / rps) ≤ a
half_at_least a rps h = grind (arith, div-add-mod)

short_window : (rps burst : ℕ) → 2 ≤ rps → 1 ≤ burst → window_seconds rps burst < burst
short_window rps burst r b = omega (arith, half_at_least (burst * 1000000000) rps r)

-- one request at each of the times, in turn
abbrev pub requests : ℕ → ℕ → List ℕ → List ℕ → List Verdict
requests rps burst [] members = []
requests rps burst (now ∷ later) members =
    (redis_rate_limit rps burst now true members).1
    ∷ requests rps burst later (redis_rate_limit rps burst now true members).0

abbrev pub GoesOn : Verdict → Type 0
GoesOn next = Unit {0}
GoesOn (next_with_headers limit remaining reset) = Unit {0}
GoesOn (too_many_requests retry_after) = ⊥

abbrev pub AllGoOn : List Verdict → Type 0
AllGoOn [] = Unit {0}
AllGoOn (v ∷ vs) = GoesOn v × AllGoOn vs

-- no time is earlier than the one before it
abbrev pub FromTime : ℕ → List ℕ → Type 0
FromTime t [] = Unit {0}
FromTime t (now ∷ later) = (t ≤ now) × FromTime now later

limit_script_open :
    (window limit t now : ℕ) (ms : List ℕ)
    → window < limit
    → t ≤ now
    → Descends (suc t) ms
    → ((limit_script window limit now ms).1.0 ≡ 1)
      × Descends (suc now) (limit_script window limit now ms).0
unfolding limit_script
limit_script_open window limit t now ms short late d =
    let kept =
      remove_old-Descends window now (suc now) ms
        (Descends-mono (suc t) (suc now) ms (omega arith) d) in
    ground (
      arith,
      kept,
      length-remove_old window now (suc now) ms
          (Descends-mono (suc t) (suc now) ms (omega arith) d),
      add_member-Descends now (remove_old window now ms),
    )

handler_open :
    (rps burst t now : ℕ) (ms : List ℕ)
    → 2 ≤ rps
    → 1 ≤ burst
    → t ≤ now
    → Descends (suc t) ms
    → GoesOn (redis_rate_limit rps burst now true ms).1
      × Descends (suc now) (redis_rate_limit rps burst now true ms).0
unfolding redis_rate_limit
handler_open rps burst t now ms r b late d = ground (
  arith,
  limit_script_open (window_seconds rps burst) burst t now ms (short_window rps burst r b) late d,
)

requests_open :
    (rps burst t : ℕ) (times ms : List ℕ)
    → 2 ≤ rps
    → 1 ≤ burst
    → FromTime t times
    → Descends (suc t) ms
    → AllGoOn (requests rps burst times ms)
requests_open rps burst t [] ms r b late d = tt
requests_open rps burst t (now ∷ later) ms r b late d =
    let step = handler_open rps burst t now ms r b late.0 d in
    (step.0, requests_open rps burst now later _ r b late.1 step.1)

-- With a rate of at least 2 per second and a burst of at least 1, and while Redis answers, no
-- request of a client whose set was empty is ever refused, however many of them come in one
-- second, if the clock does not go back.
pub redis_rate_limit-open :
    (rps burst : ℕ) (times : List ℕ)
    → 2 ≤ rps
    → 1 ≤ burst
    → FromTime 0 times
    → AllGoOn (requests rps burst times [])
redis_rate_limit-open rps burst times r b late = requests_open rps burst 0 times [] r b late tt
