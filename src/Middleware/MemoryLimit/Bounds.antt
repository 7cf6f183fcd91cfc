-- ===== src/Middleware/MemoryLimit/Bounds.antt =====
-- What a bucket of ratelimit.go lets through.
use native.Mathlib.Nat.{add-mul}
use lewly_pgpyewj.Prelude.{
  ℕ, ◌+◌, ◌-◌, ◌*◌, ◌≤◌, ◌≡◌, refl, sym, ap, ◌∙◌, Bool, true, false, Option, some, List, [], ◌∷◌,
  arith, length,
}
use lewly_pgpyewj.Middleware.MemoryLimit.{Bucket, unit, rate_limit}

-- Whatever the bucket was and whether the request goes on, the bucket holds at most `burst` tokens
-- afterwards.
pub rate_limit-le-burst :
    (rps burst now : ℕ) (found : Option Bucket)
    → (rate_limit rps burst now found).0.tokens ≤ burst * unit
unfolding rate_limit
rate_limit-le-burst rps burst now found = ground arith

-- the requests at the given times, in turn, and whether each goes on
abbrev pub admitted : ℕ → ℕ → Bucket → List ℕ → List Bool
admitted rps burst b [] = []
admitted rps burst b (now ∷ later) =
    (rate_limit rps burst now (some b)).1
    ∷ admitted rps burst (rate_limit rps burst now (some b)).0 later

abbrev pub AllTrue : List Bool → Type 0
AllTrue [] = Unit {0}
AllTrue (b ∷ bs) = (b ≡ true) × AllTrue bs

abbrev pub FromTime : ℕ → List ℕ → Type 0
FromTime t [] = Unit {0}
FromTime t (now ∷ later) = (t ≤ now) × FromTime now later

abbrev pub last_time : ℕ → List ℕ → ℕ
last_time t [] = t
last_time t (now ∷ later) = last_time now later

rate_limit_spends :
    (rps burst now : ℕ) (b : Bucket)
    → (rate_limit rps burst now (some b)).1 ≡ true
    → (unit + (rate_limit rps burst now (some b)).0.tokens ≤ b.tokens + (now - b.last) * rps)
      × ((rate_limit rps burst now (some b)).0.last ≡ now)
unfolding rate_limit
rate_limit_spends rps burst now b h = ground arith

split_elapsed : (a b c r : ℕ) → a ≤ b → b ≤ c → (b - a) * r + (c - b) * r ≡ (c - a) * r
split_elapsed a b c r h k = sym (add-mul (b - a) (c - b) r) ∙ ap (λ (n : ℕ). n * r) (omega arith)

last_time-ge : (t : ℕ) (times : List ℕ) → FromTime t times → t ≤ last_time t times
last_time-ge t [] late = omega arith
last_time-ge t (now ∷ later) late = omega (arith, last_time-ge now later late.1)

admitted_bound_from :
    (rps burst t : ℕ) (b : Bucket) (times : List ℕ)
    → b.last ≡ t
    → FromTime t times
    → AllTrue (admitted rps burst b times)
    → length times * unit ≤ b.tokens + (last_time t times - t) * rps
admitted_bound_from rps burst t b [] e late all = omega arith
admitted_bound_from rps burst t b (now ∷ later) e late all =
    let spent = rate_limit_spends rps burst now b all.0 in
    let rest =
      admitted_bound_from rps burst now (rate_limit rps burst now (some b)).0 later spent.1 late.1
        all.1 in
    let span =
      split_elapsed t now (last_time now later) rps late.0 (last_time-ge now later late.1) in
    let before = ap (λ (n : ℕ). (now - n) * rps) e in omega (arith, spent.0, rest, span, before)

-- A row of requests at times that do not go back, the first not before the bucket's last use, and
-- that are all let through, costs a token each: together no more than the bucket held and what
-- `rps` refills between its last use and the last request.
pub admitted_bound :
    (rps burst : ℕ) (b : Bucket) (times : List ℕ)
    → FromTime b.last times
    → AllTrue (admitted rps burst b times)
    → length times * unit ≤ b.tokens + (last_time b.last times - b.last) * rps
admitted_bound rps burst b times late all =
    admitted_bound_from rps burst b.last b times refl late all

-- With a burst of at least 1, a request that is refused refills the bucket and leaves `last` as it
-- was, so that the same span of time is counted again for the next one: if what the bucket held
-- and twice the refill of the span make a token, a retry at the same instant is let through.
pub retry_refills_again :
    (rps burst now : ℕ) (b : Bucket)
    → 1 ≤ burst
    → (rate_limit rps burst now (some b)).1 ≡ false
    → unit ≤ b.tokens + 2 * ((now - b.last) * rps)
    → (rate_limit rps burst now (some (rate_limit rps burst now (some b)).0)).1 ≡ true
unfolding rate_limit
retry_refills_again rps burst now b pos refusal enough = ground arith
