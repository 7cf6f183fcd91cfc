-- ===== src/Prelude/Float.antt =====
-- Amounts of money as the float64 values that Go computes with. A float64 that is nearest to a
-- whole number of cents, and every greater one, is a whole multiple of 2^-59, because the one that
-- is nearest to 0.01 lies above 2^-7. So a value is held as its number of 2^-59, exactly, and every
-- result is rounded to 53 binary digits, to even in the middle. The values stay below 2^121, and so
-- far from infinity; NaN does not occur.
use lewly_pgpyewj.Prelude.{ℕ, zero, suc, ◌+◌, ◌*◌, ◌/◌, ◌%◌, ltb, if◌then◌else◌}
use lewly_pgpyewj.Prelude.Int.{ℤ, pos_part, neg_part, sub_ℕ}

abbrev pub Float64 : Type 0
Float64 = ℤ

-- 2^59 units are 1.
abbrev pub one : ℕ
one = 576460752303423488

-- 2^53
abbrev significands : ℕ
significands = 9007199254740992

-- the whole number that is nearest to `n / d`, the even one in the middle
abbrev pub nearest : ℕ → ℕ → ℕ
nearest n d =
    if ltb (2 * (n % d)) d
    then n / d
    else if ltb d (2 * (n % d))
    then n / d + 1
    else n / d + n / d % 2

-- how far apart the float64 values are at `q`, as a power of two; `fuel` halvings at most
unfoldable pub spacing : ℕ → ℕ → ℕ
spacing zero q = 1
spacing (suc fuel) q = let rest = spacing fuel (q / 2) in if ltb q significands then 1 else 2 * rest

-- the value that is nearest to `n / d` units; 128 halvings do below 2^181 units
unfoldable pub rounded : ℕ → ℕ → ℕ
rounded n d = let step = spacing 128 (n / d) in nearest n (d * step) * step

abbrev pub both : (ℕ → ℕ) → ℤ → ℤ
both f n = sub_ℕ (f (pos_part n)) (f (neg_part n))

-- the value that is nearest to so many cents, as pgx reads a NUMERIC(12,2) and as ParseFloat reads
-- a decimal with two digits after the point
unfoldable pub of_cents : ℤ → Float64
of_cents = both (λ n. rounded (n * one) 100)

-- x * float64(n)
unfoldable pub times : Float64 → ℕ → Float64
times x n = both (λ m. rounded (m * n) 1) x

-- the cents that `%.2f` prints: those nearest to the value itself
unfoldable pub to_cents : Float64 → ℤ
to_cents = both (λ n. nearest (n * 100) one)
