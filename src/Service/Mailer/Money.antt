-- ===== src/Service/Mailer/Money.antt =====
-- Amounts of money as `%.2f` prints them, and the decimals that are printed that way.
use lewly_pgpyewj.Prelude.{
  ℕ, zero, suc, ◌+◌, ◌-◌, ◌*◌, ◌/◌, ◌%◌, ◌≤◌, ◌<◌, ◌≡◌, refl, ap, ◌∙◌, arith, Bool-cases, inl, inr,
  Bool, false, Option, none, some, [], ◌∷◌, ltb, ◌==◌, if◌then◌else◌,
}
use lewly_pgpyewj.Prelude.Int.{ℤ, pos, negsuc}
use lewly_pgpyewj.Prelude.Float.{Float64, to_cents}
use lewly_pgpyewj.Prelude.Codes.{Bytes, Lacks}

-- the decimal digits of `n` before `out`; `fuel` is at least the number of digits
unfoldable pub digits : ℕ → ℕ → Bytes → Bytes
digits zero n out = out
digits (suc fuel) zero out = out
digits (suc fuel) (suc n) out = digits fuel (suc n / 10) ((b'0' + suc n % 10) ∷ out)

unfoldable pub print_whole : ℕ → Bytes → Bytes
print_whole n out = if n == 0 then b'0' ∷ out else digits n n out

-- so many cents as a decimal with two digits after the point, before `out`
unfoldable pub print_cents : ℕ → Bytes → Bytes
print_cents n out = print_whole (n / 100) (b'.' ∷ (b'0' + n % 100 / 10) ∷ (b'0' + n % 10) ∷ out)

abbrev pub print_signed : ℤ → Bytes → Bytes
print_signed (pos n) out = print_cents n out
print_signed (negsuc n) out = b'-' ∷ print_cents (suc n) out

-- fmt.Sprintf("%.2f", x): the decimal that is nearest to `x` itself
unfoldable pub print_amount : Float64 → Bytes → Bytes
print_amount x out = print_signed (to_cents x) out

abbrev pub is_digit : ℕ → Bool
is_digit c = if ltb c b'0' then false else ltb c 58

-- the two digits after the point, and the end of the text
abbrev pub read_hundredths : ℕ → Bytes → Option ℕ
read_hundredths n (a ∷ b ∷ []) =
    if is_digit a
    then (if is_digit b then some (n * 100 + (a - b'0') * 10 + (b - b'0')) else none)
    else none
read_hundredths n _ = none

unfoldable pub read_whole : Bytes → ℕ → Option ℕ
read_whole [] n = none
read_whole (c ∷ s) n =
    let rest = read_whole s (n * 10 + (c - b'0')) in
    if c == b'.' then read_hundredths n s else if is_digit c then rest else none

abbrev negated : ℕ → ℤ
negated zero = pos 0
negated (suc n) = negsuc n

abbrev negate_read : Option ℕ → Option ℤ
negate_read none = none
negate_read (some n) = some (negated n)

abbrev keep_read : Option ℕ → Option ℤ
keep_read none = none
keep_read (some n) = some (pos n)

-- what a decimal with two digits after the point stands for, in cents, and `none` for other texts
unfoldable pub decimal_cents : Bytes → Option ℤ
decimal_cents [] = none
decimal_cents (c ∷ s) =
    if c == b'-' then negate_read (read_whole s 0) else keep_read (read_whole (c ∷ s) 0)

digit_step :
    (d n : ℕ) (out : Bytes) → d < 10 → read_whole ((b'0' + d) ∷ out) n ≡ read_whole out (n * 10 + d)
unfolding read_whole
digit_step d n out h = ground (arith, ap (read_whole out) (plus_minus d))
  where
    plus_minus : (d : ℕ) → n * 10 + (b'0' + d - b'0') ≡ n * 10 + d
    plus_minus d = omega arith

read-digits :
    (fuel n : ℕ) (out : Bytes) → n ≤ fuel → read_whole (digits fuel n out) 0 ≡ read_whole out n
unfolding digits
read-digits zero n out h = ap (read_whole out) (omega arith)
read-digits (suc fuel) zero out h = refl
read-digits (suc fuel) (suc n) out h =
    read-digits fuel (suc n / 10) ((b'0' + suc n % 10) ∷ out) (omega arith)
    ∙ digit_step (suc n % 10) (suc n / 10) out (omega arith)
    ∙ ap (read_whole out) (omega arith)

read-print_whole : (n : ℕ) (out : Bytes) → read_whole (print_whole n out) 0 ≡ read_whole out n
unfolding print_whole
read-print_whole n out = elim (Bool-cases (n == 0)) [
  | inl z ↦ rw z (digit_step 0 0 out (omega arith) ∙ ap (read_whole out) (ground arith))
  | inr z ↦ rw z (read-digits n n out (omega arith))
]

read-hundredths :
    (n m : ℕ)
    → m < 100
    → read_hundredths n ((b'0' + m / 10) ∷ (b'0' + m % 10) ∷ []) ≡ some (n * 100 + m)
read-hundredths n m h = ground arith

read-print_cents : (n : ℕ) → read_whole (print_cents n []) 0 ≡ some n
unfolding print_cents read_whole
read-print_cents n =
    read-print_whole (n / 100) _ ∙ ground (arith, read-hundredths (n / 100) (n % 100) (omega arith))

-- no minus sign in front
abbrev Unsigned : Bytes → Type 0
Unsigned [] = ⊥
Unsigned (c ∷ s) = (c == b'-') ≡ false

digits-Unsigned : (fuel n : ℕ) (out : Bytes) → Unsigned out → Unsigned (digits fuel n out)
unfolding digits
digits-Unsigned zero n out h = h
digits-Unsigned (suc fuel) zero out h = h
digits-Unsigned (suc fuel) (suc n) out h = digits-Unsigned fuel (suc n / 10) _ (ground arith)

print_cents-Unsigned : (n : ℕ) → Unsigned (print_cents n [])
unfolding print_cents print_whole
print_cents-Unsigned n = elim (Bool-cases (n / 100 == 0)) [
  | inl z ↦ rw z refl
  | inr z ↦ rw z (digits-Unsigned (n / 100) (n / 100) _ refl)
]

read-Unsigned : (s : Bytes) → Unsigned s → decimal_cents s ≡ keep_read (read_whole s 0)
unfolding decimal_cents
read-Unsigned [] h = absurd h
read-Unsigned (c ∷ s) h = rw h refl

read-print_signed : (n : ℤ) → decimal_cents (print_signed n []) ≡ some n
unfolding decimal_cents
read-print_signed (pos n) =
    read-Unsigned _ (print_cents-Unsigned n) ∙ ap keep_read (read-print_cents n)
read-print_signed (negsuc n) = ap negate_read (read-print_cents (suc n))

-- The text of an amount stands for the whole cents that are nearest to it.
pub decimal_cents-print_amount :
    (x : Float64) → decimal_cents (print_amount x []) ≡ some (to_cents x)
unfolding print_amount
decimal_cents-print_amount x = read-print_signed (to_cents x)

digits-Lacks : (c fuel n : ℕ) (out : Bytes) → c < 45 → Lacks c out → Lacks c (digits fuel n out)
unfolding digits
digits-Lacks c zero n out small h = h
digits-Lacks c (suc fuel) zero out small h = h
digits-Lacks c (suc fuel) (suc n) out small h =
    digits-Lacks c fuel (suc n / 10) _ small (ground arith, h)

print_cents-Lacks : (c n : ℕ) → c < 45 → Lacks c (print_cents n [])
unfolding print_cents print_whole
print_cents-Lacks c n small =
    let point : Lacks c (b'.' ∷ (b'0' + n % 100 / 10) ∷ (b'0' + n % 10) ∷ []) =
      (ground arith, (ground arith, (ground arith, tt))) in
    elim (Bool-cases (n / 100 == 0)) [
      | inl z ↦ rw z (ground arith, point)
      | inr z ↦ rw z (digits-Lacks c (n / 100) (n / 100) _ small point)
    ]

print_signed-Lacks : (c : ℕ) (n : ℤ) → c < 45 → Lacks c (print_signed n [])
print_signed-Lacks c (pos n) small = print_cents-Lacks c n small
print_signed-Lacks c (negsuc n) small = (ground arith, print_cents-Lacks c (suc n) small)

-- A printed amount has no character below the minus sign in it.
pub print_amount-Lacks : (c : ℕ) (x : Float64) → c < 45 → Lacks c (print_amount x [])
unfolding print_amount
print_amount-Lacks c x small = print_signed-Lacks c (to_cents x) small
