-- ===== src/Redis.antt =====
-- internal/redis: the token bucket of an event and the timeout marks of bookings.
pub mod Conservation
use lewly_pgpyewj.Prelude.{
  ℕ, zero, suc, ◌+◌, Bool, true, false, Option, none, some, Text, Uuid, ◌==◌, ◌&&◌, if◌then◌else◌,
}
use lewly_pgpyewj.Prelude.Int.{ℤ, pos, ◌+ℤ◌, ◌-ℤ◌, leb_ℤ}
use lewly_pgpyewj.Effect.{Result, ok, World, Exec, pure, call, ◌>>=◌}

-- what the counter of a missing key stands for
abbrev pub or_zero : Option ℤ → ℤ
or_zero none = pos 0
or_zero (some n) = n

abbrev pub set_key : (Uuid → Option ℤ) → Uuid → ℤ → Uuid → Option ℤ
set_key store key n k = if k == key then some n else store k

-- the Lua script: the bucket afterwards, and the reply 1 or 0
abbrev pub reserve_lua : (Uuid → Option ℤ) → Uuid → ℕ → (Uuid → Option ℤ) × Bool
reserve_lua store key n =
    let current = or_zero (store key) in
    if leb_ℤ (pos n) current then (set_key store key (current -ℤ pos n), true) else (store, false)

-- InitTokens
unfoldable pub init_tokens : Uuid → ℤ → Exec (Unit {0})
init_tokens event_id capacity =
    call (λ w. (ok tt, record w { tokens = set_key w.tokens event_id capacity }))

-- Reserve
unfoldable pub reserve : Uuid → ℕ → Exec Bool
reserve event_id n = call (λ w.
    let (store, granted) = reserve_lua w.tokens event_id n in
    (ok granted, record w { tokens = store }))

-- Release: INCRBY
unfoldable pub release : Uuid → ℕ → Exec (Unit {0})
release event_id n = call (λ w.
    (ok tt, record w { tokens = set_key w.tokens event_id (or_zero (w.tokens event_id) +ℤ pos n) }))

-- Remaining
unfoldable pub remaining : Uuid → Exec ℤ
remaining event_id = call (λ w. (ok (or_zero (w.tokens event_id)), w))

-- the value "processing"
abbrev pub processing : Text
processing = 1

-- the value that the timeout goroutine looks for
abbrev pub processed : Text
processed = 2

abbrev pub set_mark :
    (Uuid → Uuid → Option Text) → Uuid → Uuid → Option Text → Uuid → Uuid → Option Text
set_mark marks event_id booking_id v e b = if e == event_id && b == booking_id then v else marks e b

-- AddBooking
unfoldable pub add_booking : Uuid → Uuid → Exec (Unit {0})
add_booking event_id booking_id = call (λ w.
    (ok tt, record w { timeouts = set_mark w.timeouts event_id booking_id (some processing) }))

abbrev pub or_processing : Option Text → Text
or_processing none = processing
or_processing (some v) = v

-- GetBooking
unfoldable pub get_booking : Uuid → Uuid → Exec Text
get_booking event_id booking_id =
    call (λ w. (ok (or_processing (w.timeouts event_id booking_id)), w))

-- DeleteBooking
unfoldable pub delete_booking : Uuid → Uuid → Exec ℕ
delete_booking event_id booking_id = call (λ w. (
  ok (elim (w.timeouts event_id booking_id) [ none ↦ 0 | some _ ↦ 1 ]),
  record w { timeouts = set_mark w.timeouts event_id booking_id none },
))
