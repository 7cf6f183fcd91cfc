-- ===== src/Service/Bookings/Earlier.antt =====
-- The idempotency check of Create.
use lewly_pgpyewj.Prelude.{
  ◌≡◌, refl, ap, arith, Bool-cases, inl, inr, Option, none, some, Text, ◌==◌, first_where,
  empty_text,
}
use lewly_pgpyewj.Db.{BookingRow}
use lewly_pgpyewj.Effect.{
  Result, ok, err, panic, World, call, query, sql, ◌>>=◌, attempt, resume, next_fault, later_faults,
  handled, pure, scan_nullable,
}
use lewly_pgpyewj.Store.Bookings.{same_key, Booking, get_by_idempotency, scan_found, scan_booking}
use lewly_pgpyewj.Service.Bookings.{found_booking, earlier_booking}

-- what only looks: the database and the tokens are as before
abbrev pub Looks : World → World → Type 0
Looks w w' = (w'.db ≡ w.db) × (w'.tokens ≡ w.tokens)

found_same : (found : Option BookingRow) (w : World) → (scan_found found w).1 ≡ w
unfolding scan_found scan_booking scan_nullable ◌>>=◌
found_same found w = ground arith

lookup-Looks : (k : Text) (w : World) → Looks w (get_by_idempotency k w).1
unfolding get_by_idempotency query sql call ◌>>=◌
lookup-Looks k w =
    let found =
      first_where (λ (b : BookingRow). same_key (some k) b.idempotency_key) w.db.bookings in
    let next = found_same found (record w { faults = later_faults w.faults }) in
    elim (Bool-cases (next_fault w.faults)) [
      | inl down ↦ rw down (refl, refl)
      | inr up ↦ rw up (ap (λ (v : World). v.db) next, ap (λ (v : World). v.tokens) next)
    ]

handled-Looks :
    (answer : Result (Option Booking)) (w w' : World)
    → Looks w w'
    → Looks w
        (resume (handled answer w').0 (λ found. pure (found_booking found)) (handled answer w').1).1
handled-Looks (ok o) w w' same = same
handled-Looks (err e) w w' same = same
handled-Looks panic w w' same = same

pub earlier_booking-Looks : (k : Option Text) (w : World) → Looks w (earlier_booking k w).1
unfolding earlier_booking attempt ◌>>=◌
earlier_booking-Looks none w = (refl, refl)
earlier_booking-Looks (some k) w =
    let (answer, w') = get_by_idempotency k w in
    let looked = handled-Looks answer w w' (lookup-Looks k w) in
    elim (Bool-cases (k == empty_text)) [
      | inl empty ↦ rw empty (refl, refl)
      | inr given ↦ rw given looked
    ]
