-- ===== src/Payers/Alone.antt =====
-- A payment that nobody comes between, next to `process_booking_payment`.
use lewly_pgpyewj.Prelude.{◌≡◌, refl, Bool-cases, inl, inr, Option, none, some, length}
use lewly_pgpyewj.Prelude.Int.{ltb_ℤ}
use lewly_pgpyewj.Prelude.Float.{of_cents}
use lewly_pgpyewj.Db.{Event, is_pending, is_booked}
use lewly_pgpyewj.Effect.{Result, World, Exec, pure, ◌>>=◌, ◌>>◌}
use lewly_pgpyewj.Effect.Cut.{go_on, replies, bind_alone}
use lewly_pgpyewj.Store.Bookings.{Booking}
use lewly_pgpyewj.Store.BookingTx.{finalize_booking}
use lewly_pgpyewj.Service.Bookings.{encode_seats}
use lewly_pgpyewj.Service.Payment.{
  PaymentRequest, PaymentResponse, accepted, paid_seats, expected_amount, or_no_event, charge,
  pay_booking, process_booking_payment,
}
use lewly_pgpyewj.Payers.{Stage, advance, look_up, mark}

abbrev finalize : PaymentRequest → Booking → Exec PaymentResponse
finalize req b =
    finalize_booking req.booking_id (encode_seats (paid_seats b)) req.amount
    >> pure (accepted req.booking_id)

over :
    (req : PaymentRequest) (answer : Result PaymentResponse) (w : World)
    → advance req (Stage.replied answer) w ≡ (Stage.replied answer, w)
unfolding advance
over req answer w = refl

marked_alone :
    (req : PaymentRequest) (b : Booking) (w : World)
    → go_on (advance req) 1 (Stage.marked b, w) ≡ replies Stage.replied (finalize req b w)
unfolding go_on advance
marked_alone req b w =
    bind_alone (advance req) Stage.replied (over req) 0 _ (λ r. pure (accepted req.booking_id))
      (λ r w'. refl) _ w

charge_alone :
    (req : PaymentRequest) (b : Booking) (event : Event) (w : World)
    → go_on (advance req) 2 (Stage.priced b (some event), w)
      ≡ replies Stage.replied (charge req b event w)
unfolding go_on advance mark charge
charge_alone req b event w =
    elim (Bool-cases
      (ltb_ℤ (of_cents req.amount) (expected_amount event (length (paid_seats b))))) [
        | inl low ↦ rw low refl
        | inr enough ↦ rw enough (
            bind_alone (advance req) Stage.replied (over req) 1 (λ r. Stage.marked b)
              (λ r. finalize req b) (λ r w'. marked_alone req b w') _ w)
      ]

priced_alone :
    (req : PaymentRequest) (b : Booking) (event : Option Event) (w : World)
    → go_on (advance req) 2 (Stage.priced b event, w)
      ≡ replies Stage.replied ((or_no_event event >>= charge req b) w)
unfolding go_on advance mark ◌>>=◌
priced_alone req b none w = refl
priced_alone req b (some event) w = charge_alone req b event w

pub found_alone :
    (req : PaymentRequest) (b : Option Booking) (w : World)
    → go_on (advance req) 3 (Stage.found b, w) ≡ replies Stage.replied (pay_booking req b w)
unfolding go_on advance look_up pay_booking
found_alone req none w = refl
found_alone req (some b) w = elim (Bool-cases (is_pending b.status)) [
  | inl due ↦ rw due (
      bind_alone (advance req) Stage.replied (over req) 2 (Stage.priced b) _ (priced_alone req b) _
        w)
  | inr settled ↦ elim (Bool-cases (is_booked b.status)) [
    | inl booked ↦ rw (settled, booked) refl
    | inr other ↦ rw (settled, other) refl
  ]
]

-- For every payment and every world, whichever calls fail: when nothing comes between its calls, a
-- payment that arrives has after four of them the reply of `process_booking_payment`, and the world
-- is the one that this leaves.
pub pay-alone :
    (req : PaymentRequest) (w : World)
    → go_on (advance req) 4 (Stage.arrived, w)
      ≡ replies Stage.replied (process_booking_payment req w)
unfolding go_on advance process_booking_payment
pay-alone req w =
    bind_alone (advance req) Stage.replied (over req) 3 Stage.found _ (found_alone req) _ w
