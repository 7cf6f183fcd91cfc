-- ===== src/Api/Payment.antt =====
-- internal/api/payment/payment.go
use lewly_pgpyewj.Prelude.{ℕ, Option, none, some, Text, Uuid, ◌==◌, empty_text, if◌then◌else◌}
use lewly_pgpyewj.Prelude.Int.{ℤ, negsuc, eqb_ℤ}
use lewly_pgpyewj.Effect.{Exec, pure}
use lewly_pgpyewj.Service.Payment
use lewly_pgpyewj.Service.Payment.{PaymentRequest, PaymentResponse}
use lewly_pgpyewj.Api.Respond.{respond, payment_status, refund_status, internal_error}

abbrev pub answer : PaymentResponse → ℕ
answer r = if r.success then 200 else 402

-- the default of the query parameter, -1, in cents
abbrev pub missing_amount : ℤ
missing_amount = negsuc 99

-- processBookingPayment; the amount is `none` where ParseFloat refuses it
unfoldable pub process_booking_payment : Uuid → Option ℤ → Text → Exec ℕ
process_booking_payment booking_id none payment_id = pure 400
process_booking_payment booking_id (some amount) payment_id =
    if eqb_ℤ amount missing_amount
    then pure 400
    else respond answer payment_status (
        Payment.process_booking_payment
          (record { booking_id = booking_id; amount = amount; payment_id = payment_id }))

-- processRefund: after the answer to an empty id the handler goes on
unfoldable pub process_refund : Uuid → Exec ℕ
process_refund booking_id =
    respond (λ r. if booking_id == empty_text then 400 else answer r)
      (λ e. if booking_id == empty_text then 400 else refund_status e)
      (Payment.process_cancellation_refund booking_id)

-- processEventCancellationRefund
unfoldable pub process_event_cancellation_refund : Uuid → Exec ℕ
process_event_cancellation_refund event_id =
    respond (λ r. 200) internal_error (Payment.process_event_cancellation_refund event_id)
