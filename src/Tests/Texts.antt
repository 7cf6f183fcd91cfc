-- ===== src/Tests/Texts.antt =====
-- The theorems on the texts that the program prints and reads, and on its configuration, at
-- concrete inputs.
use lewly_pgpyewj.Prelude.{◌∷◌, ◌≡◌, refl, arith, true, some, none, []}
use lewly_pgpyewj.Prelude.Int.{pos, negsuc, ltb_ℤ}
use lewly_pgpyewj.Prelude.Codes.{Bytes, codes}
use lewly_pgpyewj.Smtp.{Mail, message}
use lewly_pgpyewj.Smtp.Headers.{read_message, read-message}
use lewly_pgpyewj.Service.Mailer.{payment_link}
use lewly_pgpyewj.Service.Mailer.Money.{digits, print_whole, print_cents, print_amount}
use lewly_pgpyewj.Service.Mailer.Link.{query_value, amount_read, payment_link-read}
use lewly_pgpyewj.Config.{atoi, read_digits}
use lewly_pgpyewj.Effect.{effects}
use lewly_pgpyewj.Effect.{ok, calm, payment_request}
use lewly_pgpyewj.Prelude.Float.{times, of_cents, to_cents, rounded, spacing}
use lewly_pgpyewj.Db.{BookingStatus, PaymentStatus}
use lewly_pgpyewj.Store.Bookings.{scan_booking}
use lewly_pgpyewj.Service.Payment.{accepted, process_booking_payment}
use lewly_pgpyewj.Service.Finalize.{amount_of, handle_booking_finalization}
use lewly_pgpyewj.Service.Finalize.Link.{mailed_link-answered}
use lewly_pgpyewj.Tests.Data.{pending_world, payload, show, alice, row_of, booking_of}

print_amounts :
    (print_amount (of_cents (pos 123456)) [] ≡ codes "1234.56")
    × (print_amount (of_cents (pos 5)) [] ≡ codes "0.05")
    × (print_amount (of_cents (negsuc 99)) [] ≡ codes "-1.00")
unfolding print_amount print_cents print_whole digits of_cents rounded spacing to_cents
print_amounts = (refl, refl, refl)

-- Three tickets for 1.10 each: the link says 3.30, which is too little.
mailed_too_low :
    (ltb_ℤ (of_cents (pos 330)) (times (of_cents (pos 110)) 3) ≡ true)
    × (print_amount (times (of_cents (pos 110)) 3) [] ≡ codes "3.30")
unfolding print_amount print_cents print_whole digits times of_cents rounded spacing to_cents
mailed_too_low = (refl, refl)

atoi_texts :
    (atoi (codes "8080") ≡ some (pos 8080))
    × (atoi (codes "-1") ≡ some (negsuc 0))
    × (atoi (codes "80a") ≡ none)
    × (atoi (codes "9223372036854775808") ≡ none)
unfolding atoi read_digits
atoi_texts = (refl, refl, refl, refl)

abbrev url : Bytes
url = codes "http://localhost:8080"

abbrev booking_id : Bytes
booking_id = codes "7c9e6679"

payment_link-read_example :
    let link = payment_link url booking_id (of_cents (pos 100000)) in
    (query_value (codes "booking_id") link ≡ some booking_id)
    × (amount_read (query_value (codes "amount") link) ≡ some (pos 100000))
    × (query_value (codes "payment_id") link ≡ some booking_id)
unfolding of_cents rounded spacing to_cents
payment_link-read_example =
    payment_link-read url booking_id (of_cents (pos 100000)) (ground arith) (ground arith)

abbrev request_mail : Mail
request_mail = record {
  to = codes "alice@example.com";
  subject = codes "Payment Required for Show";
  body = codes "\nDear User,\n";
}

read-message_example : read_message [] (message (codes "noreply@evently.local") request_mail) ≡ (
  codes "From: noreply@evently.local"
      ∷ codes "To: alice@example.com"
      ∷ codes "Subject: Payment Required for Show"
      ∷ codes "MIME-Version: 1.0"
      ∷ codes "Content-Type: text/plain; charset=\"utf-8\""
      ∷ [],
  codes "\nDear User,\n",
)
read-message_example =
    read-message (codes "noreply@evently.local") request_mail (ground arith) (ground arith)
      (ground arith)

mailed_link-answered_example :
    let (r, w') = handle_booking_finalization payload (calm pending_world) in
    (r ≡ ok tt)
    × (w'.mails ≡ payment_request 21 51 (amount_of show payload) 100 ∷ [])
    × (pos 1000 ≡ to_cents (amount_of show payload))
    × ((process_booking_payment
          (record { booking_id = 100; amount = pos 1000; payment_id = 3 })
          w').0
        ≡ ok (accepted 100))
unfolding effects scan_booking times of_cents rounded spacing to_cents
mailed_link-answered_example =
    mailed_link-answered payload pending_world
      (row_of BookingStatus.pending PaymentStatus.pending (pos 0))
      (booking_of BookingStatus.pending PaymentStatus.pending (pos 0)) show alice refl refl refl
      refl refl refl refl url booking_id 3 (pos 1000) (ground arith) (ground arith)
      (payment_link-read url booking_id (amount_of show payload) (ground arith) (ground arith)).1
