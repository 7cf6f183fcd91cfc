-- ===== src/Service/Finalize/Link.antt =====
-- From the message of a booking to its payment: the worker mails a link, and the link is followed.
use lewly_pgpyewj.Prelude.{
  ◌+◌, ◌≡◌, refl, sym, ap, ◌∙◌, arith, true, none, some, [], ◌∷◌, ◌++◌, Text, first_where, length,
  Bool-cases, inl, inr, if◌then◌else◌,
}
use mathlib.Core.Option.{some-injective}
use lewly_pgpyewj.Prelude.Int.{ℤ, ltb_ℤ}
use lewly_pgpyewj.Prelude.Float.{of_cents, to_cents}
use lewly_pgpyewj.Prelude.Codes.{Bytes, codes, Lacks}
use lewly_pgpyewj.Db.{BookingRow, Event, User, is_pending}
use lewly_pgpyewj.Effect.{
  ok, err, invalid_amount, World, calm, FinalizePayload, payment_request, call, query, sql, ignore,
  on_error, scan_nullable, ◌>>=◌,
}
use lewly_pgpyewj.Store.Events
use lewly_pgpyewj.Store.Events.{event_with}
use lewly_pgpyewj.Store.Users
use lewly_pgpyewj.Store.Users.{user_with}
use lewly_pgpyewj.Store.Bookings.{Booking, with_id, scan_booking}
use lewly_pgpyewj.Redis.{add_booking, set_mark, processing}
use lewly_pgpyewj.Service.Outgoing.{send}
use lewly_pgpyewj.Service.Payment.{
  PaymentRequest, accepted, paid_seats, expected_amount, charge, pay_booking,
  process_booking_payment,
}
use lewly_pgpyewj.Service.Payment.Paid.{get_by_id_ok, process_booking_payment_accepts}
use lewly_pgpyewj.Service.Mailer.{payment_link}
use lewly_pgpyewj.Service.Mailer.Link.{query_value, amount_read, payment_link-read}
use lewly_pgpyewj.Service.Finalize.{
  payment_timeout, amount_of, sleep_until_timeout, schedule_booking_timeout,
  handle_booking_finalization,
}

-- the world with the mail, the mark in Redis and the goroutine that waits for the timeout
abbrev pub mailed : FinalizePayload → User → Event → World → World
mailed payload holder event w = record w {
  mails =
      w.mails
      ++ payment_request holder.email event.name (amount_of event payload) payload.booking_id ∷ [];
  timeouts = set_mark w.timeouts payload.event_id payload.booking_id (some processing);
  timers =
      w.timers
      ++ record {
        due = w.db.clock + payment_timeout;
        payload = record payload { idempotency_key = none };
      }
        ∷ [];
}

finalization_ok :
    (payload : FinalizePayload) (w : World) (row : BookingRow) (b : Booking) (event : Event)
    (holder : User)
    → first_where (with_id payload.booking_id) w.db.bookings ≡ some row
    → scan_booking row (calm w) ≡ (ok b, calm w)
    → first_where (event_with payload.event_id) w.db.events ≡ some event
    → first_where (user_with payload.user_id) w.db.users ≡ some holder
    → handle_booking_finalization payload (calm w) ≡ (ok tt, calm (mailed payload holder event w))
unfolding handle_booking_finalization Events.get Users.get_by_id query sql call ◌>>=◌ on_error send
    schedule_booking_timeout ignore add_booking sleep_until_timeout
finalization_ok payload w row b event holder found scanned there known =
    rw (get_by_id_ok payload.booking_id w row b found scanned, there, known) refl

-- Scan looks at nothing but the row and what the driver makes of its texts.
scan_again :
    (row : BookingRow) (b : Booking) (v u : World)
    → u.scan_text ≡ v.scan_text
    → scan_booking row v ≡ (ok b, v)
    → scan_booking row u ≡ (ok b, u)
unfolding scan_booking scan_nullable ◌>>=◌
scan_again row b v u same h = rw same (ground (arith, ap (λ r. r.0) h))

-- the payment of the booking of a message
abbrev payment_of : FinalizePayload → ℤ → Text → PaymentRequest
payment_of payload amount payment_id = record {
  booking_id = payload.booking_id;
  amount = amount;
  payment_id = payment_id;
}

-- A payment of too little is refused.
low_payment_refused :
    (req : PaymentRequest) (w : World) (row : BookingRow) (b : Booking) (event : Event)
    → first_where (with_id req.booking_id) w.db.bookings ≡ some row
    → scan_booking row (calm w) ≡ (ok b, calm w)
    → is_pending b.status ≡ true
    → first_where (event_with b.event_id) w.db.events ≡ some event
    → ltb_ℤ (of_cents req.amount) (expected_amount event (length (paid_seats b))) ≡ true
    → process_booking_payment req (calm w) ≡ (err invalid_amount, calm w)
unfolding process_booking_payment pay_booking charge Events.get query sql call ◌>>=◌
low_payment_refused req w row b event found scanned pending_now there low =
    rw (get_by_id_ok req.booking_id w row b found scanned, pending_now, there, low) refl

module _ (payload : FinalizePayload) (w : World) (row : BookingRow) (b : Booking) (event : Event)
    (holder : User) (found : first_where (with_id payload.booking_id) w.db.bookings ≡ some row)
    (scanned : scan_booking row (calm w) ≡ (ok b, calm w))
    (there : first_where (event_with payload.event_id) w.db.events ≡ some event)
    (known : first_where (user_with payload.user_id) w.db.users ≡ some holder)
    (pending_now : is_pending b.status ≡ true) (same_event : b.event_id ≡ payload.event_id)
    (same_seats : length (paid_seats b) ≡ length payload.seats) where
  paid_next :
      (payment_id : Text) (amount : ℤ)
      → (process_booking_payment
          (payment_of payload amount payment_id)
          (calm (mailed payload holder event w))).0
        ≡ (if ltb_ℤ (of_cents amount) (amount_of event payload)
            then err invalid_amount
            else ok (accepted payload.booking_id))
  paid_next payment_id amount =
      let after : World = mailed payload holder event w in
      let payment : PaymentRequest = payment_of payload amount payment_id in
      let again = scan_again row b (calm w) (calm after) refl scanned in
      elim (Bool-cases (ltb_ℤ (of_cents amount) (amount_of event payload))) [
        | inl low ↦ rw low (
            ap (λ r. r.0)
              (low_payment_refused payment after row b event found again pending_now
                (rw same_event there) (rw same_seats low)))
        | inr enough ↦ rw enough (
            ap (λ r. r.0)
              (process_booking_payment_accepts payment after row b event found again pending_now
                (rw same_event there) (rw same_seats enough)))
      ]

  -- When no call fails, for the message of a pending booking that is scanned without an error, whose
  -- event and user exist and whose message has its event and as many seats as it has: the worker
  -- mails the user a payment request for the booking, whose link stands for the cents that are
  -- nearest to the product of price and seats, where PAYMENT_URL has no question mark and the id no
  -- ampersand. If the booking is paid with that amount next, the payment is refused as too low if
  -- the product, as float64 arithmetic rounds it, is above the float64 that is nearest to those
  -- cents, and accepted otherwise.
  pub mailed_link-answered :
      (payment_url id : Bytes) (payment_id : Text) (amount : ℤ)
      → Lacks b'?' payment_url
      → Lacks b'&' id
      → amount_read
          (query_value (codes "amount") (payment_link payment_url id (amount_of event payload)))
        ≡ some amount
      → let (r, w') = handle_booking_finalization payload (calm w) in
        (r ≡ ok tt)
        × (w'.mails
            ≡ w.mails
              ++ payment_request holder.email event.name
                  (amount_of event payload)
                  payload.booking_id
                ∷ [])
        × (amount ≡ to_cents (amount_of event payload))
        × ((process_booking_payment
              (record { booking_id = payload.booking_id; amount = amount; payment_id = payment_id })
              w').0
            ≡ (if ltb_ℤ (of_cents amount) (amount_of event payload)
                then err invalid_amount
                else ok (accepted payload.booking_id)))
  mailed_link-answered payment_url id payment_id amount no_query no_ampersand read =
      rw (finalization_ok payload w row b event holder found scanned there known)
        (refl, refl, exact, paid_next payment_id amount)
    where
      exact : amount ≡ to_cents (amount_of event payload)
      exact = some-injective _ _ (
          sym read
          ∙ (payment_link-read payment_url id (amount_of event payload) no_query no_ampersand).1)
