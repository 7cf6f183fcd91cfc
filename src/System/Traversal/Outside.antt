-- ===== src/System/Traversal/Outside.antt =====
-- What every preorder is obeyed by: the reads of the database and of Redis. What is left to the
-- interface: the calls outside of Postgres that write.
use lewly_pgpyewj.Prelude.{ℕ, Option, none, some, List, [], ◌∷◌, Uuid, Text}
use lewly_pgpyewj.Prelude.Int.{pos}
use lewly_pgpyewj.Db.{Event, User}
use lewly_pgpyewj.Effect.{
  Error, World, invalid_otp, FinalizePayload, Mail, Message, Returned, value, failure,
}
use lewly_pgpyewj.Effect.Obeys.{IsPreorder, Obeys, Obeys-call, Obeys-bind, obeys_rules}
use lewly_pgpyewj.Redis.{
  init_tokens, reserve, release, remaining, add_booking, get_booking, delete_booking,
}
use lewly_pgpyewj.Service.Outgoing.{publish, publish_dead, commit, send}
use lewly_pgpyewj.Service.Auth.{store_otp, read_otp, delete_otp, or_fail}
use lewly_pgpyewj.Service.Finalize.{sleep_until_timeout, or_no_booking}
use lewly_pgpyewj.Service.Laws.{OutsideObeys}
use lewly_pgpyewj.Service.Bookings.{or_crash}
use lewly_pgpyewj.Service.Payment.{or_no_event}
use lewly_pgpyewj.Service.Admin.{user_or_crash}
use lewly_pgpyewj.Store.Bookings.{
  Booking, scan_booking, scan_found, scan_all, get_by_id, get_by_idempotency, list_by_event,
}
use lewly_pgpyewj.Store.Events
use lewly_pgpyewj.Store.Users
use lewly_pgpyewj.Store.Waitlist
use lewly_pgpyewj.Db.{BookingRow}

module _ {R : World → World → Type 0} (pre : IsPreorder R) where
  pub remaining-Obeys : (id : Uuid) → Obeys R (remaining id)
  unfolding remaining
  remaining-Obeys id = Obeys-call pre _ (record { at = λ w. pre.same w })

  pub get_booking-Obeys : (e b : Uuid) → Obeys R (get_booking e b)
  unfolding get_booking
  get_booking-Obeys e b = Obeys-call pre _ (record { at = λ w. pre.same w })

  pub or_fail-Obeys : {A : Type 0} (e : Error) (o : Option A) → Obeys R (or_fail e o)
  or_fail-Obeys e none = search (obeys_rules, pre)
  or_fail-Obeys e (some a) = search (obeys_rules, pre)

  pub or_crash-Obeys : {A : Type 0} (o : Option A) → Obeys R (or_crash o)
  or_crash-Obeys none = search (obeys_rules, pre)
  or_crash-Obeys (some a) = search (obeys_rules, pre)

  pub or_no_event-Obeys : (o : Option Event) → Obeys R (or_no_event o)
  or_no_event-Obeys none = search (obeys_rules, pre)
  or_no_event-Obeys (some a) = search (obeys_rules, pre)

  pub or_no_booking-Obeys : (o : Option Booking) → Obeys R (or_no_booking o)
  or_no_booking-Obeys none = search (obeys_rules, pre)
  or_no_booking-Obeys (some a) = search (obeys_rules, pre)

  pub user_or_crash-Obeys : (r : Returned (Option User)) → Obeys R (user_or_crash r)
  user_or_crash-Obeys (value (some u)) = search (obeys_rules, pre)
  user_or_crash-Obeys (value none) = search (obeys_rules, pre)
  user_or_crash-Obeys (failure e) = search (obeys_rules, pre)

  pub read_otp-Obeys : (e : Text) → Obeys R (read_otp e)
  unfolding read_otp
  read_otp-Obeys e =
      Obeys-bind pre _ _ (Obeys-call pre _ (record { at = λ w. pre.same w }))
        (λ o. or_fail-Obeys invalid_otp o)

  pub scan_booking-Obeys : (row : BookingRow) → Obeys R (scan_booking row)
  unfolding scan_booking
  scan_booking-Obeys row = search (obeys_rules, pre)

  pub scan_found-Obeys : (o : Option BookingRow) → Obeys R (scan_found o)
  unfolding scan_found
  scan_found-Obeys none = search (obeys_rules, pre)
  scan_found-Obeys (some row) = search (obeys_rules, pre, scan_booking-Obeys)

  pub scan_all-Obeys : (rows : List BookingRow) → Obeys R (scan_all rows)
  unfolding scan_all
  scan_all-Obeys [] = search (obeys_rules, pre)
  scan_all-Obeys (row ∷ rows) =
      search (obeys_rules, pre, scan_booking-Obeys row, scan_all-Obeys rows)

  pub get_by_id-Obeys : (id : Uuid) → Obeys R (get_by_id id)
  unfolding get_by_id
  get_by_id-Obeys id = search (obeys_rules, pre, scan_found-Obeys)

  pub get_by_idempotency-Obeys : (key : Text) → Obeys R (get_by_idempotency key)
  unfolding get_by_idempotency
  get_by_idempotency-Obeys key = search (obeys_rules, pre, scan_found-Obeys)

  pub list_by_event-Obeys : (id : Uuid) (n m : ℕ) → Obeys R (list_by_event id n m)
  unfolding list_by_event
  list_by_event-Obeys id n m = search (obeys_rules, pre, scan_all-Obeys)

  pub get_event-Obeys : (id : Uuid) → Obeys R (Events.get id)
  unfolding Events.get
  get_event-Obeys id = search (obeys_rules, pre)

  pub get_user-Obeys : (id : Uuid) → Obeys R (Users.get_by_id id)
  unfolding Users.get_by_id
  get_user-Obeys id = search (obeys_rules, pre)

  pub get_by_email-Obeys : (email : Text) → Obeys R (Users.get_by_email email)
  unfolding Users.get_by_email
  get_by_email-Obeys email = search (obeys_rules, pre)

  pub next_active-Obeys : (id : Uuid) → Obeys R (Waitlist.next_active id)
  unfolding Waitlist.next_active
  next_active-Obeys id = search (obeys_rules, pre)

-- the calls outside of Postgres that write, as rules
module _ {R : World → World → Type 0} (o : OutsideObeys R) where
  pub publish-Obeys : (key : Uuid) (p : FinalizePayload) → Obeys R (publish key p)
  publish-Obeys = o.publish

  pub publish_dead-Obeys : (m : Message) → Obeys R (publish_dead m)
  publish_dead-Obeys = o.publish_dead

  pub commit-Obeys : (m : Message) → Obeys R (commit m)
  commit-Obeys = o.commit

  pub send-Obeys : (m : Mail) → Obeys R (send m)
  send-Obeys = o.send

  pub init_tokens-Obeys : (id : Uuid) (n : ℕ) → Obeys R (init_tokens id (pos n))
  init_tokens-Obeys = o.init_tokens

  pub reserve-Obeys : (id : Uuid) (n : ℕ) → Obeys R (reserve id n)
  reserve-Obeys = o.reserve

  pub release-Obeys : (id : Uuid) (n : ℕ) → Obeys R (release id n)
  release-Obeys = o.release

  pub add_booking-Obeys : (e b : Uuid) → Obeys R (add_booking e b)
  add_booking-Obeys = o.add_booking

  pub delete_booking-Obeys : (e b : Uuid) → Obeys R (delete_booking e b)
  delete_booking-Obeys = o.delete_booking

  pub sleep_until_timeout-Obeys : (p : FinalizePayload) → Obeys R (sleep_until_timeout p)
  sleep_until_timeout-Obeys = o.sleep_until_timeout

  pub store_otp-Obeys : (e o : Text) → Obeys R (store_otp e o)
  store_otp-Obeys = o.store_otp

  pub delete_otp-Obeys : (e : Text) → Obeys R (delete_otp e)
  delete_otp-Obeys = o.delete_otp

pub ruleset read_rules = (
  obeys_rules, remaining-Obeys, get_booking-Obeys, or_fail-Obeys, or_crash-Obeys, or_no_event-Obeys,
  or_no_booking-Obeys, user_or_crash-Obeys, read_otp-Obeys, scan_booking-Obeys, scan_found-Obeys,
  scan_all-Obeys, get_by_id-Obeys, get_by_idempotency-Obeys, list_by_event-Obeys, get_event-Obeys,
  get_user-Obeys, get_by_email-Obeys, next_active-Obeys,
)

pub ruleset outside_rules = (
  read_rules, publish-Obeys, publish_dead-Obeys, commit-Obeys, send-Obeys, init_tokens-Obeys,
  reserve-Obeys, release-Obeys, add_booking-Obeys, delete_booking-Obeys, sleep_until_timeout-Obeys,
  store_otp-Obeys, delete_otp-Obeys,
)
