-- ===== src/System/Traversal/Services.antt =====
-- The services that deal with bookings.
use lewly_pgpyewj.Prelude.{Bool, true, false, Option, none, some, List, Uuid, Text}
use lewly_pgpyewj.Db.{Event, WaitlistEntry, SeatsJson}
use lewly_pgpyewj.Effect.{World, Message, FinalizePayload, Returned, value, failure}
use lewly_pgpyewj.Effect.Obeys.{Obeys}
use lewly_pgpyewj.Store.Bookings.{Booking}
use lewly_pgpyewj.Store.Laws.{StoreObeys}
use lewly_pgpyewj.Service.Bookings
use lewly_pgpyewj.Service.Payment
use lewly_pgpyewj.Service.Payment.{PaymentRequest}
use lewly_pgpyewj.Service.Finalize
use lewly_pgpyewj.System.Traversal.Outside.{outside_rules}

module _ {R : World → World → Type 0} (store : StoreObeys R) where
  pub earlier_booking-Obeys : (key : Option Text) → Obeys R (Bookings.earlier_booking key)
  unfolding Bookings.earlier_booking
  earlier_booking-Obeys none = search (outside_rules, store.preorder)
  earlier_booking-Obeys (some key) = search (outside_rules, store.preorder)

  create_reserved-Obeys :
      (event_id user_id : Uuid) (key : Option Text) (seats : List Text) (granted : Bool)
      → Obeys R (Bookings.create_reserved event_id user_id key seats granted)
  unfolding Bookings.create_reserved
  create_reserved-Obeys event_id user_id key seats true =
      search (outside_rules, store.preorder, store.outside, store.create_pending)
  create_reserved-Obeys event_id user_id key seats false =
      search (outside_rules, store.preorder, store.add)

  create_checked-Obeys :
      (event_id user_id : Uuid) (key : Option Text) (seats : List Text) (b : Option Booking)
      → Obeys R (Bookings.create_checked event_id user_id key seats b)
  unfolding Bookings.create_checked
  create_checked-Obeys event_id user_id key seats none =
      search (outside_rules, store.preorder, store.outside, create_reserved-Obeys)
  create_checked-Obeys event_id user_id key seats (some b) = search (outside_rules, store.preorder)

  create_for-Obeys :
      (event_id user_id : Uuid) (key : Option Text) (seats : List Text) (e : Option Event)
      → Obeys R (Bookings.create_for event_id user_id key seats e)
  unfolding Bookings.create_for
  create_for-Obeys event_id user_id key seats none = search (outside_rules, store.preorder)
  create_for-Obeys event_id user_id key seats (some e) =
      search
        (
          outside_rules, store.preorder, earlier_booking-Obeys, create_checked-Obeys,
          store.update_status,
        )
        depth 9

  pub create-Obeys :
      (event_id user_id : Uuid) (key : Option Text) (seats : List Text)
      → Obeys R (Bookings.create event_id user_id key seats)
  unfolding Bookings.create
  create-Obeys event_id user_id key seats = search (outside_rules, store.preorder, create_for-Obeys)

  announce-Obeys :
      (event_id : Uuid) (e : Event) (entry : WaitlistEntry) (seats : Option SeatsJson)
      (r : Returned Booking)
      → Obeys R (Bookings.announce event_id e entry seats r)
  unfolding Bookings.announce
  announce-Obeys event_id e entry seats (failure x) = search (outside_rules, store.preorder)
  announce-Obeys event_id e entry seats (value pb) =
      search (outside_rules, store.preorder, store.outside, store.remove) depth 9

  promote-Obeys :
      (event_id : Uuid) (e : Event) (seats : Option SeatsJson) (r : Returned (Option WaitlistEntry))
      → Obeys R (Bookings.promote event_id e seats r)
  unfolding Bookings.promote
  promote-Obeys event_id e seats (failure x) = search (outside_rules, store.preorder)
  promote-Obeys event_id e seats (value none) = search (outside_rules, store.preorder)
  promote-Obeys event_id e seats (value (some entry)) =
      search (outside_rules, store.preorder, store.create_pending, announce-Obeys)

  pub settle_cancelled-Obeys : (b : Booking) (id : Uuid) → Obeys R (Bookings.settle_cancelled b id)
  unfolding Bookings.settle_cancelled
  settle_cancelled-Obeys b id =
      search (outside_rules, store.preorder, store.outside, promote-Obeys) depth 12

  pub cancel-Obeys : (id : Uuid) → Obeys R (Bookings.cancel id)
  unfolding Bookings.cancel
  cancel-Obeys id =
      search (outside_rules, store.preorder, store.cancel_booking_tx, settle_cancelled-Obeys) depth
        9

  charge-Obeys : (req : PaymentRequest) (b : Booking) (e : Event) → Obeys R (Payment.charge req b e)
  unfolding Payment.charge
  charge-Obeys req b e =
      search (outside_rules, store.preorder, store.update_payment_status, store.finalize_booking)
        depth 9

  pay_booking-Obeys :
      (req : PaymentRequest) (b : Option Booking) → Obeys R (Payment.pay_booking req b)
  unfolding Payment.pay_booking
  pay_booking-Obeys req none = search (outside_rules, store.preorder)
  pay_booking-Obeys req (some b) = search (outside_rules, store.preorder, charge-Obeys) depth 9

  pub process_booking_payment-Obeys :
      (req : PaymentRequest) → Obeys R (Payment.process_booking_payment req)
  unfolding Payment.process_booking_payment
  process_booking_payment-Obeys req = search (outside_rules, store.preorder, pay_booking-Obeys)

  refund-Obeys : (id : Uuid) (b : Booking) (e : Event) → Obeys R (Payment.refund id b e)
  unfolding Payment.refund
  refund-Obeys id b e = search (outside_rules, store.preorder, store.update_payment_status) depth 7

  refund_booking-Obeys : (id : Uuid) (b : Option Booking) → Obeys R (Payment.refund_booking id b)
  unfolding Payment.refund_booking
  refund_booking-Obeys id none = search (outside_rules, store.preorder)
  refund_booking-Obeys id (some b) = search (outside_rules, store.preorder, refund-Obeys) depth 7

  pub process_cancellation_refund-Obeys :
      (id : Uuid) → Obeys R (Payment.process_cancellation_refund id)
  unfolding Payment.process_cancellation_refund
  process_cancellation_refund-Obeys id =
      search (outside_rules, store.preorder, refund_booking-Obeys)

  refund_in_full-Obeys : (b : Booking) → Obeys R (Payment.refund_in_full b)
  unfolding Payment.refund_in_full
  refund_in_full-Obeys b =
      search (outside_rules, store.preorder, store.update_payment_status) depth 7

  pub process_event_cancellation_refund-Obeys :
      (id : Uuid) → Obeys R (Payment.process_event_cancellation_refund id)
  unfolding Payment.process_event_cancellation_refund
  process_event_cancellation_refund-Obeys id =
      search (outside_rules, store.preorder, refund_in_full-Obeys) depth 9

  schedule-Obeys : (p : FinalizePayload) → Obeys R (Finalize.schedule_booking_timeout p)
  unfolding Finalize.schedule_booking_timeout
  schedule-Obeys p = search (outside_rules, store.preorder, store.outside)

  pub handle_booking_finalization-Obeys :
      (p : FinalizePayload) → Obeys R (Finalize.handle_booking_finalization p)
  unfolding Finalize.handle_booking_finalization
  handle_booking_finalization-Obeys p =
      search (outside_rules, store.preorder, store.outside, schedule-Obeys) depth 14

  promote_next-Obeys :
      (p : FinalizePayload) (e : Event) (id : Uuid) → Obeys R (Finalize.promote_next p e id)
  unfolding Finalize.promote_next
  promote_next-Obeys p e id =
      search (outside_rules, store.preorder, store.outside, store.create_pending, schedule-Obeys)
        depth 12

  expire_booking-Obeys : (p : FinalizePayload) → Obeys R (Finalize.expire_booking p)
  unfolding Finalize.expire_booking
  expire_booking-Obeys p =
      search (outside_rules, store.preorder, store.cancel_booking_tx, promote_next-Obeys) depth 12

  handle_booking_timeout-Obeys : (p : FinalizePayload) → Obeys R (Finalize.handle_booking_timeout p)
  unfolding Finalize.handle_booking_timeout
  handle_booking_timeout-Obeys p =
      search (outside_rules, store.preorder, expire_booking-Obeys) depth 9

  pub wake_up-Obeys : (p : FinalizePayload) → Obeys R (Finalize.wake_up p)
  unfolding Finalize.wake_up
  wake_up-Obeys p =
      search (outside_rules, store.preorder, store.outside, handle_booking_timeout-Obeys) depth 9

  handle_value-Obeys : (v : Option FinalizePayload) → Obeys R (Finalize.handle_value v)
  unfolding Finalize.handle_value
  handle_value-Obeys none = search (outside_rules, store.preorder)
  handle_value-Obeys (some p) = handle_booking_finalization-Obeys p

  settle-Obeys : (m : Message) (r : Returned (Unit {0})) → Obeys R (Finalize.settle m r)
  unfolding Finalize.settle
  settle-Obeys m (value done) = search (outside_rules, store.preorder, store.outside)
  settle-Obeys m (failure e) = search (outside_rules, store.preorder, store.outside)

  pub work_on-Obeys : (m : Message) → Obeys R (Finalize.work_on m)
  unfolding Finalize.work_on
  work_on-Obeys m = search (outside_rules, store.preorder, handle_value-Obeys, settle-Obeys)
