-- ===== src/Service/Bookings/Create.antt =====
-- What a booking that is accepted takes and leaves, whichever calls fail on the way.
use lewly_pgpyewj.Prelude.{
  ℕ, ◌≡◌, ◌≢◌, refl, sym, arith, Bool, true, false, Option, none, some, List, [], ◌∷◌, ◌++◌, Uuid,
  Text, if◌then◌else◌, length, first_where, ltb, ==_iff,
}
use lewly_pgpyewj.Prelude.Int.{ℤ, pos, ◌+ℤ◌, ltb_ℤ, int_laws}
use lewly_pgpyewj.Db.{Db, Event, EventStatus}
use lewly_pgpyewj.Effect.{
  Result, ok, err, panic, World, Exec, call, query, sql, ◌>>=◌, ◌>>◌, ignore, on_error, resume,
  next_fault, later_faults, raise, Error, event_expired, event_not_found, too_many_tickets, io,
  rewritten, with_code,
}
use lewly_pgpyewj.Store.Bookings.{Booking, pending_row, insert_pending, create_pending}
use lewly_pgpyewj.Store.Events
use lewly_pgpyewj.Store.Events.{event_with}
use lewly_pgpyewj.Store.Waitlist
use lewly_pgpyewj.Redis.{or_zero, reserve}
use lewly_pgpyewj.Redis.Conservation.{level}
use lewly_pgpyewj.Service.Outgoing.{publish}
use lewly_pgpyewj.Service.Bookings.Earlier.{Looks, earlier_booking-Looks}
use lewly_pgpyewj.Service.Bookings.{
  BookingResponse, encode_seats, earlier_booking, create_reserved, create_checked, create_for,
  create,
}

module _ (event_id user_id : Uuid) (key : Option Text) (seats : List Text) where
  -- one pending row more than in `d`, and a token less than in `tokens` for each seat
  abbrev pub Accepted : Db → (Uuid → Option ℤ) → World → Type 0
  Accepted d tokens w =
      (w.db.bookings ≡ d.bookings ++ pending_row user_id event_id key (encode_seats seats) d ∷ [])
      × (level w event_id +ℤ pos (length seats) ≡ or_zero (tokens event_id))

  reserved_row :
      (w : World) (r : BookingResponse)
      → (create_reserved event_id user_id key seats true w).0 ≡ ok (202, r)
      → ((create_reserved event_id user_id key seats true w).1.db.bookings
          ≡ w.db.bookings ++ pending_row user_id event_id key (encode_seats seats) w.db ∷ [])
        × ((create_reserved event_id user_id key seats true w).1.tokens ≡ w.tokens)
  unfolding create_reserved create_pending insert_pending on_error sql call ◌>>=◌ ignore publish
  reserved_row w r h = ground arith

  reserved_none :
      (w : World) (r : BookingResponse)
      → (create_reserved event_id user_id key seats false w).0 ≢ ok (202, r)
  unfolding create_reserved on_error ◌>>=◌ Waitlist.add
  reserved_none w r h = ground arith

  reserve_took :
      (w : World)
      → ((reserve event_id (length seats) w).1.db ≡ w.db)
        × ((reserve event_id (length seats) w).0 ≡ ok true
            → level (reserve event_id (length seats) w).1 event_id +ℤ pos (length seats)
              ≡ or_zero (w.tokens event_id))
  unfolding reserve call
  reserve_took w = grind (int_laws, ==_iff)

  reserve_answered :
      (answer : Result Bool) (w w' : World) (r : BookingResponse)
      → w'.db ≡ w.db
      → (answer ≡ ok true → level w' event_id +ℤ pos (length seats) ≡ or_zero (w.tokens event_id))
      → (resume
          (rewritten (with_code 500) answer)
          (create_reserved event_id user_id key seats)
          w').0
        ≡ ok (202, r)
      → Accepted w.db w.tokens
          (resume
            (rewritten (with_code 500) answer)
            (create_reserved event_id user_id key seats)
            w').1
  reserve_answered (ok true) w w' r same took h =
      let row = reserved_row w' r h in (rw (sym same) row.0, rw row.1 (took refl))
  reserve_answered (ok false) w w' r same took h = absurd (reserved_none w' r h)
  reserve_answered (err e) w w' r same took h = cc
  reserve_answered panic w w' r same took h = cc

  checked_accepts :
      (o : Option Booking) (w : World) (r : BookingResponse)
      → (create_checked event_id user_id key seats o w).0 ≡ ok (202, r)
      → Accepted w.db w.tokens (create_checked event_id user_id key seats o w).1
  unfolding create_checked on_error ◌>>=◌
  checked_accepts (some b) w r h = ground arith
  checked_accepts none w r h =
      let (answer, w') = reserve event_id (length seats) w in
      reserve_answered answer w w' r (reserve_took w).0 (reserve_took w).1 h

  after_look :
      {A : Type 0} (answer : Result A) (f : A → Exec (ℕ × BookingResponse)) (w w' : World)
      (r : BookingResponse)
      → Looks w w'
      → ((a : A) → (f a w').0 ≡ ok (202, r) → Accepted w'.db w'.tokens (f a w').1)
      → (resume answer f w').0 ≡ ok (202, r)
      → Accepted w.db w.tokens (resume answer f w').1
  after_look (ok a) f w w' r same accepts h =
      let taken = accepts a h in (rw (sym same.0) taken.0, rw (sym same.1) taken.1)
  after_look (err e) f w w' r same accepts h = cc
  after_look panic f w w' r same accepts h = cc

  by_test :
      (b : Bool) (m n : Exec (ℕ × BookingResponse)) (w : World) (r : BookingResponse)
      → ((m w).0 ≢ ok (202, r))
      → ((n w).0 ≡ ok (202, r) → Accepted w.db w.tokens (n w).1)
      → ((if b then m else n) w).0 ≡ ok (202, r)
      → Accepted w.db w.tokens ((if b then m else n) w).1 × (b ≡ false) × ((n w).0 ≡ ok (202, r))
  by_test true m n w r refusal accepts h = absurd (refusal h)
  by_test false m n w r refusal accepts h = (accepts h, refl, h)

  raises_never :
      {A : Type 0} (answer : Result A) (e : Error) (w : World) (r : BookingResponse)
      → (resume answer (λ _. raise {A = ℕ × BookingResponse} e) w).0 ≢ ok (202, r)
  raises_never (ok a) e w r h = cc
  raises_never (err f) e w r h = cc
  raises_never panic e w r h = cc

  -- the event is there and not over, and the seats are no more than a booking may have
  abbrev pub Bookable : Option Event → Db → Type 0
  Bookable none d = ⊥
  Bookable (some event) d =
      (ltb event.end_time d.clock ≡ false)
      × (ltb_ℤ event.maximum_tickets_per_booking (pos (length seats)) ≡ false)

  raise_never :
      (e : Error) (w : World) (r : BookingResponse)
      → (raise {A = ℕ × BookingResponse} e w).0 ≢ ok (202, r)
  raise_never e w r h = cc

  abbrev once_checked : Exec (ℕ × BookingResponse)
  once_checked = do earlier ← earlier_booking key; create_checked event_id user_id key seats earlier

  abbrev once_running : Event → Exec (ℕ × BookingResponse)
  once_running event =
      if ltb_ℤ event.maximum_tickets_per_booking (pos (length seats))
      then raise (with_code 400 too_many_tickets)
      else once_checked

  once_checked_accepts :
      (w : World) (r : BookingResponse)
      → (once_checked w).0 ≡ ok (202, r)
      → Accepted w.db w.tokens (once_checked w).1
  unfolding ◌>>=◌
  once_checked_accepts w r h =
      after_look (earlier_booking key w).0 (create_checked event_id user_id key seats) w
        (earlier_booking key w).1 r (earlier_booking-Looks key w)
        (λ o. checked_accepts o (earlier_booking key w).1 r) h

  once_running_accepts :
      (event : Event) (w : World) (r : BookingResponse)
      → (once_running event w).0 ≡ ok (202, r)
      → Accepted w.db w.tokens (once_running event w).1
        × (ltb_ℤ event.maximum_tickets_per_booking (pos (length seats)) ≡ false)
  once_running_accepts event w r h =
      let taken =
        by_test (ltb_ℤ event.maximum_tickets_per_booking (pos (length seats)))
          (raise (with_code 400 too_many_tickets)) once_checked w r
          (raise_never (with_code 400 too_many_tickets) w r) (once_checked_accepts w r) h in
      (taken.0, taken.1)

  for_accepts :
      (o : Option Event) (w : World) (r : BookingResponse)
      → (create_for event_id user_id key seats o w).0 ≡ ok (202, r)
      → Accepted w.db w.tokens (create_for event_id user_id key seats o w).1 × Bookable o w.db
  unfolding create_for ◌>>=◌
  for_accepts none w r h = absurd (raise_never (with_code 404 event_not_found) w r h)
  for_accepts (some event) w r h =
      let expire = ignore (Events.update_status event_id EventStatus.expired) in
      let taken =
        by_test (ltb event.end_time w.db.clock) (expire >> raise (with_code 400 event_expired))
          (once_running event) w r (raises_never (expire w).0 (with_code 400 event_expired) _ r)
          (λ k. (once_running_accepts event w r k).0) h in
      (taken.0, (taken.1, (once_running_accepts event w r taken.2).1))

  get_accepts :
      (down : Bool) (w : World) (r : BookingResponse)
      → let found = first_where (event_with event_id) w.db.events in
        let answer : Result (Option Event) × World = if down then (err io, w) else (ok found, w) in
        (resume
            (rewritten (with_code 500) answer.0)
            (create_for event_id user_id key seats)
            answer.1).0
          ≡ ok (202, r)
        → Accepted w.db w.tokens
            (resume
              (rewritten (with_code 500) answer.0)
              (create_for event_id user_id key seats)
              answer.1).1
          × Bookable found w.db
  get_accepts true w r h = cc
  get_accepts false w r h = for_accepts (first_where (event_with event_id) w.db.events) w r h

-- A booking that is accepted with 202, whichever calls fail on the way, adds one row to the
-- bookings, pending and with these seats, and takes from the event's bucket exactly one token for
-- each of the seats. The event exists and is not over, and the seats are no more than it allows for
-- a booking.
pub create_accepts :
    (event_id user_id : Uuid) (key : Option Text) (seats : List Text) (w : World)
    (r : BookingResponse)
    → (create event_id user_id key seats w).0 ≡ ok (202, r)
    → Accepted event_id user_id key seats w.db w.tokens (create event_id user_id key seats w).1
      × Bookable event_id user_id key seats (first_where (event_with event_id) w.db.events) w.db
unfolding create on_error Events.get query sql call ◌>>=◌
create_accepts event_id user_id key seats w r h =
    get_accepts event_id user_id key seats (next_fault w.faults)
      (record w { faults = later_faults w.faults }) r h
