-- ===== src/Clients/Seats.antt =====
-- The seats and the tokens of an event while clients book at once.
use lewly_pgpyewj.Prelude.{
  ℕ, ◌+◌, ◌≤◌, ◌≡◌, ap, arith, true, false, ◌&&◌, ◌||◌, Option, none, some, [], ◌∷◌, Uuid, Text,
  length, ◌==◌, ==_iff, if◌then◌else◌,
}
use lewly_pgpyewj.Prelude.Int.{ℤ, pos, ◌≤ℤ◌, int_laws, pos_part}
use lewly_pgpyewj.Prelude.Picks.{total, total-Replaced, total-append}
use lewly_pgpyewj.Db.{
  Db, BookingRow, SeatsJson, json_array, is_pending, is_booked, Event, EventStatus,
}
use lewly_pgpyewj.Effect.{
  World, Result, call, sql, query, ignore, on_error, exec_counting, require_rows, ◌>>=◌,
}
use lewly_pgpyewj.Effect.Cut.{stage_after}
use lewly_pgpyewj.Store.Events
use lewly_pgpyewj.Store.Bookings.{Booking, create_pending, insert_pending, pending_row}
use lewly_pgpyewj.Store.Waitlist.{insert_entry}
use lewly_pgpyewj.Redis.{or_zero, reserve}
use lewly_pgpyewj.Redis.Conservation.{level}
use lewly_pgpyewj.Service.Outgoing.{publish}
use lewly_pgpyewj.Service.Bookings.{earlier_booking}
use lewly_pgpyewj.Service.Bookings.Earlier.{earlier_booking-Looks}
use lewly_pgpyewj.Clients.{BookRequest, Stage, Client, Site, Step, Reach, advance, admit}

abbrev labels_of : Option SeatsJson → ℕ
labels_of (some (json_array labels)) = length labels
labels_of _ = 0

module _ (event_id : Uuid) where
  -- the seats of a row, if it is one of the event's and pending or booked
  abbrev seats_of : BookingRow → ℕ
  seats_of b =
      if b.event_id == event_id && (is_pending b.status || is_booked b.status)
      then labels_of b.seats
      else 0

  abbrev pub seats_taken : Db → ℕ
  seats_taken d = total seats_of d.bookings

  -- the tokens that a call holds: they were granted and the booking is not there yet
  abbrev pub held_at : BookRequest → Stage → ℕ
  held_at r (Stage.answered true) = if r.event_id == event_id then length r.seats else 0
  held_at r _ = 0

  abbrev pub held_by : Client → ℕ
  held_by c = held_at c.request c.stage

  abbrev pub tokens_left : World → ℕ
  tokens_left w = pos_part (level w event_id)

  -- what others may do: the tokens and the seats of live bookings are together no more than before
  abbrev pub Thrifty : World → World → Type 0
  Thrifty w w' =
      (pos 0 ≤ℤ level w event_id → pos 0 ≤ℤ level w' event_id)
      × (tokens_left w' + seats_taken w'.db ≤ tokens_left w + seats_taken w.db)

  -- one call of Create
  abbrev Fair : BookRequest → Stage → World → Stage × World → Type 0
  Fair r s w (s', w') =
      pos 0 ≤ℤ level w event_id
      → (pos 0 ≤ℤ level w' event_id)
        × (tokens_left w' + held_at r s' + seats_taken w'.db
            ≤ tokens_left w + held_at r s + seats_taken w.db)

  get-Fair : (r : BookRequest) (w : World) → Fair r Stage.arrived w (advance r Stage.arrived w)
  unfolding advance on_error Events.get query sql call
  get-Fair r w h = ground arith

  reserve-Fair :
      (r : BookRequest) (w : World)
      → Fair r (Stage.checked none) w (advance r (Stage.checked none) w)
  unfolding advance on_error reserve call
  reserve-Fair r w h = grind (int_laws, ==_iff)

  row_seats :
      (r : BookRequest) (d : Db)
      → seats_of (pending_row r.user_id r.event_id r.key (json_array r.seats) d)
        ≡ (if r.event_id == event_id then length r.seats else 0)
  row_seats r d = ground arith

  insert-Fair :
      (r : BookRequest) (w : World)
      → Fair r (Stage.answered true) w (advance r (Stage.answered true) w)
  unfolding advance on_error create_pending sql call insert_pending ◌>>=◌
  insert-Fair r w h =
      let row = pending_row r.user_id r.event_id r.key (json_array r.seats) w.db in
      ground (arith, row_seats r w.db, total-append seats_of w.db.bookings (row ∷ []))

  -- the tokens and the bookings are as before
  abbrev Stays : World → World → Type 0
  Stays w w' = (w'.db.bookings ≡ w.db.bookings) × (w'.tokens ≡ w.tokens)

  expire-Stays :
      (id : Uuid) (w : World) → Stays w (ignore (Events.update_status id EventStatus.expired) w).1
  unfolding ignore Events.update_status Events.set_events exec_counting sql call ◌>>=◌ require_rows
  expire-Stays id w = ground arith

  check-Stays : (key : Option Text) (w : World) → Stays w (earlier_booking key w).1
  check-Stays key w =
      let same = earlier_booking-Looks key w in (ap (λ (d : Db). d.bookings) same.0, same.1)

  admit-Stays : (r : BookRequest) (event : Event) (w : World) → Stays w (admit r event w).1
  unfolding admit ◌>>=◌
  admit-Stays r event w = grind (arith, expire-Stays r.event_id w, check-Stays r.key w)

  Stays-Fair :
      (r : BookRequest) (s s' : Stage) (w w' : World)
      → Stays w w'
      → held_at r s' ≤ held_at r s
      → Fair r s w (s', w')
  Stays-Fair r s s' w w' same less h =
      let rows = ap (total seats_of) same.0 in
      let level_same = ap (λ (t : Uuid → Option ℤ). or_zero (t event_id)) same.1 in
      (rw level_same h, rw level_same (omega (arith, rows, less)))

  admitted-Fair :
      (r : BookRequest) (event : Event) (w : World)
      → Fair r (Stage.found (some event)) w (advance r (Stage.found (some event)) w)
  unfolding advance
  admitted-Fair r event w =
      Stays-Fair r (Stage.found (some event)) _ w (admit r event w).1 (admit-Stays r event w)
        (after (admit r event w).0)
    where
      after :
          (answer : Result (Option Booking))
          → held_at r (stage_after Stage.replied Stage.checked answer) ≤ 0
      after answer = ground arith

  advance-Fair : (r : BookRequest) (s : Stage) (w : World) → Fair r s w (advance r s w)
  unfolding advance on_error query sql call ignore publish insert_entry
  advance-Fair r Stage.arrived w h = get-Fair r w h
  advance-Fair r (Stage.found none) w h = (h, omega arith)
  advance-Fair r (Stage.found (some event)) w h = admitted-Fair r event w h
  advance-Fair r (Stage.checked (some b)) w h = (h, omega arith)
  advance-Fair r (Stage.checked none) w h = reserve-Fair r w h
  advance-Fair r (Stage.answered true) w h = insert-Fair r w h
  advance-Fair r (Stage.answered false) w h = ground arith
  advance-Fair r (Stage.inserted b) w h = ground arith
  advance-Fair r (Stage.positioned position) w h = ground arith
  advance-Fair r (Stage.replied reply) w h = (h, omega arith)

  -- the seats that live bookings have and the tokens, free or held, are within `budget`
  pub record Inv (budget : ℕ) (s : Site) : Type 0 where
    pub sound : pos 0 ≤ℤ level s.world event_id
    pub within : tokens_left s.world + total held_by s.clients + seats_taken s.world.db ≤ budget

  Step-Inv : {budget : ℕ} {s t : Site} → Step Thrifty s t → Inv budget s → Inv budget t
  Step-Inv (Step.arrives r) h = record { sound = h.sound; within = omega (arith, h.within) }
  Step-Inv {s = s} (Step.acts {c} {stage} {cs} {w} e picked) h =
      let fair = rw e at (advance-Fair c.request c.stage s.world h.sound) in
      record {
        sound = fair.0;
        within = omega (arith, h.within, fair.1, total-Replaced held_by picked);
      }
  Step-Inv (Step.others w thrifty) h = record {
    sound = thrifty.0 h.sound;
    within = omega (arith, h.within, thrifty.1);
  }

  -- However many clients call Create at once, their calls interleaved in any order and whichever of
  -- them fail, if the event has `n` tokens at first and what other requests do never raises the
  -- tokens and the seats of its live bookings together: at every moment the tokens that are left,
  -- those that clients hold on the way and the seats of the event's pending and booked bookings are
  -- together no more than `n` and the seats of such bookings at first, and the tokens are not
  -- negative. So no more seats are booked than the event had tokens for.
  pub seats-bounded :
      {n : ℕ} {w : World} {s : Site}
      → level w event_id ≡ pos n
      → Reach Thrifty w s
      → (tokens_left s.world + total held_by s.clients + seats_taken s.world.db
          ≤ n + seats_taken w.db)
        × (pos 0 ≤ℤ level s.world event_id)
  seats-bounded {n} {w} start_level r = let inv = Reach-Inv r in (inv.within, inv.sound)
    where
      Reach-Inv : {s : Site} → Reach Thrifty w s → Inv (n + seats_taken w.db) s
      Reach-Inv Reach.start = record {
        sound = rw start_level (omega arith);
        within = rw start_level (omega arith);
      }
      Reach-Inv (Reach.later r step) = Step-Inv step (Reach-Inv r)
