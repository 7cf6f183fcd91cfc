-- ===== src/Store/Events/Upkeep.antt =====
-- The expiry of events, and their likes.
use lewly_pgpyewj.Prelude.{
  ◌≡◌, refl, ap, arith, Bool, true, ◌&&◌, List, [], ◌∷◌, Uuid, Time, any_where, update_where,
  count_where,
}
use lewly_pgpyewj.Prelude.Int.{pos, ◌+ℤ◌}
use lewly_pgpyewj.Db.{Event, EventStatus}
use lewly_pgpyewj.Effect.{Result, ok, World, calm, call, sql, exec, exec_counting, with_tx, ◌>>=◌}
use lewly_pgpyewj.Store.Events.{
  is_overdue, set_events, update_expired_events, like_of, insert_like, count_like, like_event,
  event_with,
}

none_overdue :
    (now : Time) (es : List Event)
    → count_where
        (is_overdue now)
        (update_where (is_overdue now) (λ e. record e { status = EventStatus.expired }) es)
      ≡ 0
none_overdue now [] = refl
none_overdue now (e ∷ es) = ground (arith, none_overdue now es)

update_nothing :
    (p : Event → Bool) (f : Event → Event) (es : List Event)
    → count_where p es ≡ 0
    → update_where p f es ≡ es
update_nothing p f [] h = refl
update_nothing p f (e ∷ es) h = ground (arith, update_nothing p f es)

-- When no call fails, UpdateExpiredEvents returns the number of events that are over and not yet
-- expired; run again at the same time it returns 0 and changes nothing.
pub update_expired_events_again :
    (w : World)
    → let (r, w') = update_expired_events (calm w) in
      (r ≡ ok (count_where (is_overdue w.db.clock) w.db.events))
      × (update_expired_events w' ≡ (ok 0, w'))
unfolding update_expired_events exec_counting sql call set_events
update_expired_events_again w =
    let es =
      update_where (is_overdue w.db.clock)
        (λ (e : Event). record e { status = EventStatus.expired }) w.db.events in
    let zero_left = none_overdue w.db.clock w.db.events in
    (
      refl,
      rw
          (
            zero_left,
            update_nothing (is_overdue w.db.clock)
                (λ (e : Event). record e { status = EventStatus.expired }) es zero_left,
          )
          refl,
    )

counts_all :
    (event_id : Uuid) (b : Bool) (f : Event → Event) (es : List Event)
    → b ≡ true
    → update_where (λ (e : Event). event_with event_id e && b) f es
      ≡ update_where (event_with event_id) f es
counts_all event_id b f [] h = refl
counts_all event_id b f (e ∷ es) h = ground (arith, counts_all event_id b f es h)

abbrev done_with : World → List Event → Result (Unit {0}) × World
done_with w es = (ok tt, record (calm w) { db = record w.db { events = es } })

-- When no call fails, a like of an event by a user who likes it already adds no row to
-- event_likes, and still raises the event's counter by 1.
pub like_event_again :
    (event_id user_id : Uuid) (w : World)
    → any_where (like_of event_id user_id) w.db.event_likes ≡ true
    → like_event event_id user_id (calm w) ≡ (
      ok tt,
      record (calm w) {
        db = record w.db {
          events =
              update_where
                (event_with event_id)
                (λ e. record e { likes = e.likes +ℤ pos 1 })
                w.db.events;
        };
      },
    )
unfolding like_event insert_like count_like set_events with_tx exec sql call ◌>>=◌
like_event_again event_id user_id w liked = rw liked (
    ap (done_with w) (
      counts_all event_id (any_where (like_of event_id user_id) w.db.event_likes)
        (λ e. record e { likes = e.likes +ℤ pos 1 }) w.db.events liked))
