-- ===== src/Service/Events.antt =====
-- internal/service/events/events.go, of which most methods pass their call on to the repository, and
-- internal/service/events/status_checker.go
use lewly_pgpyewj.Prelude.{ℕ, zero, suc, Bool, Option, List, Text, Time, Uuid}
use lewly_pgpyewj.Prelude.Int.{ℤ, pos}
use lewly_pgpyewj.Db.{Event}
use lewly_pgpyewj.Effect.{Exec, pure, ignore, ◌>>◌, Returned, value, failure, attempt, ◌>>=◌}
use lewly_pgpyewj.Store.Events
use lewly_pgpyewj.Redis.{remaining}

-- List
abbrev pub list :
    (Text → Text → Bool) → ℕ → ℕ → Text → Option Time → Option Time → Exec (List Event)
list = Events.list

-- ListAll
abbrev pub list_all : ℕ → ℕ → Exec (List Event)
list_all = Events.list_all

-- ListUpcoming
abbrev pub list_upcoming : ℕ → ℕ → Exec (List Event)
list_upcoming = Events.list_upcoming

-- ListPopular
abbrev pub list_popular : ℕ → ℕ → Exec (List Event)
list_popular = Events.list_popular

-- LikeEvent
abbrev pub like_event : Uuid → Uuid → Exec (Unit {0})
like_event = Events.like_event

-- UnlikeEvent
abbrev pub unlike_event : Uuid → Uuid → Exec (Unit {0})
unlike_event = Events.unlike_event

-- IsLiked
abbrev pub is_liked : Uuid → Uuid → Exec Bool
is_liked = Events.is_liked

-- GetAvailableSeats
abbrev pub get_available_seats : Uuid → Exec (List Text)
get_available_seats = Events.get_available_seats

abbrev pub remaining_or_zero : Returned ℤ → ℤ
remaining_or_zero (value n) = n
remaining_or_zero (failure e) = pos 0

-- Get: the event and the tokens that are left
unfoldable pub get_with_tokens : Uuid → Exec (Option Event × ℤ)
get_with_tokens id = do
  event ← Events.get id
  left ← attempt (remaining id)
  pure (event, remaining_or_zero left)

-- CheckAndUpdateExpiredEvents
unfoldable pub check_and_update_expired_events : Exec ℕ
check_and_update_expired_events = Events.update_expired_events

-- RunPeriodicCheck, up to the end of its context after `ticks` ticks: errors are only logged
unfoldable pub run_periodic_check : ℕ → Exec (Unit {0})
run_periodic_check zero = pure tt
run_periodic_check (suc ticks) = do ignore check_and_update_expired_events; run_periodic_check ticks
