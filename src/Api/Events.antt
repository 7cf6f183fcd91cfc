-- ===== src/Api/Events.antt =====
-- internal/api/events/events.go
use lewly_pgpyewj.Prelude.{ℕ, Bool, Option, Text, Uuid, Time, ◌==◌, empty_text, if◌then◌else◌}
use lewly_pgpyewj.Effect.{Exec, pure}
use lewly_pgpyewj.Service.Events
use lewly_pgpyewj.Api.Respond.{respond, internal_error}

-- list; the times are `none` where the query has none, or one that is not RFC 3339
unfoldable pub list : (Text → Text → Bool) → ℕ → ℕ → Text → Option Time → Option Time → Exec ℕ
list matches limit offset q from to =
    respond (λ es. 200) internal_error (Events.list matches limit offset q from to)

-- listAll
unfoldable pub list_all : ℕ → ℕ → Exec ℕ
list_all limit offset = respond (λ es. 200) internal_error (Events.list_all limit offset)

-- listUpcoming
unfoldable pub list_upcoming : ℕ → ℕ → Exec ℕ
list_upcoming limit offset = respond (λ es. 200) internal_error (Events.list_upcoming limit offset)

-- listPopular
unfoldable pub list_popular : ℕ → ℕ → Exec ℕ
list_popular limit offset = respond (λ es. 200) internal_error (Events.list_popular limit offset)

-- get: a missing event is answered with 200 and null
unfoldable pub get : Uuid → Exec ℕ
get id = respond (λ r. 200) (λ e. 404) (Events.get_with_tokens id)

-- getAvailableSeats
unfoldable pub get_available_seats : Uuid → Exec ℕ
get_available_seats id = respond (λ ls. 200) internal_error (Events.get_available_seats id)

-- likeEvent
unfoldable pub like_event : Uuid → Uuid → Exec ℕ
like_event id user_id =
    if user_id == empty_text
    then pure 401
    else respond (λ r. 200) internal_error (Events.like_event id user_id)

-- unlikeEvent
unfoldable pub unlike_event : Uuid → Uuid → Exec ℕ
unlike_event id user_id =
    if user_id == empty_text
    then pure 401
    else respond (λ r. 200) internal_error (Events.unlike_event id user_id)
