-- ===== src/Api/Waitlist.antt =====
-- internal/api/waitlist/waitlist.go
use lewly_pgpyewj.Prelude.{ℕ, Uuid}
use lewly_pgpyewj.Effect.{Exec}
use lewly_pgpyewj.Store.Waitlist
use lewly_pgpyewj.Api.Respond.{respond, internal_error}

-- join
unfoldable pub join : Uuid → Uuid → Exec ℕ
join event_id user_id = respond (λ p. 200) internal_error (Waitlist.add event_id user_id)

-- optout
unfoldable pub optout : Uuid → Uuid → Exec ℕ
optout event_id user_id = respond (λ r. 200) internal_error (Waitlist.opt_out event_id user_id)

-- getCount
unfoldable pub get_count : Uuid → Exec ℕ
get_count event_id = respond (λ n. 200) internal_error (Waitlist.count event_id)

-- list
unfoldable pub list : Uuid → ℕ → ℕ → Exec ℕ
list event_id limit offset =
    respond (λ es. 200) internal_error (Waitlist.list_by_event event_id limit offset)
