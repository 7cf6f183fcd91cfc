-- ===== src/Store/Waitlist.antt =====
-- internal/store/waitlist/waitlist.go
use Prim.Native.Nat.{max}
use lewly_pgpyewj.Prelude.{
  ℕ, suc, ◌+◌, Bool, true, false, not, ◌&&◌, Option, none, some, List, [], ◌∷◌, ◌++◌, Uuid, ltb,
  ◌==◌, if◌then◌else◌, select, update_where, delete_where, count_where, any_where, order_by, page,
}
use lewly_pgpyewj.Db.{Db, User, Event, WaitlistEntry, next_uuid}
use lewly_pgpyewj.Effect.{
  Result, ok, err, constraint, Exec, pure, query, sql, exec_counting, ◌>>=◌, ◌>>◌, require_rows,
}

abbrev pub active_for : Uuid → WaitlistEntry → Bool
active_for event_id e = e.event_id == event_id && not e.opted_out

-- COALESCE(MAX(position), 0) over the active entries
abbrev pub max_position : List WaitlistEntry → ℕ
max_position [] = 0
max_position (e ∷ es) = max e.position (max_position es)

abbrev pub entry_row : Uuid → Uuid → ℕ → Db → WaitlistEntry
entry_row event_id user_id position d = record {
  id = next_uuid d;
  event_id = event_id;
  user_id = user_id;
  position = position;
  opted_out = false;
  notified_at = none;
}

unfoldable pub insert_entry : Uuid → Uuid → ℕ → Db → Result (Unit {0} × Db)
insert_entry event_id user_id position d =
    if any_where (λ (u : User). u.id == user_id) d.users
      && any_where (λ (e : Event). e.id == event_id) d.events
    then ok (
      tt,
      record d {
        waitlist = d.waitlist ++ entry_row event_id user_id position d ∷ [];
        drawn = suc d.drawn;
      },
    )
    else err constraint

unfoldable pub next_position : Uuid → Db → ℕ
next_position event_id d = max_position (select (active_for event_id) d.waitlist) + 1

-- Add
unfoldable pub add : Uuid → Uuid → Exec ℕ
add event_id user_id = do
  position ← query (next_position event_id)
  sql (insert_entry event_id user_id position)
  pure position

abbrev pub entry_with : Uuid → WaitlistEntry → Bool
entry_with id e = e.id == id

unfoldable pub delete_entry : Uuid → Db → Db
delete_entry id d = record d { waitlist = delete_where (entry_with id) d.waitlist }

-- Remove
unfoldable pub remove : Uuid → Exec (Unit {0})
remove id = do
  affected ← exec_counting (λ d. count_where (entry_with id) d.waitlist) (delete_entry id)
  require_rows affected

abbrev pub entry_of : Uuid → Uuid → WaitlistEntry → Bool
entry_of event_id user_id e = e.event_id == event_id && e.user_id == user_id

unfoldable pub set_entries : (WaitlistEntry → Bool) → (WaitlistEntry → WaitlistEntry) → Db → Db
set_entries p f d = record d { waitlist = update_where p f d.waitlist }

-- OptOut
unfoldable pub opt_out : Uuid → Uuid → Exec (Unit {0})
opt_out event_id user_id = do
  affected ←
      exec_counting (λ d. count_where (entry_of event_id user_id) d.waitlist)
        (set_entries (entry_of event_id user_id) (λ e. record e { opted_out = true }))
  require_rows affected

-- ORDER BY position ASC LIMIT 1
abbrev pub least_position : List WaitlistEntry → Option WaitlistEntry
least_position [] = none
least_position (e ∷ es) = elim (least_position es) [
  | none ↦ some e
  | some f ↦ if ltb f.position e.position then some f else some e
]

unfoldable pub next_entry : Uuid → Db → Option WaitlistEntry
next_entry event_id d = least_position (select (active_for event_id) d.waitlist)

-- NextActive: id, user_id and position; `none` is the three zero values
unfoldable pub next_active : Uuid → Exec (Option WaitlistEntry)
next_active event_id = query (next_entry event_id)

-- Count
unfoldable pub count : Uuid → Exec ℕ
count event_id = query (λ d. count_where (active_for event_id) d.waitlist)

-- ListByEvent
unfoldable pub list_by_event : Uuid → ℕ → ℕ → Exec (List WaitlistEntry)
list_by_event event_id limit offset = query (λ d. page limit offset (
    order_by (λ a b. ltb a.position b.position)
      (select (λ (e : WaitlistEntry). e.event_id == event_id) d.waitlist)))

-- MarkNotified
unfoldable pub mark_notified : Uuid → Exec (Unit {0})
mark_notified id = do
  affected ←
      exec_counting (λ d. count_where (entry_with id) d.waitlist)
        (λ d. set_entries (entry_with id) (λ e. record e { notified_at = some d.clock }) d)
  require_rows affected
