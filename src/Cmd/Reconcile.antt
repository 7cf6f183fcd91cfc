-- ===== src/Cmd/Reconcile.antt =====
-- cmd/reconcile/main.go
pub mod Tokens
use lewly_pgpyewj.Prelude.{
  ℕ, zero, suc, Bool, true, false, not, List, [], ◌∷◌, ◌++◌, Uuid, ◌==◌, select, any_where,
  if◌then◌else◌,
}
use lewly_pgpyewj.Prelude.Int.{ℤ, pos, negsuc, ◌-ℤ◌}
use lewly_pgpyewj.Db.{Db, Event, EventCapacity}
use lewly_pgpyewj.Effect.{
  Result, ok, err, constraint, Exec, pure, query, sql, Returned, value, failure, attempt, ignore,
  for_each, ◌>>=◌, ◌>>◌,
}
use lewly_pgpyewj.Redis.{reserve, release, remaining}
use lewly_pgpyewj.Service.Events.{remaining_or_zero}

abbrev pub capacity_of : Uuid → EventCapacity → Bool
capacity_of event_id c = c.event_id == event_id

abbrev pub capacity_row : Event → EventCapacity
capacity_row e = record { event_id = e.id; capacity = e.capacity; reserved_count = e.reserved }

-- INSERT INTO event_capacity, under its primary key
unfoldable pub insert_capacity : Event → Db → Result (Unit {0} × Db)
insert_capacity e d =
    if any_where (capacity_of e.id) d.event_capacity
    then err constraint
    else ok (tt, record d { event_capacity = d.event_capacity ++ capacity_row e ∷ [] })

-- the events LEFT JOIN event_capacity WHERE ec.event_id IS NULL
abbrev pub without_capacity : Db → List Event
without_capacity d = select (λ e. not (any_where (capacity_of e.id) d.event_capacity)) d.events

-- `for i := 0; i < -diff; i++`
unfoldable pub consume : Uuid → ℕ → Exec (Unit {0})
consume event_id zero = pure tt
consume event_id (suc n) = ignore (reserve event_id 1) >> consume event_id n

-- what `diff` asks for; a difference of 0 asks for nothing
unfoldable pub adjust : Uuid → ℤ → Exec (Unit {0})
adjust event_id (pos zero) = pure tt
adjust event_id (pos (suc n)) = ignore (release event_id (suc n))
adjust event_id (negsuc n) = consume event_id (suc n)

-- the body of the second loop
unfoldable pub reconcile_event : EventCapacity → Exec (Unit {0})
reconcile_event c = do
  left ← attempt (remaining c.event_id)
  adjust c.event_id (c.capacity -ℤ c.reserved_count -ℤ remaining_or_zero left)

-- main, after the connections have been made
unfoldable pub reconcile : Exec (Unit {0})
reconcile = do
  missing ← query without_capacity
  for_each missing (λ e. ignore (sql (insert_capacity e)))
  rows ← query (λ d. d.event_capacity)
  for_each rows reconcile_event
