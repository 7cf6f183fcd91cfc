-- ===== src/Waitlist/Queue.antt =====
-- The table waitlist as a queue of users for each event.
use lewly_pgpyewj.Prelude.{
  ℕ, ◌≡◌, refl, ap, ◌∙◌, Option, none, some, List, [], ◌∷◌, ◌++◌, map, arith, Uuid, ◌==◌,
  if◌then◌else◌,
}
use lewly_pgpyewj.Db.{Db, WaitlistEntry}
use lewly_pgpyewj.Effect.{ok, World, call, sql, query, ◌>>=◌}
use lewly_pgpyewj.Store.Waitlist.{
  active_for, least_position, next_entry, entry_row, insert_entry, add,
}
use lewly_pgpyewj.Waitlist.Order.{Ascends, IsOrdered, active, active-append}

-- The users that wait for an event, in the order in which the table holds them.
abbrev pub line : Uuid → Db → List Uuid
line event_id d = map (λ (e : WaitlistEntry). e.user_id) (active event_id d.waitlist)

abbrev pub front : List WaitlistEntry → Option WaitlistEntry
front [] = none
front (e ∷ es) = some e

least_position-front :
    (n : ℕ) (es : List WaitlistEntry) → Ascends n es → least_position es ≡ front es
least_position-front n [] a = refl
least_position-front n (e ∷ []) a = refl
least_position-front n (e ∷ f ∷ es) a = ground (arith, least_position-front e.position (f ∷ es))

-- While the positions of an event's active entries rise, the entry that NextActive selects is the
-- front of the queue.
pub next_entry-front :
    (event_id : Uuid) (d : Db)
    → IsOrdered d
    → next_entry event_id d ≡ front (active event_id d.waitlist)
unfolding next_entry
next_entry-front event_id d o = least_position-front 0 (active event_id d.waitlist) (o event_id)

map-append :
    (xs ys : List WaitlistEntry)
    → map (λ (e : WaitlistEntry). e.user_id) (xs ++ ys)
      ≡ map (λ (e : WaitlistEntry). e.user_id) xs ++ map (λ (e : WaitlistEntry). e.user_id) ys
map-append [] ys = refl
map-append (x ∷ xs) ys = ap (λ zs. x.user_id ∷ zs) (map-append xs ys)

line_of_row :
    (event_id user_id other : Uuid) (position : ℕ) (d : Db)
    → map
        (λ (e : WaitlistEntry). e.user_id)
        (if active_for other (entry_row event_id user_id position d)
          then entry_row event_id user_id position d ∷ []
          else [])
      ≡ (if event_id == other then user_id ∷ [] else [])
line_of_row event_id user_id other position d = ground arith

add_waitlist :
    (event_id user_id : Uuid) (w : World) (position : ℕ)
    → (add event_id user_id w).0 ≡ ok position
    → (add event_id user_id w).1.db.waitlist
      ≡ w.db.waitlist ++ entry_row event_id user_id position w.db ∷ []
unfolding add ◌>>=◌ query sql call insert_entry
add_waitlist event_id user_id w position h = ground arith

-- An Add that succeeds, in whatever way calls fail before or after it, puts the user at the end of
-- the queue of that event, and leaves the queues of other events as they are.
pub add-line :
    (event_id user_id other : Uuid) (w : World) (position : ℕ)
    → (add event_id user_id w).0 ≡ ok position
    → line other (add event_id user_id w).1.db
      ≡ line other w.db ++ (if event_id == other then user_id ∷ [] else [])
add-line event_id user_id other w position h =
    ap (λ es. map (λ (e : WaitlistEntry). e.user_id) (active other es))
      (add_waitlist event_id user_id w position h)
    ∙ ap (λ es. map (λ (e : WaitlistEntry). e.user_id) es)
        (active-append other w.db.waitlist (entry_row event_id user_id position w.db))
    ∙ map-append (active other w.db.waitlist) _
    ∙ ap (λ us. line other w.db ++ us) (line_of_row event_id user_id other position w.db)
