-- ===== src/Cmd/Reconcile/Tokens.antt =====
-- What a reconciliation makes of the token bucket of an event, when no call fails.
use lewly_pgpyewj.Prelude.{ℕ, zero, suc, ◌-◌, ◌≡◌, ap, ◌∙◌, [], arith, Uuid, ==_iff}
use lewly_pgpyewj.Prelude.Int.{ℤ, pos, negsuc, ◌+ℤ◌, ◌-ℤ◌, ◌≤ℤ◌, pos_part, int_laws}
use lewly_pgpyewj.Db.{EventCapacity}
use lewly_pgpyewj.Effect.{ok, World, call, ◌>>=◌, value, attempt, ignore}
use lewly_pgpyewj.Redis.{reserve, release, remaining}
use lewly_pgpyewj.Redis.Conservation.{level}
use lewly_pgpyewj.Cmd.Reconcile.{consume, adjust, reconcile_event}

reserve_one :
    (event_id : Uuid) (w : World)
    → w.faults ≡ []
    → pos 0 ≤ℤ level w event_id
    → (level (ignore (reserve event_id 1) w).1 event_id ≡ pos (pos_part (level w event_id) - 1))
      × ((ignore (reserve event_id 1) w).1.faults ≡ [])
      × ((ignore (reserve event_id 1) w).0 ≡ ok tt)
unfolding reserve call ignore
reserve_one event_id w calm h = grind (int_laws, ==_iff)

-- `consume` takes single tokens until `n` are taken or none is left.
level-consume :
    (event_id : Uuid) (n : ℕ) (w : World)
    → w.faults ≡ []
    → pos 0 ≤ℤ level w event_id
    → (level (consume event_id n w).1 event_id ≡ pos (pos_part (level w event_id) - n))
      × ((consume event_id n w).1.faults ≡ [])
unfolding consume ◌>>=◌
level-consume event_id zero w calm h = ground arith
level-consume event_id (suc n) w calm h =
    let one = reserve_one event_id w calm h in
    let rest =
      level-consume event_id n (ignore (reserve event_id 1) w).1 one.1 (rw one.0 (omega arith)) in
    ground (arith, one, rest)

level-release :
    (event_id : Uuid) (n : ℕ) (w : World)
    → w.faults ≡ []
    → level (ignore (release event_id n) w).1 event_id ≡ level w event_id +ℤ pos n
unfolding release call ignore
level-release event_id n w calm = grind (int_laws, ==_iff)

level-adjust :
    (event_id : Uuid) (diff : ℤ) (w : World)
    → w.faults ≡ []
    → pos 0 ≤ℤ level w event_id
    → level (adjust event_id diff w).1 event_id ≡ pos (pos_part (level w event_id +ℤ diff))
unfolding adjust
level-adjust event_id (pos zero) w calm h = grind int_laws
level-adjust event_id (pos (suc n)) w calm h =
    level-release event_id (suc n) w calm ∙ (grind int_laws)
level-adjust event_id (negsuc n) w calm h =
    (level-consume event_id (suc n) w calm h).0 ∙ (grind int_laws)

remaining-level :
    (event_id : Uuid) (w : World)
    → w.faults ≡ []
    → (attempt (remaining event_id) w).0 ≡ ok (value (level w event_id))
unfolding remaining call attempt
remaining-level event_id w calm = ground arith

remaining_same :
    (event_id : Uuid) (w : World)
    → w.faults ≡ []
    → (level (attempt (remaining event_id) w).1 event_id ≡ level w event_id)
      × ((attempt (remaining event_id) w).1.faults ≡ [])
unfolding remaining call attempt
remaining_same event_id w calm = ground arith

-- When no call fails, and the bucket of the event does not hold a negative number, it holds after
-- its reconciliation the capacity less the reserved count of the event's row in event_capacity, or
-- nothing if that is negative, whatever it held before.
pub level-reconcile_event :
    (c : EventCapacity) (w : World)
    → w.faults ≡ []
    → pos 0 ≤ℤ level w c.event_id
    → level (reconcile_event c w).1 c.event_id ≡ pos (pos_part (c.capacity -ℤ c.reserved_count))
unfolding reconcile_event ◌>>=◌
level-reconcile_event c w calm h =
    let read = remaining-level c.event_id w calm in
    let same = remaining_same c.event_id w calm in
    let want = c.capacity -ℤ c.reserved_count in
    let diff = want -ℤ level w c.event_id in
    let w' = (attempt (remaining c.event_id) w).1 in
    let closes : level w' c.event_id +ℤ diff ≡ want = rw same.0 (omega int_laws) in
    rw (read, reconcile_event)
      (level-adjust c.event_id diff w' same.1 (rw same.0 h)
        ∙ ap (λ (n : ℤ). pos (pos_part n)) closes)
