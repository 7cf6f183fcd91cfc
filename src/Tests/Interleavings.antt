-- ===== src/Tests/Interleavings.antt =====
-- The theorems on the worker's pool and on concurrent bookings, at concrete runs.
use lewly_pgpyewj.Prelude.{
  true, false, ◌⊎◌, ℕ, ◌+◌, ◌*◌, ◌≤◌, ◌≡◌, refl, arith, none, some, [], ◌∷◌, length,
}
use lewly_pgpyewj.Prelude.Int.{pos, ◌≤ℤ◌}
use lewly_pgpyewj.Prelude.Picks.{Replaced, total}
use lewly_pgpyewj.Effect.{World, Message, effects}
use lewly_pgpyewj.Service.Finalize.{handle_value}
use lewly_pgpyewj.Worker.{Pool, Stage, TaskMove, LoopMove, Step, Reach, ready, advance}
use lewly_pgpyewj.Worker.Slots.{tasks-bounded}
use lewly_pgpyewj.Worker.Account.{known, messages-kept}
use lewly_pgpyewj.Worker.Finish.{Run, Delivered, run-delivers}
use lewly_pgpyewj.Store.Events
use lewly_pgpyewj.Store.Bookings.{create_pending, insert_pending}
use lewly_pgpyewj.Store.Waitlist.{next_position}
use lewly_pgpyewj.Redis.{reserve}
use lewly_pgpyewj.Redis.Conservation.{level}
use lewly_pgpyewj.Service.Bookings.{earlier_booking}
use lewly_pgpyewj.Clients
use lewly_pgpyewj.Clients.{BookRequest, Site}
use lewly_pgpyewj.Clients.Bookings.{Other, interleaved-Lifecycle}
use lewly_pgpyewj.Store.Calls.{Call}
use lewly_pgpyewj.Lifecycle.Rows.{Lifecycle}
use lewly_pgpyewj.System.{Request}
use lewly_pgpyewj.Clients.Seats.{Thrifty, held_by, tokens_left, seats_taken, seats-bounded}
use lewly_pgpyewj.Tests.Data.{pending_world, payload, crypto, parse}

-- a message that json.Unmarshal refuses, and one for the booking of the test data
abbrev broken : Message
broken = record { key = 10; value = none }

abbrev good : Message
good = record { key = 10; value = some payload }

record PoolRun : Type 0 where
  last : Pool
  reach : Reach 1 pending_world (broken ∷ good ∷ []) last

-- one worker: it has the first message, and the second one waits for its slot
abbrev started_run : PoolRun
started_run = record {
  last = _;
  reach =
      Reach.later
        (Reach.later (Reach.later Reach.start (Step.loop refl refl (LoopMove.fetches refl refl)))
          (Step.loop refl refl (LoopMove.starts refl (omega arith))))
        (Step.loop refl refl (LoopMove.fetches refl refl));
}

-- the first message was refused
abbrev refused_run : PoolRun
unfolding advance effects handle_value
refused_run = record {
  last = _;
  reach = Reach.later started_run.reach (Step.task refl (TaskMove.works refl refl Replaced.here));
}

refused_stage : total (λ t. elim t.stage [ Stage.handled r ↦ 1 | _ ↦ 0 ]) refused_run.last.tasks ≡ 1
unfolding refused_run
refused_stage = refl

tasks-bounded_example :
    (length refused_run.last.tasks ≤ 1) × (refused_run.last.slots ≡ length refused_run.last.tasks)
tasks-bounded_example = tasks-bounded refused_run.reach

messages-kept_example : known (λ m. 1) refused_run.last ≡ total (λ m. 1) (broken ∷ good ∷ [])
messages-kept_example = messages-kept (λ m. 1) refused_run.reach

-- the same steps as in `started_run`
abbrev started_steps : Run 1 3 (ready pending_world (broken ∷ good ∷ [])) started_run.last
started_steps = Run.step (Step.loop refl refl (LoopMove.fetches refl refl)) (
    Run.step (Step.loop refl refl (LoopMove.starts refl (omega arith)))
      (Run.step (Step.loop refl refl (LoopMove.fetches refl refl)) Run.rest))

run-delivers_example :
    (k : ℕ) × (q : Pool) × Run 1 k started_run.last q
    × ((q.crashed ≡ true) ⊎ Delivered (broken ∷ good ∷ []) q)
    × (3 + k ≤ 5 * length (broken ∷ good ∷ []) + 1)
run-delivers_example = run-delivers (omega arith) started_steps refl

abbrev first_request : BookRequest
first_request = record { event_id = 10; user_id = 1; key = none; seats = 61 ∷ 62 ∷ [] }

abbrev second_request : BookRequest
second_request = record { event_id = 10; user_id = 2; key = none; seats = 62 ∷ 63 ∷ [] }

record SiteRun : Type 0 where
  last : Site
  reach : Clients.Reach (Thrifty 10) pending_world last

-- the two clients have come
abbrev arrived_run : SiteRun
arrived_run = record {
  last = _;
  reach =
      Clients.later (Clients.later Clients.start (Clients.arrives second_request))
        (Clients.arrives first_request);
}

-- both have read the event and found no earlier booking
abbrev checked_run : SiteRun
unfolding Clients.advance Clients.admit effects earlier_booking Events.get
checked_run = record {
  last = _;
  reach =
      Clients.later
        (Clients.later
          (Clients.later (Clients.later arrived_run.reach (Clients.acts refl Replaced.here))
            (Clients.acts refl (Replaced.there Replaced.here)))
          (Clients.acts refl (Replaced.there Replaced.here)))
        (Clients.acts refl Replaced.here);
}

-- the second one gets two of the three tokens, so that the first one has to wait
abbrev answered_run : SiteRun
unfolding checked_run Clients.advance effects reserve
answered_run = record {
  last = _;
  reach =
      Clients.later
        (Clients.later checked_run.reach (Clients.acts refl (Replaced.there Replaced.here)))
        (Clients.acts refl Replaced.here);
}

-- its booking is there
abbrev inserted_run : SiteRun
unfolding checked_run answered_run Clients.advance effects create_pending insert_pending
inserted_run = record {
  last = _;
  reach = Clients.later answered_run.reach (Clients.acts refl (Replaced.there Replaced.here));
}

inserted_seats : seats_taken 10 inserted_run.last.world.db ≡ 4
unfolding inserted_run answered_run checked_run
inserted_seats = refl

seats-bounded_example :
    (tokens_left 10 inserted_run.last.world
        + total (held_by 10) inserted_run.last.clients
        + seats_taken 10 inserted_run.last.world.db
      ≤ 3 + seats_taken 10 pending_world.db)
    × (pos 0 ≤ℤ level inserted_run.last.world 10)
seats-bounded_example = seats-bounded 10 refl inserted_run.reach

-- no tokens are left
abbrev full_world : World
full_world = record pending_world { tokens = λ e. some (pos 0) }

-- where both clients stand once they have read their position on the waitlist
abbrev both_positioned : Clients.Stage × Clients.Stage
both_positioned = (
  (Clients.advance first_request (Clients.answered false) full_world).0,
  (Clients.advance second_request (Clients.answered false) full_world).0,
)

-- Two clients that read their position before either has inserted its entry get the same one.
positions_collide : both_positioned ≡ (Clients.positioned 1, Clients.positioned 1)
unfolding Clients.advance effects next_position
positions_collide = refl

record ServedRun : Type 0 where
  last : Site
  reach : Clients.Reach (Other crypto parse) pending_world last

-- A client has read the event when the booking of the test data is paid and then cancelled by a
-- call that belongs to another request.
abbrev paid_between : ServedRun
unfolding Clients.advance effects Events.get
paid_between = record {
  last = _;
  reach =
      Clients.later
        (Clients.later
          (Clients.later (Clients.later Clients.start (Clients.arrives first_request))
            (Clients.acts refl Replaced.here))
          (Clients.others _ (Other.serves (Request.pay 100 (some (pos 1000)) 3) refl)))
        (Clients.others _ (Other.calls (Call.cancel_booking_tx 100) refl));
}

interleaved-Lifecycle_example : Lifecycle pending_world.db paid_between.last.world.db
interleaved-Lifecycle_example = interleaved-Lifecycle crypto parse paid_between.reach
