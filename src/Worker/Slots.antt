-- ===== src/Worker/Slots.antt =====
-- The semaphore of the pool.
use lewly_pgpyewj.Prelude.{ℕ, ◌≤◌, ◌≡◌, refl, arith, List, length}
use lewly_pgpyewj.Prelude.Picks.{length-Replaced, length-Removed}
use lewly_pgpyewj.Effect.{Message, World}
use lewly_pgpyewj.Worker.{Pool, TaskMove, LoopMove, Step, Reach}

-- a slot for each goroutine, and never more than `workers`
pub record Inv (workers : ℕ) (p : Pool) : Type 0 where
  pub taken : p.slots ≡ length p.tasks
  pub bounded : p.slots ≤ workers

pub TaskMove-Inv : {workers : ℕ} {p q : Pool} → TaskMove p q → Inv workers p → Inv workers q
TaskMove-Inv (TaskMove.works busy e r) h = record {
  taken = omega (arith, h.taken, length-Replaced r);
  bounded = h.bounded;
}
TaskMove-Inv (TaskMove.crashes e r) h = record { taken = h.taken; bounded = h.bounded }
TaskMove-Inv (TaskMove.releases r s) h = record {
  taken = omega (arith, h.taken, length-Removed r);
  bounded = omega (arith, h.bounded);
}

LoopMove-Inv : {workers : ℕ} {p q : Pool} → LoopMove workers p q → Inv workers p → Inv workers q
LoopMove-Inv (LoopMove.fetches e n) h = record { taken = h.taken; bounded = h.bounded }
LoopMove-Inv (LoopMove.starts e less) h = record { taken = omega (arith, h.taken); bounded = less }
LoopMove-Inv (LoopMove.fails e) h = h
LoopMove-Inv (LoopMove.stops e) h = record { taken = h.taken; bounded = h.bounded }

pub Reach-Inv :
    {workers : ℕ} {w : World} {ms : List Message} {p : Pool} → Reach workers w ms p → Inv workers p
Reach-Inv Reach.start = record { taken = refl; bounded = omega arith }
Reach-Inv (Reach.later r (Step.task c move)) = TaskMove-Inv move (Reach-Inv r)
Reach-Inv (Reach.later r (Step.loop c s move)) = LoopMove-Inv move (Reach-Inv r)

-- However the goroutines are interleaved and whichever calls fail, there are never more of them
-- than workers, and each of them holds a slot of the semaphore.
pub tasks-bounded :
    {workers : ℕ} {w : World} {ms : List Message} {p : Pool}
    → Reach workers w ms p
    → (length p.tasks ≤ workers) × (p.slots ≡ length p.tasks)
tasks-bounded r = let inv = Reach-Inv r in (omega (arith, inv.taken, inv.bounded), inv.taken)
