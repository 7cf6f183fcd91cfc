-- ===== src/Worker/Alone.antt =====
-- A goroutine of the pool that nobody disturbs, next to `work_on`.
use lewly_pgpyewj.Prelude.{◌≡◌, arith, Option, none, some}
use lewly_pgpyewj.Effect.{
  Result, ok, panic, Message, World, Returned, value, failure, attempt, call, ◌>>=◌,
}
use lewly_pgpyewj.Service.Finalize.{Outcome, settle, work_on}
use lewly_pgpyewj.Service.Outgoing.{commit, publish_dead}
use lewly_pgpyewj.Worker.{Stage, Task, advance}

-- two parts, one after the other
abbrev pub go_on : Option Task × World → Option Task × World
go_on (none, w) = (none, w)
go_on (some t, w) = advance t.message t.stage w

abbrev outcome_at : Stage → Result Outcome
outcome_at (Stage.settled o) = ok o
outcome_at _ = panic

abbrev pub outcome_of : Option Task → Result Outcome
outcome_of none = panic
outcome_of (some t) = outcome_at t.stage

settle_alone :
    (m : Message) (r : Returned (Unit {0})) (w : World)
    → (outcome_of (advance m (Stage.handled r) w).0, (advance m (Stage.handled r) w).1)
      ≡ settle m r w
unfolding advance settle commit publish_dead call attempt ◌>>=◌
settle_alone m (value a) w = ground arith
settle_alone m (failure e) w = ground arith

-- For every message and every world, whichever calls fail: the parts of one goroutine, with nothing
-- between them, come to the same outcome and leave the same world as handling and settling the
-- message at once, and they panic where that panics.
pub work_on-alone :
    (m : Message) (w : World)
    → let last = go_on (advance m Stage.started w) in (outcome_of last.0, last.1) ≡ work_on m w
unfolding advance work_on attempt ◌>>=◌
work_on-alone m w = grind (arith, settle_alone)
