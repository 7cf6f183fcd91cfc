-- ===== src/Worker/Account.antt =====
-- What becomes of the messages of the topic.
use lewly_pgpyewj.Prelude.{ℕ, ◌+◌, ◌≡◌, ◌∙◌, ap, refl, arith, Option, none, some, List}
use lewly_pgpyewj.Prelude.Picks.{total, total-Replaced, total-Removed}
use lewly_pgpyewj.Effect.{Message, World}
use lewly_pgpyewj.Service.Finalize.{Outcome}
use lewly_pgpyewj.Worker.{Pool, Task, Stage, TaskMove, LoopMove, Step, Reach, advance}

abbrev of_option : (Message → ℕ) → Option Message → ℕ
of_option f none = 0
of_option f (some m) = f m

-- a sum over the messages that the pool has not lost sight of
abbrev pub known : (Message → ℕ) → Pool → ℕ
known f p =
    total f p.inbox
    + of_option f p.held
    + total (λ (t : Task). f t.message) p.tasks
    + total (λ (e : Message × Outcome). f e.0) p.history

advance_message :
    (m : Message) (s : Stage) (w w' : World) (t : Task)
    → advance m s w ≡ (some t, w')
    → t.message ≡ m
unfolding advance
advance_message m s w w' t e = ground arith

TaskMove-known : (f : Message → ℕ) {p q : Pool} → TaskMove p q → known f q ≡ known f p
TaskMove-known f {p} (TaskMove.works {t} {t'} {ts} {w} busy e r) =
    let same = ap f (advance_message t.message t.stage p.world w t' e) in
    omega (arith, total-Replaced (λ t. f t.message) r, same)
TaskMove-known f (TaskMove.crashes e r) = refl
TaskMove-known f (TaskMove.releases r s) = omega (arith, total-Removed (λ t. f t.message) r)

LoopMove-known :
    (f : Message → ℕ) {workers : ℕ} {p q : Pool} → LoopMove workers p q → known f q ≡ known f p
LoopMove-known f (LoopMove.fetches e n) = rw (e, n) (omega arith)
LoopMove-known f (LoopMove.starts e less) = rw e (omega arith)
LoopMove-known f (LoopMove.fails e) = refl
LoopMove-known f (LoopMove.stops e) = refl

-- However the loop and its goroutines are interleaved, whichever calls fail and even after a crash:
-- every message of the topic is in the inbox, waits for a slot, has a goroutine, or is in the
-- history with its outcome, and each as often as it was in the topic. Stated for every sum over
-- messages, the number of times that a given message occurs among them.
pub messages-kept :
    (f : Message → ℕ) {workers : ℕ} {w : World} {ms : List Message} {p : Pool}
    → Reach workers w ms p
    → known f p ≡ total f ms
messages-kept f Reach.start = omega arith
messages-kept f (Reach.later r (Step.task c move)) = TaskMove-known f move ∙ messages-kept f r
messages-kept f (Reach.later r (Step.loop c s move)) = LoopMove-known f move ∙ messages-kept f r
