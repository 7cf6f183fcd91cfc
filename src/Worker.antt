-- ===== src/Worker.antt =====
-- Finalizer.Run of internal/worker/finalizer.go: the loop that fetches messages, its semaphore and
-- the goroutines that it starts, interleaved in any order. A goroutine moves once for each of its
-- parts: it handles its message, commits it or publishes it as a dead letter, and releases its slot.
pub mod Alone
pub mod Slots
pub mod Account
pub mod Drain
pub mod Finish
use lewly_pgpyewj.Prelude.{ℕ, suc, ◌<◌, ◌≡◌, Bool, true, false, Option, none, some, List, [], ◌∷◌}
use lewly_pgpyewj.Prelude.Picks.{Replaced, Removed}
use lewly_pgpyewj.Effect.{
  Result, ok, err, panic, Message, World, Exec, Returned, value, failure, attempt,
}
use lewly_pgpyewj.Service.Finalize.{Outcome, handle_message, settle}

-- where a goroutine stands: what handleMessage returned, then what became of the message
pub data Stage : Type 0 where
  started : Stage
  handled : Returned (Unit {0}) → Stage
  settled : Outcome → Stage

pub record Task : Type 0 where
  pub message : Message
  pub stage : Stage

-- `inbox` is what the topic still holds, `held` the message that Run has fetched and that waits for
-- a slot, `slots` what the channel `sem` holds, `history` the messages whose goroutine has ended. A
-- panic of a goroutine ends the process.
pub record Pool : Type 0 where
  pub world : World
  pub inbox : List Message
  pub held : Option Message
  pub slots : ℕ
  pub tasks : List Task
  pub history : List (Message × Outcome)
  pub stopped : Bool
  pub crashed : Bool

abbrev after_handling : Message → Result (Returned (Unit {0})) → Option Task
after_handling m (ok r) = some (record { message = m; stage = Stage.handled r })
after_handling m _ = none

abbrev after_settling : Message → Result Outcome → Option Task
after_settling m (ok o) = some (record { message = m; stage = Stage.settled o })
after_settling m _ = none

-- the next part of a goroutine: `none` is a panic
unfoldable pub advance : Message → Stage → World → Option Task × World
advance m Stage.started w = let (r, w') = attempt (handle_message m) w in (after_handling m r, w')
advance m (Stage.handled r) w = let (o, w') = settle m r w in (after_settling m o, w')
advance m (Stage.settled o) w = (some (record { message = m; stage = Stage.settled o }), w)

-- whether there is something left to do before the slot is released
abbrev pub is_busy : Stage → Bool
is_busy (Stage.settled o) = false
is_busy _ = true

-- what a goroutine does
pub data TaskMove (p : Pool) : Pool → Type 0 where
  works :
      {t t' : Task} {ts : List Task} {w : World}
      → is_busy t.stage ≡ true
      → advance t.message t.stage p.world ≡ (some t', w)
      → Replaced t t' p.tasks ts
      → TaskMove p (record p { world = w; tasks = ts })
  crashes :
      {t : Task} {ts : List Task} {w : World}
      → advance t.message t.stage p.world ≡ (none, w)
      → Removed t p.tasks ts
      → TaskMove p (record p { world = w; crashed = true })
  releases :
      {m : Message} {o : Outcome} {ts : List Task} {s : ℕ}
      → Removed (record { message = m; stage = Stage.settled o }) p.tasks ts
      → p.slots ≡ suc s
      → TaskMove p (record p { slots = s; tasks = ts; history = (m, o) ∷ p.history })

-- what the loop does; an error of Fetch is only logged, and it goes on
pub data LoopMove (workers : ℕ) (p : Pool) : Pool → Type 0 where
  fetches :
      {m : Message} {ms : List Message}
      → p.inbox ≡ m ∷ ms
      → p.held ≡ none
      → LoopMove workers p (record p { inbox = ms; held = some m })
  starts :
      {m : Message}
      → p.held ≡ some m
      → p.slots < workers
      → LoopMove workers p (record p {
        held = none;
        slots = suc p.slots;
        tasks = record { message = m; stage = Stage.started } ∷ p.tasks;
      })
  fails : p.held ≡ none → LoopMove workers p p
  stops : p.held ≡ none → LoopMove workers p (record p { stopped = true })

-- Nothing happens after a crash, and the loop does nothing after the context has ended.
pub data Step (workers : ℕ) (p : Pool) : Pool → Type 0 where
  task : {q : Pool} → p.crashed ≡ false → TaskMove p q → Step workers p q
  loop :
      {q : Pool} → p.crashed ≡ false → p.stopped ≡ false → LoopMove workers p q → Step workers p q

-- Run, at its start
abbrev pub ready : World → List Message → Pool
ready w ms = record {
  world = w;
  inbox = ms;
  held = none;
  slots = 0;
  tasks = [];
  history = [];
  stopped = false;
  crashed = false;
}

pub data Reach (workers : ℕ) (w : World) (ms : List Message) : Pool → Type 0 where
  start : Reach workers w ms (ready w ms)
  later : {p q : Pool} → Reach workers w ms p → Step workers p q → Reach workers w ms q
