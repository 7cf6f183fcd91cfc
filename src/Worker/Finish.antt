-- ===== src/Worker/Finish.antt =====
-- How a run of the pool ends, the loop included.
use lewly_pgpyewj.Prelude.{
  ℕ, zero, suc, ◌+◌, ◌*◌, ◌≤◌, ◌<◌, ◌≡◌, refl, sym, ◌∙◌, ap, arith, ◌⊎◌, inl, inr, Bool-cases,
  Option-cases, true, false, if◌then◌else◌, Option, none, some, List, [], ◌∷◌, length,
}
use native.Mathlib.Decide.{dec_lt}
use lewly_pgpyewj.Prelude.Picks.{total, total-Replaced, total-Removed}
use lewly_pgpyewj.Effect.{Message, World}
use lewly_pgpyewj.Service.Finalize.{Outcome}
use lewly_pgpyewj.Worker.{Pool, Task, TaskMove, LoopMove, Step, Reach, ready}
use lewly_pgpyewj.Worker.Slots.{Inv, Reach-Inv}
use lewly_pgpyewj.Worker.Account.{known, messages-kept}
use lewly_pgpyewj.Worker.Drain.{left_of, advance-less, total-pos, next_move, List-cases}

-- a failed Fetch does not count
abbrev pub loop_cost : {workers : ℕ} {p q : Pool} → LoopMove workers p q → ℕ
loop_cost (LoopMove.fails e) = 0
loop_cost _ = 1

abbrev pub cost : {workers : ℕ} {p q : Pool} → Step workers p q → ℕ
cost (Step.task c m) = 1
cost (Step.loop c s m) = loop_cost m

-- steps one after another, `n` of them without the failed Fetches
pub data Run (workers : ℕ) : ℕ → Pool → Pool → Type 0 where
  rest : {p : Pool} → Run workers 0 p p
  step :
      {n : ℕ} {p q r : Pool} (s : Step workers p q)
      → Run workers n q r
      → Run workers (cost s + n) p r

abbrev waits : Option Message → ℕ
waits none = 0
waits (some m) = 4

-- the steps that are left: five for a message of the topic, and one to stop
abbrev pub steps_left : Pool → ℕ
steps_left p =
    if p.crashed
    then 0
    else 5 * length p.inbox + waits p.held + total left_of p.tasks + (if p.stopped then 0 else 1)

TaskMove-fewer : {p q : Pool} → p.crashed ≡ false → TaskMove p q → steps_left q < steps_left p
TaskMove-fewer {p} c (TaskMove.works {t} {t'} {ts} {w} busy e r) =
    rw c
      (omega (arith, total-Replaced left_of r, advance-less t.message t.stage p.world w t' busy e))
TaskMove-fewer c (TaskMove.crashes e r) = rw c (omega (arith, total-pos r))
TaskMove-fewer c (TaskMove.releases r s) = rw c (omega (arith, total-Removed left_of r))

LoopMove-fewer :
    {workers : ℕ} {p q : Pool}
    → p.crashed ≡ false
    → p.stopped ≡ false
    → (m : LoopMove workers p q) → loop_cost m + steps_left q ≤ steps_left p
LoopMove-fewer c s (LoopMove.fetches e n) = rw (c, s, e, n) (omega arith)
LoopMove-fewer c s (LoopMove.starts e less) = rw (c, s, e) (omega arith)
LoopMove-fewer c s (LoopMove.fails e) = omega arith
LoopMove-fewer c s (LoopMove.stops e) = rw (c, s) (omega arith)

Step-fewer :
    {workers : ℕ} {p q : Pool} (s : Step workers p q) → cost s + steps_left q ≤ steps_left p
Step-fewer (Step.task c m) = omega (arith, TaskMove-fewer c m)
Step-fewer (Step.loop c s m) = LoopMove-fewer c s m

Run-bound : {workers n : ℕ} {p q : Pool} → Run workers n p q → n + steps_left q ≤ steps_left p
Run-bound Run.rest = omega arith
Run-bound (Run.step s run) = omega (arith, Step-fewer s, Run-bound run)

-- Whatever the calls come to and however the loop and the goroutines are interleaved: a run from
-- the start on a topic of `k` messages has at most 5 k + 1 steps, not counting failed Fetches.
pub run-terminates :
    {workers n : ℕ} {w : World} {ms : List Message} {p : Pool}
    → Run workers n (ready w ms) p
    → n ≤ 5 * length ms + 1
run-terminates run = omega (arith, Run-bound run)

TaskMove-stopped : {p q : Pool} → TaskMove p q → q.stopped ≡ p.stopped
TaskMove-stopped (TaskMove.works busy e r) = refl
TaskMove-stopped (TaskMove.crashes e r) = refl
TaskMove-stopped (TaskMove.releases r s) = refl

-- where the loop and the goroutines have come to an end
abbrev pub Idle : Pool → Type 0
Idle p = (p.inbox ≡ []) × (p.held ≡ none) × (p.tasks ≡ [])

abbrev GoesOn : ℕ → Pool → Type 0
GoesOn workers p = (q : Pool) × (next : Step workers p q) × (cost next ≡ 1) × (q.stopped ≡ false)

module _ {workers : ℕ} (p : Pool) (h : Inv workers p) (c : p.crashed ≡ false)
    (s : p.stopped ≡ false) where
  task_next : (t : Task) (ts : List Task) → p.tasks ≡ t ∷ ts → GoesOn workers p
  task_next t ts e =
      let (q, m) = next_move p t ts h e in (q, Step.task c m, refl, TaskMove-stopped m ∙ s)

  -- A message that waits is started, or a goroutine moves.
  held_next : (m : Message) → 0 < workers → p.held ≡ some m → GoesOn workers p
  held_next m some_worker e = elim (dec_lt p.slots workers) [
    | yes free ↦ (_, Step.loop c s (LoopMove.starts e free), refl, s)
    | no full ↦ elim (List-cases p.tasks) [
      | inl none_left ↦ absurd (omega (arith, h.taken, ap length none_left))
      | inr (t, ts, there) ↦ task_next t ts there
    ]
  ]

  free_next : p.held ≡ none → GoesOn workers p ⊎ Idle p
  free_next e = elim (List-cases p.inbox) [
    | inl empty ↦ elim (List-cases p.tasks) [
      | inl none_left ↦ inr (empty, e, none_left)
      | inr (t, ts, there) ↦ inl (task_next t ts there)
    ]
    | inr (m, ms, there) ↦ inl (_, Step.loop c s (LoopMove.fetches there e), refl, s)
  ]

  -- Short of a crash and of the end of the context there is a step, or nothing is left to do.
  next_step : 0 < workers → GoesOn workers p ⊎ Idle p
  next_step some_worker = elim (Option-cases p.held) [
    | inl e ↦ free_next e
    | inr (m, e) ↦ inl (held_next m some_worker e)
  ]

Run-Reach :
    {workers n : ℕ} {w : World} {ms : List Message} {p q : Pool}
    → Reach workers w ms p
    → Run workers n p q
    → Reach workers w ms q
Run-Reach r Run.rest = r
Run-Reach r (Run.step s run) = Run-Reach (Reach.later r s) run

-- every message of the topic is in the history, as often as in the topic
abbrev pub Delivered : List Message → Pool → Type 0
Delivered ms p =
    Idle p × ((f : Message → ℕ) → total (λ (e : Message × Outcome). f e.0) p.history ≡ total f ms)

Idle-Delivered :
    {workers : ℕ} {w : World} {ms : List Message} {p : Pool}
    → Reach workers w ms p
    → Idle p
    → Delivered ms p
Idle-Delivered {p} r (empty, free, over) =
    ((empty, free, over), λ f. sym (kept f) ∙ messages-kept f r)
  where
    kept : (f : Message → ℕ) → known f p ≡ total (λ (e : Message × Outcome). f e.0) p.history
    kept f = rw (empty, free, over) (omega arith)

delivers_within :
    {workers : ℕ} {w : World} {ms : List Message} (fuel : ℕ) (p : Pool)
    → 0 < workers
    → Reach workers w ms p
    → p.stopped ≡ false
    → steps_left p < fuel
    → (n : ℕ) × (q : Pool) × Run workers n p q × ((q.crashed ≡ true) ⊎ Delivered ms q)
delivers_within zero p some_worker reach s enough = absurd (omega arith)
delivers_within (suc fuel) p some_worker reach s enough = elim (Bool-cases p.crashed) [
  | inl c ↦ (0, p, Run.rest, inl c)
  | inr c ↦ elim (next_step p (Reach-Inv reach) c s some_worker) [
    | inl (q, next, counts, s') ↦
        let (n, r, run, end) =
          delivers_within fuel q some_worker (Reach.later reach next) s'
            (omega (arith, counts, Step-fewer next)) in
        (cost next + n, r, Run.step next run, end)
    | inr idle ↦ (0, p, Run.rest, inr (Idle-Delivered reach idle))
  ]
]

-- With at least one worker and short of the end of its context, the pool never hangs, whatever the
-- calls come to: every run from the start can go on until the process has crashed or every message
-- of the topic has its outcome, and it has then had at most 5 k + 1 steps on a topic of `k` messages,
-- not counting the failed Fetches, which can be any number.
pub run-delivers :
    {workers n : ℕ} {w : World} {ms : List Message} {p : Pool}
    → 0 < workers
    → Run workers n (ready w ms) p
    → p.stopped ≡ false
    → (k : ℕ) × (q : Pool) × Run workers k p q
      × ((q.crashed ≡ true) ⊎ Delivered ms q)
      × (n + k ≤ 5 * length ms + 1)
run-delivers {p} some_worker run s =
    let (k, q, next, end) =
      delivers_within (suc (steps_left p)) p some_worker (Run-Reach Reach.start run) s
        (omega arith) in
    (k, q, next, end, omega (arith, Run-bound run, Run-bound next))
