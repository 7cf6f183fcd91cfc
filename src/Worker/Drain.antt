-- ===== src/Worker/Drain.antt =====
-- The end of the goroutines of the pool.
use lewly_pgpyewj.Prelude.{
  ℕ, zero, suc, ◌+◌, ◌*◌, ◌≤◌, ◌<◌, ◌≡◌, refl, sym, ap, arith, ◌⊎◌, inl, inr, Bool-cases, true,
  false, if◌then◌else◌, Option, none, some, List, [], ◌∷◌, length,
}
use lewly_pgpyewj.Prelude.Picks.{Replaced, Removed, total, total-Replaced, total-Removed, total-le}
use lewly_pgpyewj.Effect.{Message, World}
use lewly_pgpyewj.Worker.{Pool, Task, Stage, TaskMove, Reach, advance, is_busy}
use lewly_pgpyewj.Worker.Slots.{Inv, TaskMove-Inv, Reach-Inv}

-- the moves that a goroutine has left
abbrev pub moves_left : Stage → ℕ
moves_left Stage.started = 3
moves_left (Stage.handled r) = 2
moves_left (Stage.settled o) = 1

abbrev pub left_of : Task → ℕ
left_of t = moves_left t.stage

abbrev pub work : Pool → ℕ
work p = if p.crashed then 0 else total left_of p.tasks

-- `n` moves of goroutines, one after another, with none of the loop between them
pub data TaskRun : ℕ → Pool → Pool → Type 0 where
  rest : {p : Pool} → TaskRun 0 p p
  move :
      {n : ℕ} {p q r : Pool}
      → p.crashed ≡ false
      → TaskMove p q
      → TaskRun n q r
      → TaskRun (suc n) p r

pub advance-less :
    (m : Message) (s : Stage) (w w' : World) (t : Task)
    → is_busy s ≡ true
    → advance m s w ≡ (some t, w')
    → left_of t < moves_left s
unfolding advance
advance-less m s w w' t busy e = ground arith

pub total-pos : {t : Task} {xs ys : List Task} → Removed t xs ys → 1 ≤ total left_of xs
total-pos {t} r = omega (arith, total-Removed left_of r, some_left t.stage)
  where
    some_left : (s : Stage) → 1 ≤ moves_left s
    some_left s = ground arith

pub TaskMove-less : {p q : Pool} → p.crashed ≡ false → TaskMove p q → work q < work p
TaskMove-less {p} c (TaskMove.works {t} {t'} {ts} {w} busy e r) =
    rw c
      (omega (arith, total-Replaced left_of r, advance-less t.message t.stage p.world w t' busy e))
TaskMove-less c (TaskMove.crashes e r) = rw c (total-pos r)
TaskMove-less c (TaskMove.releases r s) = rw c (omega (arith, total-Removed left_of r))

TaskRun-bound : {n : ℕ} {p q : Pool} → TaskRun n p q → n + work q ≤ work p
TaskRun-bound TaskRun.rest = omega arith
TaskRun-bound (TaskRun.move c m run) = omega (arith, TaskMove-less c m, TaskRun-bound run)

work-bound : {workers : ℕ} {p : Pool} → Inv workers p → work p ≤ 3 * workers
work-bound {workers} {p} h = elim (Bool-cases p.crashed) [
  | inl c ↦ rw c (omega arith)
  | inr c ↦ rw c (omega (arith, total-le left_of 3 small p.tasks, h.taken, h.bounded))
]
  where
    small : (t : Task) → left_of t ≤ 3
    small t = left_small t.stage
      where
        left_small : (s : Stage) → moves_left s ≤ 3
        left_small s = ground arith

-- Whatever the calls come to: in every state that the pool can reach, a row of moves of goroutines
-- with no new one started between them has at most three moves for each worker, so that it ends.
pub run-bounded :
    {workers : ℕ} {w : World} {ms : List Message} {p q : Pool} {n : ℕ}
    → Reach workers w ms p
    → TaskRun n p q
    → n ≤ 3 * workers
run-bounded r run = omega (arith, TaskRun-bound run, work-bound (Reach-Inv r))

-- A goroutine that is there can move.
pub next_move :
    {workers : ℕ} (p : Pool) (t : Task) (ts : List Task)
    → Inv workers p
    → p.tasks ≡ t ∷ ts
    → (q : Pool) × TaskMove p q
next_move p t ts h e = at_stage t.stage refl
  where
    first : Removed t p.tasks ts
    first = rw e Removed.here

    changed : (t' : Task) → Replaced t t' p.tasks (t' ∷ ts)
    changed t' = rw e Replaced.here

    answered :
        (r : Option Task × World)
        → is_busy t.stage ≡ true
        → advance t.message t.stage p.world ≡ r
        → (q : Pool) × TaskMove p q
    answered (none, w) busy a = (_, TaskMove.crashes a first)
    answered (some t', w) busy a = (_, TaskMove.works busy a (changed t'))

    at_stage : (s : Stage) → t.stage ≡ s → (q : Pool) × TaskMove p q
    at_stage Stage.started st = answered _ (rw st refl) refl
    at_stage (Stage.handled r) st = answered _ (rw st refl) refl
    at_stage (Stage.settled o) st = (
      _,
      TaskMove.releases {m = t.message} {o = o} {ts = ts} {s = length ts} (rw (sym st) first)
          (omega (arith, h.taken, ap length e)),
    )

-- the process has crashed, or no goroutine is left and every slot is free
abbrev pub Quiet : Pool → Type 0
Quiet p = (p.crashed ≡ true) ⊎ ((p.tasks ≡ []) × (p.slots ≡ 0))

pub List-cases : {A : Type 0} (xs : List A) → (xs ≡ []) ⊎ ((x : A) × (ys : List A) × (xs ≡ x ∷ ys))
List-cases [] = inl refl
List-cases (x ∷ xs) = inr (x, xs, refl)

drains_within :
    {workers : ℕ} (fuel : ℕ) (p : Pool)
    → Inv workers p
    → work p < fuel
    → (n : ℕ) × (q : Pool) × TaskRun n p q × Quiet q
drains_within zero p h enough = absurd (omega arith)
drains_within (suc fuel) p h enough = elim (Bool-cases p.crashed) [
  | inl c ↦ (0, p, TaskRun.rest, inl c)
  | inr c ↦ elim (List-cases p.tasks) [
    | inl e ↦ (0, p, TaskRun.rest, inr (e, omega (arith, h.taken, ap length e)))
    | inr (t, ts, e) ↦
        let (q, m) = next_move p t ts h e in
        let (n, r, run, quiet) =
          drains_within fuel q (TaskMove-Inv m h) (omega (arith, TaskMove-less c m)) in
        (suc n, r, TaskRun.move c m run, quiet)
  ]
]

TaskRun-Inv : {workers n : ℕ} {p q : Pool} → TaskRun n p q → Inv workers p → Inv workers q
TaskRun-Inv TaskRun.rest h = h
TaskRun-Inv (TaskRun.move c m run) h = TaskRun-Inv run (TaskMove-Inv m h)

-- Whatever the calls come to: in every state that the pool can reach, every row of moves of
-- goroutines, with no new one started between them, can be continued until the process has crashed
-- or no goroutine is left and every slot is free, and it has then had at most three moves for each
-- worker.
pub pool-drains :
    {workers : ℕ} {w : World} {ms : List Message} {p q : Pool} {n : ℕ}
    → Reach workers w ms p
    → TaskRun n p q
    → (k : ℕ) × (r : Pool) × TaskRun k q r × Quiet r × (n + k ≤ 3 * workers)
pool-drains {q = q} reach run =
    let (k, r, next, quiet) =
      drains_within (suc (work q)) q (TaskRun-Inv run (Reach-Inv reach)) (omega arith) in
    (
      k,
      r,
      next,
      quiet,
      omega (arith, TaskRun-bound run, TaskRun-bound next, work-bound (Reach-Inv reach)),
    )
