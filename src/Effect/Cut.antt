-- ===== src/Effect/Cut.antt =====
-- An operation cut at its calls, so that others can come between them: how far it has come is a
-- stage, and one move makes the next call.
use lewly_pgpyewj.Prelude.{ℕ, zero, suc, ◌≡◌, refl}
use lewly_pgpyewj.Effect.{Result, ok, err, panic, World, Exec, lift, resume, ◌>>=◌}

module _ {Stage Reply : Type 0} (replied : Result Reply → Stage) {A : Type 0} where
  abbrev pub stage_after : (A → Stage) → Result A → Stage
  stage_after next (ok a) = next a
  stage_after next (err e) = replied (err e)
  stage_after next panic = replied panic

  -- one call, and the stage that its outcome leads to
  abbrev pub one_call : (A → Stage) → Exec A → World → Stage × World
  one_call next m w = let (r, w') = m w in (stage_after next r, w')

abbrev pub replies :
    {Stage Reply : Type 0} → (Result Reply → Stage) → Result Reply × World → Stage × World
replies replied (answer, w) = (replied answer, w)

module _ {Stage : Type 0} (advance : Stage → World → Stage × World) where
  -- the next `n` calls, one right after another
  unfoldable pub go_on : ℕ → Stage × World → Stage × World
  go_on zero (s, w) = (s, w)
  go_on (suc n) (s, w) = go_on n (advance s w)

  module _ {Reply : Type 0} (replied : Result Reply → Stage)
      (over : (answer : Result Reply) (w : World)
        → advance (replied answer) w ≡ (replied answer, w)) where
    pub go_on-replied :
        (n : ℕ) (answer : Result Reply) (w : World)
        → go_on n (replied answer, w) ≡ (replied answer, w)
    unfolding go_on
    go_on-replied zero answer w = refl
    go_on-replied (suc n) answer w = rw (over answer w) (go_on-replied n answer w)

    module _ {A : Type 0} (n : ℕ) (next : A → Stage) (f : A → Exec Reply)
        (follows : (a : A) (w : World) → go_on n (next a, w) ≡ replies replied (f a w)) where
      resume_alone :
          (answer : Result A) (w : World)
          → go_on n (one_call replied next (lift answer) w) ≡ replies replied (resume answer f w)
      resume_alone (ok a) w = follows a w
      resume_alone (err e) w = go_on-replied n (err e) w
      resume_alone panic w = go_on-replied n panic w

      -- one call and what follows it
      pub bind_alone :
          (m : Exec A) (w : World)
          → go_on n (one_call replied next m w) ≡ replies replied ((m >>= f) w)
      unfolding ◌>>=◌
      bind_alone m w = resume_alone (m w).0 (m w).1
