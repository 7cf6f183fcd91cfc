-- ===== src/Effect/Ensures.antt =====
-- What an action ensures of its result and of the database that it leaves, if it succeeds, whichever
-- of its calls fail. One rule for each way to build an action.
use lewly_pgpyewj.Prelude.{
  true, false, Option, none, some, Text, List, [], ◌∷◌, Bool, ◌≡◌, refl, if◌then◌else◌,
}
use lewly_pgpyewj.Db.{Db}
use lewly_pgpyewj.Effect.{
  Error, Result, ok, err, panic, World, Exec, pure, call, query, exec, with_tx, finish, stored,
  resume, rewritten, on_error, raise, scanned, scan_nullable, ◌>>=◌,
}
use lewly_pgpyewj.Effect.Obeys.{Obeys, OfDb}

abbrev pub Meets : {A : Type 0} → (A → Db → Type 0) → Result A → Db → Type 0
Meets Q (ok a) d = Q a d
Meets Q (err e) d = Unit {0}
Meets Q panic d = Unit {0}

module _ {A : Type 0} (Q : A → Db → Type 0) where
  finish_at :
      (before : Db) (r : Result A) (w : World) (bs : List Bool)
      → Meets Q r w.db
      → Meets Q
          (finish before r (record w { faults = bs })).0
          (finish before r (record w { faults = bs })).1.db
  finish_at before (ok a) w [] q = q
  finish_at before (ok a) w (true ∷ bs) q = tt
  finish_at before (ok a) w (false ∷ bs) q = q
  finish_at before (err e) w bs q = tt
  finish_at before panic w bs q = tt

  rewritten_at :
      (f : Error → Error) (r : Result A) (d : Db) → Meets Q r d → Meets Q (rewritten f r) d
  rewritten_at f (ok a) d q = q
  rewritten_at f (err e) d q = tt
  rewritten_at f panic d q = tt

  obeyed : (r : Result A) (d : Db) → ((a : A) → Q a d) → Meets Q r d
  obeyed (ok a) d q = q a
  obeyed (err e) d q = tt
  obeyed panic d q = tt

-- `P` of the database before, and `Q` of the result and the database afterwards
pub record Ensures {A : Type 0} (P : Db → Type 0) (m : Exec A) (Q : A → Db → Type 0) : Type 0 where
  pub at : (w : World) → P w.db → Meets Q (m w).0 (m w).1.db

module _ {A : Type 0} {P : Db → Type 0} {Q : A → Db → Type 0} where
  pub Ensures-pure : (a : A) → ((d : Db) → P d → Q a d) → Ensures P (pure a) Q
  Ensures-pure a h = record { at = λ w p. h w.db p }

  pub Ensures-raise : (e : Error) → Ensures P (raise e) Q
  Ensures-raise e = record { at = λ w p. tt }

  pub Ensures-if :
      (b : Bool) (m n : Exec A)
      → (b ≡ true → Ensures P m Q)
      → (b ≡ false → Ensures P n Q)
      → Ensures P (if b then m else n) Q
  Ensures-if true m n km kn = km refl
  Ensures-if false m n km kn = kn refl

  call_at :
      (m : Exec A)
      → Ensures P m Q
      → (w : World) (bs : List Bool) → P w.db
      → Meets Q (call m (record w { faults = bs })).0 (call m (record w { faults = bs })).1.db
  unfolding call
  call_at m k w [] p = k.at (record w { faults = [] }) p
  call_at m k w (true ∷ bs) p = tt
  call_at m k w (false ∷ bs) p = k.at (record w { faults = bs }) p

  pub Ensures-call : (m : Exec A) → Ensures P m Q → Ensures P (call m) Q
  Ensures-call m k = record { at = λ w p. call_at m k w w.faults p }

  pub Ensures-with_tx : (body : Exec A) → Ensures P body Q → Ensures P (with_tx body) Q
  unfolding with_tx
  Ensures-with_tx body k =
      Ensures-call (λ w. let (r, w') = body w in finish w.db r w')
        (record { at = λ w p. let (r, w') = body w in finish_at Q w.db r w' w'.faults (k.at w p) })

  pub Ensures-on_error :
      (f : Error → Error) (m : Exec A) → Ensures P m Q → Ensures P (on_error f m) Q
  unfolding on_error
  Ensures-on_error f m k = record {
    at = λ w p. let (r, w') = m w in rewritten_at Q f r w'.db (k.at w p);
  }

  -- from a relation between the databases that the action obeys
  pub Ensures-Obeys :
      {R : Db → Db → Type 0} (m : Exec A)
      → Obeys (OfDb R) m
      → ((d d' : Db) (a : A) → P d → R d d' → Q a d')
      → Ensures P m Q
  Ensures-Obeys m k h = record {
    at = λ w p. let (r, w') = m w in obeyed Q r w'.db (λ a. h w.db w'.db a p (k.at w));
  }

module _ {A : Type 0} {P : Db → Type 0} where
  pub Ensures-query :
      {Q : A → Db → Type 0} (f : Db → A) → ((d : Db) → P d → Q (f d) d) → Ensures P (query f) Q
  unfolding query
  Ensures-query f h =
      Ensures-call (λ w. stored w (ok (f w.db, w.db))) (record { at = λ w p. h w.db p })

module _ {P : Db → Type 0} where
  pub Ensures-exec :
      {Q : Unit {0} → Db → Type 0} (f : Db → Db)
      → ((d : Db) → P d → Q tt (f d))
      → Ensures P (exec f) Q
  unfolding exec
  Ensures-exec f h =
      Ensures-call (λ w. stored w (ok (tt, f w.db))) (record { at = λ w p. h w.db p })

module _ {A B : Type 0} (Q : A → Db → Type 0) (S : B → Db → Type 0) where
  resume_at :
      (r : Result A) (f : A → Exec B) (w : World)
      → Meets Q r w.db
      → ((a : A) → Ensures (Q a) (f a) S)
      → Meets S (resume r f w).0 (resume r f w).1.db
  resume_at (ok a) f w q k = (k a).at w q
  resume_at (err e) f w q k = tt
  resume_at panic f w q k = tt

  pub Ensures-bind :
      {P : Db → Type 0} (m : Exec A) (f : A → Exec B)
      → Ensures P m Q
      → ((a : A) → Ensures (Q a) (f a) S)
      → Ensures P (m >>= f) S
  unfolding ◌>>=◌
  Ensures-bind m f km kf = record {
    at = λ w p. let (r, w') = m w in resume_at r f w' (km.at w p) kf;
  }

module _ (P : Db → Type 0) where
  scanned_at :
      (o : Option Text) (w : World)
      → P w.db
      → Meets {A = Text} (λ t. P) (scanned o w).0 (scanned o w).1.db
  scanned_at none w p = tt
  scanned_at (some t) w p = p

  pub Ensures-scan_nullable : (o : Option Text) → Ensures P (scan_nullable o) (λ t. P)
  unfolding scan_nullable ◌>>=◌
  Ensures-scan_nullable o = record { at = λ w p. scanned_at (w.scan_text o) w p }
