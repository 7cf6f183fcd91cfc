-- ===== src/Effect/Obeys.antt =====
-- Relations between the world before and after an action, whatever its outcome and whichever of its
-- calls fail. One rule for each way to build an action.
use lewly_pgpyewj.Prelude.{
  ℕ, ◌==◌, Text, Option, none, some, ◌≡◌, refl, Bool, true, false, List, [], ◌∷◌, if◌then◌else◌,
}
use lewly_pgpyewj.Db.{Db}
use lewly_pgpyewj.Effect.{
  Error, Result, ok, err, panic, World, Exec, pure, exec, exec_counting, require_rows,
  scan_nullable, scanned, no_rows, scan_error, raise, crash, lift, gets, call, stored, resume,
  handled, dropped, finish, sql, query, ◌>>=◌, attempt, ignore, on_error, with_tx, for_each,
}

-- A preorder that a failing call and the rollback of a transaction keep.
pub record IsPreorder (R : World → World → Type 0) : Type 0 where
  pub same : (w : World) → R w w
  pub chain : (a b c : World) → R a b → R b c → R a c
  pub faults : (w : World) (bs : List Bool) → R w (record w { faults = bs })
  pub rollback : (w w' : World) → R w w' → R w (record w' { db = w.db })

pub record Obeys {A : Type 0} (R : World → World → Type 0) (m : Exec A) : Type 0 where
  pub at : (w : World) → R w (m w).1

-- a relation between the databases alone
abbrev pub OfDb : (Db → Db → Type 0) → World → World → Type 0
OfDb R w w' = R w.db w'.db

pub OfDb-preorder :
    {R : Db → Db → Type 0}
    → ((d : Db) → R d d)
    → ((a b c : Db) → R a b → R b c → R a c)
    → IsPreorder (OfDb R)
OfDb-preorder same chain = record {
  same = λ w. same w.db;
  chain = λ a b c h k. chain a.db b.db c.db h k;
  faults = λ w bs. same w.db;
  rollback = λ w w' h. same w.db;
}

-- The database that an SQL statement leaves.
abbrev pub left_by : {A : Type 0} → Db → Result (A × Db) → Db
left_by d (ok (a, d')) = d'
left_by d (err e) = d
left_by d panic = d

module _ {R : World → World → Type 0} (pre : IsPreorder R) where
  module _ {A : Type 0} where
    pub Obeys-pure : (a : A) → Obeys R (pure a)
    Obeys-pure a = record { at = λ w. pre.same w }

    pub Obeys-raise : (e : Error) → Obeys R (raise {A = A} e)
    Obeys-raise e = record { at = λ w. pre.same w }

    pub Obeys-crash : Obeys R (crash {A = A})
    Obeys-crash = record { at = λ w. pre.same w }

    pub Obeys-lift : (r : Result A) → Obeys R (lift r)
    Obeys-lift r = record { at = λ w. pre.same w }

    pub Obeys-gets : (f : World → A) → Obeys R (gets f)
    Obeys-gets f = record { at = λ w. pre.same w }

    pub Obeys-call : (m : Exec A) → Obeys R m → Obeys R (call m)
    unfolding call
    Obeys-call m k = record { at = λ w. call_at w w.faults }
      where
        next_at : (w : World) (bs : List Bool) → R w (m (record w { faults = bs })).1
        next_at w bs = pre.chain w _ _ (pre.faults w bs) (k.at (record w { faults = bs }))

        call_at : (w : World) (bs : List Bool) → R w (call m (record w { faults = bs })).1
        call_at w [] = next_at w []
        call_at w (true ∷ bs) = pre.faults w bs
        call_at w (false ∷ bs) = next_at w bs

    pub Obeys-if :
        (b : Bool) (m n : Exec A)
        → (b ≡ true → Obeys R m)
        → (b ≡ false → Obeys R n)
        → Obeys R (if b then m else n)
    Obeys-if true m n km kn = km refl
    Obeys-if false m n km kn = kn refl

  module _ {A : Type 0} where
    stored_at :
        (w : World) (r : Result (A × Db))
        → R w (record w { db = left_by w.db r })
        → R w (stored w r).1
    stored_at w (ok (a, d)) h = h
    stored_at w (err e) h = h
    stored_at w panic h = h

    -- a statement, by what it does to the database
    pub Obeys-sql :
        (f : Db → Result (A × Db))
        → ((w : World) → R w (record w { db = left_by w.db (f w.db) }))
        → Obeys R (sql f)
    unfolding sql
    Obeys-sql f h =
        Obeys-call (λ w. stored w (f w.db)) (record { at = λ w. stored_at w (f w.db) (h w) })

    pub Obeys-query : (f : Db → A) → Obeys R (query f)
    unfolding query
    Obeys-query f = Obeys-sql (λ d. ok (f d, d)) (λ w. pre.same w)

    finish_at :
        (b : World) (r : Result A) (w : World) (bs : List Bool)
        → R b (record w { faults = bs })
        → R b (finish b.db r (record w { faults = bs })).1
    finish_at b (ok a) w [] h = h
    finish_at b (ok a) w (true ∷ []) h =
        pre.rollback b _ (pre.chain b _ _ h (pre.faults (record w { faults = true ∷ [] }) []))
    finish_at b (ok a) w (true ∷ true ∷ bs) h =
        pre.chain b _ _ h (pre.faults (record w { faults = true ∷ true ∷ bs }) bs)
    finish_at b (ok a) w (true ∷ false ∷ bs) h =
        pre.rollback b _
          (pre.chain b _ _ h (pre.faults (record w { faults = true ∷ false ∷ bs }) bs))
    finish_at b (ok a) w (false ∷ bs) h =
        pre.chain b _ _ h (pre.faults (record w { faults = false ∷ bs }) bs)
    finish_at b (err e) w bs h = pre.rollback b _ h
    finish_at b panic w bs h = pre.rollback b _ h

    pub Obeys-with_tx : (body : Exec A) → Obeys R body → Obeys R (with_tx body)
    unfolding with_tx
    Obeys-with_tx body k =
        Obeys-call (λ w. let (r, w') = body w in finish w.db r w')
          (record { at = λ w. let (r, w') = body w in finish_at w r w' w'.faults (k.at w) })

    pub Obeys-on_error : (f : Error → Error) (m : Exec A) → Obeys R m → Obeys R (on_error f m)
    unfolding on_error
    Obeys-on_error f m k = record { at = k.at }

    handled_at : (b : World) (r : Result A) (w : World) → R b w → R b (handled r w).1
    handled_at b (ok a) w h = h
    handled_at b (err e) w h = h
    handled_at b panic w h = h

    pub Obeys-attempt : (m : Exec A) → Obeys R m → Obeys R (attempt m)
    unfolding attempt
    Obeys-attempt m k = record { at = λ w. let (r, w') = m w in handled_at w r w' (k.at w) }

    dropped_at : (b : World) (r : Result A) (w : World) → R b w → R b (dropped r w).1
    dropped_at b panic w h = h
    dropped_at b (ok a) w h = h
    dropped_at b (err e) w h = h

    pub Obeys-ignore : (m : Exec A) → Obeys R m → Obeys R (ignore m)
    unfolding ignore
    Obeys-ignore m k = record { at = λ w. let (r, w') = m w in dropped_at w r w' (k.at w) }

  module _ {A B : Type 0} where
    resume_at :
        (b : World) (r : Result A) (f : A → Exec B) (w : World)
        → R b w
        → ((a : A) → r ≡ ok a → Obeys R (f a))
        → R b (resume r f w).1
    resume_at b (ok a) f w h kf = pre.chain b w _ h ((kf a refl).at w)
    resume_at b (err e) f w h kf = h
    resume_at b panic f w h kf = h

    -- with what is known of the value that the first action returns
    pub Obeys-bind_knowing :
        (m : Exec A) (f : A → Exec B)
        → Obeys R m
        → ((w : World) (a : A) → (m w).0 ≡ ok a → Obeys R (f a))
        → Obeys R (m >>= f)
    unfolding ◌>>=◌
    Obeys-bind_knowing m f km kf = record {
      at = λ w. let (r, w') = m w in resume_at w r f w' (km.at w) (kf w);
    }

    pub Obeys-bind :
        (m : Exec A) (f : A → Exec B) → Obeys R m → ((a : A) → Obeys R (f a)) → Obeys R (m >>= f)
    Obeys-bind m f km kf = Obeys-bind_knowing m f km (λ w a _. kf a)

  pub Obeys-for_each :
      {A : Type 0} (xs : List A) (body : A → Exec (Unit {0}))
      → ((x : A) → Obeys R (body x))
      → Obeys R (for_each xs body)
  unfolding for_each
  Obeys-for_each [] body k = Obeys-pure tt
  Obeys-for_each (x ∷ xs) body k =
      Obeys-bind (body x) (λ _. for_each xs body) (k x) (λ _. Obeys-for_each xs body k)

  pub Obeys-exec_counting :
      (n : Db → ℕ) (f : Db → Db)
      → ((w : World) → R w (record w { db = f w.db }))
      → Obeys R (exec_counting n f)
  unfolding exec_counting
  Obeys-exec_counting n f h = Obeys-sql (λ d. ok (n d, f d)) h

  pub Obeys-exec : (f : Db → Db) → ((w : World) → R w (record w { db = f w.db })) → Obeys R (exec f)
  unfolding exec
  Obeys-exec f h = Obeys-sql (λ d. ok (tt, f d)) h

  pub Obeys-require_rows : (n : ℕ) → Obeys R (require_rows n)
  unfolding require_rows
  Obeys-require_rows n =
      Obeys-if (n == 0) (raise no_rows) (pure tt) (λ _. Obeys-raise no_rows) (λ _. Obeys-pure tt)

  scanned_at : (o : Option Text) → Obeys R (scanned o)
  scanned_at none = Obeys-raise scan_error
  scanned_at (some t) = Obeys-pure t

  pub Obeys-scan_nullable : (o : Option Text) → Obeys R (scan_nullable o)
  unfolding scan_nullable
  Obeys-scan_nullable o =
      Obeys-bind (gets (λ w. w.scan_text o)) scanned (Obeys-gets (λ w. w.scan_text o)) scanned_at

pub ruleset obeys_rules = (
  Obeys-pure, Obeys-raise, Obeys-crash, Obeys-lift, Obeys-gets, Obeys-if, Obeys-query,
  Obeys-with_tx, Obeys-on_error, Obeys-attempt, Obeys-ignore, Obeys-bind, Obeys-for_each,
  Obeys-require_rows, Obeys-scan_nullable,
)
