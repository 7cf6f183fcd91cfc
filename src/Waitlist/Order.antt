-- ===== src/Waitlist/Order.antt =====
-- The invariant of the table waitlist, and the statements that keep it.
use lewly_pgpyewj.Prelude.{
  ℕ, ◌≤◌, ◌<◌, ◌≡◌, refl, Bool, true, false, List, [], ◌∷◌, ◌++◌, arith, Uuid, if◌then◌else◌,
  select, delete_where, update_where,
}
use lewly_pgpyewj.Db.{Db, WaitlistEntry}
use lewly_pgpyewj.Effect.Obeys.{IsPreorder, OfDb, OfDb-preorder}
use lewly_pgpyewj.Store.Waitlist.{active_for, max_position}

-- positions that rise strictly from above `n`
abbrev pub Ascends : ℕ → List WaitlistEntry → Type 0
Ascends n [] = Unit {0}
Ascends n (e ∷ es) = (n < e.position) × Ascends e.position es

-- the active entries of an event
abbrev pub active : Uuid → List WaitlistEntry → List WaitlistEntry
active event_id es = select (active_for event_id) es

-- in every event, a later active entry has a greater position
abbrev pub IsOrdered : Db → Type 0
IsOrdered d = (event_id : Uuid) → Ascends 0 (active event_id d.waitlist)

abbrev pub KeepsOrder : Db → Db → Type 0
KeepsOrder d d' = IsOrdered d → IsOrdered d'

pub KeepsOrder-preorder : IsPreorder (OfDb KeepsOrder)
KeepsOrder-preorder = OfDb-preorder (λ d h. h) (λ a b c h k o. k (h o))

pub Ascends-weaken : (n m : ℕ) (es : List WaitlistEntry) → n ≤ m → Ascends m es → Ascends n es
Ascends-weaken n m [] h a = tt
Ascends-weaken n m (e ∷ es) h a = (omega arith, a.1)

-- a DELETE
pub delete_where-Ascends :
    (p : WaitlistEntry → Bool) (event_id : Uuid) (n : ℕ) (es : List WaitlistEntry)
    → Ascends n (active event_id es)
    → Ascends n (active event_id (delete_where p es))
delete_where-Ascends p event_id n [] a = tt
delete_where-Ascends p event_id n (e ∷ es) a = ground (
  arith,
  delete_where-Ascends p event_id n es,
  delete_where-Ascends p event_id e.position es,
  Ascends-weaken n e.position (active event_id es),
)

-- an UPDATE that keeps event and position, and makes no entry active
pub update_where-Ascends :
    (p : WaitlistEntry → Bool) (f : WaitlistEntry → WaitlistEntry)
    → ((e : WaitlistEntry) → (f e).position ≡ e.position)
    → ((e : WaitlistEntry) (event_id : Uuid)
        → active_for event_id e ≡ false
        → active_for event_id (f e) ≡ false)
    → (event_id : Uuid) (n : ℕ) (es : List WaitlistEntry) → Ascends n (active event_id es)
    → Ascends n (active event_id (update_where p f es))
update_where-Ascends p f same stays event_id n [] a = tt
update_where-Ascends p f same stays event_id n (e ∷ es) a = ground (
  arith,
  same e,
  stays e event_id,
  update_where-Ascends p f same stays event_id n es,
  update_where-Ascends p f same stays event_id e.position es,
  Ascends-weaken n e.position (active event_id es),
)

append-Ascends :
    (n : ℕ) (es : List WaitlistEntry) (e : WaitlistEntry)
    → Ascends n es
    → n < e.position
    → max_position es < e.position
    → Ascends n (es ++ e ∷ [])
append-Ascends n [] e a h m = (h, tt)
append-Ascends n (x ∷ es) e a h m =
    (a.0, append-Ascends x.position es e a.1 (omega arith) (omega arith))

pub active-append :
    (event_id : Uuid) (es : List WaitlistEntry) (e : WaitlistEntry)
    → active event_id (es ++ e ∷ [])
      ≡ active event_id es ++ (if active_for event_id e then e ∷ [] else [])
active-append event_id [] e = ground arith
active-append event_id (x ∷ es) e = ground (arith, active-append event_id es e)

append_if-Ascends :
    (b : Bool) (n : ℕ) (es : List WaitlistEntry) (e : WaitlistEntry)
    → Ascends n es
    → (b ≡ true → (n < e.position) × (max_position es < e.position))
    → Ascends n (es ++ (if b then e ∷ [] else []))
append_if-Ascends true n es e a h = append-Ascends n es e a (h refl).0 (h refl).1
append_if-Ascends false n [] e a h = tt
append_if-Ascends false n (x ∷ es) e a h =
    (a.0, append_if-Ascends false x.position es e a.1 (λ k. cc))

-- an INSERT at the next position
pub insert-Ascends :
    (event_id : Uuid) (es : List WaitlistEntry) (e : WaitlistEntry)
    → Ascends 0 (active event_id es)
    → (active_for event_id e ≡ true → max_position (active event_id es) < e.position)
    → Ascends 0 (active event_id (es ++ e ∷ []))
insert-Ascends event_id es e a next = rw (active-append event_id es e) (
    append_if-Ascends (active_for event_id e) 0 (active event_id es) e a
      (λ h. (omega (arith, next h), next h)))
