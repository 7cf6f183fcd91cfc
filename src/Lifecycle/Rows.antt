-- ===== src/Lifecycle/Rows.antt =====
-- The life of a booking as a relation between databases, and the statements on the table bookings.
use lewly_pgpyewj.Prelude.{
  ◌≡◌, ◌==◌, refl, ◌∙◌, ◌⊎◌, inl, inr, Bool, true, false, Option, none, some, List, [], ◌∷◌, ◌++◌,
  arith, Uuid, first_where, update_where, if◌then◌else◌,
}
use lewly_pgpyewj.Db.{Db, BookingRow, BookingStatus}
use lewly_pgpyewj.Effect.Obeys.{IsPreorder, OfDb, OfDb-preorder}
use lewly_pgpyewj.Store.Bookings.{with_id}

abbrev pub may_become : BookingStatus → BookingStatus → Bool
may_become BookingStatus.pending BookingStatus.pending = true
may_become BookingStatus.pending BookingStatus.booked = true
may_become BookingStatus.booked BookingStatus.booked = true
may_become BookingStatus.waitlisted BookingStatus.waitlisted = true
may_become BookingStatus.expired BookingStatus.expired = true
may_become _ BookingStatus.cancelled = true
may_become _ _ = false

abbrev pub status_of : Option BookingRow → Option BookingStatus
status_of none = none
status_of (some b) = some b.status

abbrev pub status_in : List BookingRow → Uuid → Option BookingStatus
status_in bs id = status_of (first_where (with_id id) bs)

-- what may become of a booking: it keeps its event, its key, its time and, unless that becomes NULL,
-- its user
pub record Follows (a b : BookingRow) : Type 0 where
  pub status : may_become a.status b.status ≡ true
  pub event_id : b.event_id ≡ a.event_id
  pub key : b.idempotency_key ≡ a.idempotency_key
  pub created_at : b.created_at ≡ a.created_at
  pub user : (b.user_id ≡ a.user_id) ⊎ (b.user_id ≡ none)

abbrev pub Allowed : Option BookingRow → Option BookingRow → Type 0
Allowed none after = Unit {0}
Allowed (some a) none = ⊥
Allowed (some a) (some b) = Follows a b

-- for every booking that was there
abbrev pub Lifecycle : Db → Db → Type 0
Lifecycle d d' =
    (id : Uuid)
    → Allowed (first_where (with_id id) d.bookings) (first_where (with_id id) d'.bookings)

may_become_self : (a : BookingStatus) → may_become a a ≡ true
may_become_self a = ground arith

may_become_trans :
    (a b c : BookingStatus) → may_become a b ≡ true → may_become b c ≡ true → may_become a c ≡ true
may_become_trans a b c h k = ground arith

-- a row whose status alone may have changed
pub with_status :
    (a b : BookingRow)
    → may_become a.status b.status ≡ true
    → b.event_id ≡ a.event_id
    → b.idempotency_key ≡ a.idempotency_key
    → b.created_at ≡ a.created_at
    → b.user_id ≡ a.user_id
    → Follows a b
with_status a b s e k t u = record {
  status = s;
  event_id = e;
  key = k;
  created_at = t;
  user = inl u;
}

Follows-refl : (a : BookingRow) → Follows a a
Follows-refl a = with_status a a (may_become_self a.status) refl refl refl refl

user_trans :
    {a b c : Option Uuid} → (b ≡ a) ⊎ (b ≡ none) → (c ≡ b) ⊎ (c ≡ none) → (c ≡ a) ⊎ (c ≡ none)
user_trans (inl same) (inl still) = inl (still ∙ same)
user_trans (inr gone) (inl still) = inr (still ∙ gone)
user_trans h (inr gone) = inr gone

Follows-trans : {a b c : BookingRow} → Follows a b → Follows b c → Follows a c
Follows-trans {a} {b} {c} h k = record {
  status = may_become_trans a.status b.status c.status h.status k.status;
  event_id = k.event_id ∙ h.event_id;
  key = k.key ∙ h.key;
  created_at = k.created_at ∙ h.created_at;
  user = user_trans h.user k.user;
}

Allowed-refl : (a : Option BookingRow) → Allowed a a
Allowed-refl none = tt
Allowed-refl (some a) = Follows-refl a

Allowed-trans : (a b c : Option BookingRow) → Allowed a b → Allowed b c → Allowed a c
Allowed-trans none b c h k = tt
Allowed-trans (some a) none c h k = absurd h
Allowed-trans (some a) (some b) none h k = k
Allowed-trans (some a) (some b) (some c) h k = Follows-trans h k

pub Lifecycle-preorder : IsPreorder (OfDb Lifecycle)
Lifecycle-preorder =
    OfDb-preorder (λ d id. Allowed-refl (first_where (with_id id) d.bookings))
      (λ a b c h k id.
        Allowed-trans (first_where (with_id id) a.bookings) (first_where (with_id id) b.bookings)
          (first_where (with_id id) c.bookings) (h id) (k id))

pub stays_cancelled :
    (before after : Option BookingRow)
    → Allowed before after
    → status_of before ≡ some BookingStatus.cancelled
    → status_of after ≡ some BookingStatus.cancelled
stays_cancelled none after h was = cc
stays_cancelled (some a) none h was = absurd h
stays_cancelled (some a) (some b) h was = ground (arith, h.status)

head_Allowed :
    (here : Bool) (b b' : BookingRow) (rest rest' : Option BookingRow)
    → Follows b b'
    → Allowed rest rest'
    → Allowed (if here then some b else rest) (if here then some b' else rest')
head_Allowed true b b' rest rest' h k = h
head_Allowed false b b' rest rest' h k = k

-- an UPDATE that keeps the ids, and the life of the rows that it touches
module _ (p : BookingRow → Bool) (f : BookingRow → BookingRow)
    (ids : (b : BookingRow) → (f b).id ≡ b.id)
    (life : (b : BookingRow) → p b ≡ true → Follows b (f b)) where
  touched :
      (b : BookingRow) (t : Bool)
      → p b ≡ t
      → ((if t then f b else b).id ≡ b.id) × Follows b (if t then f b else b)
  touched b true h = (ids b, life b h)
  touched b false h = (refl, Follows-refl b)

  pub update_where-Allowed :
      (bs : List BookingRow) (id : Uuid)
      → Allowed (first_where (with_id id) bs) (first_where (with_id id) (update_where p f bs))
  update_where-Allowed [] id = tt
  update_where-Allowed (b ∷ bs) id =
      let new = touched b (p b) refl in
      rw new.0 (head_Allowed (b.id == id) b _ _ _ new.1 (update_where-Allowed bs id))

-- an INSERT
pub append-Allowed :
    (bs : List BookingRow) (row : BookingRow) (id : Uuid)
    → Allowed (first_where (with_id id) bs) (first_where (with_id id) (bs ++ row ∷ []))
append-Allowed [] row id = tt
append-Allowed (b ∷ bs) row id =
    head_Allowed (b.id == id) b b _ _ (Follows-refl b) (append-Allowed bs row id)
