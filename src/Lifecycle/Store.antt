-- ===== src/Lifecycle/Store.antt =====
-- The life of a booking under the statements and the methods of internal/store.
use lewly_pgpyewj.Prelude.{ℕ, ◌≡◌, refl, Bool, true, update_where, arith, Option, Uuid, Text}
use lewly_pgpyewj.Db.{Db, SeatsJson, BookingRow, User}
use lewly_pgpyewj.Effect.{Result, sql}
use lewly_pgpyewj.Effect.Obeys.{Obeys, OfDb, left_by, Obeys-sql, obeys_rules}
use lewly_pgpyewj.Store.Bookings.{insert_pending, pending_row, set_booking}
use lewly_pgpyewj.Store.BookingTx.{set_seats, add_reserved, book_pending}
use lewly_pgpyewj.Store.Events.{
  insert_event, insert_with, set_events, insert_like, count_like, delete_like, uncount_like,
}
use lewly_pgpyewj.Store.Seats.{insert_seat}
use lewly_pgpyewj.Store.Waitlist
use lewly_pgpyewj.Store.Waitlist.{insert_entry, delete_entry, set_entries}
use lewly_pgpyewj.Store.Users.{insert_user, set_users, forget_user, refers_to, delete_users}
use lewly_pgpyewj.Store.Admin.{cancel_live}
use lewly_pgpyewj.Cmd.Reconcile.{insert_capacity}
use lewly_pgpyewj.Store.Laws.{StoreObeys}
use lewly_pgpyewj.Store.Statements.{StatementsObey, Inserts, Changes, methods}
use lewly_pgpyewj.Service.Laws.{OfDb-OutsideObeys}
use lewly_pgpyewj.Lifecycle.Rows.{
  Lifecycle, Lifecycle-preorder, update_where-Allowed, append-Allowed, Follows, with_status,
  may_become,
}

-- an INSERT that does not touch the bookings
kept :
    {A : Type 0} (f : Db → Result (A × Db))
    → ((d : Db) → (left_by d (f d)).bookings ≡ d.bookings)
    → Inserts (OfDb Lifecycle) f
kept f same w = rw (same w.db) (Lifecycle-preorder.same w)

insert_pending-Lifecycle :
    (user_id event_id : Uuid) (key : Option Text) (seats : SeatsJson)
    → Inserts (OfDb Lifecycle) (insert_pending user_id event_id key seats)
unfolding insert_pending
insert_pending-Lifecycle user_id event_id key seats w id = ground (
  arith,
  append-Allowed w.db.bookings (pending_row user_id event_id key seats w.db) id,
  Lifecycle-preorder.same w id,
)

forget_user-id : (gone : Uuid → Bool) (b : BookingRow) → (forget_user gone b).id ≡ b.id
forget_user-id gone b = ground arith

forget_user-Follows : (gone : Uuid → Bool) (b : BookingRow) → Follows b (forget_user gone b)
forget_user-Follows gone b = record {
  status = ground arith;
  event_id = ground arith;
  key = ground arith;
  created_at = ground arith;
  user = ground arith;
}

delete_users-Lifecycle : (p : User → Bool) → Changes (OfDb Lifecycle) (delete_users p)
unfolding delete_users
delete_users-Lifecycle p w =
    let gone = refers_to p w.db.users in
    update_where-Allowed (λ b. true) (forget_user gone) (forget_user-id gone)
      (λ b h. forget_user-Follows gone b) w.db.bookings

-- an UPDATE of the bookings that touches no id, event, key, time or user
pub update_status-Lifecycle :
    (p : BookingRow → Bool) (f : BookingRow → BookingRow)
    → ((b : BookingRow)
        → ((f b).id ≡ b.id)
          × ((f b).event_id ≡ b.event_id)
          × ((f b).idempotency_key ≡ b.idempotency_key)
          × ((f b).created_at ≡ b.created_at)
          × ((f b).user_id ≡ b.user_id))
    → ((b : BookingRow) → p b ≡ true → may_become b.status (f b).status ≡ true)
    → Changes (OfDb Lifecycle) (λ d. record d { bookings = update_where p f d.bookings })
update_status-Lifecycle p f same life w =
    update_where-Allowed p f (λ b. (same b).0)
      (λ b h. with_status b (f b) (life b h) (same b).1 (same b).2 (same b).3 (same b).4)
      w.db.bookings

pub insert_entry-Lifecycle :
    (event_id user_id : Uuid) (position : ℕ)
    → Obeys (OfDb Lifecycle) (sql (insert_entry event_id user_id position))
unfolding insert_entry
insert_entry-Lifecycle event_id user_id position =
    Obeys-sql Lifecycle-preorder (insert_entry event_id user_id position)
      (kept (insert_entry event_id user_id position) (λ d. ground arith))

pub Lifecycle-StatementsObey : StatementsObey (OfDb Lifecycle)
unfolding set_booking book_pending cancel_live set_seats insert_seat add_reserved insert_event
    insert_with set_events insert_like count_like delete_like uncount_like Waitlist.add delete_entry
    set_entries insert_user set_users insert_capacity
Lifecycle-StatementsObey = record {
  preorder = Lifecycle-preorder;
  insert_pending = insert_pending-Lifecycle;
  set_cancelled = λ id w.
      update_status-Lifecycle _ _ (λ b. (refl, refl, refl, refl, refl)) (λ b h. ground arith) w;
  set_payment = λ id s n w.
      update_status-Lifecycle _ _ (λ b. (refl, refl, refl, refl, refl)) (λ b h. ground arith) w;
  book_pending = λ id seats n w.
      update_status-Lifecycle _ _ (λ b. (refl, refl, refl, refl, refl)) (λ b h. ground arith) w;
  cancel_live = λ id w.
      update_status-Lifecycle _ _ (λ b. (refl, refl, refl, refl, refl)) (λ b h. ground arith) w;
  set_seats = λ p f w. Lifecycle-preorder.same w;
  insert_seat = λ e label. kept (insert_seat e label) (λ d. ground arith);
  add_reserved = λ id n w. Lifecycle-preorder.same w;
  insert_event = λ n. kept (insert_event n) (λ d. ground arith);
  set_events = λ p f w. Lifecycle-preorder.same w;
  insert_like = λ e u. kept (insert_like e u) (λ d. ground arith);
  count_like = λ e u w. Lifecycle-preorder.same w;
  delete_like = λ e u w. Lifecycle-preorder.same w;
  uncount_like = λ e w. Lifecycle-preorder.same w;
  add = λ e u. search (obeys_rules, Lifecycle-preorder, insert_entry-Lifecycle) depth 7;
  delete_entry = λ id w. Lifecycle-preorder.same w;
  opt_out_where = λ p w. Lifecycle-preorder.same w;
  insert_user =
      λ name email phone hash r. kept (insert_user name email phone hash r) (λ d. ground arith);
  set_users = λ p f w. Lifecycle-preorder.same w;
  delete_users = delete_users-Lifecycle;
  insert_capacity = λ e. kept (insert_capacity e) (λ d. ground arith);
}

pub Lifecycle-StoreObeys : StoreObeys (OfDb Lifecycle)
Lifecycle-StoreObeys =
    methods Lifecycle-StatementsObey (OfDb-OutsideObeys Lifecycle Lifecycle-preorder)
