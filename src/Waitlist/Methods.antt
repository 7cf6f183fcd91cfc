-- ===== src/Waitlist/Methods.antt =====
-- The order of the waitlists under the statements and the methods of internal/store.
use lewly_pgpyewj.Prelude.{
  ◌<◌, ◌≡◌, refl, ◌⊎◌, inl, inr, arith, true, Bool, [], ◌∷◌, ◌++◌, Uuid, ==_iff,
}
use lewly_pgpyewj.Db.{Db, WaitlistEntry, User}
use lewly_pgpyewj.Effect.{Result, World, ◌>>=◌, sql, query, call}
use lewly_pgpyewj.Effect.Obeys.{Obeys, OfDb, left_by}
use lewly_pgpyewj.Store.Bookings.{insert_pending, set_booking}
use lewly_pgpyewj.Store.BookingTx.{set_seats, add_reserved, book_pending}
use lewly_pgpyewj.Store.Events.{
  insert_event, insert_with, set_events, insert_like, count_like, delete_like, uncount_like,
}
use lewly_pgpyewj.Store.Seats.{insert_seat}
use lewly_pgpyewj.Store.Waitlist
use lewly_pgpyewj.Store.Waitlist.{
  insert_entry, next_position, entry_row, active_for, max_position, delete_entry, set_entries,
  entry_with,
}
use lewly_pgpyewj.Store.Users.{insert_user, set_users, delete_users, refers_to}
use lewly_pgpyewj.Store.Admin.{cancel_live}
use lewly_pgpyewj.Cmd.Reconcile.{insert_capacity}
use lewly_pgpyewj.Store.Laws.{StoreObeys}
use lewly_pgpyewj.Store.Statements.{StatementsObey, Inserts, Changes, methods}
use lewly_pgpyewj.Service.Laws.{OfDb-OutsideObeys}
use lewly_pgpyewj.Waitlist.Order.{
  KeepsOrder, KeepsOrder-preorder, active, insert-Ascends, delete_where-Ascends,
  update_where-Ascends,
}

-- an INSERT that does not touch the waitlist
kept :
    {A : Type 0} (f : Db → Result (A × Db))
    → ((d : Db) → (left_by d (f d)).waitlist ≡ d.waitlist)
    → Inserts (OfDb KeepsOrder) f
kept f same w = rw (same w.db) (KeepsOrder-preorder.same w)

add_outcomes :
    (event_id user_id : Uuid) (w : World)
    → ((Waitlist.add event_id user_id w).1.db.waitlist ≡ w.db.waitlist)
      ⊎ ((Waitlist.add event_id user_id w).1.db.waitlist
          ≡ w.db.waitlist ++ entry_row event_id user_id (next_position event_id w.db) w.db ∷ [])
unfolding Waitlist.add ◌>>=◌ query sql call insert_entry
add_outcomes event_id user_id w = ground arith

next_position_above :
    (event_id user_id other : Uuid) (d : Db)
    → active_for other (entry_row event_id user_id (next_position event_id d) d) ≡ true
    → max_position (active other d.waitlist) < next_position event_id d
unfolding next_position
next_position_above event_id user_id other d h = grind (arith, ==_iff)

add-KeepsOrder : (event_id user_id : Uuid) → Obeys (OfDb KeepsOrder) (Waitlist.add event_id user_id)
add-KeepsOrder event_id user_id = record {
  at = λ w o other. elim (add_outcomes event_id user_id w) [
    | inl same ↦ rw same (o other)
    | inr grown ↦ rw grown (
        insert-Ascends other w.db.waitlist
          (entry_row event_id user_id (next_position event_id w.db) w.db) (o other)
          (next_position_above event_id user_id other w.db))
  ];
}

delete_users-KeepsOrder : (p : User → Bool) → Changes (OfDb KeepsOrder) (delete_users p)
unfolding delete_users
delete_users-KeepsOrder p w o event_id =
    delete_where-Ascends (λ (e : WaitlistEntry). refers_to p w.db.users e.user_id) event_id 0
      w.db.waitlist (o event_id)

opted_out-KeepsOrder :
    (p : WaitlistEntry → Bool)
    → Changes
        (OfDb KeepsOrder)
        (set_entries p (λ (e : WaitlistEntry). record e { opted_out = true }))
unfolding set_entries
opted_out-KeepsOrder p w o event_id =
    update_where-Ascends p (λ (e : WaitlistEntry). record e { opted_out = true }) (λ e. refl)
      (λ e id h. ground arith) event_id 0 w.db.waitlist (o event_id)

KeepsOrder-StatementsObey : StatementsObey (OfDb KeepsOrder)
unfolding insert_pending set_booking book_pending cancel_live set_seats insert_seat add_reserved
    insert_event insert_with set_events insert_like count_like delete_like uncount_like delete_entry
    insert_user set_users insert_capacity
KeepsOrder-StatementsObey = record {
  preorder = KeepsOrder-preorder;
  insert_pending = λ u e key seats. kept (insert_pending u e key seats) (λ d. ground arith);
  set_cancelled = λ id w. KeepsOrder-preorder.same w;
  set_payment = λ id s n w. KeepsOrder-preorder.same w;
  book_pending = λ id seats n w. KeepsOrder-preorder.same w;
  cancel_live = λ id w. KeepsOrder-preorder.same w;
  set_seats = λ p f w. KeepsOrder-preorder.same w;
  insert_seat = λ e label. kept (insert_seat e label) (λ d. ground arith);
  add_reserved = λ id n w. KeepsOrder-preorder.same w;
  insert_event = λ n. kept (insert_event n) (λ d. ground arith);
  set_events = λ p f w. KeepsOrder-preorder.same w;
  insert_like = λ e u. kept (insert_like e u) (λ d. ground arith);
  count_like = λ e u w. KeepsOrder-preorder.same w;
  delete_like = λ e u w. KeepsOrder-preorder.same w;
  uncount_like = λ e w. KeepsOrder-preorder.same w;
  add = add-KeepsOrder;
  delete_entry =
      λ id w o event_id. delete_where-Ascends (entry_with id) event_id 0 w.db.waitlist (o event_id);
  opt_out_where = opted_out-KeepsOrder;
  insert_user =
      λ name email phone hash r. kept (insert_user name email phone hash r) (λ d. ground arith);
  set_users = λ p f w. KeepsOrder-preorder.same w;
  delete_users = delete_users-KeepsOrder;
  insert_capacity = λ e. kept (insert_capacity e) (λ d. ground arith);
}

pub KeepsOrder-StoreObeys : StoreObeys (OfDb KeepsOrder)
KeepsOrder-StoreObeys =
    methods KeepsOrder-StatementsObey (OfDb-OutsideObeys KeepsOrder KeepsOrder-preorder)
