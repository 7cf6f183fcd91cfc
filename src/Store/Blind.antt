-- ===== src/Store/Blind.antt =====
-- The statements of the repositories and a relation that does not see the database.
use lewly_pgpyewj.Db.{Db}
use lewly_pgpyewj.Effect.{Result, World, sql}
use lewly_pgpyewj.Effect.Obeys.{IsPreorder, Obeys, Obeys-sql, obeys_rules}
use lewly_pgpyewj.Store.Waitlist
use lewly_pgpyewj.Store.Statements.{StatementsObey}

module _ {R : World → World → Type 0} (pre : IsPreorder R)
    (blind : (w : World) (d : Db) → R w (record w { db = d })) where
  sql-blind : {A : Type 0} (f : Db → Result (A × Db)) → Obeys R (sql f)
  sql-blind f = Obeys-sql pre f (λ w. blind w _)

  pub blind-StatementsObey : StatementsObey R
  unfolding Waitlist.add
  blind-StatementsObey = record {
    preorder = pre;
    insert_pending = λ u e key seats w. blind w _;
    set_cancelled = λ id w. blind w _;
    set_payment = λ id s n w. blind w _;
    book_pending = λ id seats n w. blind w _;
    cancel_live = λ id w. blind w _;
    set_seats = λ p f w. blind w _;
    insert_seat = λ e label w. blind w _;
    add_reserved = λ id n w. blind w _;
    insert_event = λ n w. blind w _;
    set_events = λ p f w. blind w _;
    insert_like = λ e u w. blind w _;
    count_like = λ e u w. blind w _;
    delete_like = λ e u w. blind w _;
    uncount_like = λ e w. blind w _;
    add = λ e u. search (obeys_rules, pre, sql-blind) depth 7;
    delete_entry = λ id w. blind w _;
    opt_out_where = λ p w. blind w _;
    insert_user = λ name email phone hash r w. blind w _;
    set_users = λ p f w. blind w _;
    delete_users = λ p w. blind w _;
    insert_capacity = λ e w. blind w _;
  }
