-- ===== src/System/Cancellation.antt =====
-- Cancel of internal/service/bookings/bookings.go over a whole run of the program.
use lewly_pgpyewj.Prelude.{
  ◌≡◌, refl, ap, ◌∙◌, ℕ, Bool, Option, List, Uuid, Text, if◌then◌else◌, ◌⊎◌, inl, inr,
}
use lewly_pgpyewj.Db.{Db, BookingStatus}
use lewly_pgpyewj.Effect.{
  Result, ok, err, panic, World, Exec, pure, resume, ◌>>◌, with_code, on_error, ◌>>=◌,
}
use lewly_pgpyewj.Effect.Obeys.{
  IsPreorder, Obeys, OfDb, Obeys-bind, Obeys-if, Obeys-pure, Obeys-on_error,
}
use lewly_pgpyewj.Effect.Ensures.{Meets, Ensures-on_error}
use lewly_pgpyewj.Store.Bookings.{Booking}
use lewly_pgpyewj.Store.BookingTx.{cancel_booking_tx}
use lewly_pgpyewj.Store.Blind.{blind-StatementsObey}
use lewly_pgpyewj.Store.Statements.{cancel_booking_tx-Obeys}
use lewly_pgpyewj.Service.Auth.{Crypto}
use lewly_pgpyewj.Service.Bookings.{settle_cancelled, cancel}
use lewly_pgpyewj.Middleware.Auth.{Claims}
use lewly_pgpyewj.Lifecycle.Rows.{Lifecycle, Lifecycle-preorder, stays_cancelled}
use lewly_pgpyewj.Lifecycle.Cancelled.{Cancels, IsCancelled, cancel_booking_tx-Cancels}
use lewly_pgpyewj.Lifecycle.Store.{Lifecycle-StoreObeys}
use lewly_pgpyewj.System.{Request, serve}
use lewly_pgpyewj.System.Lifecycle.{serve-cancelled}
use lewly_pgpyewj.System.Traversal.Services.{settle_cancelled-Obeys}

-- nothing but Postgres was written to: Redis, the topics, the mails and the timers are as they were
abbrev pub OnlyDb : World → World → Type 0
OnlyDb w w' = w' ≡ record w { db = w'.db; faults = w'.faults }

OnlyDb-preorder : IsPreorder OnlyDb
OnlyDb-preorder = record {
  same = λ w. refl;
  chain = λ a b c h k. k ∙ ap (λ (w : World). record w { db = c.db; faults = c.faults }) h;
  faults = λ w bs. refl;
  rollback = λ w w' h. ap (λ (x : World). record x { db = w.db }) h;
}

abbrev transaction : Uuid → Exec (Booking × Bool)
transaction id = on_error (with_code 409) (cancel_booking_tx id)

-- what Cancel does once the transaction is over
abbrev settle : Uuid → Booking × Bool → Exec (ℕ × Uuid × BookingStatus)
settle id x = do if x.1 then settle_cancelled x.0 id else pure tt; pure (200, x.0.id, x.0.status)

settle-Lifecycle : (id : Uuid) (x : Booking × Bool) → Obeys (OfDb Lifecycle) (settle id x)
settle-Lifecycle id x =
    Obeys-bind Lifecycle-preorder _ _
      (Obeys-if Lifecycle-preorder x.1 _ _
        (λ was. settle_cancelled-Obeys Lifecycle-StoreObeys x.0 id)
        (λ was. Obeys-pure Lifecycle-preorder tt))
      (λ u. Obeys-pure Lifecycle-preorder _)

module _ (id : Uuid) (before : Db) where
  abbrev CancelsOk : Result (Booking × Bool) → Db → Type 0
  CancelsOk = Meets (λ x. Cancels id before x.1)

  settle_skipped :
      (r : Result (Booking × Bool)) (w : World)
      → IsCancelled id before
      → CancelsOk r w.db
      → (resume r (settle id) w).1 ≡ w
  unfolding ◌>>=◌
  settle_skipped (ok x) w was h = rw (h.1 was) refl
  settle_skipped (err e) w was h = refl
  settle_skipped panic w was h = refl

  settled_or_not :
      (r : Result (Booking × Bool)) (w : World)
      → CancelsOk r w.db
      → ((resume r (settle id) w).1 ≡ w) ⊎ IsCancelled id (resume r (settle id) w).1.db
  settled_or_not (ok x) w h = inr (stays_cancelled _ _ ((settle-Lifecycle id x).at w id) h.0)
  settled_or_not (err e) w h = inl refl
  settled_or_not panic w h = inl refl

transaction-CancelsOk :
    (id : Uuid) (w : World) → CancelsOk id w.db (transaction id w).0 (transaction id w).1.db
transaction-CancelsOk id w =
    (Ensures-on_error (with_code 409) (cancel_booking_tx id) (cancel_booking_tx-Cancels id w.db)).at
      w refl

transaction-OnlyDb : (id : Uuid) → Obeys OnlyDb (transaction id)
transaction-OnlyDb id =
    Obeys-on_error OnlyDb-preorder (with_code 409) (cancel_booking_tx id)
      (cancel_booking_tx-Obeys (blind-StatementsObey OnlyDb-preorder (λ w d. refl)) id)

cancel-OnlyDb_or_cancels :
    (id : Uuid) (w : World) → OnlyDb w (cancel id w).1 ⊎ IsCancelled id (cancel id w).1.db
unfolding cancel ◌>>=◌
cancel-OnlyDb_or_cancels id w =
    elim (settled_or_not id w.db (transaction id w).0 (transaction id w).1
      (transaction-CancelsOk id w)) [
        | inl skipped ↦ inl (rw skipped ((transaction-OnlyDb id).at w))
        | inr cancelled ↦ inr cancelled
      ]

cancelled-OnlyDb : (id : Uuid) (w : World) → IsCancelled id w.db → OnlyDb w (cancel id w).1
unfolding cancel ◌>>=◌
cancelled-OnlyDb id w was =
    rw
      (settle_skipped id w.db (transaction id w).0 (transaction id w).1 was
        (transaction-CancelsOk id w))
      ((transaction-OnlyDb id).at w)

-- Of two cancellations of one booking, with any requests, messages, timeouts and jobs served in
-- between, and whichever calls fail, at most one does anything outside of Postgres: one of them at
-- least gives back no tokens, publishes nothing, mails nobody and starts no timer.
pub cancel_once :
    (c : Crypto) (parse : Text → Option Claims) (rs : List Request) (w : World) (id : Uuid)
    → OnlyDb w (cancel id w).1
      ⊎ OnlyDb (serve c parse rs (cancel id w).1) (cancel id (serve c parse rs (cancel id w).1)).1
cancel_once c parse rs w id = elim (cancel-OnlyDb_or_cancels id w) [
  | inl quiet ↦ inl quiet
  | inr cancelled ↦ inr (
      cancelled-OnlyDb id (serve c parse rs (cancel id w).1)
        (serve-cancelled c parse rs (cancel id w).1 id cancelled))
]
