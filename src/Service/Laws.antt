-- ===== src/Service/Laws.antt =====
-- The interface between what the services call outside of Postgres and a relation between the world
-- before and after: each call of Redis, Kafka and SMTP that writes, and the goroutine that waits for
-- a timeout, obeys it.
use lewly_pgpyewj.Prelude.{ℕ, ◌≡◌, refl, Text, Uuid}
use lewly_pgpyewj.Prelude.Int.{pos}
use lewly_pgpyewj.Db.{Db}
use lewly_pgpyewj.Effect.{FinalizePayload, Mail, Message, World}
use lewly_pgpyewj.Effect.Obeys.{IsPreorder, Obeys, OfDb, Obeys-call}
use lewly_pgpyewj.Redis.{init_tokens, reserve, release, add_booking, delete_booking}
use lewly_pgpyewj.Service.Outgoing.{publish, publish_dead, commit, send}
use lewly_pgpyewj.Service.Auth.{store_otp, delete_otp}
use lewly_pgpyewj.Service.Finalize.{sleep_until_timeout}

pub record OutsideObeys (R : World → World → Type 0) : Type 0 where
  pub publish : (key : Uuid) (p : FinalizePayload) → Obeys R (publish key p)
  pub publish_dead : (m : Message) → Obeys R (publish_dead m)
  pub commit : (m : Message) → Obeys R (commit m)
  pub send : (m : Mail) → Obeys R (send m)
  pub init_tokens : (id : Uuid) (n : ℕ) → Obeys R (init_tokens id (pos n))
  pub reserve : (id : Uuid) (n : ℕ) → Obeys R (reserve id n)
  pub release : (id : Uuid) (n : ℕ) → Obeys R (release id n)
  pub add_booking : (e b : Uuid) → Obeys R (add_booking e b)
  pub delete_booking : (e b : Uuid) → Obeys R (delete_booking e b)
  pub sleep_until_timeout : (p : FinalizePayload) → Obeys R (sleep_until_timeout p)
  pub store_otp : (e o : Text) → Obeys R (store_otp e o)
  pub delete_otp : (e : Text) → Obeys R (delete_otp e)

-- A relation that sees only the database and the tokens.
module _ {R : World → World → Type 0} (pre : IsPreorder R)
    (quiet : (w w' : World) → w'.db ≡ w.db → w'.tokens ≡ w.tokens → R w w')
    (inits : (id : Uuid) (n : ℕ) → Obeys R (init_tokens id (pos n)))
    (reserves : (id : Uuid) (n : ℕ) → Obeys R (reserve id n))
    (releases : (id : Uuid) (n : ℕ) → Obeys R (release id n)) where
  pub quiet-OutsideObeys : OutsideObeys R
  unfolding publish publish_dead commit send add_booking delete_booking sleep_until_timeout
      store_otp delete_otp
  quiet-OutsideObeys = record {
    publish = λ key p. Obeys-call pre _ (record { at = λ w. quiet w _ refl refl });
    publish_dead = λ m. Obeys-call pre _ (record { at = λ w. quiet w _ refl refl });
    commit = λ m. Obeys-call pre _ (record { at = λ w. quiet w _ refl refl });
    send = λ m. Obeys-call pre _ (record { at = λ w. quiet w _ refl refl });
    init_tokens = inits;
    reserve = reserves;
    release = releases;
    add_booking = λ e b. Obeys-call pre _ (record { at = λ w. quiet w _ refl refl });
    delete_booking = λ e b. Obeys-call pre _ (record { at = λ w. quiet w _ refl refl });
    sleep_until_timeout = λ p. record { at = λ w. quiet w _ refl refl };
    store_otp = λ e o. Obeys-call pre _ (record { at = λ w. quiet w _ refl refl });
    delete_otp = λ e. Obeys-call pre _ (record { at = λ w. quiet w _ refl refl });
  }

-- A relation between the databases sees nothing outside of them.
pub OfDb-OutsideObeys : (R : Db → Db → Type 0) → IsPreorder (OfDb R) → OutsideObeys (OfDb R)
unfolding init_tokens reserve release
OfDb-OutsideObeys R pre =
    quiet-OutsideObeys pre (λ w w' same h. rw same (pre.same w))
      (λ id n. Obeys-call pre _ (record { at = λ w. pre.same w }))
      (λ id n. Obeys-call pre _ (record { at = λ w. pre.same w }))
      (λ id n. Obeys-call pre _ (record { at = λ w. pre.same w }))
