-- ===== src/Effect.antt =====
-- What a Go function of the program does to the world outside: Postgres, Redis, Kafka, SMTP and
-- the timers of its goroutines. A function is an action: from a world to its outcome and the world
-- that it leaves. Every call that goes out may fail: `faults` says of each call to come whether it
-- fails, and past its end calls succeed.
pub mod Obeys
pub mod Cut
pub mod Ensures
use lewly_pgpyewj.Prelude.{
  ℕ, Bool, true, false, Option, none, some, List, [], ◌∷◌, ◌++◌, Text, Uuid, Time, ◌==◌,
  if◌then◌else◌,
}
use lewly_pgpyewj.Prelude.Float.{Float64}
use lewly_pgpyewj.Prelude.Int.{ℤ}
use lewly_pgpyewj.Db.{Db, EventStatus, BookingStatus, Assignment}

pub data Error : Type 0 where
  -- a call that went out and failed; a constraint of the database; pgx.ErrNoRows
  io constraint no_rows : Error
  -- Scan of a NULL; json.Unmarshal
  scan_error bad_json : Error
  -- SQL that Postgres refuses
  bad_statement : Error
  booking_not_found event_not_found user_not_found already_paid invalid_amount not_paid : Error
  bad_status : BookingStatus → Error
  event_expired too_many_tickets seats_mismatch mail_failed : Error
  user_exists invalid_credentials invalid_otp oauth_user hash_failed token_failed : Error
  -- an error that comes with an HTTP status
  with_code : ℕ → Error → Error

-- `panic` is a run-time panic, such as a nil dereference
pub data Result {ℓ} (A : Type ℓ) : Type ℓ where
  ok : A → Result A
  err : Error → Result A
  panic : Result A

-- FinalizePayload, and the JSON object that the booking service publishes. `nil_seats` says of
-- empty seats that they are a nil slice, null in JSON, and no empty array.
pub record FinalizePayload : Type 0 where
  pub booking_id : Uuid
  pub event_id : Uuid
  pub user_id : Uuid
  pub seats : List Text
  pub nil_seats : Bool
  pub idempotency_key : Option Text

-- A Kafka message; `none` is a value that json.Unmarshal refuses.
pub record Message : Type 0 where
  pub key : Uuid
  pub value : Option FinalizePayload

-- The mails, with what their texts are filled with; a payment link names a booking and an amount.
pub data Mail : Type 0 where
  payment_request : Text → Text → Float64 → Uuid → Mail
  cancellation : Text → ℤ → Uuid → Mail
  waitlist_promotion : Text → Text → Mail
  event_cancellation : Text → Text → ℤ → Mail
  password_change_otp : Text → Text → Mail

-- A goroutine that sleeps until `due` and then handles the timeout of a booking.
pub record Timer : Type 0 where
  pub due : Time
  pub payload : FinalizePayload

-- `tokens` and `timeouts` are the Redis keys event_tokens:<event> and <event>:<booking>, `otps`
-- is password_change_otp:<email> with its expiry. `scan_text` is what the pgx driver makes of a
-- nullable column that is scanned into a Go string, `none` if it returns an error, and `bind_column`
-- what Postgres and the driver make of `field = $n` with a JSON value: `none` is a field that is no
-- column, `id` or `updated_at`, or a value that is none of its type. JSON null is left out.
pub record World : Type 0 where
  pub db : Db
  pub tokens : Uuid → Option ℤ
  pub timeouts : Uuid → Uuid → Option Text
  pub otps : Text → Option (Text × Time)
  pub published : List Message
  pub dead_letters : List Message
  pub mails : List Mail
  pub timers : List Timer
  pub faults : List Bool
  pub scan_text : Option Text → Option Text
  pub bind_column : Text → Text → Option Assignment

abbrev pub Exec {ℓ} : Type ℓ → Type ℓ
Exec A = World → Result A × World

abbrev pub next_fault : List Bool → Bool
next_fault [] = false
next_fault (b ∷ bs) = b

abbrev pub later_faults : List Bool → List Bool
later_faults [] = []
later_faults (b ∷ bs) = bs

-- the same world, in which no call fails
abbrev pub calm : World → World
calm w = record w { faults = [] }

abbrev pub succeeds : {A : Type 0} → Result A → Bool
succeeds (ok a) = true
succeeds _ = false

module _ {A : Type 0} where
  abbrev pub pure : A → Exec A
  pure a w = (ok a, w)

  abbrev pub raise : Error → Exec A
  raise e w = (err e, w)

  -- a panic unwinds the whole function
  abbrev pub crash : Exec A
  crash w = (panic, w)

  abbrev pub lift : Result A → Exec A
  lift r w = (r, w)

  abbrev pub gets : (World → A) → Exec A
  gets f w = (ok (f w), w)

  -- a call that goes out
  unfoldable pub call : Exec A → Exec A
  call m w =
      let w' : World = record w { faults = later_faults w.faults } in
      if next_fault w.faults then (err io, w') else m w'

  abbrev pub stored : World → Result (A × Db) → Result A × World
  stored w (ok (a, d)) = (ok a, record w { db = d })
  stored w (err e) = (err e, w)
  stored w panic = (panic, w)

  -- one SQL statement: a failed one changes nothing
  unfoldable pub sql : (Db → Result (A × Db)) → Exec A
  unfolding call
  sql f = call (λ w. stored w (f w.db))

  -- a SELECT
  unfoldable pub query : (Db → A) → Exec A
  unfolding sql
  query f = sql (λ d. ok (f d, d))

-- a statement that only writes
unfoldable pub exec : (Db → Db) → Exec (Unit {0})
unfolding sql
exec f = sql (λ d. ok (tt, f d))

-- a statement whose RowsAffected() the caller reads
unfoldable pub exec_counting : (Db → ℕ) → (Db → Db) → Exec ℕ
unfolding sql
exec_counting affected f = sql (λ d. ok (affected d, f d))

module _ {A B : Type 0} where
  abbrev pub resume : Result A → (A → Exec B) → World → Result B × World
  resume (ok a) f w = f a w
  resume (err e) f w = (err e, w)
  resume panic f w = (panic, w)

  infixl 5 ◌>>=◌ ◌>>◌
  unfoldable pub ◌>>=◌ : Exec A → (A → Exec B) → Exec B
  ◌>>=◌ m f w = let (r, w') = m w in resume r f w'

  abbrev pub ◌>>◌ : Exec A → Exec B → Exec B
  m >> n = m >>= λ _. n

-- what a Go caller sees of a pair of a result and an error
pub data Returned (A : Type 0) : Type 0 where
  value : A → Returned A
  failure : Error → Returned A

module _ {A : Type 0} where
  abbrev pub handled : Result A → World → Result (Returned A) × World
  handled (ok a) w = (ok (value a), w)
  handled (err e) w = (ok (failure e), w)
  handled panic w = (panic, w)

  -- the caller looks at the error itself
  unfoldable pub attempt : Exec A → Exec (Returned A)
  attempt m w = let (r, w') = m w in handled r w'

  abbrev pub dropped : Result A → World → Result (Unit {0}) × World
  dropped panic w = (panic, w)
  dropped _ w = (ok tt, w)

  -- `_ = f()`, and an error that is only logged
  unfoldable pub ignore : Exec A → Exec (Unit {0})
  ignore m w = let (r, w') = m w in dropped r w'

  abbrev pub rewritten : (Error → Error) → Result A → Result A
  rewritten f (ok a) = ok a
  rewritten f (err e) = err (f e)
  rewritten f panic = panic

  -- `return nil, code, err`, and an error that is replaced by another
  unfoldable pub on_error : (Error → Error) → Exec A → Exec A
  on_error f m w = let (r, w') = m w in (rewritten f r, w')

  -- Commit, or the deferred Rollback. Of a Commit that returns an error, the next of the faults says
  -- whether the server has committed all the same.
  abbrev pub finish : Db → Result A → World → Result A × World
  finish before (ok a) w =
      if next_fault w.faults
      then (
        err io,
        record w {
          db = if next_fault (later_faults w.faults) then w.db else before;
          faults = later_faults (later_faults w.faults);
        },
      )
      else (ok a, record w { faults = later_faults w.faults })
  finish before (err e) w = (err e, record w { db = before })
  finish before panic w = (panic, record w { db = before })

  -- db.go: Begin, the function, and Commit or Rollback
  unfoldable pub with_tx : Exec A → Exec A
  unfolding call
  with_tx body = call (λ w. let (r, w') = body w in finish w.db r w')

-- a loop over a slice that returns at the first error
unfoldable pub for_each : {A : Type 0} → List A → (A → Exec (Unit {0})) → Exec (Unit {0})
unfolding ◌>>=◌
for_each [] body = pure tt
for_each (x ∷ xs) body = let rest = for_each xs body in body x >> rest

-- `if result.RowsAffected() == 0 { return pgx.ErrNoRows }`
unfoldable pub require_rows : ℕ → Exec (Unit {0})
require_rows n = if n == 0 then raise no_rows else pure tt

abbrev pub scanned : Option Text → Exec Text
scanned none = raise scan_error
scanned (some t) = pure t

-- Scan of a nullable text column into a Go string
unfoldable pub scan_nullable : Option Text → Exec Text
unfolding ◌>>=◌
scan_nullable column = do text ← gets (λ w. w.scan_text column); scanned text

-- Opens the building blocks of actions, for tests that run them.
unfoldable pub effects : Unit {0}
unfolding call sql query exec exec_counting ◌>>=◌ attempt ignore on_error with_tx for_each
    require_rows scan_nullable
effects = tt
