-- ===== src/Lib.antt =====
-- Evently, a ticketing backend in Go: users book seats of events and pay for them, those who come too
-- late wait, and admins run the events. Postgres holds the tables, Redis one counter of free tokens
-- for each event, Kafka the bookings to be finalized, and a worker mails payment links and cancels
-- what is not paid in time.
--
-- How a request runs. A route (internal/api) stands behind the middleware (internal/middleware) and
-- calls a service (internal/service), which calls the repositories (internal/store), Redis
-- (internal/redis), Kafka (internal/kafka) and the mailer. A booking takes tokens, inserts a pending
-- row and publishes a message; the worker (internal/worker) mails a link and starts a timer; a payment
-- marks the row paid and finalizes it; a cancellation or a timeout cancels it and promotes the next on
-- the waitlist. cmd/reconcile corrects the tokens.
--
-- The files.
-- Prelude: shared names; numbers, integers, lists as tables with the effect of SQL statements, sums
--   over lists of which one element changes, texts as lists of character codes, and float64 values.
-- Db: the rows and the database (cmd/migrate/migrations/000001_init.up.sql and the structs).
-- Effect: what a Go function is here, an action from a world to its result (a value, an error or a
--   panic) and the world it leaves; WithTx of internal/store/db.go. Effect/Obeys: relations between
--   the world before and after an action, with one rule for each way to build an action. Effect/Ensures:
--   what an action that succeeds ensures of its result and the database. Effect/Cut: an operation cut
--   at its calls, as a machine of stages.
-- Store: the repositories, a function for each method under the method's name; Store/Laws is the
--   interface of a relation that all methods which write obey, and Store/Statements derives it from
--   the statements. Store/Blind is a relation that does not see the database, and Store/Calls lists
--   the calls that write as single steps. Store/BookingTx/Outcome,
--   Store/Admin/Closing and Store/Events/Upkeep state what transactions and statements leave.
--   Store/Admin/Update is the UPDATE that UpdateEvent builds from a map.
-- Redis: internal/redis/tokens.go and bookingTimeout.go; Redis/Conservation is about the tokens.
-- Service: the services, with Service/Laws the interface of a relation that the calls of Redis, Kafka
--   and SMTP obey; a long method is split where it branches (Create is create, create_for,
--   create_checked and create_reserved). Service/Bookings/Create, Reserve and Cancel,
--   Service/Payment/Paid, Refunds and Refusals, Service/Finalize/Timeout and Link, and Service/Auth/Otp
--   state what they do.
-- Service/Mailer: the texts of the mails and the links in them; Service/Mailer/Money has the
--   digits of amounts, Service/Mailer/Link reads the fields of a link. Smtp: internal/mailer.
-- Clients: several calls of Create at once, cut at their calls to Postgres, Redis and Kafka and
--   interleaved in any order; Clients/Alone compares one of them with Create, Clients/Seats counts the
--   seats, and Clients/Bookings is about the rows, with other requests in between.
-- Payers: several payments at once, cut at their calls; Payers/Alone compares one of them with
--   ProcessBookingPayment, and Payers/Stale is about what a payment has read and others have changed.
-- Worker: the loop of internal/worker/finalizer.go and its goroutines as a step relation, with
--   Worker/Slots on the semaphore, Worker/Account on the messages, Worker/Drain on how the goroutines
--   end, Worker/Finish on how a run with the loop ends and Worker/Alone on a goroutine that is left
--   alone.
-- Config: internal/config, the environment and the default admin.
-- Cmd: cmd/reconcile/main.go, cmd/event-status-checker/main.go and the start of cmd/server/main.go.
-- Middleware: the check of tokens and the rate limiters, each for one client (MemoryLimit, RedisLimit)
--   and for all of them (HybridLimit).
-- Api: the handlers, by the HTTP status that they answer.
-- System: the routes, the messages, the timers and the jobs as requests that are served one after
--   another, with the routes that only read in System/Views; System/Front is what stands in front of
--   the handlers (internal/api/router.go). System/Traversal carries any relation that the repositories
--   and the calls outside of Postgres obey to all requests. System/Lifecycle and Lifecycle are about
--   the life of a booking, System/Cancellation about two cancellations of one booking, System/Tokens
--   about the tokens, System/Admission about the admin routes and System/Reading about those that only
--   read. Waitlist: the waitlist as a queue.
-- Tests: every result at a concrete input.
--
-- Conventions. Texts and identifiers are numbers, 0 is the empty text, and times are seconds. Money is
-- whole cents, as in NUMERIC(12,2); where the source compares or prints a float64 product,
-- Prelude/Float computes it as float64 arithmetic does. The amount of a payment is the float64 that is
-- nearest to whole cents. `Option` stands for NULL and for nil. `faults` lists, for the calls to come,
-- whether each fails; a theorem about any world is about any faults, and `calm w` is w without faults.
-- A failed call leaves no effect, but for a Commit, of which the next of `faults` says whether the
-- server has committed all the same. The n-th generated UUID is `uuid n`, and nothing is assumed of
-- it. `scan_text` is what the pgx driver makes of a nullable column that is scanned into a Go string,
-- and `bind_column` what Postgres makes of a field of UpdateEvent and its JSON value. Where texts are
-- printed, `chars` gives their characters.
--
-- Parameters: bcrypt and the signing of tokens (Crypto), the parser of JWTs (parse), ILIKE, the
-- generated code of a password change (an argument), os.Getenv and os.ReadFile. Loops run over a list
-- or count down; the digits of a number are printed with the number itself as fuel, which is enough
-- because each round divides it by ten.
--
-- Not modelled: interleavings within a transaction. Bookings and payments are cut at their calls;
-- other operations come between those calls whole, or as any sequence of the calls of repositories in
-- Store/Calls (what a cancellation cut at its calls does to the rows is such a sequence). Also not
-- modelled: the matching of paths, which gin does; the overflow of INT columns; columns that nothing
-- reads; bodies of responses; the parsing of requests, with malformed UUIDs and escapes in URLs;
-- fields of UpdateEvent that are more than the name of a column, or that change an id, and NULL in a
-- column of events that the repositories scan into a plain Go value; amounts in a query that are no
-- decimals with two digits; connections, logging and metrics; the signals that end the programs;
-- Kafka's redelivery of what is not committed, and that a commit covers all earlier offsets.
pub mod Prelude
pub mod Db
pub mod Effect
pub mod Store
pub mod Redis
pub mod Service
pub mod Worker
pub mod Clients
pub mod Payers
pub mod Smtp
pub mod Config
pub mod Cmd
pub mod Middleware
pub mod Lifecycle
pub mod Api
pub mod System
pub mod Waitlist
pub mod Tests
