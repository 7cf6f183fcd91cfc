-- ===== src/Clients/Bookings.antt =====
-- The bookings while clients book at once and other requests come between their calls.
use lewly_pgpyewj.Prelude.{◌≡◌, true, false, Option, none, some, Text, length}
use lewly_pgpyewj.Db.{Event}
use lewly_pgpyewj.Effect.{World, ignore, on_error, query, with_code}
use lewly_pgpyewj.Effect.Obeys.{Obeys, OfDb}
use lewly_pgpyewj.Lifecycle.Rows.{Lifecycle, Lifecycle-preorder}
use lewly_pgpyewj.Lifecycle.Store.{Lifecycle-StoreObeys, insert_entry-Lifecycle}
use lewly_pgpyewj.Middleware.Auth.{Claims}
use lewly_pgpyewj.Service.Auth.{Crypto}
use lewly_pgpyewj.Store.Calls.{Call, make, make-Obeys}
use lewly_pgpyewj.Store.Events
use lewly_pgpyewj.Store.Waitlist.{next_position}
use lewly_pgpyewj.Redis.{reserve}
use lewly_pgpyewj.Service.Outgoing.{publish}
use lewly_pgpyewj.Service.Bookings.{encode_seats, finalize_payload}
use lewly_pgpyewj.System.{Request, handle}
use lewly_pgpyewj.System.Traversal.Outside.{outside_rules}
use lewly_pgpyewj.System.Traversal.Services.{earlier_booking-Obeys}
use lewly_pgpyewj.System.Traversal.Requests.{handle-Obeys}
use lewly_pgpyewj.Clients.{BookRequest, Stage, Site, Step, Reach, advance, admit}

admit-Obeys : (r : BookRequest) (event : Event) → Obeys (OfDb Lifecycle) (admit r event)
unfolding admit
admit-Obeys r event =
    search
      (
        outside_rules,
        Lifecycle-preorder,
        Lifecycle-StoreObeys.update_status,
        earlier_booking-Obeys Lifecycle-StoreObeys,
      )
      depth 9

-- the database before and after a call
advance-Lifecycle : (r : BookRequest) (s : Stage) (w : World) → Lifecycle w.db (advance r s w).1.db
unfolding advance on_error
advance-Lifecycle r Stage.arrived w =
    let call : Obeys (OfDb Lifecycle) (on_error (with_code 500) (Events.get r.event_id)) =
      search (outside_rules, Lifecycle-preorder) in
    call.at w
advance-Lifecycle r (Stage.found none) w = Lifecycle-preorder.same w
advance-Lifecycle r (Stage.found (some event)) w = (admit-Obeys r event).at w
advance-Lifecycle r (Stage.checked (some b)) w = Lifecycle-preorder.same w
advance-Lifecycle r (Stage.checked none) w =
    let call : Obeys (OfDb Lifecycle)
        (on_error (with_code 500) (reserve r.event_id (length r.seats))) =
      search (outside_rules, Lifecycle-preorder, Lifecycle-StoreObeys.outside) in
    call.at w
advance-Lifecycle r (Stage.answered true) w =
    (Lifecycle-StoreObeys.create_pending r.user_id r.event_id r.key (encode_seats r.seats)).at w
advance-Lifecycle r (Stage.answered false) w =
    let call : Obeys (OfDb Lifecycle)
        (on_error (with_code 500) (query (next_position r.event_id))) =
      search (outside_rules, Lifecycle-preorder) in
    call.at w
advance-Lifecycle r (Stage.inserted b) w =
    let call : Obeys (OfDb Lifecycle)
        (ignore (publish r.event_id (finalize_payload b.id r.event_id r.user_id r.seats r.key))) =
      search (outside_rules, Lifecycle-preorder, Lifecycle-StoreObeys.outside) in
    call.at w
advance-Lifecycle r (Stage.positioned position) w =
    (insert_entry-Lifecycle r.event_id r.user_id position).at w
advance-Lifecycle r (Stage.replied reply) w = Lifecycle-preorder.same w

module _ (c : Crypto) (parse : Text → Option Claims) where
  -- Another request, message, timeout or job is served, or one of those that are cut at their calls
  -- calls a repository.
  pub data Other (w : World) : World → Type 0 where
    serves : {w' : World} (r : Request) → (handle c parse r w).1 ≡ w' → Other w w'
    calls : {w' : World} (k : Call) → (make k w).1 ≡ w' → Other w w'

  Other-Lifecycle : {w w' : World} → Other w w' → Lifecycle w.db w'.db
  Other-Lifecycle {w} (Other.serves r e) =
      rw e at ((handle-Obeys Lifecycle-StoreObeys c parse r).at w)
  Other-Lifecycle {w} (Other.calls k e) = rw e at ((make-Obeys Lifecycle-StoreObeys k).at w)

  Step-Lifecycle : {s t : Site} → Step Other s t → Lifecycle s.world.db t.world.db
  Step-Lifecycle {s} (Step.arrives r) = Lifecycle-preorder.same s.world
  Step-Lifecycle {s} (Step.acts {c = client} e picked) =
      rw e at (advance-Lifecycle client.request client.stage s.world)
  Step-Lifecycle {s} (Step.others w other) = Other-Lifecycle other

  -- However many clients call Create at once, whatever requests, messages, timeouts and jobs are
  -- served between their calls, whole or cut at the calls of repositories so that these come in any
  -- order, and whichever calls fail: every booking that was there is still there, its status is the
  -- same, or went from pending to booked, or became cancelled, and its event, its idempotency key
  -- and its time are the same, and so is its user, unless it has none any more.
  pub interleaved-Lifecycle : {w : World} {s : Site} → Reach Other w s → Lifecycle w.db s.world.db
  interleaved-Lifecycle {w} Reach.start = Lifecycle-preorder.same w
  interleaved-Lifecycle {w} (Reach.later {s} {t} r step) =
      Lifecycle-preorder.chain w s.world t.world (interleaved-Lifecycle r) (Step-Lifecycle step)
