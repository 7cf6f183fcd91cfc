-- ===== src/System/Reading.antt =====
-- The routes that only read.
use lewly_pgpyewj.Prelude.{◌≡◌, refl, ap, ◌∙◌, Bool, true, false, Option, Text}
use lewly_pgpyewj.Effect.{World}
use lewly_pgpyewj.Effect.Obeys.{IsPreorder}
use lewly_pgpyewj.Middleware.Auth.{Claims}
use lewly_pgpyewj.Service.Auth.{Crypto}
use lewly_pgpyewj.System.{Request, handle}
use lewly_pgpyewj.System.Views.{user_view_route, admin_view_route}
use lewly_pgpyewj.System.Traversal.Views.{
  guarded-Obeys, view-Obeys, user_view-Obeys, admin_view-Obeys,
}

-- the world is the same, but for the answers that its calls used up
abbrev pub Unchanged : World → World → Type 0
Unchanged w w' = w' ≡ record w { faults = w'.faults }

Unchanged-preorder : IsPreorder Unchanged
Unchanged-preorder = record {
  same = λ w. refl;
  chain = λ a b c h k. k ∙ ap (λ (w : World). record w { faults = c.faults }) h;
  faults = λ w bs. refl;
  rollback = λ w w' h. ap (λ (x : World). record x { db = w.db }) h;
}

abbrev pub only_reads : Request → Bool
only_reads (Request.look v) = true
only_reads (Request.look_as_user h v) = true
only_reads (Request.look_as_admin h v) = true
only_reads _ = false

-- Whichever calls fail, a route that reads events, seats, bookings, waitlists, profiles, users or the
-- analytics, or that logs a user in, leaves the database, Redis, the topics, the mails and the timers
-- as they were, whatever it answers.
pub handle-Unchanged :
    (c : Crypto) (parse : Text → Option Claims) (r : Request) (w : World)
    → only_reads r ≡ true
    → Unchanged w (handle c parse r w).1
unfolding handle
handle-Unchanged c parse (Request.look v) w reads = (view-Obeys Unchanged-preorder c v).at w
handle-Unchanged c parse (Request.look_as_user h v) w reads =
    (guarded-Obeys Unchanged-preorder parse false h (user_view_route v)
        (user_view-Obeys Unchanged-preorder v)).at
      w
handle-Unchanged c parse (Request.look_as_admin h v) w reads =
    (guarded-Obeys Unchanged-preorder parse true h (λ uid. admin_view_route v)
        (λ uid. admin_view-Obeys Unchanged-preorder v)).at
      w
handle-Unchanged c parse r w reads = cc
