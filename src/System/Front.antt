-- ===== src/System/Front.antt =====
-- RegisterRoutes of internal/api/router.go: what stands in front of the handlers, and what is there
-- when the database could not be reached. The pages are registered before the limiter, so that it
-- does not count them; it counts all else, also what no route answers.
use lewly_pgpyewj.Prelude.{
  ℕ, ◌≡◌, refl, sym, ap, ◌∙◌, Bool-cases, inl, inr, Bool, true, false, Option, List, [], ◌∷◌, Text,
  if◌then◌else◌,
}
use lewly_pgpyewj.Prelude.Codes.{Bytes}
use lewly_pgpyewj.Effect.{Result, ok, World}
use lewly_pgpyewj.Middleware.Auth.{Claims}
use lewly_pgpyewj.Middleware.RedisLimit.{Verdict, next, next_with_headers, too_many_requests}
use lewly_pgpyewj.Middleware.HybridLimit.{Limits, Arrival, hybrid}
use lewly_pgpyewj.Service.Auth.{Crypto}
use lewly_pgpyewj.Api.Docs.{openapi}
use lewly_pgpyewj.System.{Request, handle, serve}

-- GET /, /v1/health, /docs and /openapi.yaml
pub data Page : Type 0 where
  root health docs openapi_yaml : Page

-- What comes in: a page, a request with what the limiter looks at, or what comes without HTTP, such
-- as a message or a timeout.
pub data Incoming : Type 0 where
  page : Page → Incoming
  http : Arrival → Request → Incoming
  inner : Request → Incoming

pub record Front : Type 0 where
  pub world : World
  pub limits : Limits

abbrev pub goes_on : Verdict → Bool
goes_on next = true
goes_on (next_with_headers limit left reset) = true
goes_on (too_many_requests retry_after) = false

-- requests per second and burst, as the router gives them
abbrev pub rate : ℕ
rate = 50

abbrev pub burst : ℕ
burst = 100

-- the requests that get to their handlers
unfoldable pub let_through : List Incoming → Limits → List Request
let_through [] l = []
let_through (Incoming.page p ∷ is) l = let_through is l
let_through (Incoming.inner r ∷ is) l = r ∷ let_through is l
let_through (Incoming.http a r ∷ is) l =
    let (limits, verdict) = hybrid rate burst a l in
    let rest = let_through is limits in if goes_on verdict then r ∷ rest else rest

module _ (c : Crypto) (parse : Text → Option Claims) (read_file : Bytes → Option Bytes) where
  unfoldable pub page_status : Page → ℕ
  page_status Page.root = 200
  page_status Page.health = 200
  page_status Page.docs = 200
  page_status Page.openapi_yaml = (openapi read_file).0

  -- behind the limiter: without a database no route is registered
  unfoldable pub routed : Bool → Request → World → Result ℕ × World
  routed database r w = if database then handle c parse r w else (ok 404, w)

  abbrev stays : Front → Result ℕ × World → Result ℕ × Front
  stays f (answer, w) = (answer, record f { world = w })

  -- the answer, and what is left; `database` is whether NewDB returned no error
  unfoldable pub visit : Bool → Incoming → Front → Result ℕ × Front
  visit database (Incoming.page p) f = (ok (page_status p), f)
  visit database (Incoming.inner r) f = stays f (handle c parse r f.world)
  visit database (Incoming.http a r) f =
      let (limits, verdict) = hybrid rate burst a f.limits in
      let f' : Front = record f { limits = limits } in
      if goes_on verdict then stays f' (routed database r f.world) else (ok 429, f')

  unfoldable pub visit_all : Bool → List Incoming → Front → Front
  visit_all database [] f = f
  visit_all database (i ∷ is) f = visit_all database is (visit database i f).1

  module _ (a : Arrival) (r : Request) (f : Front) where
    counted : Limits
    counted = (hybrid rate burst a f.limits).0

    visit_on :
        goes_on (hybrid rate burst a f.limits).1 ≡ true
        → (visit true (Incoming.http a r) f).1
          ≡ record { world = (handle c parse r f.world).1; limits = counted }
    unfolding visit routed counted
    visit_on goes = rw goes refl

    visit_off :
        goes_on (hybrid rate burst a f.limits).1 ≡ false
        → (visit true (Incoming.http a r) f).1 ≡ record f { limits = counted }
    unfolding visit counted
    visit_off refused = rw refused refl

    through_on :
        (is : List Incoming)
        → goes_on (hybrid rate burst a f.limits).1 ≡ true
        → let_through (Incoming.http a r ∷ is) f.limits ≡ r ∷ let_through is counted
    unfolding let_through counted
    through_on is goes = rw goes refl

    through_off :
        (is : List Incoming)
        → goes_on (hybrid rate burst a f.limits).1 ≡ false
        → let_through (Incoming.http a r ∷ is) f.limits ≡ let_through is counted
    unfolding let_through counted
    through_off is refused = rw refused refl

  -- With a database, whatever comes in and whichever calls fail: the world that is left is the one
  -- that `serve` leaves of the requests that the limiter lets through, in their order. Pages and
  -- refused requests change nothing in it.
  pub visit_all-serve :
      (is : List Incoming) (f : Front)
      → (visit_all true is f).world ≡ serve c parse (let_through is f.limits) f.world
  unfolding visit_all visit let_through serve
  visit_all-serve [] f = refl
  visit_all-serve (Incoming.page p ∷ is) f = visit_all-serve is f
  visit_all-serve (Incoming.inner r ∷ is) f =
      visit_all-serve is (record f { world = (handle c parse r f.world).1 })
  visit_all-serve (Incoming.http a r ∷ is) f =
      elim (Bool-cases (goes_on (hybrid rate burst a f.limits).1)) [
        | inl goes ↦
            ap (λ (g : Front). (visit_all true is g).world) (visit_on a r f goes)
            ∙ visit_all-serve is
                (record { world = (handle c parse r f.world).1; limits = counted a r f })
            ∙ ap (λ (rs : List Request). serve c parse rs f.world) (sym (through_on a r f is goes))
        | inr refused ↦
            ap (λ (g : Front). (visit_all true is g).world) (visit_off a r f refused)
            ∙ visit_all-serve is (record f { limits = counted a r f })
            ∙ ap (λ (rs : List Request). serve c parse rs f.world)
                (sym (through_off a r f is refused))
      ]
