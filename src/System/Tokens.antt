-- ===== src/System/Tokens.antt =====
-- The token buckets over a whole run of the program.
use lewly_pgpyewj.Prelude.{ℕ, ap, arith, Option, List, Uuid, Text, ==_iff}
use lewly_pgpyewj.Prelude.Int.{ℤ, pos, ◌≤ℤ◌, int_laws}
use lewly_pgpyewj.Effect.{World}
use lewly_pgpyewj.Effect.Obeys.{IsPreorder, Obeys, Obeys-call}
use lewly_pgpyewj.Redis.{or_zero, init_tokens, reserve, release}
use lewly_pgpyewj.Redis.Conservation.{level, TokenCall, serve as serve_call, serve_balance}
use lewly_pgpyewj.Middleware.Auth.{Claims}
use lewly_pgpyewj.Service.Auth.{Crypto}
use lewly_pgpyewj.Service.Laws.{quiet-OutsideObeys}
use lewly_pgpyewj.Store.Laws.{StoreObeys}
use lewly_pgpyewj.Store.Blind.{blind-StatementsObey}
use lewly_pgpyewj.Store.Statements.{methods}
use lewly_pgpyewj.System.{Request, serve}
use lewly_pgpyewj.System.Traversal.Requests.{serve-Obeys}

-- A bucket that is not negative stays so.
abbrev pub KeepsTokens : World → World → Type 0
KeepsTokens w w' = (id : Uuid) → pos 0 ≤ℤ level w id → pos 0 ≤ℤ level w' id

KeepsTokens-preorder : IsPreorder KeepsTokens
KeepsTokens-preorder = record {
  same = λ w id h. h;
  chain = λ a b c h k id p. k id (h id p);
  faults = λ w bs id h. h;
  rollback = λ w w' h. h;
}

init_tokens-KeepsTokens : (id : Uuid) (n : ℕ) → Obeys KeepsTokens (init_tokens id (pos n))
unfolding init_tokens
init_tokens-KeepsTokens id n =
    Obeys-call KeepsTokens-preorder _ (record { at = λ w other h. ground arith })

reserve-KeepsTokens : (id : Uuid) (n : ℕ) → Obeys KeepsTokens (reserve id n)
unfolding serve_call
reserve-KeepsTokens id n = record {
  at = λ w other h. (serve_balance other (TokenCall.reserves id n) w h).1;
}

release-KeepsTokens : (id : Uuid) (n : ℕ) → Obeys KeepsTokens (release id n)
unfolding release
release-KeepsTokens id n =
    Obeys-call KeepsTokens-preorder _ (record { at = λ w other h. grind (int_laws, ==_iff) })

KeepsTokens-StoreObeys : StoreObeys KeepsTokens
KeepsTokens-StoreObeys = methods (blind-StatementsObey KeepsTokens-preorder (λ w d id h. h)) (
    quiet-OutsideObeys KeepsTokens-preorder
      (λ w w' db tokens id h. rw (ap (λ (t : Uuid → Option ℤ). or_zero (t id)) tokens) h)
      init_tokens-KeepsTokens reserve-KeepsTokens release-KeepsTokens)

-- Whatever requests, messages, timeouts and jobs are served, one after another, and whichever calls
-- fail on the way: if the tokens of an event are not negative at first, they are not negative
-- afterwards. Create never takes more than there are, the reconciliation gives up where the bucket
-- is empty, and a new event gets as many tokens as it has seats.
pub serve-tokens :
    (c : Crypto) (parse : Text → Option Claims) (rs : List Request) (w : World) (id : Uuid)
    → pos 0 ≤ℤ level w id
    → pos 0 ≤ℤ level (serve c parse rs w) id
serve-tokens c parse rs w id h = serve-Obeys KeepsTokens-StoreObeys c parse rs w id h
