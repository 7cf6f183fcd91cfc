-- ===== src/System/Admission.antt =====
-- The admin routes and the table of users.
use lewly_pgpyewj.Prelude.{
  ℕ, ◌≡◌, refl, ◌⊎◌, inl, inr, ◌∙◌, arith, true, false, Option, none, some, Text, Uuid, Bool,
}
use mathlib.Core.Option.{some-injective}
use lewly_pgpyewj.Db.{Db}
use lewly_pgpyewj.Effect.{
  World, Result, ok, err, panic, Exec, resume, query, sql, call, attempt, ◌>>=◌,
}
use lewly_pgpyewj.Middleware.Auth.{
  Claims, Header, Gate, pass, forbidden, unauthorized, middleware, check_claims,
  is_user_admin_in_db,
}
use lewly_pgpyewj.Middleware.Auth.Admission.{admin_in, token_of}
use lewly_pgpyewj.Api.Guard.{behind, guarded}
use lewly_pgpyewj.Service.Auth.{Crypto}
use lewly_pgpyewj.System.{Request, admin_route, handle}
use lewly_pgpyewj.System.Views.{admin_view_route}

-- whether a token's user has the role admin in the table
abbrev pub admitted : Db → Option Claims → Bool
admitted d none = false
admitted d (some claims) = admin_in d claims.user_id

-- whether the gate is closed
abbrev Closes : Result Gate → Type 0
Closes (ok forbidden) = Unit {0}
Closes (ok unauthorized) = Unit {0}
Closes _ = ⊥

gate-Closes :
    (parse : Text → Option Claims) (h : Header) (w : World)
    → admitted w.db (token_of parse h) ≡ false
    → Closes (middleware parse true h w).0 × ((middleware parse true h w).1.db ≡ w.db)
unfolding middleware check_claims is_user_admin_in_db attempt query sql call ◌>>=◌
gate-Closes parse h w outsider = ground arith

-- the status of a refusal
abbrev pub Refuses : Result ℕ → Type 0
Refuses (ok status) = (status ≡ 401) ⊎ (status ≡ 403)
Refuses _ = ⊥

closed-Refuses :
    (handler : Uuid → Exec ℕ) (r : Result Gate) (w : World)
    → Closes r
    → Refuses (resume r (behind handler) w).0 × ((resume r (behind handler) w).1.db ≡ w.db)
closed-Refuses handler (ok forbidden) w c = (inr refl, refl)
closed-Refuses handler (ok unauthorized) w c = (inl refl, refl)
closed-Refuses handler (ok (pass claims)) w c = absurd c
closed-Refuses handler (err e) w c = absurd c
closed-Refuses handler panic w c = absurd c

guarded-Refuses :
    (parse : Text → Option Claims) (h : Header) (handler : Uuid → Exec ℕ) (w : World)
    → admitted w.db (token_of parse h) ≡ false
    → Refuses (guarded parse true h handler w).0 × ((guarded parse true h handler w).1.db ≡ w.db)
unfolding guarded ◌>>=◌
guarded-Refuses parse h handler w outsider =
    let (closed, same) = gate-Closes parse h w outsider in
    let (r, w') = middleware parse true h w in
    let (refusal, kept) = closed-Refuses handler r w' closed in (refusal, kept ∙ same)

-- the header of a request on an admin route
abbrev pub admin_header : Request → Option Header
admin_header (Request.as_admin h route) = some h
admin_header (Request.look_as_admin h view) = some h
admin_header _ = none

-- A request on an admin route whose token is missing, invalid, or one of a user without the role
-- admin in the table of users, whatever its claims say, is answered 401 or 403 and leaves the
-- database as it was, whichever calls fail.
pub handle-Refuses :
    (c : Crypto) (parse : Text → Option Claims) (r : Request) (h : Header) (w : World)
    → admin_header r ≡ some h
    → admitted w.db (token_of parse h) ≡ false
    → Refuses (handle c parse r w).0 × ((handle c parse r w).1.db ≡ w.db)
unfolding handle
handle-Refuses c parse (Request.as_admin h' route) h w e outsider =
    let same : h' ≡ h = some-injective h' h e in
    guarded-Refuses parse h' (λ uid. admin_route c parse route) w (rw same outsider)
handle-Refuses c parse (Request.look_as_admin h' view) h w e outsider =
    let same : h' ≡ h = some-injective h' h e in
    guarded-Refuses parse h' (λ uid. admin_view_route view) w (rw same outsider)
handle-Refuses c parse r h w e outsider = cc
