-- ===== src/Middleware/Auth/Admission.antt =====
-- Whom the middleware of the admin routes lets through.
use lewly_pgpyewj.Prelude.{
  ◌≡◌, arith, Bool, true, false, Option, none, some, Text, Uuid, first_where,
}
use lewly_pgpyewj.Db.{Db, is_admin}
use lewly_pgpyewj.Effect.{ok, World, query, sql, call, attempt, ◌>>=◌}
use lewly_pgpyewj.Store.Users.{user_with}
use lewly_pgpyewj.Middleware.Auth.{
  Claims, Header, no_bearer, bearer, pass, is_user_admin_in_db, check_claims, middleware,
}

-- the role that the table of users holds for an id
abbrev pub admin_in : Db → Uuid → Bool
admin_in d id = elim (first_where (user_with id) d.users) [
  | none ↦ false
  | some u ↦ is_admin u.role
]

abbrev pub token_of : (Text → Option Claims) → Header → Option Claims
token_of parse no_bearer = none
token_of parse (bearer token) = parse token

-- Whichever calls fail, the middleware of the admin routes lets a request through only with the
-- claims of its own token, and only if these claims have the admin flag and the table of users holds
-- the role admin for their user.
pub middleware_admits :
    (parse : Text → Option Claims) (h : Header) (w : World) (claims : Claims)
    → (middleware parse true h w).0 ≡ ok (pass claims)
    → (token_of parse h ≡ some claims)
      × (claims.admin ≡ true)
      × (admin_in w.db claims.user_id ≡ true)
unfolding middleware check_claims is_user_admin_in_db attempt query sql call ◌>>=◌
middleware_admits parse h w claims passed = ground arith
