-- ===== src/Middleware/Auth.antt =====
-- internal/middleware/authMiddleware.go
pub mod Admission
use lewly_pgpyewj.Prelude.{
  Bool, true, false, Option, none, some, Text, Uuid, first_where, if◌then◌else◌,
}
use lewly_pgpyewj.Db.{Db, User, Role, is_admin}
use lewly_pgpyewj.Effect.{Exec, pure, query, Returned, value, failure, attempt, ◌>>=◌}
use lewly_pgpyewj.Store.Users.{user_with}

pub record Claims : Type 0 where
  pub user_id : Uuid
  pub admin : Bool

-- The Authorization header: without the prefix "Bearer ", or the token behind it.
pub data Header : Type 0 where
  no_bearer : Header
  bearer : Text → Header

-- what the handler does: abort with a status, or go on with the claims in the context
pub data Gate : Type 0 where
  unauthorized : Gate
  forbidden : Gate
  pass : Claims → Gate

abbrev pub has_admin_role : Returned (Option User) → Bool
has_admin_role (value (some u)) = is_admin u.role
has_admin_role (value none) = false
has_admin_role (failure e) = false

-- isUserAdminInDB: NewDB and the query
unfoldable pub is_user_admin_in_db : Uuid → Exec Bool
is_user_admin_in_db user_id = do
  found ← attempt (query (λ d. first_where (user_with user_id) d.users))
  pure (has_admin_role found)

unfoldable pub check_claims : Bool → Option Claims → Exec Gate
check_claims require_admin none = pure unauthorized
check_claims false (some claims) = pure (pass claims)
check_claims true (some claims) =
    if claims.admin
    then (do
      confirmed ← is_user_admin_in_db claims.user_id
      if confirmed then pure (pass claims) else pure forbidden)
    else pure forbidden

-- Middleware; `parse` is jwt.ParseWithClaims with the secret, `none` for an error or an invalid token
unfoldable pub middleware : (Text → Option Claims) → Bool → Header → Exec Gate
middleware parse require_admin no_bearer = pure unauthorized
middleware parse require_admin (bearer token) = check_claims require_admin (parse token)

-- UserMiddleware
abbrev pub user_middleware : (Text → Option Claims) → Header → Exec Gate
user_middleware parse = middleware parse false

-- AdminMiddleware
abbrev pub admin_middleware : (Text → Option Claims) → Header → Exec Gate
admin_middleware parse = middleware parse true
