-- ===== src/Cmd/Server.antt =====
-- main of cmd/server: a first connection creates the default admin, a second one is made by
-- RegisterRoutes (internal/api/router.go). Whatever fails is only logged, and the server starts.
use lewly_pgpyewj.Prelude.{Bool, true, false, Text}
use lewly_pgpyewj.Effect.{Exec, pure, call, ignore, attempt, Returned, value, failure, ◌>>=◌, ◌>>◌}
use lewly_pgpyewj.Service.Auth.{Crypto}
use lewly_pgpyewj.Config.DefaultAdmin.{create_default_admin}

-- NewDB
unfoldable pub new_db : Exec (Unit {0})
new_db = call (pure tt)

abbrev pub connected : Returned (Unit {0}) → Bool
connected (value u) = true
connected (failure e) = false

abbrev pub create_admin_with : Crypto → Text → Text → Returned (Unit {0}) → Exec (Unit {0})
create_admin_with c email password (value u) = ignore (create_default_admin c email password)
create_admin_with c email password (failure e) = pure tt

-- main, up to ListenAndServe: whether the routes are registered
unfoldable pub boot : Crypto → Text → Text → Exec Bool
boot c email password = do
  db ← attempt new_db
  create_admin_with c email password db
  again ← attempt new_db
  pure (connected again)
