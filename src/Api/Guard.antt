-- ===== src/Api/Guard.antt =====
-- The middleware in front of a protected group of routes: its handler runs with the user id of the
-- claims, or not at all.
use lewly_pgpyewj.Prelude.{ℕ, Bool, Option, Text, Uuid}
use lewly_pgpyewj.Effect.{Exec, pure, ◌>>=◌}
use lewly_pgpyewj.Middleware.Auth.{Claims, Header, Gate, unauthorized, forbidden, pass, middleware}

abbrev pub behind : (Uuid → Exec ℕ) → Gate → Exec ℕ
behind handler unauthorized = pure 401
behind handler forbidden = pure 403
behind handler (pass claims) = handler claims.user_id

unfoldable pub guarded : (Text → Option Claims) → Bool → Header → (Uuid → Exec ℕ) → Exec ℕ
guarded parse require_admin header handler = do
  gate ← middleware parse require_admin header
  behind handler gate
