-- ===== src/Api/Admin.antt =====
-- internal/api/admin/admin.go
use lewly_pgpyewj.Prelude.{ℕ, Option, none, some, List, Text, Uuid, Time}
use lewly_pgpyewj.Effect.{Exec, pure}
use lewly_pgpyewj.Service.Admin
use lewly_pgpyewj.Service.Admin.{AdminEvent}
use lewly_pgpyewj.Api.Respond.{respond, internal_error}

-- createEvent
unfoldable pub create_event : Option AdminEvent → Exec ℕ
create_event none = pure 400
create_event (some i) = respond (λ e. 201) internal_error (Admin.create_event i)

-- summary, for times that have been parsed
unfoldable pub summary : Time → Time → Exec ℕ
summary from to = respond (λ s. 200) internal_error (Admin.get_summary from to)

-- updateEvent; the body is a JSON object, as its fields and their values
unfoldable pub update_event : Uuid → Option (List (Text × Text)) → Exec ℕ
update_event event_id none = pure 400
update_event event_id (some updates) =
    respond (λ r. 200) internal_error (Admin.update_event event_id updates)

-- cancelEvent
unfoldable pub cancel_event : Uuid → Exec ℕ
cancel_event event_id = respond (λ r. 200) internal_error (Admin.cancel_event event_id)

-- createAdmin
unfoldable pub create_admin : Uuid → Exec ℕ
create_admin user_id = respond (λ r. 200) internal_error (Admin.create_admin_from_user user_id)

-- removeAdmin
unfoldable pub remove_admin : Uuid → Exec ℕ
remove_admin user_id = respond (λ r. 200) internal_error (Admin.remove_admin user_id)

-- removeUser
unfoldable pub remove_user : Uuid → Exec ℕ
remove_user user_id = respond (λ r. 200) internal_error (Admin.remove_user user_id)

-- getUserByEmail
unfoldable pub get_user_by_email : Option Text → Exec ℕ
get_user_by_email none = pure 400
get_user_by_email (some email) = respond (λ u. 200) internal_error (Admin.get_user_by_email email)
