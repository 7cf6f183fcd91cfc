-- ===== src/Store/Users.antt =====
-- internal/store/users/users.go
use lewly_pgpyewj.Prelude.{
  ℕ, suc, Bool, true, false, Option, none, some, List, [], ◌∷◌, ◌++◌, Text, Uuid, ltb, ◌==◌,
  if◌then◌else◌, first_where, update_where, delete_where, count_where, any_where, order_by, page,
  length,
}
use lewly_pgpyewj.Db.{Db, User, Role, EventLike, BookingRow, WaitlistEntry, next_uuid}
use lewly_pgpyewj.Effect.{
  Result, ok, err, constraint, Exec, query, sql, exec_counting, ◌>>=◌, require_rows,
}

abbrev pub user_row : Text → Text → Text → Text → Role → Db → User
user_row name email phone password_hash role d = record {
  id = next_uuid d;
  name = name;
  email = email;
  phone = phone;
  password_hash = password_hash;
  role = role;
  created_at = d.clock;
}

abbrev pub has_email : Text → User → Bool
has_email email u = u.email == email

abbrev pub user_with : Uuid → User → Bool
user_with id u = u.id == id

-- INSERT INTO users, under UNIQUE (email)
unfoldable pub insert_user : Text → Text → Text → Text → Role → Db → Result (User × Db)
insert_user name email phone password_hash role d =
    if any_where (has_email email) d.users
    then err constraint
    else ok (
      user_row name email phone password_hash role d,
      record d {
        users = d.users ++ user_row name email phone password_hash role d ∷ [];
        drawn = suc d.drawn;
      },
    )

-- Create
unfoldable pub create : Text → Text → Text → Text → Role → Exec User
create name email phone password_hash role = sql (insert_user name email phone password_hash role)

-- GetByID
unfoldable pub get_by_id : Uuid → Exec (Option User)
get_by_id id = query (λ d. first_where (user_with id) d.users)

-- GetByEmail
unfoldable pub get_by_email : Text → Exec (Option User)
get_by_email email = query (λ d. first_where (has_email email) d.users)

unfoldable pub set_users : (User → Bool) → (User → User) → Db → Db
set_users p f d = record d { users = update_where p f d.users }

-- UPDATE users SET … WHERE …, and pgx.ErrNoRows if no row is affected
unfoldable pub update_users : (User → Bool) → (User → User) → Exec (Unit {0})
update_users p f = do
  affected ← exec_counting (λ d. count_where p d.users) (set_users p f)
  require_rows affected

-- UpdatePassword
unfoldable pub update_password : Uuid → Text → Exec (Unit {0})
update_password user_id password_hash =
    update_users (user_with user_id) (λ u. record u { password_hash = password_hash })

-- UpdateProfile
unfoldable pub update_profile : Uuid → Text → Text → Exec (Unit {0})
update_profile user_id name phone =
    update_users (user_with user_id) (λ u. record u { name = name; phone = phone })

-- UpdateRole
unfoldable pub update_role : Uuid → Role → Exec (Unit {0})
update_role user_id role = update_users (user_with user_id) (λ u. record u { role = role })

abbrev pub refers_to : (User → Bool) → List User → Uuid → Bool
refers_to p us id = any_where (λ u. if p u then u.id == id else false) us

abbrev pub forget_user : (Uuid → Bool) → BookingRow → BookingRow
forget_user gone b = elim b.user_id [
  | none ↦ b
  | some id ↦ if gone id then record b { user_id = none } else b
]

-- DELETE FROM users WHERE …, with ON DELETE CASCADE and ON DELETE SET NULL of the other tables
unfoldable pub delete_users : (User → Bool) → Db → Db
delete_users p d =
    let gone = refers_to p d.users in
    record d {
      users = delete_where p d.users;
      event_likes = delete_where (λ (l : EventLike). gone l.user_id) d.event_likes;
      bookings = update_where (λ (b : BookingRow). true) (forget_user gone) d.bookings;
      waitlist = delete_where (λ (e : WaitlistEntry). gone e.user_id) d.waitlist;
    }

-- Delete
unfoldable pub delete : Uuid → Exec (Unit {0})
delete user_id = do
  affected ←
      exec_counting (λ d. count_where (user_with user_id) d.users)
        (delete_users (user_with user_id))
  require_rows affected

-- List
unfoldable pub list : ℕ → ℕ → Exec (List User)
list limit offset =
    query (λ d. page limit offset (order_by (λ a b. ltb b.created_at a.created_at) d.users))

-- Count
unfoldable pub count : Exec ℕ
count = query (λ d. length d.users)
