-- ===== src/Config/DefaultAdmin.antt =====
-- internal/config/createDefaultAdminUser.go
use lewly_pgpyewj.Prelude.{
  Text, ◌≡◌, refl, arith, Bool, true, ltb, empty_text, if◌then◌else◌, any_where, count_where,
  Option, none, some, List, [], ◌∷◌, ◌++◌, ==_self,
}
use lewly_pgpyewj.Db.{Db, User, Role}
use lewly_pgpyewj.Effect.{
  Exec, World, hash_failed, pure, succeeds, later_faults, sql, call, query, ◌>>=◌, ◌>>◌,
}
use lewly_pgpyewj.Store.Users
use lewly_pgpyewj.Store.Users.{has_email, user_row, insert_user}
use lewly_pgpyewj.Service.Auth.{Crypto, or_fail}

-- the text "Admin User"
abbrev pub admin_user : Text
admin_user = 3

-- the INSERT, once the password has been hashed; the phone has its default, the empty text
unfoldable pub insert_admin : Crypto → Text → Text → Exec (Unit {0})
insert_admin c admin_email password = do
  hashed ← or_fail hash_failed (c.hash password)
  Users.create admin_user admin_email empty_text hashed Role.admin
  pure tt

-- CreateDefaultAdmin, for the email and the password of the configuration
unfoldable pub create_default_admin : Crypto → Text → Text → Exec (Unit {0})
create_default_admin c admin_email password = do
  count ← query (λ d. count_where (has_email admin_email) d.users)
  if ltb 0 count then pure tt else insert_admin c admin_email password

-- somebody has the email
abbrev pub IsTaken : Text → Db → Type 0
IsTaken email d = any_where (has_email email) d.users ≡ true

counted : (p : User → Bool) (us : List User) → any_where p us ≡ ltb 0 (count_where p us)
counted p [] = refl
counted p (u ∷ us) = ground (arith, counted p us)

any_where-last :
    (p : User → Bool) (us : List User) (u : User) → p u ≡ true → any_where p (us ++ u ∷ []) ≡ true
any_where-last p [] u h = rw h refl
any_where-last p (v ∷ us) u h = ground (arith, any_where-last p us u h)

row-IsTaken :
    (email hash : Text) (d : Db)
    → any_where
        (has_email email)
        (d.users ++ user_row admin_user email empty_text hash Role.admin d ∷ [])
      ≡ true
row-IsTaken email hash d =
    any_where-last (has_email email) d.users
      (user_row admin_user email empty_text hash Role.admin d) (==_self email)

insert-IsTaken :
    (c : Crypto) (email password : Text) (w : World)
    → succeeds (insert_admin c email password w).0 ≡ true
    → IsTaken email (insert_admin c email password w).1.db
unfolding insert_admin Users.create insert_user sql call ◌>>=◌
insert-IsTaken c email password w h = hashed (c.hash password) h
  where
    hashed :
        (o : Option Text)
        → succeeds
            ((do
              hash ← or_fail hash_failed o
              Users.create admin_user email empty_text hash Role.admin
              pure tt)
              w).0
          ≡ true
        → IsTaken email
            ((do
              hash ← or_fail hash_failed o
              Users.create admin_user email empty_text hash Role.admin
              pure tt)
              w).1.db
    hashed none h = cc
    hashed (some hash) h = ground (arith, row-IsTaken email hash w.db)

first-IsTaken :
    (c : Crypto) (email password : Text) (w : World)
    → succeeds (create_default_admin c email password w).0 ≡ true
    → IsTaken email (create_default_admin c email password w).1.db
unfolding create_default_admin query sql call ◌>>=◌
first-IsTaken c email password w h = ground (
  arith,
  counted (has_email email) w.db.users,
  insert-IsTaken c email password (record w { faults = later_faults w.faults }),
)

again :
    (c : Crypto) (email password : Text) (w : World)
    → IsTaken email w.db
    → (create_default_admin c email password w).1.db ≡ w.db
unfolding create_default_admin query sql call ◌>>=◌
again c email password w taken = ground (arith, counted (has_email email) w.db.users)

-- A start of the server that succeeds in creating the default admin leaves a user with the email
-- of the configuration, and a later start changes nothing in the database, whichever calls fail.
pub create_default_admin-once :
    (c : Crypto) (email password : Text) (w : World)
    → succeeds (create_default_admin c email password w).0 ≡ true
    → let w' = (create_default_admin c email password w).1 in
      IsTaken email w'.db × ((create_default_admin c email password w').1.db ≡ w'.db)
create_default_admin-once c email password w h =
    let taken = first-IsTaken c email password w h in
    (taken, again c email password (create_default_admin c email password w).1 taken)
