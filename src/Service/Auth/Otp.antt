-- ===== src/Service/Auth/Otp.antt =====
-- The one-time code for a change of password.
use lewly_pgpyewj.Prelude.{
  ◌≡◌, ◌≢◌, refl, arith, false, some, List, [], ◌∷◌, Text, ◌==◌, ==_iff, ==_self, count_where,
  first_where, empty_text,
}
use lewly_pgpyewj.Db.{User}
use lewly_pgpyewj.Effect.{
  ok, World, calm, call, query, sql, ignore, on_error, exec_counting, require_rows, ◌>>=◌, succeeds,
}
use lewly_pgpyewj.Store.Users
use lewly_pgpyewj.Store.Users.{has_email, user_with, set_users, update_users}
use lewly_pgpyewj.Service.Auth.{Crypto, live_otp, read_otp, delete_otp, verify_password_change_otp}

-- Without the live code of the email, VerifyPasswordChangeOTP does not succeed and leaves the
-- database as it was, whichever calls fail.
pub verify_password_change_otp_refuses :
    (c : Crypto) (email otp new_password : Text) (w : World)
    → live_otp w.db.clock (w.otps email) ≢ some otp
    → (succeeds (verify_password_change_otp c email otp new_password w).0 ≡ false)
      × ((verify_password_change_otp c email otp new_password w).1.db ≡ w.db)
unfolding verify_password_change_otp read_otp on_error call ◌>>=◌
verify_password_change_otp_refuses c email otp new_password w wrong = grind (arith, ==_iff)

-- the user that has the email is counted under the id
count_of_found :
    (email : Text) (us : List User) (u : User)
    → first_where (has_email email) us ≡ some u
    → (count_where (user_with u.id) us == 0) ≡ false
count_of_found email [] u found = cc
count_of_found email (v ∷ us) u found = ground (arith, count_of_found email us u)

-- When no call fails, VerifyPasswordChangeOTP with the live code, for the email of a user who has a
-- password, succeeds: it stores the hash of the new password for that user. In the world that it
-- leaves, no call with that email succeeds, whatever the code.
pub verify_password_change_otp_once :
    (c : Crypto) (email otp new_password hashed : Text) (w : World) (u : User)
    → live_otp w.db.clock (w.otps email) ≡ some otp
    → first_where (has_email email) w.db.users ≡ some u
    → u.password_hash == empty_text ≡ false
    → c.hash new_password ≡ some hashed
    → let (r, w') = verify_password_change_otp c email otp new_password (calm w) in
      (r ≡ ok tt)
      × (w'.db ≡ set_users (user_with u.id) (λ v. record v { password_hash = hashed }) w.db)
      × ((next_otp next_password : Text)
          → succeeds (verify_password_change_otp c email next_otp next_password w').0 ≡ false)
unfolding verify_password_change_otp read_otp delete_otp Users.get_by_email Users.update_password
    update_users exec_counting require_rows ignore on_error query sql call ◌>>=◌
verify_password_change_otp_once c email otp new_password hashed w u live found has_password
      hash_ok =
    rw (live, ==_self otp, found, has_password, hash_ok, count_of_found email w.db.users u found)
      (refl, refl, λ next_otp next_password. rw (==_self email) refl)
