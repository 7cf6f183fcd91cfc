-- ===== src/Service/Auth.antt =====
-- internal/service/auth/auth.go
pub mod Otp
use lewly_pgpyewj.Prelude.{
  ℕ, ◌+◌, Bool, true, false, ◌&&◌, Option, none, some, Text, Uuid, Time, ltb, ◌==◌, empty_text,
  if◌then◌else◌,
}
use lewly_pgpyewj.Db.{User, Role, is_admin}
use lewly_pgpyewj.Effect.{
  ok, err, Error, user_exists, invalid_credentials, user_not_found, invalid_otp, oauth_user,
  hash_failed, token_failed, password_change_otp, io, World, Exec, pure, raise, crash, gets, call,
  Returned, value, failure, attempt, ignore, on_error, ◌>>=◌, ◌>>◌,
}
use lewly_pgpyewj.Store.Users
use lewly_pgpyewj.Service.Outgoing.{send}
use lewly_pgpyewj.Service.Bookings.{or_crash}

-- bcrypt (hash a password, compare a hash with a password) and the signing of a JWT for a user id,
-- the admin flag and the expiry; `none` is an error
pub record Crypto : Type 0 where
  pub hash : Text → Option Text
  pub compare : Text → Text → Bool
  pub sign : Uuid → Bool → Time → Option Text

pub record LoginResponse : Type 0 where
  pub token : Text
  pub account : User
  pub expires : Time

-- 24 * time.Hour
abbrev pub token_lifetime : ℕ
token_lifetime = 86400

-- 15 * time.Minute
abbrev pub otp_lifetime : ℕ
otp_lifetime = 900

abbrev pub or_fail : {A : Type 0} → Error → Option A → Exec A
or_fail e none = raise e
or_fail e (some a) = pure a

-- generateToken and the response
unfoldable pub log_in : Crypto → User → Exec LoginResponse
log_in c u = do
  now ← gets (λ w. w.db.clock)
  token ← or_fail token_failed (c.sign u.id (is_admin u.role) (now + token_lifetime))
  pure (record { token = token; account = u; expires = now + token_lifetime })

-- Signup, once the lookup of the email has been answered
unfoldable pub sign_up_checked :
    Crypto → Text → Text → Text → Text → Returned (Option User) → Exec LoginResponse
sign_up_checked c name email password phone (value (some u)) = raise user_exists
sign_up_checked c name email password phone _ = do
  hashed ← or_fail hash_failed (c.hash password)
  u ← Users.create name email phone hashed Role.user
  log_in c u

-- Signup
unfoldable pub signup : Crypto → Text → Text → Text → Text → Exec LoginResponse
signup c name email password phone = do
  existing ← attempt (Users.get_by_email email)
  sign_up_checked c name email password phone existing

-- Login
unfoldable pub login : Crypto → Text → Text → Exec LoginResponse
login c email password = do
  found ← on_error (λ _. invalid_credentials) (Users.get_by_email email)
  u ← or_fail user_not_found found
  if u.password_hash == empty_text
      then raise invalid_credentials
      else if c.compare u.password_hash password
      then log_in c u
      else raise invalid_credentials

-- ChangePassword: a missing row is a nil user, which is dereferenced
unfoldable pub change_password : Crypto → Uuid → Text → Text → Exec (Unit {0})
change_password c user_id current_password new_password = do
  found ← on_error (λ _. user_not_found) (Users.get_by_id user_id)
  u ← or_crash found
  if u.password_hash == empty_text
      then raise oauth_user
      else if c.compare u.password_hash current_password
      then (do
        hashed ← or_fail hash_failed (c.hash new_password)
        Users.update_password user_id hashed)
      else raise invalid_credentials

-- SET password_change_otp:<email> with its time to live
unfoldable pub store_otp : Text → Text → Exec (Unit {0})
store_otp email otp = call (λ w. (
  ok tt,
  record w { otps = λ e. if e == email then some (otp, w.db.clock + otp_lifetime) else w.otps e },
))

-- RequestPasswordChangeOTP, once the lookup has been answered, for the code `otp`
unfoldable pub request_otp_for : Text → Text → Returned (Option User) → Exec (Unit {0})
request_otp_for email otp (failure e) = pure tt
request_otp_for email otp (value found) = do
  u ← or_crash found
  if u.password_hash == empty_text
      then pure tt
      else do store_otp email otp; ignore (send (password_change_otp email otp))

-- RequestPasswordChangeOTP; `otp` is what generateOTP returns
unfoldable pub request_password_change_otp : Text → Text → Exec (Unit {0})
request_password_change_otp email otp = do
  found ← attempt (Users.get_by_email email)
  request_otp_for email otp found

abbrev pub live_otp : Time → Option (Text × Time) → Option Text
live_otp now none = none
live_otp now (some (otp, until)) = if ltb now until then some otp else none

-- GET password_change_otp:<email>; a missing key is an error
unfoldable pub read_otp : Text → Exec Text
read_otp email = do
  stored ← call (λ w. (ok (live_otp w.db.clock (w.otps email)), w))
  or_fail invalid_otp stored

unfoldable pub delete_otp : Text → Exec (Unit {0})
delete_otp email =
    call (λ w. (ok tt, record w { otps = λ e. if e == email then none else w.otps e }))

-- VerifyPasswordChangeOTP
unfoldable pub verify_password_change_otp : Crypto → Text → Text → Text → Exec (Unit {0})
verify_password_change_otp c email otp new_password = do
  stored ← on_error (λ _. invalid_otp) (read_otp email)
  if stored == otp
      then (do
        found ← on_error (λ _. user_not_found) (Users.get_by_email email)
        u ← or_crash found
        if u.password_hash == empty_text then raise oauth_user else do
          hashed ← or_fail hash_failed (c.hash new_password)
          Users.update_password u.id hashed
          ignore (delete_otp email))
      else raise invalid_otp

-- GetProfile
unfoldable pub get_profile : Uuid → Exec User
get_profile user_id = do
  found ← on_error (λ _. user_not_found) (Users.get_by_id user_id)
  or_fail user_not_found found

-- UpdateProfile
unfoldable pub update_profile : Uuid → Text → Text → Exec (Unit {0})
update_profile user_id name phone = do
  found ← on_error (λ _. user_not_found) (Users.get_by_id user_id)
  or_fail user_not_found found
  Users.update_profile user_id name phone
