-- ===== src/Api/Auth.antt =====
-- internal/api/auth/auth.go
use lewly_pgpyewj.Prelude.{ℕ, Option, none, some, Text, Uuid, ◌==◌, empty_text, if◌then◌else◌}
use lewly_pgpyewj.Effect.{Exec, pure}
use lewly_pgpyewj.Service.Auth
use lewly_pgpyewj.Service.Auth.{Crypto}
use lewly_pgpyewj.Api.Respond.{
  respond, signup_status, login_status, profile_status, password_status, otp_status, internal_error,
}

-- SignupRequest, within its bindings
pub record SignupRequest : Type 0 where
  pub name : Text
  pub email : Text
  pub password : Text
  pub phone : Text

-- signup
unfoldable pub signup : Crypto → Option SignupRequest → Exec ℕ
signup c none = pure 400
signup c (some r) =
    respond (λ l. 201) signup_status (Auth.signup c r.name r.email r.password r.phone)

-- login, with the email and the password
unfoldable pub login : Crypto → Option (Text × Text) → Exec ℕ
login c none = pure 400
login c (some (email, password)) = respond (λ l. 200) login_status (Auth.login c email password)

-- getProfile
unfoldable pub get_profile : Uuid → Exec ℕ
get_profile user_id =
    if user_id == empty_text
    then pure 401
    else respond (λ u. 200) profile_status (Auth.get_profile user_id)

-- updateProfile, with the name and the phone
unfoldable pub update_profile : Uuid → Option (Text × Text) → Exec ℕ
update_profile user_id body = if user_id == empty_text then pure 401 else elim body [
  | none ↦ pure 400
  | some (name, phone) ↦ respond (λ u. 200) profile_status (Auth.update_profile user_id name phone)
]

-- changePassword, with the current and the new password
unfoldable pub change_password : Crypto → Uuid → Option (Text × Text) → Exec ℕ
change_password c user_id body = if user_id == empty_text then pure 401 else elim body [
  | none ↦ pure 400
  | some (current, new) ↦
      respond (λ u. 200) password_status (Auth.change_password c user_id current new)
]

-- requestPasswordChangeOTP
unfoldable pub request_password_change_otp : Text → Option Text → Exec ℕ
request_password_change_otp otp none = pure 400
request_password_change_otp otp (some email) =
    respond (λ u. 200) internal_error (Auth.request_password_change_otp email otp)

-- OTPVerifyRequest
pub record OtpVerifyRequest : Type 0 where
  pub email : Text
  pub otp : Text
  pub new_password : Text

-- verifyPasswordChangeOTP
unfoldable pub verify_password_change_otp : Crypto → Option OtpVerifyRequest → Exec ℕ
verify_password_change_otp c none = pure 400
verify_password_change_otp c (some r) =
    respond (λ u. 200) otp_status (Auth.verify_password_change_otp c r.email r.otp r.new_password)

-- logout: the client drops its token
unfoldable pub logout : Exec ℕ
logout = pure 200
