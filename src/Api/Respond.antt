-- ===== src/Api/Respond.antt =====
-- What the handlers share: `if err != nil { c.JSON(code, …); return }`.
use lewly_pgpyewj.Prelude.{ℕ}
use lewly_pgpyewj.Effect.{
  Error, booking_not_found, invalid_amount, already_paid, user_exists, invalid_credentials,
  user_not_found, oauth_user, invalid_otp, with_code, Exec, pure, Returned, value, failure, attempt,
  ◌>>=◌,
}

abbrev pub status_of : {A : Type 0} → (A → ℕ) → (Error → ℕ) → Returned A → ℕ
status_of on_value on_failure (value a) = on_value a
status_of on_value on_failure (failure e) = on_failure e

-- runs a service, and answers by its result or by its error
unfoldable pub respond : {A : Type 0} → (A → ℕ) → (Error → ℕ) → Exec A → Exec ℕ
respond on_value on_failure m = do r ← attempt m; pure (status_of on_value on_failure r)

abbrev pub internal_error : Error → ℕ
internal_error e = 500

-- the status that a service gives along with its error
abbrev pub code_of : Error → ℕ
code_of (with_code code e) = code
code_of _ = 500

abbrev pub payment_status : Error → ℕ
payment_status booking_not_found = 404
payment_status invalid_amount = 400
payment_status already_paid = 409
payment_status _ = 500

abbrev pub refund_status : Error → ℕ
refund_status booking_not_found = 404
refund_status _ = 500

abbrev pub signup_status : Error → ℕ
signup_status user_exists = 409
signup_status _ = 500

abbrev pub login_status : Error → ℕ
login_status invalid_credentials = 401
login_status user_not_found = 404
login_status _ = 500

abbrev pub profile_status : Error → ℕ
profile_status user_not_found = 404
profile_status _ = 500

abbrev pub password_status : Error → ℕ
password_status invalid_credentials = 401
password_status oauth_user = 400
password_status user_not_found = 404
password_status _ = 500

abbrev pub otp_status : Error → ℕ
otp_status invalid_otp = 400
otp_status oauth_user = 400
otp_status user_not_found = 404
otp_status _ = 500
