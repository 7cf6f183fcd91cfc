-- ===== src/Service/Mailer.antt =====
-- internal/service/mailer/mailer.go: the texts of the five mails; and the links in them, from
-- internal/service/worker/finalize.go and internal/service/bookings/bookings.go. `chars` gives the
-- characters of the texts and identifiers that the rest of the model takes as numbers.
pub mod Money
pub mod Link
use lewly_pgpyewj.Prelude.{Text, Uuid, [], ◌∷◌}
use lewly_pgpyewj.Prelude.Float.{Float64, of_cents}
use lewly_pgpyewj.Prelude.Codes.{Bytes, codes, joined}
use lewly_pgpyewj.Effect as Effect
use lewly_pgpyewj.Service.Mailer.Money.{print_amount}
use lewly_pgpyewj.Smtp.{Mail, message}

-- the link of HandleBookingFinalization and HandleBookingTimeout
unfoldable pub payment_link : Bytes → Bytes → Float64 → Bytes
payment_link payment_url booking_id amount = joined (
    payment_url
    ∷ codes "/v1/payment/booking?booking_id="
    ∷ booking_id
    ∷ codes "&amount="
    ∷ print_amount amount []
    ∷ codes "&payment_id="
    ∷ booking_id
    ∷ [])

-- the link of Cancel
unfoldable pub refund_link : Bytes → Bytes → Bytes
refund_link payment_url booking_id =
    joined (payment_url ∷ codes "/v1/payment/refund?booking_id=" ∷ booking_id ∷ [])

module _ (payment_url : Bytes) (chars : Text → Bytes) where
  -- SendPaymentRequestEmail
  unfoldable pub payment_request_mail : Text → Text → Float64 → Bytes → Mail
  payment_request_mail user_email event_name amount link = record {
    to = chars user_email;
    subject = joined (codes "Payment Required for " ∷ chars event_name ∷ []);
    body = joined (
        codes "\nDear User,\n\nYour booking for \""
        ∷ chars event_name
        ∷ codes "\" is ready for payment.\n\nAmount: $"
        ∷ print_amount amount []
        ∷ codes "\nPayment Link: "
        ∷ link
        ∷ codes "\n\nPlease complete your payment within 15 minutes to secure your booking."
        ∷ codes "\n\nBest regards,\nEvently Team\n"
        ∷ []);
  }

  -- SendWaitlistPromotionEmail
  unfoldable pub waitlist_promotion_mail : Text → Text → Mail
  waitlist_promotion_mail user_email event_name = record {
    to = chars user_email;
    subject = joined (codes "Great News! You're off the waitlist for " ∷ chars event_name ∷ []);
    body = joined (
        codes "\nDear User,\n\nGreat news! A spot has opened up for \""
        ∷ chars event_name
        ∷ codes "\" and you're next in line!\n\nYou will receive a payment link soon."
        ∷ codes "\n\nBest regards,\nEvently Team\n"
        ∷ []);
  }

  -- SendCancellationEmail
  unfoldable pub cancellation_mail : Text → Float64 → Bytes → Mail
  cancellation_mail user_email cancellation_fee link = record {
    to = chars user_email;
    subject = codes "Booking Cancellation - Refund Information";
    body = joined (
        codes "\nDear User,\n\nYour booking has been cancelled.\n\nCancellation Fee: $"
        ∷ print_amount cancellation_fee []
        ∷ codes "\nRefund Link: "
        ∷ link
        ∷ codes "\n\nPlease use the refund link to process your refund."
        ∷ codes "\n\nBest regards,\nEvently Team\n"
        ∷ []);
  }

  -- SendEventCancellationEmail
  unfoldable pub event_cancellation_mail : Text → Text → Float64 → Mail
  event_cancellation_mail user_email event_name refund_amount = record {
    to = chars user_email;
    subject = joined (codes "Event Cancelled: " ∷ chars event_name ∷ []);
    body = joined (
        codes "\nDear User,\n\nWe regret to inform you that the event \""
        ∷ chars event_name
        ∷ codes "\" has been cancelled.\n\nRefund Amount: $"
        ∷ print_amount refund_amount []
        ∷ codes "\n\nYour refund amount arrive shortly."
        ∷ codes "\n\nWe apologize for any inconvenience."
        ∷ codes "\n\nBest regards,\nEvently Team\n"
        ∷ []);
  }

  -- SendPasswordChangeOTPEmail
  unfoldable pub password_change_otp_mail : Text → Text → Mail
  password_change_otp_mail user_email otp = record {
    to = chars user_email;
    subject = codes "Password Change OTP";
    body = joined (
        codes "\nDear User,\n\nYou have requested to change your password.\n\nYour OTP is: "
        ∷ chars otp
        ∷ codes "\n\nThis OTP will expire in 15 minutes."
        ∷ codes "\n\nIf you did not request this change, please ignore this email."
        ∷ codes "\n\nBest regards,\nEvently Team\n"
        ∷ []);
  }

  -- what the services hand to the Send… methods
  unfoldable pub compose : Effect.Mail → Mail
  compose (Effect.payment_request email name amount booking_id) =
      payment_request_mail email name amount (payment_link payment_url (chars booking_id) amount)
  compose (Effect.cancellation email fee booking_id) =
      cancellation_mail email (of_cents fee) (refund_link payment_url (chars booking_id))
  compose (Effect.waitlist_promotion email name) = waitlist_promotion_mail email name
  compose (Effect.event_cancellation email name refund) =
      event_cancellation_mail email name (of_cents refund)
  compose (Effect.password_change_otp email otp) = password_change_otp_mail email otp
