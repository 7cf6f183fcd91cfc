-- ===== src/Smtp.antt =====
-- internal/mailer/mailer.go: the message that SMTPSender.Send hands to net/smtp.
pub mod Headers
use lewly_pgpyewj.Prelude.{[], ◌∷◌}
use lewly_pgpyewj.Prelude.Codes.{Bytes, codes, joined}

pub record Mail : Type 0 where
  pub to : Bytes
  pub subject : Bytes
  pub body : Bytes

-- the bytes of Send, from the header lines to the body
unfoldable pub message : Bytes → Mail → Bytes
message from m = joined (
    codes "From: "
    ∷ from
    ∷ codes "\r\n"
    ∷ codes "To: "
    ∷ m.to
    ∷ codes "\r\n"
    ∷ codes "Subject: "
    ∷ m.subject
    ∷ codes "\r\n"
    ∷ codes "MIME-Version: 1.0\r\n"
    ∷ codes "Content-Type: text/plain; charset=\"utf-8\"\r\n"
    ∷ codes "\r\n"
    ∷ m.body
    ∷ [])
