-- ===== src/Service/Mailer/Link.antt =====
-- The payment link is followed: what the handler of GET /v1/payment/booking finds in its query.
use lewly_pgpyewj.Prelude.{
  ◌≡◌, refl, ap, ◌∙◌, arith, Option, none, some, List, [], ◌∷◌, ◌++◌, ◌==◌, if◌then◌else◌,
}
use mathlib.Core.List.{append-nil}
use lewly_pgpyewj.Prelude.Int.{ℤ}
use lewly_pgpyewj.Prelude.Float.{Float64, to_cents}
use lewly_pgpyewj.Prelude.Codes.{
  Bytes, codes, Lacks, Lacks-append, split_on, split_on-append, split_on-last,
}
use lewly_pgpyewj.Service.Mailer.{payment_link}
use lewly_pgpyewj.Service.Mailer.Money.{
  print_amount, decimal_cents, decimal_cents-print_amount, print_amount-Lacks,
}

-- net/url: the query of a URL is what follows the first question mark
unfoldable pub query_of : Bytes → Bytes
query_of [] = []
query_of (c ∷ s) = if c == b'?' then s else query_of s

-- what is left of `s` after the prefix `p`
unfoldable pub after_prefix : Bytes → Bytes → Option Bytes
after_prefix [] s = some s
after_prefix (c ∷ p) [] = none
after_prefix (c ∷ p) (x ∷ s) = if x == c then after_prefix p s else none

abbrev or_else : Option Bytes → Option Bytes → Option Bytes
or_else none o = o
or_else (some s) o = some s

abbrev first_value : Bytes → List Bytes → Option Bytes
first_value p [] = none
first_value p (s ∷ ss) = or_else (after_prefix p s) (first_value p ss)

-- gin's c.Query: the first value of a parameter, for values that nothing was escaped in
unfoldable pub query_value : Bytes → Bytes → Option Bytes
query_value name url = first_value (name ++ codes "=") (split_on b'&' (query_of url))

query_of-append : (s t : Bytes) → Lacks b'?' s → query_of (s ++ t) ≡ query_of t
unfolding query_of
query_of-append [] t h = refl
query_of-append (c ∷ s) t (hc, hs) = rw hc (query_of-append s t hs)

-- the parameters of the payment link
link_fields :
    (payment_url id : Bytes) (amount : Float64)
    → Lacks b'?' payment_url
    → Lacks b'&' id
    → split_on b'&' (query_of (payment_link payment_url id amount))
      ≡ (codes "booking_id=" ++ id)
        ∷ (codes "amount=" ++ print_amount amount [])
        ∷ (codes "payment_id=" ++ (id ++ []))
        ∷ []
unfolding payment_link query_of
link_fields payment_url id amount hu hid =
    ap (split_on b'&') (query_of-append payment_url _ hu)
    ∙ split_on-append b'&' (codes "booking_id=" ++ id) _
        (Lacks-append b'&' (codes "booking_id=") id (ground arith) hid)
    ∙ ap (λ (ss : List Bytes). (codes "booking_id=" ++ id) ∷ ss)
        (split_on-append b'&' (codes "amount=" ++ print_amount amount []) _ (
            Lacks-append b'&' (codes "amount=") _ (ground arith)
              (print_amount-Lacks b'&' amount (omega arith)))
          ∙ ap (λ (ss : List Bytes). (codes "amount=" ++ print_amount amount []) ∷ ss)
              (split_on-last b'&' (codes "payment_id=" ++ (id ++ [])) (
                Lacks-append b'&' (codes "payment_id=") _ (ground arith)
                  (Lacks-append b'&' id [] hid tt))))

abbrev pub amount_read : Option Bytes → Option ℤ
amount_read none = none
amount_read (some s) = decimal_cents s

-- Whoever follows a payment link names the booking that the link was made for and the amount that it
-- was made for, as far as two digits go: where PAYMENT_URL has no question mark and the id no
-- ampersand, the query of the link holds the id twice, and a decimal that stands for the cents that
-- are nearest to the amount.
pub payment_link-read :
    (payment_url id : Bytes) (amount : Float64)
    → Lacks b'?' payment_url
    → Lacks b'&' id
    → let link = payment_link payment_url id amount in
      (query_value (codes "booking_id") link ≡ some id)
      × (amount_read (query_value (codes "amount") link) ≡ some (to_cents amount))
      × (query_value (codes "payment_id") link ≡ some id)
unfolding query_value after_prefix
payment_link-read payment_url id amount hu hid =
    rw (link_fields payment_url id amount hu hid)
      (refl, decimal_cents-print_amount amount, ap some (append-nil id))
