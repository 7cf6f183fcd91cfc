-- ===== src/Smtp/Headers.antt =====
-- What a reader of mails finds in a message of Send.
use lewly_pgpyewj.Prelude.{
  ◌≡◌, refl, ◌∙◌, ap, true, false, Bool, List, [], ◌∷◌, ◌++◌, ◌==◌, if◌then◌else◌,
}
use lewly_pgpyewj.Prelude.Codes.{Bytes, codes, Lacks}
use mathlib.Core.List.{append-nil, append_assoc}
use lewly_pgpyewj.Smtp.{Mail, message}

-- a line without the CR at its end
unfoldable pub drop_cr : Bytes → Bytes
drop_cr [] = []
drop_cr (c ∷ []) = if c == 13 then [] else c ∷ []
drop_cr (c ∷ d ∷ s) = c ∷ drop_cr (d ∷ s)

abbrev is_blank : Bytes → Bool
is_blank [] = true
is_blank (c ∷ s) = false

abbrev with_line : Bytes → List Bytes × Bytes → List Bytes × Bytes
with_line line (lines, body) = (line ∷ lines, body)

-- RFC 5322: the header lines, and the body after the first blank line; `line` is what has been read
-- of the current line
unfoldable pub read_message : Bytes → Bytes → List Bytes × Bytes
unfolding drop_cr
read_message line [] = (line ∷ [], [])
read_message line (c ∷ s) =
    let more = read_message (line ++ c ∷ []) s in
    let rest = read_message [] s in
    if c == 10
    then (if is_blank (drop_cr line) then ([], s) else with_line (drop_cr line) rest)
    else more

drop_cr-append : (s : Bytes) → drop_cr (s ++ 13 ∷ []) ≡ s
unfolding drop_cr
drop_cr-append [] = refl
drop_cr-append (c ∷ []) = refl
drop_cr-append (c ∷ d ∷ s) = ap (λ (t : Bytes). c ∷ t) (drop_cr-append (d ∷ s))

line_end :
    (line s t : Bytes)
    → Lacks 10 s
    → read_message line (s ++ (codes "\r\n" ++ t))
      ≡ (if is_blank (line ++ s) then ([], t) else with_line (line ++ s) (read_message [] t))
unfolding read_message
line_end line [] t h = rw (drop_cr-append line, append-nil line) refl
line_end line (x ∷ s) t (hx, hs) =
    rw hx (line_end (line ++ x ∷ []) s t hs ∙ rw (append_assoc line (x ∷ []) s) refl)

-- If the sender, the recipient and the subject have no line feed in them, a reader of the message
-- finds exactly five header lines, the From, the To and the Subject with those texts and the two on
-- MIME, and the body as it was given.
pub read-message :
    (from : Bytes) (m : Mail)
    → Lacks 10 from
    → Lacks 10 m.to
    → Lacks 10 m.subject
    → read_message [] (message from m) ≡ (
      (codes "From: " ++ from)
          ∷ (codes "To: " ++ m.to)
          ∷ (codes "Subject: " ++ m.subject)
          ∷ codes "MIME-Version: 1.0"
          ∷ codes "Content-Type: text/plain; charset=\"utf-8\""
          ∷ [],
      m.body,
    )
unfolding read_message message drop_cr
read-message from m hf ht hs =
    line_end (codes "From: ") from _ hf
    ∙ ap (with_line (codes "From: " ++ from)) (
        line_end (codes "To: ") m.to _ ht
        ∙ ap (with_line (codes "To: " ++ m.to)) (
            line_end (codes "Subject: ") m.subject _ hs
            ∙ ap (with_line (codes "Subject: " ++ m.subject)) (
                ap
                  (λ (s : Bytes). (
                    codes "MIME-Version: 1.0"
                        ∷ codes "Content-Type: text/plain; charset=\"utf-8\""
                        ∷ [],
                    s,
                  ))
                  (append-nil m.body))))
