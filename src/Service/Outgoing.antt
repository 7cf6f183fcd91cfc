-- ===== src/Service/Outgoing.antt =====
-- What the services send: internal/kafka/producer.go, consumer.go and internal/service/mailer/mailer.go.
use lewly_pgpyewj.Prelude.{some, [], ◌∷◌, ◌++◌, Uuid}
use lewly_pgpyewj.Effect.{ok, Message, FinalizePayload, Mail, Exec, call}

-- Producer.Publish on the topic "bookings"; json.Marshal of a payload does not fail
unfoldable pub publish : Uuid → FinalizePayload → Exec (Unit {0})
publish key payload = call (λ w. (
  ok tt,
  record w { published = w.published ++ record { key = key; value = some payload } ∷ [] },
))

-- Producer.Publish on the topic "bookings-dlq"
unfoldable pub publish_dead : Message → Exec (Unit {0})
publish_dead m = call (λ w. (ok tt, record w { dead_letters = w.dead_letters ++ m ∷ [] }))

-- Consumer.Commit: the offset of a message; the group's offsets are kept by Kafka
unfoldable pub commit : Message → Exec (Unit {0})
commit m = call (λ w. (ok tt, w))

-- the five Send… methods of MailerService
unfoldable pub send : Mail → Exec (Unit {0})
send m = call (λ w. (ok tt, record w { mails = w.mails ++ m ∷ [] }))
