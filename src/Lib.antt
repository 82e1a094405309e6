-- ===== src/Lib.antt =====
-- A model of mailvault, the mail server in Go, and what is proved of it.
--
-- The program takes messages over SMTP, checks what their sender is worth, stores them and reports
-- them by webhooks; it sends messages, retrying those that fail; and it validates the domains of its
-- users by jobs that a pool of workers takes from a queue. The model is of the parts of it that decide
-- something: queues, retries, states and verdicts. What a part calls outside the repository (the
-- database, DNS, HTTP, clocks) is a parameter of the definitions that call it.
--
-- - Base and its children: shared types and lemmas. Numbers are natural numbers; Int64 has the
--   wrap-around of the 64-bit durations of Go, Int the signed ones that never come near a bound.
-- - Backoff: the delays before a retry, which five places compute, app/worker/queue.go,
--   domain/entities/validation.go, internal/webhook/client.go, internal/webhook/async_worker.go and
--   app/worker/email_sender_worker.go. Bounds has the delays before a shift overflows, Overflow those
--   after.
-- - Heap: container/heap of the Go standard library, over an order that is a parameter. The loops
--   take fuel, the length of the list, and each round moves to a parent or to a child, so it suffices.
-- - Queue: the job queues of app/worker/queue.go and app/worker/email_queue.go. Priority, Memory and
--   Email are PriorityQueue, InMemoryQueue and EmailPriorityQueue; a Pop is one pass of its loop, and
--   Waiters has the passes and the sleeping goroutines of several callers. Scheduler is JobScheduler
--   over a record of the queue's operations and laws, which Interface fills with the first two.
-- - Sending: the outgoing messages. Entity is domain/entities/sent_email.go, UseCase is
--   domain/email_sending/usecase.go over a repository and a sender that are parameters. Retry and
--   Outcomes hold what is proved.
-- - Validation: domain/validation/usecase.go, the validation of a domain over its repositories and the
--   DNS service. Outcome is on a store on which no call fails, Safety on any. Checks has the checks of
--   one kind of record and RetryValidation, Retry what they do to a domain, Memory a store for tests.
-- - Dns: domain/validation/dns_service.go over a resolver that is a parameter. Records is on its checks,
--   Verified puts it in the place of the DNS service of Validation.
-- - Domains: domain/domain/usecase.go over its repository and a limiter. Names is isValidDomain and
--   HostName what it accepts; Changes has the writes of each request, Rows and Registry what any sequence
--   of requests does to the table.
-- - Accounts: the users. Users is domain/user/usecase.go, Local the sign-in of
--   domain/auth/local/provider.go over bcrypt and a service of tokens, LogIn what is proved of it.
-- - Encryption: internal/encryption/encryption.go and serialization.go over a curve, a cipher and
--   encodings that are parameters. Keys is the texts of public keys, with what fmt does for them.
-- - Mailbox: the mailboxes and received messages of domain/email/usecase.go over three repositories.
--   Format is its two formats, Addresses and Received its operations; Ownership, Stored and Effects hold
--   what is proved. The goroutines that a message starts are a list of tasks.
-- - Worker: app/worker/email_sender_worker.go over the sending use case, and in Validation
--   app/worker/validation_worker.go, a turn of its loop over a queue and the validation use case. Once is
--   on one SendEmail over a table with unique message ids, Copies on the life of a send job. The life of
--   a job that is retried takes fuel, the attempts that it has left, of which each uses one.
-- - Spf: the SPF check of app/smtp/verification/spf.go over a network that is a parameter. Record
--   reads records and addresses, Verdict evaluates them. The recursion of evaluateSPF is on the levels
--   of includes that are left, 11 less its depth, so it needs no fuel.
-- - Verifier: the verdict on a message. Dmarc is app/smtp/verification/dmarc.go over the lookup of a
--   policy; Risk is app/smtp/verification/verifier.go over the operations of float64, of which Monotone
--   assumes only that sums are ordered as their parts.
-- - Session: app/smtp/session.go over a backend that is a parameter: the verifier's action, the lookups,
--   the encryption and the use case that stores a message. Outcome is on one recipient, Answer on all.
-- - Webhook: Config is the delivery rules and the circuit breaker of
--   domain/entities/webhook_config.go with the filter of internal/webhook/config_loader.go, Client the
--   retry loop of internal/webhook/client.go, on the attempts that are left. Async is
--   internal/webhook/async_worker.go as moves of its goroutines, between waits on a channel, the network
--   or the lock of the counters, in any order. Management is domain/webhook_config/usecase.go over its
--   repositories: Rows makes the rows, UseCase writes them, Trial sends the test deliveries; Log is the
--   store of the audit log, Audits what is proved of it with Found, and Owners is on strangers.
-- - Address: the mail addresses of internal/utils/email.go, as lists of ASCII bytes. Domain is on
--   cleanDomain, RoundTrip on ParseEmailAddress.
--
-- Times are natural numbers, of nanoseconds, and ids are natural numbers, 0 being the nil UUID.
-- Locks are modelled in Waiters and, for the counters, in Async; else each operation holds its lock from
-- its first step to its last. Not modelled are the HTTP API, the SQL, the metrics, the logging and the
-- code that starts and stops, which decide little, DKIM and the parsing and rendering of message bodies,
-- which third-party packages do, the content scores, which are regular expressions, and the statistics.
pub mod Base
pub mod Backoff
pub mod Heap
pub mod Sending
pub mod Queue
pub mod Validation
pub mod Dns
pub mod Spf
pub mod Verifier
pub mod Session
pub mod Mailbox
pub mod Worker
pub mod Webhook
pub mod Address
pub mod Encryption
pub mod Domains
pub mod Accounts
