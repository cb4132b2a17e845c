-- ===== src/Lib.antt =====
-- Reproforge: the core of the reproduction service, and the store that keeps its work durable.
--
-- A user asks for the reproduction of a failure. A case goes through phases, a job does its work,
-- runs of an experiment are judged by a failure oracle, the verification summarizes them, and a
-- minimization chooses a smaller experiment that still fails. The durable store keeps a case and
-- its job in Postgres: a reservation takes the request in under an idempotency key, a worker claims
-- a lease of the job and renews it, and completes, fails or cancels the job with it; expired leases
-- are recovered; an outbox announces the work to a queue, whose consumer claims and settles it; a
-- ledger bounds what a tenant uses. The code of a reproduction may come from a repository that a
-- GitHub installation lets the program read: webhooks tell what has become of it.
--
-- The parts, and the code that each file is about:
-- - Domain/Case: the case and its transitions, src/domain/case.ts (createCase, canTransition,
--   transitionCase). Domain/Case/Trail is about the history.
-- - Domain/Job: the job and its transitions, src/domain/job.ts (createJob, canTransitionJob,
--   transitionJob), and the progress view of src/application/progress.ts.
-- - Domain/Run, Domain/Oracle: runs and oracles, src/domain/run.ts and src/domain/oracle.ts
--   (evaluateExpression, evaluateOracle). Domain/Oracle/Meaning says when a run satisfies an
--   expression.
-- - Domain/Verification: src/domain/verification.ts (verifyReproduction).
-- - Domain/Minimization: src/domain/minimization.ts (minimizeReproduction).
-- - Domain/Host: what the code uses of its JavaScript engine, as a parameter: regular expressions,
--   JSON.parse and JSON.stringify, property lookup and localeCompare.
-- - Durable: the repository of src/infrastructure/postgres/repositories.ts. Table and Rows are the
--   tables, Records the durable record with validateRecord, rowToRecord and the lookups, Writes the
--   statements that transactions share, Lease has claimLease and renewLease, Finish completeLease,
--   failLease and releaseLease, Cancel requestCancellation, cancelLease and isCancellationRequested,
--   Reserve reserve and save, and Recover recoverExpiredLeases. Effects, Steps, Lookups, Endings and
--   Requests say what each successful transaction writes, and History puts the transactions in the
--   order in which they commit. Settlement is about the ledger and the outbox after an end.
-- - Outbox: PostgresOutbox of the same file (append, claimPending, markDelivered, recordFailure), and
--   in Outbox/Publisher the publisher of src/application/outbox-publisher.ts.
-- - Quota: PostgresQuotaLedger of the same file (reserve, commit, release, releaseForJob).
-- - Start: reserveDurableStart of src/application/durable-start.ts, which puts the three together.
-- - Cancellation: requestDurableCancellation of src/application/durable-cancellation.ts.
-- - Consumer: DurableQueueConsumer of src/application/durable-queue-consumer.ts. Each of its calls of
--   the repository is a transaction, and others may commit theirs in between: they are a function on
--   the database for each of these moments. Ends and Ends/Call say how a call ends,
--   and Progress what becomes of a worker that throws.
-- - Audit: auditEventSchema of src/application/ports/production.ts, and PostgresAuditSink.
-- - Github: src/github/authorization-state.ts (Authorization), src/github/installation-state.ts with
--   the table behind it (InstallationState), and PostgresGitHubAuthorizationStore of
--   src/infrastructure/github/postgres-github-authorization-store.ts: Schemas and Rows are its
--   schemas and tables, Webhooks has applyInstallationWebhook, Repositories upsertRepository and
--   applyRepositoryTransition, Reconcile applyRepositoryWebhook, Store processWebhook, Linking bind,
--   and Views findRepository. Effects, Status and Taken say what a webhook does to an installation's
--   row, and Removal what follows for any number of them.
-- - Sandbox: SnapshotRunCoordinator of src/execution/sandbox-lifecycle.ts. The state is what was
--   created, stopped, deleted and quarantined, with the number of calls that were awaited; the
--   retries of a run are a recursion on those that are left. Cleanup is about what an attempt leaves
--   behind, and Bounds about how much it asks for.
-- - Base: the names and the lemmas that these share. Examples: tests.
--
-- How the code is modelled. An instant is its number of milliseconds, as far as the year 9999; a
-- string is a text; counts are natural numbers, with the bounds of the schemas written out. Code that
-- throws gives an Outcome with the error, or none where only a schema's parse throws. A transaction
-- of the repository takes the database and gives its result with the database that it leaves; one
-- that throws leaves no trace, since it is rolled back. The transactions are serializable in the
-- code, so that a history is a sequence of them. An UPDATE with a WHERE clause is a test of the row
-- and its replacement, and the trigger on updated_at an error. The transitions and the version that
-- the other triggers of the table of jobs check, and its constraints on updates, are not guards of
-- the model. An identifier that the code makes by hashing is kept as the data that
-- is hashed. There is no fuel: every recursion is on a list or on the expression of an oracle.
--
-- Parameters: the engine (Domain/Host); looks_secret, the regular expression by which validateRecord
-- refuses failure messages that look like credentials; the consumer's worker, and what others do
-- while it waits; the answers of the sandbox provider, of the runs and of the signal by the number of
-- the call; for GitHub the identifiers that are made, the digests, the encoding of random bytes
-- and the URL of a link; the collation of the database, and the order
-- of the outbox's candidates; and for the publisher the answers of the queue and the readings of the
-- clock. A recovery takes, too, which rows another transaction has locked.
--
-- Not modelled: what a snapshot holds beside case and job, which is one opaque text; the trigger on
-- updated_at of outbox events and the constraint on their timestamps; retention columns;
-- migrations, the database adapters and the retries of serialization failures. A save is modelled
-- but is no step of a history, since it does not ask that the job belong to the case. A reservation
-- is none either: it stores whatever job the record holds. Of GitHub, the paged list of
-- repositories, OAuth, signatures and the clients are not modelled, and a repository that a webhook
-- names is read with the fields of the schema. The other services and workers, the planning of
-- executions and the budgets within a run, identity, the web application and the MCP server are not
-- modelled.
mod Base
pub mod Domain
pub mod Durable
pub mod Outbox
pub mod Consumer
pub mod Quota
pub mod Audit
pub mod Github
pub mod Sandbox
pub mod Start
pub mod Cancellation
mod Examples
