-- ===== src/Consumer.antt =====
-- The consumer of src/application/durable-queue-consumer.ts, over the durable store. Each call of
-- the repository is a transaction of its own: between two of them other consumers and callers may
-- commit theirs. The worker, what others do meanwhile, and the two readings of the clock are
-- parameters.
pub mod Ends
pub mod Progress
use reproforge.Base.{
  ℕ, ◌+◌, ◌*◌, String, Bool, true, false, not, ◌&&◌, ◌||◌, Option, none, some, Outcome, ok, err,
  ◌===◌, if◌then◌else◌,
}
use reproforge.Durable.Rows.{MessageKind, requested, recovery_requested, QueueMessage, Database}
use reproforge.Durable.Records.{DurableError, DurableRecord}
use reproforge.Durable.Writes.{Result}
use reproforge.Durable.Lease.{JobLease, ClaimInput, claim_lease, find_by_lease}
use reproforge.Durable.Cancel.{cancel_lease, is_cancellation_requested}
use reproforge.Durable.Finish.{complete_lease, LeaseFailure, LeaseFailureDisposition, fail_lease}
use reproforge.Outbox.{is_message}
use reproforge.Outbox.Publisher.{delay_seconds}

pub data ConsumeOutcome : Type 0 where
  cancelled completed exhausted ignored requeued : ConsumeOutcome

-- `DurableQueueConsumeResult`
pub record ConsumeResult : Type 0 where
  pub attempt : Option ℕ
  pub outcome : ConsumeOutcome

pub data ConsumerError : Type 0 where
  message_rejected : ConsumerError
  -- "Claimed queue work was unavailable"
  work_unavailable : ConsumerError
  repository_failed : DurableError → ConsumerError

-- `retryAt`
abbrev pub retry_at : ℕ → ℕ → ℕ
retry_at now attempt = now + delay_seconds attempt * 1000

pub record WorkerFailure : Type 0 where
  pub code : String
  pub retryable : Bool

-- `workerFailure`, of the code that the thrown error carries; an error without one has "".
unfoldable pub worker_failure : String → WorkerFailure
worker_failure code =
    if code === "BUDGET_EXHAUSTED" || code === "CANCELLED" || code === "UNSUPPORTED_SOURCE"
    then record { code = code; retryable = false }
    else if code === "EXECUTION_FAILED" || code === "PROVIDER_INTERRUPTED"
    then record { code = code; retryable = true }
    else record { code = "DURABLE_WORKER_FAILED"; retryable = true }

abbrev pub is_work : MessageKind → Bool
is_work requested = true
is_work recovery_requested = true
is_work _ = false

-- The places at which `consume` waits, and others may act.
pub data Moment : Type 0 where
  before_read before_check before_cancel after_work before_settle : Moment

-- `DurableWorker`: its result, or the code of the error that it throws, and the database that it
-- leaves.
abbrev pub Worker : Type 0
Worker =
    JobLease → QueueMessage → DurableRecord → Database → Outcome String DurableRecord × Database

-- What a call of `consume` gives, with the database at its end.
abbrev pub Consumed : Type 0
Consumed = Outcome ConsumerError ConsumeResult × Database

-- A result that names the attempt.
abbrev pub ending : JobLease → ConsumeOutcome → Outcome ConsumerError ConsumeResult
ending l outcome = ok (record { attempt = some l.attempt; outcome = outcome })

abbrev pub outcome_of : LeaseFailureDisposition → ConsumeOutcome
outcome_of LeaseFailureDisposition.cancelled = cancelled
outcome_of LeaseFailureDisposition.exhausted = exhausted
outcome_of LeaseFailureDisposition.requeued = requeued

abbrev pub failure_at : JobLease → ℕ → String → LeaseFailure
failure_at l failed_at code = record {
  at = failed_at;
  code = (worker_failure code).code;
  next_attempt_at = retry_at failed_at l.attempt;
  retryable = (worker_failure code).retryable;
}

abbrev pub claim_for : QueueMessage → ℕ → ℕ → String → ClaimInput
claim_for message at lease_seconds owner_id = record {
  at = at;
  job_id = message.job_id;
  lease_seconds = lease_seconds;
  owner_id = owner_id;
  tenant_id = message.tenant_id;
}

module _ (looks_secret : String → Bool) (worker : Worker)
    (others : Moment → Database → Database) where
  unfoldable pub after_cancel : JobLease → Result DurableRecord → Database → Consumed
  after_cancel l (ok (r, db')) db = (ending l cancelled, db')
  after_cancel l (err e) db = (err (repository_failed e), db)

  unfoldable pub consume_cancel : JobLease → ℕ → Database → Consumed
  unfolding after_cancel cancel_lease
  consume_cancel l at db =
      after_cancel l (cancel_lease looks_secret l at (others before_cancel db))
        (others before_cancel db)

  unfoldable pub after_fail : JobLease → Result LeaseFailureDisposition → Database → Consumed
  after_fail l (ok (d, db')) db = (ending l (outcome_of d), db')
  after_fail l (err e) db = (err (repository_failed e), db)

  unfoldable pub after_complete : JobLease → Result DurableRecord → Database → Consumed
  after_complete l (ok (r, db')) db = (ending l completed, db')
  after_complete l (err e) db = (err (repository_failed e), db)

  -- The last transaction: a failure where the worker threw, a completion where it returned.
  unfoldable pub settle_work : JobLease → ℕ → Outcome String DurableRecord → Database → Consumed
  unfolding after_fail after_complete fail_lease complete_lease worker_failure
  settle_work l ended (ok r) db = after_complete l (complete_lease looks_secret l r db) db
  settle_work l ended (err code) db =
      after_fail l (fail_lease looks_secret l (failure_at l ended code) db) db

  -- What follows the question whether a cancellation was asked.
  unfoldable pub after_check :
      JobLease → ℕ → Outcome DurableError Bool → Database → (Database → Consumed) → Consumed
  unfolding consume_cancel
  after_check l ended (err e) db next = (err (repository_failed e), db)
  after_check l ended (ok true) db next = consume_cancel l ended db
  after_check l ended (ok false) db next = next db

  unfoldable pub finish_work : JobLease → ℕ → Outcome String DurableRecord × Database → Consumed
  unfolding after_check settle_work is_cancellation_requested
  finish_work l ended (result, db) =
      let later = others after_work db in
      after_check l ended (is_cancellation_requested l later) later
        (λ db'. settle_work l ended result (others before_settle db'))

  unfoldable pub consume_read :
      JobLease
      → QueueMessage
      → ℕ
      → Outcome DurableError (Option DurableRecord)
      → Database
      → Consumed
  unfolding after_check finish_work is_cancellation_requested
  consume_read l message ended (err e) db = (err (repository_failed e), db)
  consume_read l message ended (ok none) db = (err work_unavailable, db)
  consume_read l message ended (ok (some r)) db =
      if r.case_id === message.case_id
      then (let later = others before_check db in
          after_check l ended (is_cancellation_requested l later) later
            (λ db'. finish_work l ended (worker l message r db')))
      else (err work_unavailable, db)

  unfoldable pub consume_claimed : QueueMessage → ℕ → Result (Option JobLease) → Database → Consumed
  unfolding consume_read find_by_lease
  consume_claimed message ended (err e) db = (err (repository_failed e), db)
  consume_claimed message ended (ok (none, db')) db =
      (ok (record { attempt = none; outcome = ignored }), db')
  consume_claimed message ended (ok (some l, db')) db =
      let later = others before_read db' in
      consume_read l message ended (find_by_lease looks_secret l later) later

  -- `consume`; `at` and `ended` are the first and the second reading of the clock.
  unfoldable pub consume : ℕ → ℕ → ℕ → String → QueueMessage → Database → Consumed
  unfolding consume_claimed claim_lease
  consume lease_seconds at ended owner_id message db =
      if is_message message
      then (if is_work message.kind
          then consume_claimed message ended
              (claim_lease (claim_for message at lease_seconds owner_id) db) db
          else (ok (record { attempt = none; outcome = ignored }), db))
      else (err message_rejected, db)
