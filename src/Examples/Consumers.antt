-- ===== src/Examples/Consumers.antt =====
-- A consumer at work on the reproduction of the other examples.
use reproforge.Base.{◌≡◌, refl, ◌+◌, String, true, false, some, Outcome, ok, err}
use reproforge.Domain.Case.{CaseState-discrete}
use reproforge.Domain.Job.{JobState-discrete, running}
use reproforge.Durable.Table.{find}
use reproforge.Durable.Rows.{JobRow, QueueMessage, named, requested, Database}
use reproforge.Durable.Records.{DurableRecord}
use reproforge.Durable.Lease.{JobLease, claim_lease, find_by_lease}
use reproforge.Durable.Cancel.{is_cancellation_requested}
use reproforge.Base.{is_sha256}
use reproforge.Durable.Records.{is_opaque_id, parses, agrees}
use reproforge.Durable.Reserve.{reserve}
use reproforge.Outbox.{is_message}
use reproforge.Consumer.{requeued, ConsumeResult, Consumed, Moment, consume}
use reproforge.Consumer.Ends.{Ended, message_key}
use reproforge.Consumer.Ends.Call.{consume-Ended}
use reproforge.Consumer.Progress.Thrown.{failure_outcome, thrown_work-ends}
use reproforge.Examples.Store.{looks_clean, ticket, waiting, at_work, lease, claimed_once}

abbrev job_message : QueueMessage
job_message = record {
  case_id = "case";
  event_id = named "event";
  job_id = "job";
  kind = requested;
  tenant_id = "acme";
}

abbrev breaks :
    JobLease → QueueMessage → DurableRecord → Database → Outcome String DurableRecord × Database
breaks l m r db = (err "EXECUTION_FAILED", db)

abbrev idle : Moment → Database → Database
idle m db = db

abbrev consumed : Consumed
consumed = consume looks_clean breaks idle 60 10 30 "one" job_message waiting

abbrev first_result : ConsumeResult
first_result = record { attempt = some 1; outcome = requeued }

consumed_first : consumed ≡ (ok first_result, consumed.1)
unfolding consume claim_lease reserve parses is_opaque_id agrees is_sha256 CaseState-discrete
    JobState-discrete
consumed_first = refl

consume-Ended_example : Ended (message_key job_message) requeued 30 1 consumed.1
consume-Ended_example =
    consume-Ended looks_clean breaks idle job_message 30 60 10 "one" waiting consumed.1 first_result
      1 consumed_first refl

abbrev work_record : DurableRecord
work_record = record ticket {
  snapshot_job = record ticket.snapshot_job { attempt = 1; state = running; updated_at = 10 };
  updated_at = 10;
  version = 2;
}

read_work : find_by_lease looks_clean (lease 10 1 "one") at_work ≡ ok (some work_record)
unfolding find_by_lease claim_lease reserve parses is_opaque_id agrees is_sha256 CaseState-discrete
    JobState-discrete
read_work = refl

unasked : is_cancellation_requested (lease 10 1 "one") at_work ≡ ok false
unfolding is_cancellation_requested claim_lease reserve parses is_opaque_id agrees is_sha256
    CaseState-discrete JobState-discrete
unasked = refl

good_message : is_message job_message ≡ true
unfolding is_opaque_id
good_message = refl

thrown_work-ends_example :
    (j : JobRow) × (find (message_key job_message) waiting.jobs ≡ some j)
    × (consumed.0
        ≡ ok (record {
          attempt = some (j.attempt + 1);
          outcome = failure_outcome "EXECUTION_FAILED" j;
        }))
thrown_work-ends_example =
    thrown_work-ends looks_clean breaks idle 60 10 30 "one" "EXECUTION_FAILED" job_message waiting
      at_work (lease 10 1 "one") work_record good_message refl claimed_once read_work refl unasked
      refl (λ m. refl) refl
