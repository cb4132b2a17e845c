-- ===== src/Durable/Finish.antt =====
-- How a lease ends: with a result, with a failure, or by running out.
use reproforge.Base.{
  ℕ, ◌+◌, String, Bool, true, false, not, ◌&&◌, ◌||◌, Option, none, some, Outcome, ok, err, ◌>>=◌,
  ◌>>◌, require, leb, ltb, ◌==◌, ◌===◌, if◌then◌else◌,
}
use reproforge.Domain.Case.{CaseState, same_case_state}
use reproforge.Domain.Job.{queued, succeeded, failed, same_job_state, JobFailure, is_some}
use reproforge.Durable.Table.{find}
use reproforge.Durable.Rows.{
  JobRow, CaseRow, recovery_requested, recovery, OutboxRow, pending, Database,
}
use reproforge.Durable.Records.{
  DurableError, invalid_record, optimistic_conflict, lease_not_owned, schema_rejected,
  DurableRecord, validate_record, is_failure_code,
}
use reproforge.Durable.Writes.{
  Result, write_job, write_case, advance_case_version, release_active_job_quota,
  insert_event_if_new,
}
use reproforge.Durable.Lease.{JobLease, is_lease, owns, lease_key}
use reproforge.Durable.Cancel.{cancel_lease_in_transaction}

abbrev pub claims_verified : DurableRecord → Bool
claims_verified r =
    same_job_state r.snapshot_job.state succeeded
    && (same_case_state r.snapshot_case.state CaseState.verified
        || same_case_state r.snapshot_job.progress_phase CaseState.verified)

abbrev pub code_of : Option JobFailure → Option String
code_of none = none
code_of (some f) = some f.code

abbrev pub message_of : Option JobFailure → Option String
message_of none = none
message_of (some f) = some f.message

abbrev pub retryable_of : Option JobFailure → Option Bool
retryable_of none = none
retryable_of (some f) = some f.retryable

abbrev pub completed_row : DurableRecord → JobRow → JobRow
completed_row r j = record j {
  state = r.snapshot_job.state;
  progress_phase = r.snapshot_job.progress_phase;
  failure_code = code_of r.snapshot_job.failure;
  failure_message = message_of r.snapshot_job.failure;
  failure_retryable = retryable_of r.snapshot_job.failure;
  lease_owner = none;
  lease_acquired_at = none;
  lease_expires_at = none;
  updated_at = r.updated_at;
  version = j.version + 1;
}

abbrev pub completed_case : DurableRecord → CaseRow → CaseRow
completed_case r c = record c {
  state = r.snapshot_case.state;
  domain = r.snapshot_case;
  content = r.content;
  updated_at = r.updated_at;
  version = c.version + 1;
}

-- The WHERE clause of the update that completes the job.
abbrev pub is_completable : JobLease → DurableRecord → JobRow → Bool
is_completable l r j =
    j.version == r.version
    && owns l j
    && j.case_id === r.case_id
    && j.attempt == r.snapshot_job.attempt
    && not (is_some j.cancellation_requested_at)

unfoldable pub complete_found :
    JobLease → DurableRecord → Option JobRow → Database → Result DurableRecord
unfolding write_job release_active_job_quota
complete_found l r none db = err lease_not_owned
complete_found l r (some j) db =
    if is_completable l r j
    then (do
      written ← write_job (lease_key l) j (completed_row r j) db
      ok (
        record r { version = r.version + 1 },
        release_active_job_quota l.tenant_id l.job_id r.updated_at written,
      ))
    else err lease_not_owned

-- What the lease and the record must agree on.
abbrev pub fits_lease : JobLease → DurableRecord → Bool
fits_lease l r =
    r.tenant_id === l.tenant_id
    && r.job_id === l.job_id
    && r.snapshot_job.attempt == l.attempt
    && (same_job_state r.snapshot_job.state succeeded || same_job_state r.snapshot_job.state failed)

module _ (looks_secret : String → Bool) where
  -- `completeLease`
  unfoldable pub complete_lease : JobLease → DurableRecord → Database → Result DurableRecord
  unfolding complete_found validate_record is_lease write_case find
  complete_lease l raw db = do
    require (is_lease l) schema_rejected
    r ← validate_record looks_secret false raw
    require (fits_lease l r) lease_not_owned
    require
        (not (claims_verified r)
          || is_some (find (record { tenant = r.tenant_id; id = r.case_id }) db.bundles))
        invalid_record
    saved ←
        write_case (record { tenant = r.tenant_id; id = r.case_id }) r.version (completed_case r)
          optimistic_conflict db
    complete_found l r (find (lease_key l) saved.jobs) saved

pub data LeaseFailureDisposition : Type 0 where
  cancelled exhausted requeued : LeaseFailureDisposition

pub record LeaseFailure : Type 0 where
  pub at : ℕ
  pub code : String
  pub next_attempt_at : ℕ
  pub retryable : Bool

abbrev pub requeues : LeaseFailure → JobRow → Bool
requeues failure j = failure.retryable && ltb j.attempt j.max_attempts

abbrev pub failed_code : LeaseFailure → Bool → Option String
failed_code failure requeue =
    if requeue
    then none
    else some (if failure.retryable then "JOB_RETRY_EXHAUSTED" else failure.code)

abbrev pub failed_message : LeaseFailure → Bool → Option String
failed_message failure requeue =
    if requeue
    then none
    else some (
        if failure.retryable
        then "The durable worker exhausted its retry budget"
        else "The durable worker failed safely")

abbrev pub failed_row : LeaseFailure → JobRow → JobRow
failed_row failure j =
    let requeue = requeues failure j in
    record j {
      state = if requeue then queued else failed;
      next_attempt_at = failure.next_attempt_at;
      lease_owner = none;
      lease_acquired_at = none;
      lease_expires_at = none;
      failure_code = failed_code failure requeue;
      failure_message = failed_message failure requeue;
      failure_retryable = if requeue then none else some false;
      updated_at = failure.at;
      version = j.version + 1;
    }

abbrev pub recovery_event : JobLease → LeaseFailure → JobRow → OutboxRow
recovery_event l failure j = record {
  message = record {
    case_id = j.case_id;
    event_id = recovery l.tenant_id l.job_id l.attempt;
    job_id = l.job_id;
    kind = recovery_requested;
    tenant_id = l.tenant_id;
  };
  status = pending;
  delivery_count = 0;
  next_attempt_at = failure.next_attempt_at;
  claim_owner = none;
  claim_expires_at = none;
  delivered_at = none;
  provider_message_id = none;
  last_error_code = none;
  created_at = failure.at;
  updated_at = failure.at;
  version = 1;
}

-- A retry is announced by an event; a job that is over gives its quota back.
unfoldable pub settle :
    JobLease → LeaseFailure → JobRow → Database → LeaseFailureDisposition × Database
unfolding insert_event_if_new release_active_job_quota
settle l failure j db =
    if requeues failure j
    then (requeued, insert_event_if_new (recovery_event l failure j) db)
    else (exhausted, release_active_job_quota l.tenant_id l.job_id failure.at db)

module _ (looks_secret : String → Bool) where
  unfoldable pub fail_owned :
      JobLease → LeaseFailure → JobRow → Database → Result LeaseFailureDisposition
  unfolding cancel_lease_in_transaction write_job advance_case_version settle
  fail_owned l failure j db =
      if is_some j.cancellation_requested_at
      then (cancel_lease_in_transaction looks_secret l failure.at db >>= λ (_, db').
          ok (cancelled, db'))
      else (do
        written ← write_job (lease_key l) j (failed_row failure j) db
        advanced ←
            advance_case_version (record { tenant = l.tenant_id; id = j.case_id }) j.version
              failure.at written
        ok (settle l failure j advanced))

  unfoldable pub fail_found :
      JobLease → LeaseFailure → Option JobRow → Database → Result LeaseFailureDisposition
  unfolding fail_owned
  fail_found l failure none db = err lease_not_owned
  fail_found l failure (some j) db =
      if owns l j then fail_owned l failure j db else err lease_not_owned

  -- `failLease`
  unfoldable pub fail_lease : JobLease → LeaseFailure → Database → Result LeaseFailureDisposition
  unfolding fail_found is_lease is_failure_code find
  fail_lease l failure db = do
    require (is_lease l) schema_rejected
    require
        (leb l.acquired_at failure.at
          && leb failure.at failure.next_attempt_at
          && is_failure_code failure.code)
        lease_not_owned
    fail_found l failure (find (lease_key l) db.jobs) db

  -- `releaseLease`
  unfoldable pub release_lease : JobLease → ℕ → ℕ → Database → Outcome DurableError Database
  unfolding fail_lease
  release_lease l at next_attempt_at db =
      fail_lease l
        (record {
          at = at;
          code = "LEASE_RELEASED";
          next_attempt_at = next_attempt_at;
          retryable = true;
        })
        db
      >>= λ (_, db'). ok db'
