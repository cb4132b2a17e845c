-- ===== src/Durable/Reserve.antt =====
-- `reserve`, which takes a new reproduction in under the caller's idempotency key, and `save`, of
-- src/infrastructure/postgres/repositories.ts.
pub mod Once
use reproforge.Base.{
  ℕ, ◌+◌, String, Bool, true, false, not, ◌&&◌, ◌||◌, Option, none, some, List, [], ◌∷◌, ◌++◌,
  Outcome, ok, err, ◌>>=◌, ◌>>◌, require, leb, ◌==◌, ◌===◌, has_text, exists, if◌then◌else◌,
}
use reproforge.Domain.Case.{CaseState-discrete, same_case_state}
use reproforge.Domain.Job.{JobState, queued, same_job_state, is_some}
use reproforge.Durable.Table.{Key, find, put}
use reproforge.Durable.Rows.{JobRow, CaseRow, IdempotencyRow, Database}
use reproforge.Durable.Records.{
  DurableError, invalid_record, optimistic_conflict, insert_refused, TenantScope, DurableRecord,
  validate_record, find_by_idempotency_key,
}
use reproforge.Durable.Writes.{Result, write_job, write_case}
use reproforge.Durable.Finish.{code_of, message_of, retryable_of, completed_case}

pub record ReservationResult : Type 0 where
  pub created : Bool
  pub stored : DurableRecord

abbrev pub scope_of : DurableRecord → TenantScope
scope_of r = record { caller_id = r.caller_id; principal_id = r.caller_id; tenant_id = r.tenant_id }

abbrev pub key_row : DurableRecord → IdempotencyRow
key_row r = record {
  tenant_id = r.tenant_id;
  caller_id = r.caller_id;
  idempotency_key = r.idempotency_key;
  command_hash = r.command_hash;
  case_id = r.case_id;
  job_id = r.job_id;
}

abbrev pub new_case : DurableRecord → CaseRow
new_case r = record {
  state = r.snapshot_case.state;
  domain = r.snapshot_case;
  content = r.content;
  version = 1;
  created_at = r.created_at;
  updated_at = r.updated_at;
}

abbrev pub new_job : DurableRecord → JobRow
new_job r = record {
  case_id = r.case_id;
  state = r.snapshot_job.state;
  progress_phase = r.snapshot_job.progress_phase;
  attempt = r.snapshot_job.attempt;
  max_attempts = 3;
  next_attempt_at = r.created_at;
  lease_owner = none;
  lease_acquired_at = none;
  lease_expires_at = none;
  cancellation_requested_at = none;
  cancelled_at = none;
  failure_code = code_of r.snapshot_job.failure;
  failure_message = message_of r.snapshot_job.failure;
  failure_retryable = retryable_of r.snapshot_job.failure;
  version = 1;
  created_at = r.snapshot_job.created_at;
  updated_at = r.snapshot_job.updated_at;
}

abbrev pub case_key_of : DurableRecord → Key
case_key_of r = record { tenant = r.tenant_id; id = r.case_id }

abbrev pub job_key_of : DurableRecord → Key
job_key_of r = record { tenant = r.tenant_id; id = r.job_id }

-- The primary key of the table of idempotency keys.
abbrev pub has_key : DurableRecord → IdempotencyRow → Bool
has_key r key =
    key.tenant_id === r.tenant_id
    && key.caller_id === r.caller_id
    && key.idempotency_key === r.idempotency_key

-- What the tables ask of the three inserts: new primary keys, the constraints
-- `jobs_attempt_bounds` and `jobs_timestamp_order`, and the trigger on the cancellation columns,
-- which the record's own checks do not imply.
unfoldable pub can_insert : DurableRecord → Database → Bool
unfolding find
can_insert r db =
    not (is_some (find (case_key_of r) db.cases))
    && not (is_some (find (job_key_of r) db.jobs))
    && not (exists (has_key r) db.idempotency_keys)
    && leb r.snapshot_job.attempt 3
    && leb r.snapshot_job.created_at r.snapshot_job.updated_at
    && not (same_job_state r.snapshot_job.state JobState.cancelled)

abbrev pub inserted : DurableRecord → Database → Database
inserted r db = record db {
  cases = put (case_key_of r) (new_case r) db.cases;
  jobs = put (job_key_of r) (new_job r) db.jobs;
  idempotency_keys = db.idempotency_keys ++ key_row r ∷ [];
}

unfoldable pub reserve_new :
    DurableRecord → Option DurableRecord → Database → Result ReservationResult
unfolding can_insert put
reserve_new r (some stored) db = ok (record { created = false; stored = stored }, db)
reserve_new r none db =
    if can_insert r db
    then ok (record { created = true; stored = r }, inserted r db)
    else err insert_refused

abbrev saved_row : DurableRecord → JobRow → JobRow
saved_row r j = record j {
  failure_code = code_of r.snapshot_job.failure;
  failure_message = message_of r.snapshot_job.failure;
  failure_retryable = retryable_of r.snapshot_job.failure;
  updated_at = r.updated_at;
  version = j.version + 1;
}

-- The WHERE clause of the update of the job: the saved record may not move it.
abbrev is_savable : DurableRecord → ℕ → JobRow → Bool
is_savable r expected_version j =
    j.version == expected_version
    && same_job_state j.state r.snapshot_job.state
    && same_case_state j.progress_phase r.snapshot_job.progress_phase
    && j.attempt == r.snapshot_job.attempt
    && not (is_some j.lease_owner)

unfoldable pub save_found : DurableRecord → ℕ → Option JobRow → Database → Result DurableRecord
unfolding write_job
save_found r expected_version none db = err optimistic_conflict
save_found r expected_version (some j) db =
    if is_savable r expected_version j
    then (do
      written ← write_job (job_key_of r) j (saved_row r j) db
      ok (record r { version = expected_version + 1 }, written))
    else err optimistic_conflict

module _ (looks_secret : String → Bool) where
  -- `reserve`
  unfoldable pub reserve : DurableRecord → Database → Result ReservationResult
  unfolding validate_record find_by_idempotency_key reserve_new
  reserve raw db = do
    r ← validate_record looks_secret true raw
    require (has_text db.active_tenants r.tenant_id) invalid_record
    existing ← find_by_idempotency_key looks_secret (scope_of r) r.idempotency_key db
    reserve_new r existing db

  -- `save`
  unfoldable pub save : DurableRecord → ℕ → Database → Result DurableRecord
  unfolding validate_record write_case save_found find
  save raw expected_version db = do
    r ← validate_record looks_secret false raw
    require (r.version == expected_version && leb 1 expected_version) optimistic_conflict
    require (same_job_state r.snapshot_job.state queued) optimistic_conflict
    saved ← write_case (case_key_of r) expected_version (completed_case r) optimistic_conflict db
    save_found r expected_version (find (job_key_of r) saved.jobs) saved
