-- ===== src/Durable/Cancel.antt =====
-- Cancellation: the request, the question whether there is one, and its completion by the worker
-- that holds the lease.
use reproforge.Base.{
  ℕ, ◌+◌, String, Bool, true, false, not, ◌&&◌, ◌||◌, Option, none, some, Outcome, ok, err, ◌>>=◌,
  ◌>>◌, require, leb, ◌==◌, ◌===◌, if◌then◌else◌, List, [], ◌∷◌,
}
use reproforge.Domain.Case.{ReproCase, CaseError, CaseState, transition_case}
use reproforge.Domain.Job.{
  JobError, ReproductionJob, running, succeeded, failed, cancelled, same_job_state, transition_job,
  is_some,
}
use reproforge.Durable.Table.{Key, find}
use reproforge.Durable.Rows.{JobRow, CaseRow, IdempotencyRow, Database}
use reproforge.Durable.Records.{
  DurableError, invalid_record, corrupt_record, optimistic_conflict, lease_not_owned,
  schema_rejected, case_refused, job_refused, TenantScope, is_tenant_scope, is_opaque_id,
  DurableRecord, find_by_job_id,
}
use reproforge.Durable.Writes.{
  Result, write_job, write_case, advance_case_version, release_active_job_quota,
}
use reproforge.Durable.Lease.{JobLease, is_lease, owns, lease_key, find_by_lease}

abbrev pub lift_case : Outcome CaseError ReproCase → Outcome DurableError ReproCase
lift_case (ok c) = ok c
lift_case (err e) = err (case_refused e)

abbrev pub lift_job : Outcome JobError ReproductionJob → Outcome DurableError ReproductionJob
lift_job (ok j) = ok j
lift_job (err e) = err (job_refused e)

-- The record with its case and job moved to CANCELLED.
unfoldable pub cancelled_record : DurableRecord → ℕ → Outcome DurableError DurableRecord
unfolding transition_case transition_job
cancelled_record r at = do
  c ← lift_case (transition_case r.snapshot_case CaseState.cancelled "Cancellation requested" at)
  j ← lift_job (
      transition_job r.snapshot_job cancelled
        (record { at = at; failure = none; progress_phase = CaseState.cancelled }))
  ok (record r { snapshot_case = c; snapshot_job = j; updated_at = at })

abbrev pub cancelled_case : DurableRecord → ℕ → CaseRow → CaseRow
cancelled_case r at c = record c {
  state = CaseState.cancelled;
  domain = r.snapshot_case;
  content = r.content;
  updated_at = at;
  version = c.version + 1;
}

abbrev pub cancelled_row : ℕ → JobRow → JobRow
cancelled_row at j = record j {
  state = cancelled;
  progress_phase = CaseState.cancelled;
  cancelled_at = some at;
  lease_owner = none;
  lease_acquired_at = none;
  lease_expires_at = none;
  updated_at = at;
  version = j.version + 1;
}

abbrev pub case_key : DurableRecord → Key
case_key r = record { tenant = r.tenant_id; id = r.case_id }

module _ (looks_secret : String → Bool) where
  unfoldable pub cancel_read :
      JobLease → ℕ → JobRow → Option DurableRecord → Database → Result DurableRecord
  unfolding cancelled_record write_case write_job release_active_job_quota
  cancel_read l at j none db = err lease_not_owned
  cancel_read l at j (some r) db =
      if r.version == j.version
      then (do
        r' ← cancelled_record r at
        saved ←
            write_case (record { tenant = l.tenant_id; id = r.case_id }) j.version
              (cancelled_case r' at) optimistic_conflict db
        written ← write_job (lease_key l) j (cancelled_row at j) saved
        ok (
          record r' { version = j.version + 1 },
          release_active_job_quota l.tenant_id l.job_id at written,
        ))
      else err lease_not_owned

  unfoldable pub cancel_found : JobLease → ℕ → Option JobRow → Database → Result DurableRecord
  unfolding cancel_read find_by_lease
  cancel_found l at none db = err lease_not_owned
  cancel_found l at (some j) db =
      if owns l j && is_some j.cancellation_requested_at && leb 1 j.version
      then (find_by_lease looks_secret l db >>= λ r. cancel_read l at j r db)
      else err lease_not_owned

  -- `cancelLeaseInTransaction`
  unfoldable pub cancel_lease_in_transaction : JobLease → ℕ → Database → Result DurableRecord
  unfolding cancel_found find
  cancel_lease_in_transaction l at db = cancel_found l at (find (lease_key l) db.jobs) db

  -- `cancelLease`
  unfoldable pub cancel_lease : JobLease → ℕ → Database → Result DurableRecord
  unfolding cancel_lease_in_transaction is_lease
  cancel_lease l at db = do
    require (is_lease l) schema_rejected
    require (leb l.acquired_at at) lease_not_owned
    cancel_lease_in_transaction l at db

abbrev asked : JobLease → Option JobRow → Bool
asked l none = false
asked l (some j) = owns l j && is_some j.cancellation_requested_at

-- `isCancellationRequested`
unfoldable pub is_cancellation_requested : JobLease → Database → Outcome DurableError Bool
unfolding is_lease find
is_cancellation_requested l db =
    if is_lease l then ok (asked l (find (lease_key l) db.jobs)) else err schema_rejected

pub data Disposition : Type 0 where
  cancelled_now requested : Disposition

pub record CancellationRequestResult : Type 0 where
  pub case_id : String
  pub changed : Bool
  pub disposition : Disposition

-- A key of the caller for the job, as the join of the request's SELECT asks.
abbrev has_caller : TenantScope → String → List IdempotencyRow → Bool
has_caller scope job_id [] = false
has_caller scope job_id (key ∷ keys) =
    (if key.tenant_id === scope.tenant_id
        && key.job_id === job_id
        && key.caller_id === scope.caller_id
      then true
      else has_caller scope job_id keys)

abbrev pub job_key : TenantScope → String → Key
job_key scope job_id = record { tenant = scope.tenant_id; id = job_id }

abbrev pub requested_row : ℕ → JobRow → JobRow
requested_row at j = record j {
  cancellation_requested_at = some at;
  updated_at = at;
  version = j.version + 1;
}

abbrev pub queued_cancelled_row : ℕ → JobRow → JobRow
queued_cancelled_row at j = record j {
  state = cancelled;
  progress_phase = CaseState.cancelled;
  cancellation_requested_at = some at;
  cancelled_at = some at;
  updated_at = at;
  version = j.version + 1;
}

module _ (looks_secret : String → Bool) where
  -- A running job is marked, and its worker cancels it.
  unfoldable pub request_running :
      TenantScope
      → String
      → ℕ
      → JobRow
      → DurableRecord
      → Database
      → Result (Option CancellationRequestResult)
  unfolding write_job advance_case_version
  request_running scope job_id at j r db = do
    written ← write_job (job_key scope job_id) j (requested_row at j) db
    advanced ←
        advance_case_version (record { tenant = scope.tenant_id; id = r.case_id }) r.version at
          written
    ok (some (record { case_id = r.case_id; changed = true; disposition = requested }), advanced)

  -- A queued job is cancelled at once.
  unfoldable pub request_queued :
      TenantScope
      → String
      → ℕ
      → JobRow
      → DurableRecord
      → Database
      → Result (Option CancellationRequestResult)
  unfolding cancelled_record write_case write_job release_active_job_quota
  request_queued scope job_id at j r db = do
    r' ← cancelled_record r at
    saved ←
        write_case (record { tenant = scope.tenant_id; id = r.case_id }) r.version
          (cancelled_case r' at) optimistic_conflict db
    written ← write_job (job_key scope job_id) j (queued_cancelled_row at j) saved
    ok (
      some (record { case_id = r.case_id; changed = true; disposition = cancelled_now }),
      release_active_job_quota scope.tenant_id job_id at written,
    )

  abbrev pub request_read :
      TenantScope
      → String
      → ℕ
      → JobRow
      → Option DurableRecord
      → Database
      → Result (Option CancellationRequestResult)
  request_read scope job_id at j none db = err corrupt_record
  request_read scope job_id at j (some r) db =
      if r.version == j.version
      then (if leb r.created_at at
          then (if same_job_state j.state running
              then request_running scope job_id at j r db
              else request_queued scope job_id at j r db)
          else err invalid_record)
      else err corrupt_record

  unfoldable pub request_found :
      TenantScope
      → String
      → ℕ
      → Option JobRow
      → Database
      → Result (Option CancellationRequestResult)
  unfolding request_running request_queued find_by_job_id
  request_found scope job_id at none db = ok (none, db)
  request_found scope job_id at (some j) db =
      if not (has_caller scope job_id db.idempotency_keys)
      then ok (none, db)
      else if same_job_state j.state cancelled
      then ok
          (some (record { case_id = j.case_id; changed = false; disposition = cancelled_now }), db)
      else if same_job_state j.state running && is_some j.cancellation_requested_at
      then ok (some (record { case_id = j.case_id; changed = false; disposition = requested }), db)
      else if same_job_state j.state succeeded || same_job_state j.state failed
      then ok (none, db)
      else (find_by_job_id looks_secret scope job_id db >>= λ r.
          request_read scope job_id at j r db)

  -- `requestCancellation`
  unfoldable pub request_cancellation :
      TenantScope → String → ℕ → Database → Result (Option CancellationRequestResult)
  unfolding request_found is_opaque_id find
  request_cancellation scope job_id at db = do
    require (is_tenant_scope scope) schema_rejected
    require (is_opaque_id job_id) invalid_record
    request_found scope job_id at (find (job_key scope job_id) db.jobs) db
