-- ===== src/Durable/Lease.antt =====
-- Claiming and renewing the lease of a job.
use reproforge.Base.{
  ℕ, ◌+◌, ◌*◌, String, Bool, false, ◌&&◌, ◌||◌, Option, none, some, Outcome, ok, err, ◌>>=◌, ◌>>◌,
  require, ltb, leb, ◌==◌, ◌===◌, has_text, if◌then◌else◌,
}
use reproforge.Domain.Case.{is_datetime}
use reproforge.Domain.Job.{queued, running, same_job_state}
use reproforge.Durable.Table.{Key, find}
use reproforge.Durable.Rows.{JobRow, Database}
use reproforge.Durable.Records.{
  DurableError, lease_not_owned, schema_rejected, DurableRecord, is_opaque_id, find_record,
}
use reproforge.Durable.Writes.{Result, write_job, advance_case_version}

pub record JobLease : Type 0 where
  pub acquired_at : ℕ
  pub attempt : ℕ
  pub expires_at : ℕ
  pub job_id : String
  pub owner_id : String
  pub tenant_id : String

-- `jobLeaseSchema`
unfoldable pub is_lease : JobLease → Bool
is_lease l =
    is_datetime l.acquired_at
    && leb 1 l.attempt
    && leb l.attempt 100
    && is_datetime l.expires_at
    && is_opaque_id l.job_id
    && is_opaque_id l.owner_id
    && is_opaque_id l.tenant_id
    && ltb l.acquired_at l.expires_at

abbrev pub same_owner : Option String → String → Bool
same_owner none s = false
same_owner (some t) s = t === s

abbrev pub same_time : Option ℕ → ℕ → Bool
same_time none n = false
same_time (some m) n = m == n

abbrev pub lease_key : JobLease → Key
lease_key l = record { tenant = l.tenant_id; id = l.job_id }

-- The condition by which every statement finds the row that a lease holds.
abbrev pub owns : JobLease → JobRow → Bool
owns l j =
    same_job_state j.state running
    && same_owner j.lease_owner l.owner_id
    && j.attempt == l.attempt
    && same_time j.lease_acquired_at l.acquired_at
    && same_time j.lease_expires_at l.expires_at

pub record ClaimInput : Type 0 where
  pub at : ℕ
  pub job_id : String
  pub lease_seconds : ℕ
  pub owner_id : String
  pub tenant_id : String

abbrev pub has_expired : Option ℕ → ℕ → Bool
has_expired none at = false
has_expired (some t) at = leb t at

abbrev pub is_claimable : JobRow → ℕ → Bool
is_claimable j at =
    ltb j.attempt j.max_attempts
    && (same_job_state j.state queued && leb j.next_attempt_at at
        || same_job_state j.state running && has_expired j.lease_expires_at at)

abbrev pub lease_of : ClaimInput → JobRow → JobLease
lease_of input j = record {
  acquired_at = input.at;
  attempt = j.attempt + 1;
  expires_at = input.at + input.lease_seconds * 1000;
  job_id = input.job_id;
  owner_id = input.owner_id;
  tenant_id = input.tenant_id;
}

abbrev pub claimed_row : ClaimInput → JobRow → JobRow
claimed_row input j = record j {
  state = running;
  attempt = j.attempt + 1;
  lease_owner = some input.owner_id;
  lease_acquired_at = some input.at;
  lease_expires_at = some (input.at + input.lease_seconds * 1000);
  updated_at = input.at;
  version = j.version + 1;
}

abbrev pub claim_key : ClaimInput → Key
claim_key input = record { tenant = input.tenant_id; id = input.job_id }

unfoldable pub claim_row : ClaimInput → JobRow → Database → Result (Option JobLease)
unfolding write_job advance_case_version is_lease
claim_row input j db = do
  written ← write_job (claim_key input) j (claimed_row input j) db
  advanced ←
      advance_case_version (record { tenant = input.tenant_id; id = j.case_id }) j.version input.at
        written
  require (is_lease (lease_of input j)) schema_rejected
  ok (some (lease_of input j), advanced)

unfoldable pub claim_found : ClaimInput → Option JobRow → Database → Result (Option JobLease)
unfolding claim_row
claim_found input none db = ok (none, db)
claim_found input (some j) db =
    if is_claimable j input.at then claim_row input j db else ok (none, db)

-- `claimLease`; `none` where the job cannot be claimed now.
unfoldable pub claim_lease : ClaimInput → Database → Result (Option JobLease)
unfolding claim_found find
claim_lease input db =
    if leb 1 input.lease_seconds && leb input.lease_seconds 3600
    then (if has_text db.active_tenants input.tenant_id
        then claim_found input (find (claim_key input) db.jobs) db
        else ok (none, db))
    else err lease_not_owned

-- The row that `renewLease` updates need not have the lease's `acquiredAt`.
abbrev pub is_renewable : JobLease → JobRow → Bool
is_renewable l j =
    same_owner j.lease_owner l.owner_id
    && j.attempt == l.attempt
    && same_job_state j.state running
    && same_time j.lease_expires_at l.expires_at

unfoldable pub renew_found : JobLease → ℕ → ℕ → Option JobRow → Database → Result JobLease
unfolding write_job advance_case_version is_lease
renew_found l at expires_at none db = err lease_not_owned
renew_found l at expires_at (some j) db =
    if is_renewable l j
    then (do
      written ←
          write_job (lease_key l) j
            (record j {
              lease_expires_at = some expires_at;
              updated_at = at;
              version = j.version + 1;
            })
            db
      advanced ←
          advance_case_version (record { tenant = l.tenant_id; id = j.case_id }) j.version at
            written
      require (is_lease (record l { expires_at = expires_at })) schema_rejected
      ok (record l { expires_at = expires_at }, advanced))
    else err lease_not_owned

-- `renewLease`
unfoldable pub renew_lease : JobLease → ℕ → ℕ → Database → Result JobLease
unfolding renew_found find
renew_lease l at expires_at db = do
  require (is_lease l) schema_rejected
  require (leb l.acquired_at at && ltb at l.expires_at && ltb l.expires_at expires_at)
      lease_not_owned
  renew_found l at expires_at (find (lease_key l) db.jobs) db

module _ (looks_secret : String → Bool) where
  -- `findByLease`
  unfoldable pub find_by_lease : JobLease → Database → Outcome DurableError (Option DurableRecord)
  unfolding is_lease find_record
  find_by_lease l db =
      if is_lease l
      then find_record looks_secret
          (λ key j. key.tenant_id === l.tenant_id && key.job_id === l.job_id && owns l j) db
          db.idempotency_keys
      else err schema_rejected
