-- ===== src/Durable/Endings.antt =====
-- How the transactions that end a lease write the rows of the job and of its case.
pub mod Completion
pub mod Cancellation
pub mod Failure
pub mod Row
use reproforge.Base.{
  ℕ, ◌+◌, ◌≡◌, refl, sym, ◌∙◌, ap, subst, String, Bool, true, false, not, ◌&&◌, Option, none, some,
  ok, require, arith, if◌then◌else◌, eq_iff, leb, ◌==◌, ◌===◌, ◌⊎◌, ◌||◌, inl, inr, Bool-cases,
  bind-ok, require-ok,
}
use reproforge.Domain.Job.{
  failed, same_job_state, is_some, JobState-discrete, ReproductionJob, parse_job,
}
use reproforge.Durable.Table.{Key, find, put}
use reproforge.Durable.Rows.{JobRow, CaseRow, Database, IdempotencyRow}
use reproforge.Durable.Records.{
  DurableError, schema_rejected, lease_not_owned, invalid_record, optimistic_conflict,
  DurableRecord, validate_record, accepts, parses, find_record,
}
use reproforge.Durable.Writes.{
  write_job, write_case, advance_case_version, release_active_job_quota,
}
use reproforge.Durable.Lease.{JobLease, is_lease, owns, lease_key, find_by_lease}
use reproforge.Durable.Cancel.{
  cancelled_record, cancelled_case, cancelled_row, cancel_read, cancel_found,
  cancel_lease_in_transaction, cancel_lease,
}
use reproforge.Durable.Finish.{
  claims_verified, completed_row, completed_case, is_completable, complete_found, fits_lease,
  complete_lease, LeaseFailureDisposition, exhausted, requeued, LeaseFailure, requeues, failed_row,
  settle, fail_owned, fail_found, fail_lease,
}
use reproforge.Durable.Effects.{
  jobs-write_job, cases-write_job, audits-write_job, audits-write_case, jobs-write_case,
  cases-write_case,
}
use reproforge.Durable.Lookups.{find_record-IsRead, IsRead-job}
use reproforge.Durable.Steps.{case_of, Writes, advance-Writes}

module _ (k : Key) (old new : JobRow) (ck : Key) (change : CaseRow → CaseRow) (lost : DurableError)
    (db saved written db' : Database) where
  -- The case is written first, and then the job.
  pub end-Writes :
      find k db.jobs ≡ some old
      → ck ≡ case_of k old
      → ((c : CaseRow) → (change c).version ≡ c.version + 1)
      → write_case ck old.version change lost db ≡ ok saved
      → write_job k old new saved ≡ ok written
      → db'.jobs ≡ written.jobs
      → db'.cases ≡ written.cases
      → db'.audit_events ≡ written.audit_events
      → Writes k old new db db'
  end-Writes f same next a w j c d =
      let same_jobs = jobs-write_case ck old.version change lost db saved a in
      let (row, p, v, q) = cases-write_case ck old.version change lost db saved a in
      record {
        found = f;
        jobs = j ∙ jobs-write_job k old new saved written w ∙ ap (put k new) same_jobs;
        case_old = row;
        case_new = change row;
        case_found = subst (λ x. find x db.cases ≡ some row) same p;
        case_version = v;
        case_next = next row ∙ ap (λ n. n + 1) v;
        cases =
            c
            ∙ cases-write_job k old new saved written w
            ∙ subst (λ x. saved.cases ≡ put x (change row) db.cases) same q;
        audits =
            d
            ∙ audits-write_job k old new saved written w
            ∙ audits-write_case ck old.version change lost db saved a;
      }

-- What a transaction does beside these tables does not matter.
pub Writes-same :
    (k : Key) (old new : JobRow) (db db₁ db' : Database)
    → Writes k old new db db₁
    → db'.jobs ≡ db₁.jobs
    → db'.cases ≡ db₁.cases
    → db'.audit_events ≡ db₁.audit_events
    → Writes k old new db db'
Writes-same k old new db db₁ db' w j c d = record {
  found = w.found;
  jobs = j ∙ w.jobs;
  case_old = w.case_old;
  case_new = w.case_new;
  case_found = w.case_found;
  case_version = w.case_version;
  case_next = w.case_next;
  cases = c ∙ w.cases;
  audits = d ∙ w.audits;
}
