-- ===== src/Consumer/Progress.antt =====
-- A worker that throws does not leave its job running.
pub mod Claimed
pub mod Thrown
use reproforge.Base.{
  ℕ, ◌+◌, ◌*◌, String, Bool, true, false, ◌&&◌, ◌≡◌, refl, sym, ◌∙◌, ap, subst, inl, inr, Option,
  none, some, Outcome, ok, err, require, require-ok, bind-ok, Bool-cases, arith, eq_iff, ◌===◌,
  ◌==◌, leb, ltb, if◌then◌else◌,
}
use reproforge.Domain.Job.{is_some, JobState-discrete}
use reproforge.Durable.Table.{Key, find, put}
use reproforge.Durable.Rows.{JobRow, CaseRow, QueueMessage, Database}
use reproforge.Durable.Records.{
  DurableError, schema_rejected, optimistic_conflict, DurableRecord, is_failure_code,
}
use reproforge.Durable.Writes.{write_job, write_case, advance_case_version}
use reproforge.Durable.Lease.{
  JobLease, is_lease, owns, lease_key, ClaimInput, is_claimable, lease_of, claimed_row, claim_key,
  claim_row, claim_found, claim_lease, find_by_lease,
}
use reproforge.Durable.Cancel.{is_cancellation_requested}
use reproforge.Durable.Finish.{
  LeaseFailure, LeaseFailureDisposition, requeues, failed_row, settle, fail_owned, fail_found,
  fail_lease,
}
use reproforge.Durable.Effects.{find-put_self, cases-write_case}
use reproforge.Durable.Steps.{case_of, claim_lease-Claims}
use reproforge.Outbox.{is_message}
use reproforge.Outbox.Publisher.{delay_seconds}
use reproforge.Consumer.{
  Worker, ConsumeOutcome, exhausted, requeued, retry_at, worker_failure, is_work, Moment,
  before_read, before_check, after_work, before_settle, ending, outcome_of, failure_at, after_fail,
  settle_work, after_check, finish_work, consume_read, consume_claimed, claim_for, consume,
}
use reproforge.Consumer.Ends.{message_key}

write_job-returns :
    (k : Key) (old new : JobRow) (db : Database)
    → leb old.updated_at new.updated_at ≡ true
    → write_job k old new db ≡ ok (record db { jobs = put k new db.jobs })
unfolding write_job
write_job-returns k old new db h = rw h

write_case-returns :
    (k : Key) (version : ℕ) (change : CaseRow → CaseRow) (lost : DurableError) (db : Database)
    (c : CaseRow)
    → find k db.cases ≡ some c
    → (c.version == version) ≡ true
    → leb c.updated_at (change c).updated_at ≡ true
    → write_case k version change lost db ≡ ok (record db { cases = put k (change c) db.cases })
unfolding write_case
write_case-returns k version change lost db c f v u = ground arith

module _ (looks_secret : String → Bool) (l : JobLease) (failure : LeaseFailure) where
  fail_owned-returns :
      (j : JobRow) (c : CaseRow) (db : Database)
      → is_some j.cancellation_requested_at ≡ false
      → leb j.updated_at failure.at ≡ true
      → find (case_of (lease_key l) j) db.cases ≡ some c
      → (c.version == j.version) ≡ true
      → leb c.updated_at failure.at ≡ true
      → (db' : Database) × (fail_owned looks_secret l failure j db ≡ ok (settle l failure j db'))
  unfolding fail_owned advance_case_version
  fail_owned-returns j c db n u f v w =
      let change : CaseRow → CaseRow =
        λ x. record x { version = x.version + 1; updated_at = failure.at } in
      let written = record db { jobs = put (lease_key l) (failed_row failure j) db.jobs } in
      (
        record written { cases = put (case_of (lease_key l) j) (change c) db.cases },
        rw n (
            rw (write_job-returns (lease_key l) j (failed_row failure j) db u) (
              rw (
                write_case-returns (case_of (lease_key l) j) j.version change optimistic_conflict
                  written c f v w))),
      )

  -- A failure by the owner of an untouched row is always taken.
  pub fail_lease-returns :
      (j : JobRow) (c : CaseRow) (db : Database)
      → is_lease l ≡ true
      → leb l.acquired_at failure.at ≡ true
      → leb failure.at failure.next_attempt_at ≡ true
      → is_failure_code failure.code ≡ true
      → find (lease_key l) db.jobs ≡ some j
      → owns l j ≡ true
      → is_some j.cancellation_requested_at ≡ false
      → leb j.updated_at failure.at ≡ true
      → find (case_of (lease_key l) j) db.cases ≡ some c
      → (c.version == j.version) ≡ true
      → leb c.updated_at failure.at ≡ true
      → (db' : Database) × (fail_lease looks_secret l failure db ≡ ok (settle l failure j db'))
  unfolding fail_lease fail_found
  fail_lease-returns j c db s a b d f o n u g v w =
      let (db', e) = fail_owned-returns j c db n u g v w in
      (db', rw s (rw a (rw b (rw d (rw f (rw o e))))))
