-- ===== src/Consumer/Ends.antt =====
-- How a call of the consumer ends, whatever the worker and the others do meanwhile.
pub mod Call
use reproforge.Base.{
  ℕ, String, Bool, true, false, ◌≡◌, refl, sym, ◌∙◌, ap, subst, ◌⊎◌, inl, inr, Option, none, some,
  Outcome, ok, err, Bool-cases, arith, ◌===◌, if◌then◌else◌,
}
use reproforge.Domain.Job.{JobState, queued, succeeded, failed, same_job_state, JobState-discrete}
use reproforge.Durable.Table.{Key, find}
use reproforge.Durable.Rows.{JobRow, QueueMessage, Database}
use reproforge.Durable.Records.{DurableError, DurableRecord}
use reproforge.Durable.Writes.{Result}
use reproforge.Durable.Lease.{JobLease, lease_key, ClaimInput, claim_lease, find_by_lease}
use reproforge.Durable.Cancel.{cancelled_row, cancel_lease, is_cancellation_requested}
use reproforge.Durable.Finish.{
  completed_row, fits_lease, complete_lease, LeaseFailureDisposition, requeues, failed_row,
  fail_lease,
}
use reproforge.Durable.Effects.{find-put_self}
use reproforge.Durable.Steps.{Writes, claim_lease-Claims}
use reproforge.Durable.Endings.Completion.{complete_lease-Completes}
use reproforge.Durable.Endings.Cancellation.{cancel_lease-Cancels}
use reproforge.Durable.Endings.Failure.{fail_lease-Fails}
use reproforge.Outbox.{is_message}
use reproforge.Consumer.{
  Worker, ConsumeOutcome, cancelled, completed, exhausted, ignored, requeued, ConsumeResult,
  retry_at, is_work, Moment, before_read, before_check, before_cancel, after_work, before_settle,
  Consumed, ending, outcome_of, failure_at, after_cancel, consume_cancel, after_fail,
  after_complete, settle_work, after_check, finish_work, consume_read, consume_claimed, claim_for,
  consume,
}

-- What the row of the job must be for an outcome that names an attempt.
abbrev pub Shows : ConsumeOutcome → ℕ → ℕ → JobRow → Type 0
Shows completed ended attempt j = (j.state ≡ succeeded) ⊎ (j.state ≡ failed)
Shows cancelled ended attempt j = j.state ≡ JobState.cancelled
Shows exhausted ended attempt j = j.state ≡ failed
Shows requeued ended attempt j = (j.state ≡ queued) × (j.next_attempt_at ≡ retry_at ended attempt)
Shows ignored ended attempt j = ⊥

-- The job has a row without a lease, which shows the outcome.
pub record Ended (k : Key) (outcome : ConsumeOutcome) (ended attempt : ℕ) (db : Database)
    : Type 0 where
  pub row : JobRow
  pub found : find k db.jobs ≡ some row
  pub unleased : row.lease_owner ≡ none
  pub shows : Shows outcome ended attempt row

abbrev pub message_key : QueueMessage → Key
message_key m = record { tenant = m.tenant_id; id = m.job_id }

written-Ended :
    (k : Key) (outcome : ConsumeOutcome) (ended attempt : ℕ) (old new : JobRow) (db db' : Database)
    → Writes k old new db db'
    → new.lease_owner ≡ none
    → Shows outcome ended attempt new
    → Ended k outcome ended attempt db'
written-Ended k outcome ended attempt old new db db' w u s = record {
  row = new;
  found = subst (λ t. find k t ≡ some new) (sym w.jobs) (find-put_self k new db.jobs);
  unleased = u;
  shows = s;
}

fits_states :
    (l : JobLease) (r : DurableRecord)
    → fits_lease l r ≡ true
    → (r.snapshot_job.state ≡ succeeded) ⊎ (r.snapshot_job.state ≡ failed)
unfolding JobState-discrete
fits_states l r f = elim (Bool-cases (same_job_state r.snapshot_job.state succeeded)) [
  | inl s ↦ inl (ground arith)
  | inr n ↦ inr (ground arith)
]

module _ (looks_secret : String → Bool) (l : JobLease) (ended : ℕ) where
  failed_row-Shows :
      (code : String) (j : JobRow)
      → Shows
          (outcome_of (
            if requeues (failure_at l ended code) j
            then LeaseFailureDisposition.requeued
            else LeaseFailureDisposition.exhausted))
          ended
          l.attempt
          (failed_row (failure_at l ended code) j)
  failed_row-Shows code j = elim (Bool-cases (requeues (failure_at l ended code) j)) [
    | inl q ↦ rw q (refl, refl)
    | inr n ↦ rw n refl
  ]

  pub completed_lease-Ended :
      (r r' : DurableRecord) (db db' : Database)
      → complete_lease looks_secret l r db ≡ ok (r', db')
      → Ended (lease_key l) completed ended l.attempt db'
  completed_lease-Ended r r' db db' e =
      let c = complete_lease-Completes looks_secret l r r' db db' e in
      written-Ended (lease_key l) completed ended l.attempt c.row (completed_row r c.row) db db'
        c.writes refl (fits_states l r c.fits)

  pub cancelled_lease-Ended :
      (at : ℕ) (r : DurableRecord) (db db' : Database)
      → cancel_lease looks_secret l at db ≡ ok (r, db')
      → Ended (lease_key l) cancelled ended l.attempt db'
  cancelled_lease-Ended at r db db' e =
      let c = cancel_lease-Cancels looks_secret l at r db db' e in
      written-Ended (lease_key l) cancelled ended l.attempt c.row (cancelled_row at c.row) db db'
        c.writes refl refl

  pub failed_lease-Ended :
      (code : String) (d : LeaseFailureDisposition) (db db' : Database)
      → fail_lease looks_secret l (failure_at l ended code) db ≡ ok (d, db')
      → Ended (lease_key l) (outcome_of d) ended l.attempt db'
  failed_lease-Ended code d db db' e =
      elim (fail_lease-Fails looks_secret l (failure_at l ended code) d db db' e) [
        | inl (same, c) ↦
            subst
              (λ (x : LeaseFailureDisposition).
                Ended (lease_key l) (outcome_of x) ended l.attempt db')
              (sym same)
              (written-Ended (lease_key l) cancelled ended l.attempt c.row
                (cancelled_row ended c.row) db db' c.writes refl refl)
        | inr c ↦
            written-Ended (lease_key l) (outcome_of d) ended l.attempt c.row
              (failed_row (failure_at l ended code) c.row) db db' c.writes refl
              (subst
                (λ (x : LeaseFailureDisposition).
                  Shows (outcome_of x) ended l.attempt (failed_row (failure_at l ended code) c.row))
                (sym c.disposition) (failed_row-Shows code c.row))
      ]
