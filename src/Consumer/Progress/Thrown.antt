-- ===== src/Consumer/Progress/Thrown.antt =====
-- A call of the consumer whose worker throws.
use reproforge.Base.{
  ℕ, ◌+◌, String, Bool, true, false, ◌&&◌, ◌≡◌, refl, sym, ◌∙◌, ap, subst, inl, inr, some, ok, err,
  Bool-cases, arith, ◌===◌, leb, ltb, if◌then◌else◌,
}
use reproforge.Durable.Table.{find}
use reproforge.Durable.Rows.{JobRow, QueueMessage, Database}
use reproforge.Durable.Records.{DurableRecord}
use reproforge.Durable.Lease.{
  JobLease, ClaimInput, claimed_row, claim_key, claim_lease, find_by_lease,
}
use reproforge.Durable.Cancel.{is_cancellation_requested}
use reproforge.Durable.Finish.{LeaseFailure, LeaseFailureDisposition, requeues, settle, fail_lease}
use reproforge.Durable.Effects.{find-put_self}
use reproforge.Durable.Steps.{claim_lease-Claims}
use reproforge.Outbox.{is_message}
use reproforge.Consumer.{
  Worker, ConsumeOutcome, exhausted, requeued, worker_failure, is_work, Moment, before_read,
  before_check, after_work, before_settle, ending, outcome_of, failure_at, after_fail, settle_work,
  after_check, finish_work, consume_read, consume_claimed, claim_for, consume,
}
use reproforge.Consumer.Ends.{message_key}
use reproforge.Consumer.Progress.Claimed.{claimed_fails}

settle-disposition :
    (l : JobLease) (failure : LeaseFailure) (j : JobRow) (db : Database)
    → (settle l failure j db).0 ≡ (
        if requeues failure j
        then LeaseFailureDisposition.requeued
        else LeaseFailureDisposition.exhausted)
unfolding settle
settle-disposition l failure j db = ground arith

-- The outcome of a failure of the attempt that a claim of the row begins.
abbrev pub failure_outcome : String → JobRow → ConsumeOutcome
failure_outcome code j =
    if (worker_failure code).retryable && ltb (j.attempt + 1) j.max_attempts
    then requeued
    else exhausted

outcome-failure :
    (l : JobLease) (ended : ℕ) (code : String) (input : ClaimInput) (j : JobRow)
    → outcome_of (
        if requeues (failure_at l ended code) (claimed_row input j)
        then LeaseFailureDisposition.requeued
        else LeaseFailureDisposition.exhausted)
      ≡ failure_outcome code j
outcome-failure l ended code input j =
    elim (Bool-cases ((worker_failure code).retryable && ltb (j.attempt + 1) j.max_attempts)) [
      | inl q ↦ rw q refl
      | inr n ↦ rw n refl
    ]

module _ (looks_secret : String → Bool) (worker : Worker)
    (others : Moment → Database → Database) where
  fails-settle_work :
      (l : JobLease) (ended : ℕ) (code : String) (j : JobRow) (db db' : Database)
      → fail_lease looks_secret l (failure_at l ended code) db
        ≡ ok (settle l (failure_at l ended code) j db')
      → (settle_work looks_secret worker others l ended (err code) db).0
        ≡ ending l (
            outcome_of (
              if requeues (failure_at l ended code) j
              then LeaseFailureDisposition.requeued
              else LeaseFailureDisposition.exhausted))
  unfolding settle_work after_fail
  fails-settle_work l ended code j db db' e =
      rw e (rw (settle-disposition l (failure_at l ended code) j db') refl)

  -- If the message is work, its job is claimed and its record can be read, nobody else acts
  -- meanwhile, no cancellation is asked, the clock does not go back, and the worker throws and
  -- changes nothing, then the call returns: the job had a row, the attempt is the next one, and the
  -- outcome is that the job was requeued exactly if the error can be retried and the attempts are not used up, and that it is
  -- exhausted otherwise.
  pub thrown_work-ends :
      (lease_seconds at ended : ℕ) (owner_id code : String) (message : QueueMessage)
      (db db₁ : Database) (l : JobLease) (r : DurableRecord)
      → is_message message ≡ true
      → is_work message.kind ≡ true
      → claim_lease (claim_for message at lease_seconds owner_id) db ≡ ok (some l, db₁)
      → find_by_lease looks_secret l db₁ ≡ ok (some r)
      → r.case_id === message.case_id ≡ true
      → is_cancellation_requested l db₁ ≡ ok false
      → leb at ended ≡ true
      → ((m : Moment) → others m db₁ ≡ db₁)
      → worker l message r db₁ ≡ (err code, db₁)
      → (j : JobRow) × (find (message_key message) db.jobs ≡ some j)
        × ((consume looks_secret worker others lease_seconds at ended owner_id message db).0
            ≡ ok (record { attempt = some (j.attempt + 1); outcome = failure_outcome code j }))
  unfolding consume consume_claimed consume_read after_check finish_work
  thrown_work-ends lease_seconds at ended owner_id code message db db₁ l r good work claimed read
        same unasked later idle thrown =
      let input = claim_for message at lease_seconds owner_id in
      let c = claim_lease-Claims input l db db₁ claimed in
      let found = c.writes.found in
      let after : find (claim_key input) db₁.jobs ≡ some (claimed_row input c.row) =
        subst (λ t. find (claim_key input) t ≡ some (claimed_row input c.row)) (sym c.writes.jobs)
          (find-put_self (claim_key input) (claimed_row input c.row) db.jobs) in
      let (db', failed) =
        claimed_fails looks_secret l c.row input ended code db db₁ found c.lease claimed after
          unasked later in
      let settled = fails-settle_work l ended code (claimed_row input c.row) db₁ db' failed in
      let told =
        settled
        ∙ ap (ending l) (outcome-failure l ended code input c.row)
        ∙ ap (λ (x : JobLease). ending x (failure_outcome code c.row)) c.lease in
      (
        c.row,
        found,
        rw good (
            rw work (
              rw claimed (
                rw (idle before_read) (
                  rw read (
                    rw same (
                      rw (idle before_check) (
                        rw unasked (
                          rw thrown (
                            rw (idle after_work)
                              (rw unasked (rw (idle before_settle) told))))))))))),
      )
