-- ===== src/Consumer/Ends/Call.antt =====
-- How a call of the consumer ends, step by step.
use reproforge.Base.{
  ℕ, String, Bool, true, false, ◌≡◌, refl, ◌∙◌, ap, subst, inl, inr, Option, none, some, Outcome,
  ok, err, Bool-cases, arith, ◌===◌,
}
use reproforge.Durable.Table.{Key}
use reproforge.Durable.Rows.{QueueMessage, Database}
use reproforge.Durable.Records.{DurableError, DurableRecord}
use reproforge.Durable.Writes.{Result}
use reproforge.Durable.Lease.{JobLease, lease_key, ClaimInput, claim_lease, find_by_lease}
use reproforge.Durable.Cancel.{cancel_lease, is_cancellation_requested}
use reproforge.Durable.Finish.{complete_lease, LeaseFailureDisposition, fail_lease}
use reproforge.Durable.Steps.{claim_lease-Claims}
use reproforge.Outbox.{is_message}
use reproforge.Consumer.{
  Worker, ConsumeOutcome, cancelled, completed, ConsumeResult, is_work, Moment, before_read,
  before_check, before_cancel, after_work, before_settle, Consumed, ending, outcome_of, failure_at,
  after_cancel, consume_cancel, after_fail, after_complete, settle_work, after_check, finish_work,
  consume_read, consume_claimed, claim_for, consume,
}
use reproforge.Consumer.Ends.{
  message_key, completed_lease-Ended, cancelled_lease-Ended, failed_lease-Ended, Ended,
}

module _ (looks_secret : String → Bool) (worker : Worker) (others : Moment → Database → Database)
    (l : JobLease) (ended : ℕ) where
  -- A result that names the lease's attempt, and shows what it names.
  abbrev pub Told : ConsumeResult → Database → Type 0
  Told res db = (res.attempt ≡ some l.attempt) × Ended (lease_key l) res.outcome ended l.attempt db

  told :
      (outcome : ConsumeOutcome) (res : ConsumeResult) (mid db' : Database)
      → ◌≡◌ {A = Consumed} (ending l outcome, mid) (ok res, db')
      → Ended (lease_key l) outcome ended l.attempt mid
      → Told res db'
  told outcome res mid db' e d =
      let same : mid ≡ db' = cc in
      let result : record { attempt = some l.attempt; outcome = outcome } ≡ res = cc in
      (
        cc,
        subst (λ (x : Database). Ended (lease_key l) res.outcome ended l.attempt x) same
            (subst (λ (x : ConsumeResult). Ended (lease_key l) x.outcome ended l.attempt mid) result
              d),
      )

  after_cancel-Told :
      (m : Result DurableRecord) (db db' : Database) (res : ConsumeResult)
      → cancel_lease looks_secret l ended db ≡ m
      → after_cancel looks_secret worker others l m db ≡ (ok res, db')
      → Told res db'
  unfolding after_cancel
  after_cancel-Told (ok (r, mid)) db db' res p e =
      told cancelled res mid db' e (cancelled_lease-Ended looks_secret l ended ended r db mid p)
  after_cancel-Told (err x) db db' res p e = absurd (ground arith)

  consume_cancel-Told :
      (db db' : Database) (res : ConsumeResult)
      → consume_cancel looks_secret worker others l ended db ≡ (ok res, db')
      → Told res db'
  unfolding consume_cancel
  consume_cancel-Told db db' res e =
      after_cancel-Told (cancel_lease looks_secret l ended (others before_cancel db))
        (others before_cancel db) db' res refl e

  after_fail-Told :
      (code : String) (m : Result LeaseFailureDisposition) (db db' : Database) (res : ConsumeResult)
      → fail_lease looks_secret l (failure_at l ended code) db ≡ m
      → after_fail looks_secret worker others l m db ≡ (ok res, db')
      → Told res db'
  unfolding after_fail
  after_fail-Told code (ok (d, mid)) db db' res p e =
      told (outcome_of d) res mid db' e (failed_lease-Ended looks_secret l ended code d db mid p)
  after_fail-Told code (err x) db db' res p e = absurd (ground arith)

  after_complete-Told :
      (r : DurableRecord) (m : Result DurableRecord) (db db' : Database) (res : ConsumeResult)
      → complete_lease looks_secret l r db ≡ m
      → after_complete looks_secret worker others l m db ≡ (ok res, db')
      → Told res db'
  unfolding after_complete
  after_complete-Told r (ok (r', mid)) db db' res p e =
      told completed res mid db' e (completed_lease-Ended looks_secret l ended r r' db mid p)
  after_complete-Told r (err x) db db' res p e = absurd (ground arith)

  settle_work-Told :
      (result : Outcome String DurableRecord) (db db' : Database) (res : ConsumeResult)
      → settle_work looks_secret worker others l ended result db ≡ (ok res, db')
      → Told res db'
  unfolding settle_work
  settle_work-Told (ok r) db db' res e =
      after_complete-Told r (complete_lease looks_secret l r db) db db' res refl e
  settle_work-Told (err code) db db' res e =
      after_fail-Told code (fail_lease looks_secret l (failure_at l ended code) db) db db' res refl
        e

  after_check-Told :
      (o : Outcome DurableError Bool) (db db' : Database) (next : Database → Consumed)
      (res : ConsumeResult)
      → ((x : Database) → next x ≡ (ok res, db') → Told res db')
      → after_check looks_secret worker others l ended o db next ≡ (ok res, db')
      → Told res db'
  unfolding after_check
  after_check-Told (err x) db db' next res h e = absurd (ground arith)
  after_check-Told (ok true) db db' next res h e = consume_cancel-Told db db' res e
  after_check-Told (ok false) db db' next res h e = h db e

  finish_work-Told :
      (result : Outcome String DurableRecord) (db db' : Database) (res : ConsumeResult)
      → finish_work looks_secret worker others l ended (result, db) ≡ (ok res, db')
      → Told res db'
  unfolding finish_work
  finish_work-Told result db db' res e =
      after_check-Told (is_cancellation_requested l (others after_work db)) (others after_work db)
        db' (λ x. settle_work looks_secret worker others l ended result (others before_settle x))
        res (λ x. settle_work-Told result (others before_settle x) db' res) e

  consume_read-Told :
      (message : QueueMessage) (o : Outcome DurableError (Option DurableRecord)) (db db' : Database)
      (res : ConsumeResult)
      → consume_read looks_secret worker others l message ended o db ≡ (ok res, db')
      → Told res db'
  unfolding consume_read
  consume_read-Told message (err x) db db' res e = absurd (ground arith)
  consume_read-Told message (ok none) db db' res e = absurd (ground arith)
  consume_read-Told message (ok (some r)) db db' res e =
      elim (Bool-cases (r.case_id === message.case_id)) [
        | inl same ↦
            after_check-Told (is_cancellation_requested l (others before_check db))
              (others before_check db) db'
              (λ x. finish_work looks_secret worker others l ended (worker l message r x)) res
              (λ x. finish_work-Told (worker l message r x).0 (worker l message r x).1 db' res)
              (rw same at e)
        | inr n ↦ absurd (ground arith)
      ]

module _ (looks_secret : String → Bool) (worker : Worker) (others : Moment → Database → Database)
    (message : QueueMessage) (ended : ℕ) where
  consume_claimed-Ended :
      (input : ClaimInput) (m : Result (Option JobLease)) (db db' : Database) (res : ConsumeResult)
      (n : ℕ)
      → input.tenant_id ≡ message.tenant_id
      → input.job_id ≡ message.job_id
      → claim_lease input db ≡ m
      → consume_claimed looks_secret worker others message ended m db ≡ (ok res, db')
      → res.attempt ≡ some n
      → Ended (message_key message) res.outcome ended n db'
  unfolding consume_claimed
  consume_claimed-Ended input (err x) db db' res n t j p e a = absurd (ground arith)
  consume_claimed-Ended input (ok (none, mid)) db db' res n t j p e a = absurd (ground arith)
  consume_claimed-Ended input (ok (some l, mid)) db db' res n t j p e a =
      let c = claim_lease-Claims input l db mid p in
      let (attempt, d) =
        consume_read-Told looks_secret worker others l ended message
          (find_by_lease looks_secret l (others before_read mid)) (others before_read mid) db' res
          e in
      let tenant : l.tenant_id ≡ message.tenant_id = ap (λ x. x.tenant_id) c.lease ∙ t in
      let job : l.job_id ≡ message.job_id = ap (λ x. x.job_id) c.lease ∙ j in
      let key : lease_key l ≡ message_key message = λ i. record { tenant = tenant i; id = job i } in
      let number : l.attempt ≡ n = cc in
      subst (λ (x : ℕ). Ended (message_key message) res.outcome ended x db') number
        (subst (λ (x : Key). Ended x res.outcome ended l.attempt db') key d)

  -- If a call of the consumer returns with an attempt, then, whatever the worker and the others
  -- did to the database meanwhile, the message's job is left without a lease, and its row shows
  -- the outcome: succeeded or failed after a completion, cancelled after a cancellation, failed
  -- where the retries are exhausted, and queued for the time of the next attempt where it was
  -- requeued. The outcome is not that the message was ignored.
  pub consume-Ended :
      (lease_seconds at : ℕ) (owner_id : String) (db db' : Database) (res : ConsumeResult) (n : ℕ)
      → consume looks_secret worker others lease_seconds at ended owner_id message db
        ≡ (ok res, db')
      → res.attempt ≡ some n
      → Ended (message_key message) res.outcome ended n db'
  unfolding consume
  consume-Ended lease_seconds at owner_id db db' res n e a =
      elim (Bool-cases (is_message message)) [
        | inr bad ↦ absurd (ground arith)
        | inl good ↦ elim (Bool-cases (is_work message.kind)) [
          | inr other ↦ absurd (ground arith)
          | inl work ↦
              consume_claimed-Ended (claim_for message at lease_seconds owner_id)
                (claim_lease (claim_for message at lease_seconds owner_id) db) db db' res n refl
                refl refl (rw work at (rw good at e)) a
        ]
      ]
