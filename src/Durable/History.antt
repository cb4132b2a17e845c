-- ===== src/Durable/History.antt =====
-- A history of the durable store: the transactions on jobs, in the order in which they commit, and
-- what each of them does to the row of a job.
pub mod Sound
pub mod Holding
pub mod Order
pub mod Fencing
pub mod Lockstep
use reproforge.Base.{
  List, ℕ, ◌+◌, ◌<◌, ◌≤◌, ◌≡◌, refl, sym, ◌∙◌, ap, subst, String, Bool, true, false, Option, none,
  some, ok, arith, eq_iff, ◌===◌, ◌⊎◌, inl, inr, Bool-cases, Option-cases,
}
use reproforge.Domain.Job.{
  JobState, queued, running, failed, same_job_state, is_some, ReproductionJob,
}
use reproforge.Durable.Table.{Key, same_key, find, put}
use reproforge.Audit.{append_audit}
use reproforge.Durable.Rows.{AuditEvent, JobRow, Database}
use reproforge.Durable.Records.{TenantScope, DurableRecord}
use reproforge.Durable.Lease.{
  JobLease, owns, ClaimInput, is_claimable, claimed_row, claim_key, claim_row, claim_found,
  claim_lease, lease_key, is_renewable, renew_lease,
}
use reproforge.Durable.Cancel.{
  CancellationRequestResult, job_key, cancelled_row, requested_row, queued_cancelled_row,
  cancel_lease, request_cancellation,
}
use reproforge.Durable.Finish.{
  is_completable, fits_lease, completed_row, complete_lease, LeaseFailure, LeaseFailureDisposition,
  failed_row, fail_lease,
}
use reproforge.Durable.Effects.{find-put_self, find-put_ne, same_key-eq}
use reproforge.Durable.Steps.{Writes, claim_lease-Claims, renew_lease-Renews}
use reproforge.Durable.Endings.Completion.{complete_lease-Completes}
use reproforge.Durable.Endings.Cancellation.{Cancels, cancel_lease-Cancels}
use reproforge.Durable.Endings.Failure.{fail_lease-Fails}
use reproforge.Durable.Requests.{
  Requests, unchanged, marked, stopped, request_cancellation-Requests,
}

-- The ways in which a transaction writes a job's row.
pub data RowStep : JobRow → JobRow → Type 0 where
  claimed :
      (input : ClaimInput) (j : JobRow)
      → is_claimable j input.at ≡ true
      → 1 ≤ input.lease_seconds
      → RowStep j (claimed_row input j)
  renewed :
      (l : JobLease) (at expires_at : ℕ) (j : JobRow)
      → is_renewable l j ≡ true
      → l.expires_at < expires_at
      → RowStep j (record j {
        lease_expires_at = some expires_at;
        updated_at = at;
        version = j.version + 1;
      })
  completed :
      (l : JobLease) (r : DurableRecord) (j : JobRow)
      → is_completable l r j ≡ true
      → fits_lease l r ≡ true
      → is_some r.snapshot_job.failure ≡ same_job_state r.snapshot_job.state failed
      → RowStep j (completed_row r j)
  cancelled :
      (l : JobLease) (at : ℕ) (j : JobRow)
      → owns l j ≡ true
      → is_some j.cancellation_requested_at ≡ true
      → RowStep j (cancelled_row at j)
  lost :
      (l : JobLease) (failure : LeaseFailure) (j : JobRow)
      → owns l j ≡ true
      → is_some j.cancellation_requested_at ≡ false
      → RowStep j (failed_row failure j)
  requested : (at : ℕ) (j : JobRow) → j.state ≡ running → RowStep j (requested_row at j)
  withdrawn : (at : ℕ) (j : JobRow) → j.state ≡ queued → RowStep j (queued_cancelled_row at j)

-- What a committed transaction did to jobs and cases: nothing, or a write of one row of each.
pub data Change : Database → Database → Type 0 where
  same : (db : Database) → Change db db
  noted :
      (db : Database) (audits : List AuditEvent) → Change db (record db { audit_events = audits })
  wrote :
      (k : Key) (old new : JobRow) (db db' : Database)
      → RowStep old new
      → Writes k old new db db'
      → Change db db'

module _ (looks_secret : String → Bool) where
  -- A transaction that commits. One that throws is rolled back and leaves no trace.
  pub data Step : Database → Database → Type 0 where
    claim :
        (input : ClaimInput) (l : Option JobLease) (db db' : Database)
        → claim_lease input db ≡ ok (l, db')
        → Step db db'
    renew :
        (l l' : JobLease) (at expires_at : ℕ) (db db' : Database)
        → renew_lease l at expires_at db ≡ ok (l', db')
        → Step db db'
    complete :
        (l : JobLease) (r r' : DurableRecord) (db db' : Database)
        → complete_lease looks_secret l r db ≡ ok (r', db')
        → Step db db'
    cancel :
        (l : JobLease) (at : ℕ) (r : DurableRecord) (db db' : Database)
        → cancel_lease looks_secret l at db ≡ ok (r, db')
        → Step db db'
    fail :
        (l : JobLease) (failure : LeaseFailure) (d : LeaseFailureDisposition) (db db' : Database)
        → fail_lease looks_secret l failure db ≡ ok (d, db')
        → Step db db'
    request :
        (scope : TenantScope) (job_id : String) (at : ℕ) (x : Option CancellationRequestResult)
        (db db' : Database)
        → request_cancellation looks_secret scope job_id at db ≡ ok (x, db')
        → Step db db'
    -- an audit event, which the transaction of another step brings along
    note :
        (e : AuditEvent) (audits : List AuditEvent) (db : Database)
        → append_audit e db.audit_events ≡ ok audits
        → Step db (record db { audit_events = audits })

  -- A run of such transactions, the latest one outermost.
  pub data Runs : Database → Database → Type 0 where
    start : (db : Database) → Runs db db
    next : (db mid db' : Database) → Runs db mid → Step mid db' → Runs db db'

claim_row-found :
    (input : ClaimInput) (j : JobRow) (db db' : Database)
    → claim_row input j db ≡ ok (none, db')
    → db' ≡ db
unfolding claim_row
claim_row-found input j db db' e = absurd (ground arith)

claim_found-none :
    (input : ClaimInput) (o : Option JobRow) (db db' : Database)
    → claim_found input o db ≡ ok (none, db')
    → db' ≡ db
unfolding claim_found
claim_found-none input none db db' e = ground arith
claim_found-none input (some j) db db' e = elim (Bool-cases (is_claimable j input.at)) [
  | inl c ↦ claim_row-found input j db db' (rw c at e)
  | inr n ↦ ground arith
]

claim_kinds :
    (input : ClaimInput) (l : Option JobLease) (db db' : Database)
    → claim_lease input db ≡ ok (l, db')
    → (db' ≡ db) ⊎ (claim_found input (find (claim_key input) db.jobs) db ≡ ok (l, db'))
unfolding claim_lease
claim_kinds input l db db' e = ground arith

-- A claim without a lease changes nothing.
claim_lease-none :
    (input : ClaimInput) (db db' : Database) → claim_lease input db ≡ ok (none, db') → db' ≡ db
unfolding claim_lease
claim_lease-none input db db' e = elim (claim_kinds input none db db' e) [
  | inl p ↦ p
  | inr q ↦ claim_found-none input (find (claim_key input) db.jobs) db db' q
]

module _ (looks_secret : String → Bool) where
  pub Step-Change : (db db' : Database) → Step looks_secret db db' → Change db db'
  Step-Change _ _ (claim input none db db' e) =
      subst (Change db) (sym (claim_lease-none input db db' e)) (same db)
  Step-Change _ _ (claim input (some l) db db' e) =
      let c = claim_lease-Claims input l db db' e in
      wrote (claim_key input) c.row _ db db' (claimed input c.row c.claimable c.lasts) c.writes
  Step-Change _ _ (renew l l' at expires_at db db' e) =
      let c = renew_lease-Renews l l' at expires_at db db' e in
      wrote (lease_key l) c.row _ db db' (renewed l at expires_at c.row c.renewable (c.later.2))
        c.writes
  Step-Change _ _ (complete l r r' db db' e) =
      let c = complete_lease-Completes looks_secret l r r' db db' e in
      wrote (lease_key l) c.row _ db db' (completed l r c.row c.completable c.fits c.failure_fits)
        c.writes
  Step-Change _ _ (cancel l at r db db' e) =
      let c = cancel_lease-Cancels looks_secret l at r db db' e in
      wrote (lease_key l) c.row _ db db' (cancelled l at c.row c.owned c.asked) c.writes
  Step-Change _ _ (fail l failure d db db' e) =
      elim (fail_lease-Fails looks_secret l failure d db db' e) [
        | inl (_, c) ↦
            wrote (lease_key l) c.row _ db db' (cancelled l failure.at c.row c.owned c.asked)
              c.writes
        | inr c ↦
            wrote (lease_key l) c.row _ db db' (lost l failure c.row c.owned c.unasked) c.writes
      ]
  Step-Change _ _ (request scope job_id at x db db' e) =
      elim (request_cancellation-Requests looks_secret scope job_id at x db db' e) [
        | unchanged p ↦ subst (Change db) (sym p) (same db)
        | marked j s w ↦ wrote (job_key scope job_id) j _ db db' (requested at j s) w
        | stopped j s w ↦ wrote (job_key scope job_id) j _ db db' (withdrawn at j s) w
      ]
  Step-Change _ _ (note e audits db p) = noted db audits

-- What becomes of one row when a transaction commits.
pub Change-row :
    (db db' : Database) (k : Key) (j : JobRow)
    → Change db db'
    → find k db.jobs ≡ some j
    → (j' : JobRow) × (find k db'.jobs ≡ some j') × ((j' ≡ j) ⊎ RowStep j j')
Change-row _ _ k j (same db) f = (j, f, inl refl)
Change-row _ _ k j (noted db audits) f = (j, f, inl refl)
Change-row _ _ k j (wrote i old new db db' r w) f = elim (Bool-cases (same_key i k)) [
  | inl s ↦
      let same_ik : i ≡ k = same_key-eq i k s in
      let this : old ≡ j = cc (w.found, f) in
      (
        new,
        subst (λ t. find k t ≡ some new) (sym w.jobs)
            (subst (λ x. find x (put i new db.jobs) ≡ some new) same_ik
              (find-put_self i new db.jobs)),
        inr (subst (λ x. RowStep x new) this r),
      )
  | inr n ↦
      (j, subst (λ t. find k t ≡ some j) (sym w.jobs) (find-put_ne i k new db.jobs n ∙ f), inl refl)
]
