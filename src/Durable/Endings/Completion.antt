-- ===== src/Durable/Endings/Completion.antt =====
-- What `completeLease` of src/infrastructure/postgres/repositories.ts does when it succeeds.
use reproforge.Base.{
  ◌≡◌, refl, sym, subst, String, Bool, true, false, not, Option, none, some, ok, require, arith,
  eq_iff, ◌||◌, inl, inr, Bool-cases, bind-ok, require-ok,
}
use reproforge.Domain.Job.{
  failed, same_job_state, is_some, JobState-discrete, ReproductionJob, parse_job,
}
use reproforge.Durable.Table.{Key, find}
use reproforge.Durable.Rows.{JobRow, Database}
use reproforge.Durable.Records.{
  schema_rejected, lease_not_owned, invalid_record, optimistic_conflict, DurableRecord,
  validate_record, accepts, parses,
}
use reproforge.Durable.Writes.{write_job, write_case, release_active_job_quota}
use reproforge.Durable.Lease.{JobLease, is_lease, lease_key}
use reproforge.Durable.Finish.{
  claims_verified, completed_row, completed_case, is_completable, complete_found, fits_lease,
  complete_lease,
}
use reproforge.Durable.Effects.{jobs-write_case}
use reproforge.Durable.Steps.{case_of, Writes}
use reproforge.Durable.Endings.{end-Writes}

-- A successful completion met the row of its owner, of which no cancellation was asked.
pub record Completes (l : JobLease) (r : DurableRecord) (db db' : Database) : Type 0 where
  pub row : JobRow
  pub completable : is_completable l r row ≡ true
  pub fits : fits_lease l r ≡ true
  pub failure_fits : is_some r.snapshot_job.failure ≡ same_job_state r.snapshot_job.state failed
  pub writes : Writes (lease_key l) row (completed_row r row) db db'
  pub base : Database
  pub released : db' ≡ release_active_job_quota l.tenant_id l.job_id r.updated_at base

completable_version :
    (l : JobLease) (r : DurableRecord) (j : JobRow)
    → is_completable l r j ≡ true
    → (j.version ≡ r.version) × (j.case_id ≡ r.case_id)
completable_version l r j c = (ground arith, (eq_iff j.case_id r.case_id).0 (ground arith))

fits_tenant : (l : JobLease) (r : DurableRecord) → fits_lease l r ≡ true → r.tenant_id ≡ l.tenant_id
fits_tenant l r f = (eq_iff r.tenant_id l.tenant_id).0 (ground arith)

complete_found-Completes :
    (l : JobLease) (r r' : DurableRecord) (o : Option JobRow) (db saved db' : Database)
    → fits_lease l r ≡ true
    → is_some r.snapshot_job.failure ≡ same_job_state r.snapshot_job.state failed
    → write_case
        (record { tenant = r.tenant_id; id = r.case_id })
        r.version
        (completed_case r)
        optimistic_conflict
        db
      ≡ ok saved
    → find (lease_key l) saved.jobs ≡ o
    → complete_found l r o saved ≡ ok (r', db')
    → Completes l r db db'
unfolding complete_found release_active_job_quota
complete_found-Completes l r r' none db saved db' t u a f e = cc
complete_found-Completes l r r' (some j) db saved db' t u a f e =
    elim (Bool-cases (is_completable l r j)) [
      | inr n ↦ absurd (ground arith)
      | inl c ↦
          let k = lease_key l in
          let ck : Key = record { tenant = r.tenant_id; id = r.case_id } in
          let (same_version, same_case) = completable_version l r j c in
          let (written, w, e₁) = bind-ok (write_job k j (completed_row r j) saved) _ (rw c at e) in
          let same_key : ck ≡ case_of k j = cc (fits_tenant l r t, same_case) in
          let a' =
            subst (λ n. write_case ck n (completed_case r) optimistic_conflict db ≡ ok saved)
              (sym same_version) a in
          record {
            row = j;
            completable = c;
            fits = t;
            failure_fits = u;
            writes =
                end-Writes k j (completed_row r j) ck (completed_case r) optimistic_conflict db
                  saved written db'
                  (subst (λ x. find k x ≡ some j)
                    (jobs-write_case ck r.version (completed_case r) optimistic_conflict db saved a)
                    f)
                  same_key (λ c. refl) a' w (ground arith) (ground arith) (ground arith);
            base = written;
            released = ground arith;
          }
    ]

parse_job-failure :
    (job : ReproductionJob)
    → accepts (parse_job job) ≡ true
    → is_some job.failure ≡ same_job_state job.state failed
unfolding parse_job JobState-discrete
parse_job-failure job e = ground arith

parses-job : (r : DurableRecord) → parses r ≡ true → accepts (parse_job r.snapshot_job) ≡ true
unfolding parses
parses-job r e = ground arith

module _ (looks_secret : String → Bool) where
  pub validate_record-eq :
      (initial : Bool) (r r' : DurableRecord)
      → validate_record looks_secret initial r ≡ ok r'
      → r' ≡ r
  unfolding validate_record
  validate_record-eq initial r r' e = ground arith

  validate_record-parse_job :
      (initial : Bool) (r r' : DurableRecord)
      → validate_record looks_secret initial r ≡ ok r'
      → accepts (parse_job r'.snapshot_job) ≡ true
  unfolding validate_record
  validate_record-parse_job initial r r' e = parses-job r' (ground arith)

  -- A job of a valid record has a failure exactly if it failed.
  validate_record-failure :
      (initial : Bool) (r r' : DurableRecord)
      → validate_record looks_secret initial r ≡ ok r'
      → is_some r'.snapshot_job.failure ≡ same_job_state r'.snapshot_job.state failed
  validate_record-failure initial r r' e =
      parse_job-failure r'.snapshot_job (validate_record-parse_job initial r r' e)

  pub complete_lease-Completes :
      (l : JobLease) (r r' : DurableRecord) (db db' : Database)
      → complete_lease looks_secret l r db ≡ ok (r', db')
      → Completes l r db db'
  unfolding complete_lease
  complete_lease-Completes l r r' db db' e =
      let (_, p, e₁) = bind-ok (require (is_lease l) schema_rejected) _ e in
      let (v, q, e₂) = bind-ok (validate_record looks_secret false r) _ e₁ in
      let same = validate_record-eq false r v q in
      let (_, t, e₃) = bind-ok (require (fits_lease l v) lease_not_owned) _ e₂ in
      let (_, b, e₄) =
        bind-ok
          (require
            (not (claims_verified v)
              || is_some (find (record { tenant = v.tenant_id; id = v.case_id }) db.bundles))
            invalid_record)
          _ e₃ in
      let (saved, a, e₅) =
        bind-ok
          (write_case (record { tenant = v.tenant_id; id = v.case_id }) v.version (completed_case v)
            optimistic_conflict db)
          _ e₄ in
      subst (λ x. Completes l x db db') same
        (complete_found-Completes l v r' (find (lease_key l) saved.jobs) db saved db'
          (require-ok (fits_lease l v) lease_not_owned t) (validate_record-failure false r v q) a
          refl e₅)
