-- ===== src/Durable/Endings/Failure.antt =====
-- What `failLease` of src/infrastructure/postgres/repositories.ts does when it succeeds.
use reproforge.Base.{
  ◌≡◌, refl, subst, String, Bool, true, false, Option, none, some, ok, arith, if◌then◌else◌, ◌⊎◌,
  inl, inr, Bool-cases, bind-ok,
}
use reproforge.Domain.Job.{is_some}
use reproforge.Durable.Table.{find}
use reproforge.Durable.Rows.{JobRow, Database}
use reproforge.Durable.Writes.{write_job, advance_case_version}
use reproforge.Durable.Lease.{JobLease, owns, lease_key}
use reproforge.Durable.Cancel.{cancel_lease_in_transaction}
use reproforge.Durable.Finish.{
  LeaseFailureDisposition, exhausted, requeued, LeaseFailure, requeues, failed_row, settle,
  fail_owned, fail_found, fail_lease,
}
use reproforge.Durable.Steps.{case_of, Writes, advance-Writes}
use reproforge.Durable.Endings.{Writes-same}
use reproforge.Durable.Endings.Cancellation.{Cancels, cancel_lease_in_transaction-Cancels}

-- A failure by the owner, where no cancellation was asked.
pub record Fails (l : JobLease) (failure : LeaseFailure) (d : LeaseFailureDisposition)
    (db db' : Database) : Type 0 where
  pub row : JobRow
  pub owned : owns l row ≡ true
  pub unasked : is_some row.cancellation_requested_at ≡ false
  pub disposition : d ≡ (if requeues failure row then requeued else exhausted)
  pub writes : Writes (lease_key l) row (failed_row failure row) db db'
  pub base : Database
  pub settled : settle l failure row base ≡ (d, db')

module _ (looks_secret : String → Bool) where
  jobs-settle :
      (l : JobLease) (failure : LeaseFailure) (j : JobRow) (db : Database)
      → ((settle l failure j db).1.jobs ≡ db.jobs)
        × ((settle l failure j db).1.cases ≡ db.cases)
        × ((settle l failure j db).1.audit_events ≡ db.audit_events)
        × ((settle l failure j db).0 ≡ (if requeues failure j then requeued else exhausted))
  unfolding settle
  jobs-settle l failure j db = ground arith

  fail_owned-Fails :
      (l : JobLease) (failure : LeaseFailure) (j : JobRow) (d : LeaseFailureDisposition)
      (db db' : Database)
      → find (lease_key l) db.jobs ≡ some j
      → owns l j ≡ true
      → fail_owned looks_secret l failure j db ≡ ok (d, db')
      → ((d ≡ LeaseFailureDisposition.cancelled) × Cancels l failure.at db db')
        ⊎ Fails l failure d db db'
  unfolding fail_owned
  fail_owned-Fails l failure j d db db' f o e =
      elim (Bool-cases (is_some j.cancellation_requested_at)) [
        | inl q ↦
            let ((r, db₁), c, e₁) =
              bind-ok (cancel_lease_in_transaction looks_secret l failure.at db) _ (rw q at e) in
            let same : db₁ ≡ db' = ground arith in
            inl (
              ground arith,
              subst (Cancels l failure.at db) same
                  (cancel_lease_in_transaction-Cancels looks_secret l failure.at r db db₁ c),
            )
        | inr n ↦
            let k = lease_key l in
            let (written, w, e₁) =
              bind-ok (write_job k j (failed_row failure j) db) _ (rw n at e) in
            let (advanced, a, e₂) =
              bind-ok (advance_case_version (case_of k j) j.version failure.at written) _ e₁ in
            let (same_jobs, same_cases, same_audits, same_disposition) =
              jobs-settle l failure j advanced in
            let base =
              advance-Writes k j (failed_row failure j) failure.at db written advanced f w a in
            inr (record {
              row = j;
              owned = o;
              unasked = n;
              disposition = cc;
              base = advanced;
              settled = ground arith;
              writes = Writes-same k j (failed_row failure j) db advanced db' base (cc) (cc) (cc);
            })
      ]

  fail_found-Fails :
      (l : JobLease) (failure : LeaseFailure) (o : Option JobRow) (d : LeaseFailureDisposition)
      (db db' : Database)
      → find (lease_key l) db.jobs ≡ o
      → fail_found looks_secret l failure o db ≡ ok (d, db')
      → ((d ≡ LeaseFailureDisposition.cancelled) × Cancels l failure.at db db')
        ⊎ Fails l failure d db db'
  unfolding fail_found
  fail_found-Fails l failure none d db db' f e = cc
  fail_found-Fails l failure (some j) d db db' f e = elim (Bool-cases (owns l j)) [
    | inl o ↦ fail_owned-Fails l failure j d db db' f o (rw o at e)
    | inr n ↦ absurd (ground arith)
  ]

  pub fail_lease-Fails :
      (l : JobLease) (failure : LeaseFailure) (d : LeaseFailureDisposition) (db db' : Database)
      → fail_lease looks_secret l failure db ≡ ok (d, db')
      → ((d ≡ LeaseFailureDisposition.cancelled) × Cancels l failure.at db db')
        ⊎ Fails l failure d db db'
  unfolding fail_lease
  fail_lease-Fails l failure d db db' e =
      fail_found-Fails l failure (find (lease_key l) db.jobs) d db db' refl (ground arith)
