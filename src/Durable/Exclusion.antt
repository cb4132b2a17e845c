-- ===== src/Durable/Exclusion.antt =====
-- What a lease can do: an owner whose attempt the job's row does not run can do nothing.
use reproforge.Base.{
  ℕ, ◌≡◌, ◌≢◌, sym, subst, String, Bool, false, some, ok, arith, ◌==◌, ◌&&◌, inl, inr,
}
use reproforge.Domain.Job.{running, same_job_state}
use reproforge.Durable.Table.{find}
use reproforge.Durable.Rows.{JobRow, Database}
use reproforge.Durable.Records.{DurableRecord}
use reproforge.Durable.Lease.{JobLease, lease_key, ClaimInput, claimed_row, claim_key, renew_lease}
use reproforge.Durable.Cancel.{cancel_lease}
use reproforge.Durable.Finish.{complete_lease, LeaseFailure, LeaseFailureDisposition, fail_lease}
use reproforge.Durable.Effects.{find-put_self}
use reproforge.Durable.Steps.{Claims, renew_lease-Renews}
use reproforge.Durable.Endings.Completion.{complete_lease-Completes}
use reproforge.Durable.Endings.Cancellation.{cancel_lease-Cancels}
use reproforge.Durable.Endings.Failure.{fail_lease-Fails}

-- The row that a successful claim leaves.
pub claimed-find :
    (input : ClaimInput) (l : JobLease) (db db' : Database) (c : Claims input l db db')
    → find (claim_key input) db'.jobs ≡ some (claimed_row input c.row)
claimed-find input l db db' c =
    subst (λ t. find (claim_key input) t ≡ some (claimed_row input c.row)) (sym c.writes.jobs)
      (find-put_self (claim_key input) (claimed_row input c.row) db.jobs)

-- What every operation on a lease asks of the job's row.
abbrev pub holds : JobLease → JobRow → Bool
holds l j = same_job_state j.state running && j.attempt == l.attempt

module _ (looks_secret : String → Bool) where
  -- A lease by which nothing can be done any more: it neither completes, renews, cancels nor
  -- fails its job.
  abbrev pub IsPowerless : JobLease → Database → Type 0
  IsPowerless l db =
      ((r r' : DurableRecord) (db' : Database) → complete_lease looks_secret l r db ≢ ok (r', db'))
      × ((l' : JobLease) (at expires_at : ℕ) (db' : Database)
          → renew_lease l at expires_at db ≢ ok (l', db'))
      × ((r : DurableRecord) (at : ℕ) (db' : Database)
          → cancel_lease looks_secret l at db ≢ ok (r, db'))
      × ((f : LeaseFailure) (d : LeaseFailureDisposition) (db' : Database)
          → fail_lease looks_secret l f db ≢ ok (d, db'))

  -- A lease that the row does not answer to can do nothing.
  pub powerless :
      (l : JobLease) (j : JobRow) (db : Database)
      → find (lease_key l) db.jobs ≡ some j
      → holds l j ≡ false
      → IsPowerless l db
  powerless l j db f n =
      let refused : (row : JobRow) → find (lease_key l) db.jobs ≡ some row → holds l row ≡ false =
        λ row g.
          let this : j ≡ row = cc (f, g) in subst (λ (x : JobRow). holds l x ≡ false) this n in
      (
        λ r r' db' e.
            let c = complete_lease-Completes looks_secret l r r' db db' e in
            let c_holds = refused c.row c.writes.found in ground (arith, c.completable),
        λ l' at expires_at db' e.
            let c = renew_lease-Renews l l' at expires_at db db' e in
            let c_holds = refused c.row c.writes.found in ground (arith, c.renewable),
        λ r at db' e.
            let c = cancel_lease-Cancels looks_secret l at r db db' e in
            let c_holds = refused c.row c.writes.found in ground (arith, c.owned),
        λ failure d db' e. elim (fail_lease-Fails looks_secret l failure d db db' e) [
          | inl (_, c) ↦ let c_holds = refused c.row c.writes.found in ground (arith, c.owned)
          | inr c ↦ let c_holds = refused c.row c.writes.found in ground (arith, c.owned)
        ],
      )
