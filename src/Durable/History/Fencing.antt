-- ===== src/Durable/History/Fencing.antt =====
-- A worker whose job was claimed anew, or ended, is shut out for good.
use reproforge.Base.{
  ◌+◌, ◌<◌, ◌≡◌, sym, subst, String, Bool, true, false, some, ok, arith, inl, inr,
}
use reproforge.Domain.Job.{JobState-discrete}
use reproforge.Durable.Table.{find}
use reproforge.Durable.Rows.{JobRow, Database}
use reproforge.Durable.Lease.{JobLease, lease_key, ClaimInput, claim_key, claimed_row, claim_lease}
use reproforge.Durable.Steps.{claim_lease-Claims}
use reproforge.Durable.Exclusion.{IsPowerless, holds, powerless, claimed-find}
use reproforge.Durable.History.{Runs}
use reproforge.Durable.History.Order.{is_over, Runs-Later}

older : (l : JobLease) (j : JobRow) → l.attempt < j.attempt → holds l j ≡ false
older l j o = ground arith

over : (l : JobLease) (j : JobRow) → is_over j ≡ true → holds l j ≡ false
unfolding JobState-discrete
over l j o = ground arith

module _ (looks_secret : String → Bool) where
  -- Once a job was claimed anew, a lease of an earlier attempt is powerless, and it stays so
  -- whatever transactions follow.
  pub stale_lease-IsPowerless :
      (input : ClaimInput) (l stale : JobLease) (db claimed db' : Database)
      → claim_lease input db ≡ ok (some l, claimed)
      → Runs looks_secret claimed db'
      → lease_key stale ≡ claim_key input
      → stale.attempt < l.attempt
      → IsPowerless looks_secret stale db'
  stale_lease-IsPowerless input l stale db claimed db' e runs k before =
      let c = claim_lease-Claims input l db claimed e in
      let row = claimed_row input c.row in
      let (j', g, later) =
        Runs-Later looks_secret claimed db' (claim_key input) row runs
          (claimed-find input l db claimed c) in
      let found : find (lease_key stale) db'.jobs ≡ some j' =
        subst (λ x. find x db'.jobs ≡ some j') (sym k) g in
      let newer : stale.attempt < c.row.attempt + 1 =
        subst (λ (x : JobLease). stale.attempt < x.attempt) c.lease before in
      let attempts = later.attempts in
      powerless looks_secret stale j' db' found (older stale j' (omega (arith, newer, attempts)))

  -- Once a job is over, every lease of it is powerless, and it stays so whatever transactions
  -- follow.
  pub ended_job-IsPowerless :
      (l : JobLease) (j : JobRow) (db db' : Database)
      → find (lease_key l) db.jobs ≡ some j
      → is_over j ≡ true
      → Runs looks_secret db db'
      → IsPowerless looks_secret l db'
  ended_job-IsPowerless l j db db' f o runs =
      let (j', g, later) = Runs-Later looks_secret db db' (lease_key l) j runs f in
      powerless looks_secret l j' db' g (
        over l j' (elim later.moved [
          | inl same ↦ subst (λ (x : JobRow). is_over x ≡ true) (sym same) o
          | inr (_, alive) ↦ absurd (cc (o, alive))
        ]))
