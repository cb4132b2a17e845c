-- ===== src/Durable/History/Holding.antt =====
-- A lease keeps the job to its owner until the time that was granted last.
use reproforge.Base.{
  ℕ, ◌+◌, ◌≤◌, ◌<◌, ◌≡◌, refl, sym, subst, String, Bool, true, false, not, ◌&&◌, ◌||◌, Option, none,
  some, ok, arith, leb, inl, inr,
}
use reproforge.Domain.Job.{running, JobState-discrete}
use reproforge.Durable.Table.{find}
use reproforge.Durable.Rows.{JobRow, Database}
use reproforge.Durable.Lease.{
  JobLease, lease_key, ClaimInput, is_claimable, claimed_row, claim_key, claim_found, claim_lease,
  lease_of, renew_found, renew_lease,
}
use reproforge.Durable.Effects.{find-put_self}
use reproforge.Durable.Steps.{claim_lease-Claims, renew_lease-Renews}
use reproforge.Durable.Exclusion.{holds, claimed-find}
use reproforge.Durable.History.{
  RowStep, claimed, renewed, completed, lost, requested, withdrawn, Runs, start, next, Step-Change,
  Change-row,
}

-- The transactions that give a lease to a worker: a claim, and a renewal of an earlier lease.
pub data Grants (l : JobLease) (db db' : Database) : Type 0 where
  by_claim : (input : ClaimInput) → claim_lease input db ≡ ok (some l, db') → Grants l db db'
  by_renewal :
      (old : JobLease) (at : ℕ) → renew_lease old at l.expires_at db ≡ ok (l, db') → Grants l db db'

abbrev lasts_until : Option ℕ → ℕ → Bool
lasts_until none t = false
lasts_until (some u) t = leb t u

-- The row is of the lease's attempt or of a later one; and while that attempt runs, it lasts as
-- long as the lease.
abbrev is_kept : JobLease → JobRow → Bool
is_kept l j =
    leb l.attempt j.attempt && (not (holds l j) || lasts_until j.lease_expires_at l.expires_at)

RowStep-kept :
    (l : JobLease) (j j' : JobRow) → RowStep j j' → is_kept l j ≡ true → is_kept l j' ≡ true
unfolding JobState-discrete
RowStep-kept l _ _ (claimed input j c s) k = ground arith
RowStep-kept l _ _ (renewed m at expires_at j c e) k = ground arith
RowStep-kept l _ _ (completed m r j c f e) k = ground arith
RowStep-kept l _ _ (RowStep.cancelled m at j o a) k = ground arith
RowStep-kept l _ _ (lost m failure j o n) k = ground arith
RowStep-kept l _ _ (requested at j r) k = ground arith
RowStep-kept l _ _ (withdrawn at j q) k = ground arith

renew_found-result :
    (l l' : JobLease) (at expires_at : ℕ) (o : Option JobRow) (db db' : Database)
    → renew_found l at expires_at o db ≡ ok (l', db')
    → l' ≡ record l { expires_at = expires_at }
unfolding renew_found
renew_found-result l l' at expires_at none db db' e = cc e
renew_found-result l l' at expires_at (some j) db db' e = ground (arith, e)

renew_lease-result :
    (l l' : JobLease) (at expires_at : ℕ) (db db' : Database)
    → renew_lease l at expires_at db ≡ ok (l', db')
    → l' ≡ record l { expires_at = expires_at }
unfolding renew_lease
renew_lease-result l l' at expires_at db db' e =
    renew_found-result l l' at expires_at (find (lease_key l) db.jobs) db db' (ground arith)

renewed-kept :
    (l : JobLease) (expires_at : ℕ) (j j' : JobRow)
    → j'.attempt ≡ j.attempt
    → j.attempt ≡ l.attempt
    → j'.lease_expires_at ≡ some expires_at
    → is_kept (record l { expires_at = expires_at }) j' ≡ true
renewed-kept l expires_at j j' a b c = ground arith

-- What a grant leaves in the row of the job.
Grants-kept :
    (l : JobLease) (db db' : Database)
    → Grants l db db'
    → (j : JobRow) × (find (lease_key l) db'.jobs ≡ some j) × (is_kept l j ≡ true)
Grants-kept l db db' (by_claim input e) =
    let c = claim_lease-Claims input l db db' e in
    let kept : is_kept (lease_of input c.row) (claimed_row input c.row) ≡ true = ground arith in
    (
      claimed_row input c.row,
      subst (λ (x : JobLease). find (lease_key x) db'.jobs ≡ some (claimed_row input c.row))
          (sym c.lease) (claimed-find input l db db' c),
      subst (λ (x : JobLease). is_kept x (claimed_row input c.row) ≡ true) (sym c.lease) kept,
    )
Grants-kept l db db' (by_renewal old at e) =
    let c = renew_lease-Renews old l at l.expires_at db db' e in
    let same = renew_lease-result old l at l.expires_at db db' e in
    let new : JobRow = record c.row {
      lease_expires_at = some l.expires_at;
      updated_at = at;
      version = c.row.version + 1;
    } in
    let renewable = c.renewable in
    let kept : is_kept (record old { expires_at = l.expires_at }) new ≡ true =
      renewed-kept old l.expires_at c.row new refl (ground (arith, renewable)) refl in
    (
      new,
      subst (λ (x : JobLease). find (lease_key x) db'.jobs ≡ some new) (sym same)
          (subst (λ t. find (lease_key old) t ≡ some new) (sym c.writes.jobs)
            (find-put_self (lease_key old) new db.jobs)),
      subst (λ (x : JobLease). is_kept x new ≡ true) (sym same) kept,
    )

refused_while :
    (l : JobLease) (j : JobRow) (at : ℕ)
    → is_kept l j ≡ true
    → j.state ≡ running
    → j.attempt ≡ l.attempt
    → at < l.expires_at
    → is_claimable j at ≡ false
unfolding JobState-discrete
refused_while l j at k r a before = ground arith

module _ (looks_secret : String → Bool) where
  Runs-kept :
      (l : JobLease) (db db' : Database) (j : JobRow)
      → Runs looks_secret db db'
      → find (lease_key l) db.jobs ≡ some j
      → is_kept l j ≡ true
      → (j' : JobRow) × (find (lease_key l) db'.jobs ≡ some j') × (is_kept l j' ≡ true)
  Runs-kept l _ _ j (start db) f k = (j, f, k)
  Runs-kept l _ _ j (next db mid db' runs step) f k =
      let (m, g, kept) = Runs-kept l db mid j runs f k in
      let (j', h, either) =
        Change-row mid db' (lease_key l) m (Step-Change looks_secret mid db' step) g in
      (
        j',
        h,
        elim either [
          | inl same ↦ subst (λ (x : JobRow). is_kept l x ≡ true) (sym same) kept
          | inr r ↦ RowStep-kept l m j' r kept
        ],
      )

  -- As long as the attempt for which a lease was granted, by a claim or by a renewal, still runs,
  -- whatever transactions followed the grant, no claim of the job before the time that was granted
  -- succeeds, whoever makes it: for any time that a lease may have, from one second to an hour, it
  -- returns no lease and changes nothing.
  pub held_lease-exclusive :
      (l : JobLease) (db granted db' : Database) (j : JobRow) (input : ClaimInput)
      → Grants l db granted
      → Runs looks_secret granted db'
      → find (lease_key l) db'.jobs ≡ some j
      → (j.state ≡ running) × (j.attempt ≡ l.attempt)
      → claim_key input ≡ lease_key l
      → input.at < l.expires_at
      → (1 ≤ input.lease_seconds) × (input.lease_seconds ≤ 3600)
      → claim_lease input db' ≡ ok (none, db')
  unfolding claim_lease claim_found
  held_lease-exclusive l db granted db' j input grant runs f (r, a) k before seconds =
      let (i, g, kept) = Grants-kept l db granted grant in
      let (j', h, kept') = Runs-kept l granted db' i runs g kept in
      let this : j' ≡ j = cc (f, h) in
      let keeps = subst (λ (x : JobRow). is_kept l x ≡ true) this kept' in
      let refused = refused_while l j input.at keeps r a before in
      let found : find (claim_key input) db'.jobs ≡ some j =
        subst (λ x. find x db'.jobs ≡ some j) (sym k) f in
      ground (arith, found, refused)
