-- ===== src/Durable/Endings/Cancellation.antt =====
-- What `cancelLease` of src/infrastructure/postgres/repositories.ts does when it succeeds.
use reproforge.Base.{
  ℕ, ◌≡◌, refl, String, Bool, true, ◌&&◌, Option, none, some, ok, arith, eq_iff, leb, ◌==◌, ◌===◌,
  inl, inr, Bool-cases, bind-ok,
}
use reproforge.Domain.Job.{is_some}
use reproforge.Durable.Table.{Key, find}
use reproforge.Durable.Rows.{JobRow, Database, IdempotencyRow}
use reproforge.Durable.Records.{optimistic_conflict, DurableRecord, find_record}
use reproforge.Durable.Writes.{write_job, write_case, release_active_job_quota}
use reproforge.Durable.Lease.{JobLease, owns, lease_key, find_by_lease}
use reproforge.Durable.Cancel.{
  cancelled_record, cancelled_case, cancelled_row, cancel_read, cancel_found,
  cancel_lease_in_transaction, cancel_lease,
}
use reproforge.Durable.Lookups.{find_record-IsRead, IsRead-job}
use reproforge.Durable.Steps.{case_of, Writes}
use reproforge.Durable.Endings.{end-Writes}

-- A cancellation by the worker met its row, of which it was asked.
pub record Cancels (l : JobLease) (at : ℕ) (db db' : Database) : Type 0 where
  pub row : JobRow
  pub owned : owns l row ≡ true
  pub asked : is_some row.cancellation_requested_at ≡ true
  pub writes : Writes (lease_key l) row (cancelled_row at row) db db'
  pub base : Database
  pub released : db' ≡ release_active_job_quota l.tenant_id l.job_id at base

module _ (looks_secret : String → Bool) where
  cancel_read-Cancels :
      (l : JobLease) (at : ℕ) (j : JobRow) (r r' : DurableRecord) (db db' : Database)
      → find (lease_key l) db.jobs ≡ some j
      → owns l j ≡ true
      → is_some j.cancellation_requested_at ≡ true
      → r.case_id ≡ j.case_id
      → cancel_read looks_secret l at j (some r) db ≡ ok (r', db')
      → Cancels l at db db'
  unfolding cancel_read release_active_job_quota
  cancel_read-Cancels l at j r r' db db' f o q s e = elim (Bool-cases (r.version == j.version)) [
    | inr n ↦ absurd (ground arith)
    | inl v ↦
        let k = lease_key l in
        let ck : Key = record { tenant = l.tenant_id; id = r.case_id } in
        let (m, c, e₁) = bind-ok (cancelled_record r at) _ (rw v at e) in
        let (saved, a, e₂) =
          bind-ok (write_case ck j.version (cancelled_case m at) optimistic_conflict db) _ e₁ in
        let (written, w, e₃) = bind-ok (write_job k j (cancelled_row at j) saved) _ e₂ in
        let same_key : ck ≡ case_of k j = cc s in
        record {
          row = j;
          owned = o;
          asked = q;
          writes =
              end-Writes k j (cancelled_row at j) ck (cancelled_case m at) optimistic_conflict db
                saved written db' f same_key (λ x. refl) a w (ground arith) (ground arith)
                (ground arith);
          base = written;
          released = ground arith;
        }
  ]

  find_by_lease-case :
      (l : JobLease) (j : JobRow) (r : DurableRecord) (db : Database)
      → find (lease_key l) db.jobs ≡ some j
      → find_by_lease looks_secret l db ≡ ok (some r)
      → r.case_id ≡ j.case_id
  unfolding find_by_lease
  find_by_lease-case l j r db f e =
      let wanted : IdempotencyRow → JobRow → Bool =
        λ key j. key.tenant_id === l.tenant_id && key.job_id === l.job_id && owns l j in
      let found : find_record looks_secret wanted db db.idempotency_keys ≡ ok (some r) =
        ground arith in
      let read = find_record-IsRead looks_secret wanted db db.idempotency_keys r found in
      let met = read.met in
      let tenant = (eq_iff read.key.tenant_id l.tenant_id).0 (ground arith) in
      let job = (eq_iff read.key.job_id l.job_id).0 (ground arith) in
      (IsRead-job looks_secret wanted db (lease_key l) j r read f tenant job).0

  cancel_some-Cancels :
      (l : JobLease) (at : ℕ) (j : JobRow) (o : Option DurableRecord) (r' : DurableRecord)
      (db db' : Database)
      → find (lease_key l) db.jobs ≡ some j
      → owns l j ≡ true
      → is_some j.cancellation_requested_at ≡ true
      → find_by_lease looks_secret l db ≡ ok o
      → cancel_read looks_secret l at j o db ≡ ok (r', db')
      → Cancels l at db db'
  unfolding cancel_read
  cancel_some-Cancels l at j none r' db db' f o q b e = cc
  cancel_some-Cancels l at j (some r) r' db db' f o q b e =
      cancel_read-Cancels l at j r r' db db' f o q (find_by_lease-case l j r db f b) e

  cancel_found-Cancels :
      (l : JobLease) (at : ℕ) (o : Option JobRow) (r' : DurableRecord) (db db' : Database)
      → find (lease_key l) db.jobs ≡ o
      → cancel_found looks_secret l at o db ≡ ok (r', db')
      → Cancels l at db db'
  unfolding cancel_found find_by_lease
  cancel_found-Cancels l at none r' db db' f e = cc
  cancel_found-Cancels l at (some j) r' db db' f e =
      elim (Bool-cases (owns l j && is_some j.cancellation_requested_at && leb 1 j.version)) [
        | inr n ↦ absurd (ground arith)
        | inl v ↦
            let (o, q, e₁) =
              bind-ok (find_by_lease looks_secret l db) (λ r. cancel_read looks_secret l at j r db)
                (rw v at e) in
            cancel_some-Cancels l at j o r' db db' f (ground arith) (ground arith) q e₁
      ]

  pub cancel_lease_in_transaction-Cancels :
      (l : JobLease) (at : ℕ) (r' : DurableRecord) (db db' : Database)
      → cancel_lease_in_transaction looks_secret l at db ≡ ok (r', db')
      → Cancels l at db db'
  unfolding cancel_lease_in_transaction
  cancel_lease_in_transaction-Cancels l at r' db db' e =
      cancel_found-Cancels l at (find (lease_key l) db.jobs) r' db db' refl e

  pub cancel_lease-Cancels :
      (l : JobLease) (at : ℕ) (r' : DurableRecord) (db db' : Database)
      → cancel_lease looks_secret l at db ≡ ok (r', db')
      → Cancels l at db db'
  unfolding cancel_lease
  cancel_lease-Cancels l at r' db db' e =
      cancel_lease_in_transaction-Cancels l at r' db db' (ground arith)
