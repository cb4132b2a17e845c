-- ===== src/Durable/Recover.antt =====
-- `recoverExpiredLeases` of src/infrastructure/postgres/repositories.ts.
pub mod Rows
pub mod Whole
pub mod Committed
use reproforge.Base.{
  not, inl, inr, ℕ, ◌+◌, ◌≤◌, ◌≡◌, String, Bool, true, ◌&&◌, ◌||◌, Option, none, some, [], ◌∷◌, ok,
  err, ◌>>=◌, ◌>>◌, require, bind-ok, arith, leb, ltb, ◌==◌, ◌===◌, length, take, length-take_bound,
  subst, if◌then◌else◌,
}
use reproforge.Domain.Job.{running, same_job_state}
use reproforge.Durable.Table.{Key, Table}
use reproforge.Audit.{append_audit}
use reproforge.Audit.Appended.{append_audit-length}
use reproforge.Durable.Endings.Failure.{fail_lease-Fails}
use reproforge.Durable.Rows.{
  recovery, text, number, success, failure, target_text, job, AuditOutcome, AuditEvent, JobRow,
  Database,
}
use reproforge.Durable.Records.{schema_rejected, lease_not_owned}
use reproforge.Durable.Writes.{Result}
use reproforge.Durable.Lease.{JobLease, is_lease, has_expired}
use reproforge.Durable.Finish.{
  LeaseFailure, LeaseFailureDisposition, cancelled, exhausted, requeued, fail_lease,
}
use reproforge.Durable.History.{fail, note, Runs, start, next}

pub record RecoverySummary : Type 0 where
  pub cancelled_leases : ℕ
  pub exhausted_leases : ℕ
  pub requeued_leases : ℕ

abbrev pub nothing_recovered : RecoverySummary
nothing_recovered = record { cancelled_leases = 0; exhausted_leases = 0; requeued_leases = 0 }

abbrev pub counted : RecoverySummary → ℕ
counted s = s.cancelled_leases + s.exhausted_leases + s.requeued_leases

-- `summary[disposition] += 1`
abbrev pub count_disposition : LeaseFailureDisposition → RecoverySummary → RecoverySummary
count_disposition cancelled s = record s { cancelled_leases = s.cancelled_leases + 1 }
count_disposition exhausted s = record s { exhausted_leases = s.exhausted_leases + 1 }
count_disposition requeued s = record s { requeued_leases = s.requeued_leases + 1 }

-- The lease columns of a row; a NULL in them is no lease and does not parse.
abbrev pub lease_columns : Key → ℕ → Option String → Option ℕ → Option ℕ → Option JobLease
lease_columns k attempt (some owner) (some acquired_at) (some expires_at) = some (record {
  acquired_at = acquired_at;
  attempt = attempt;
  expires_at = expires_at;
  job_id = k.id;
  owner_id = owner;
  tenant_id = k.tenant;
})
lease_columns k attempt _ _ _ = none

abbrev pub lease_of_row : Key → JobRow → Option JobLease
lease_of_row k j = lease_columns k j.attempt j.lease_owner j.lease_acquired_at j.lease_expires_at

abbrev pub is_expired : ℕ → JobRow → Bool
is_expired at j = same_job_state j.state running && has_expired j.lease_expires_at at

-- `FOR UPDATE SKIP LOCKED`: the rows that another transaction has locked are passed over.
unfoldable pub expired_rows : (Key → Bool) → ℕ → Table JobRow → Table JobRow
expired_rows locked at [] = []
expired_rows locked at ((k, j) ∷ t) =
    let rest = expired_rows locked at t in
    if is_expired at j && not (locked k) then (k, j) ∷ rest else rest

abbrev expiry : Option ℕ → ℕ
expiry none = 0
expiry (some t) = t

-- The collation of the database, by which texts are ordered, is `text_before`.
module _ (text_before : String → String → Bool) where
  -- `ORDER BY lease_expires_at, tenant_id, id`
  abbrev pub row_before : Key × JobRow → Key × JobRow → Bool
  row_before (k, i) (l, j) =
      ltb (expiry i.lease_expires_at) (expiry j.lease_expires_at)
      || expiry i.lease_expires_at == expiry j.lease_expires_at
        && (text_before k.tenant l.tenant || k.tenant === l.tenant && text_before k.id l.id)

  unfoldable pub insert_row : Key × JobRow → Table JobRow → Table JobRow
  insert_row r [] = r ∷ []
  insert_row r (s ∷ t) = let rest = insert_row r t in if row_before r s then r ∷ s ∷ t else s ∷ rest

  unfoldable pub order_rows : Table JobRow → Table JobRow
  unfolding insert_row
  order_rows [] = []
  order_rows (r ∷ t) = insert_row r (order_rows t)

module _ (looks_secret : String → Bool) where
  abbrev pub expiry_failure : ℕ → LeaseFailure
  expiry_failure at = record {
    at = at;
    code = "LEASE_EXPIRED";
    next_attempt_at = at;
    retryable = true;
  }

  abbrev recovered_text : LeaseFailureDisposition → String
  recovered_text cancelled = "cancelled"
  recovered_text exhausted = "exhausted"
  recovered_text requeued = "requeued"

  abbrev recovery_outcome : LeaseFailureDisposition → AuditOutcome
  recovery_outcome exhausted = failure
  recovery_outcome _ = success

  abbrev pub recovery_audit : JobLease → LeaseFailureDisposition → ℕ → AuditEvent
  recovery_audit l d at = record {
    action = "job.lease-recovered";
    actor_id = "operator:lease-recovery";
    event_id = recovery l.tenant_id l.job_id l.attempt;
    metadata = ("attempt", number l.attempt) ∷ ("disposition", text (recovered_text d)) ∷ [];
    occurred_at = at;
    outcome = recovery_outcome d;
    target_id = target_text l.job_id;
    target_type = job;
    tenant_id = l.tenant_id;
  }

  unfoldable pub recover_lease :
      ℕ → Option JobLease → RecoverySummary → Database → Result RecoverySummary
  unfolding fail_lease is_lease append_audit
  recover_lease at none summary db = err schema_rejected
  recover_lease at (some l) summary db = do
    require (is_lease l) schema_rejected
    (d, db') ← fail_lease looks_secret l (expiry_failure at) db
    audits ← append_audit (recovery_audit l d at) db'.audit_events
    ok (count_disposition d summary, record db' { audit_events = audits })

  unfoldable pub recover_all :
      ℕ → Table JobRow → RecoverySummary → Database → Result RecoverySummary
  unfolding recover_lease
  recover_all at [] summary db = ok (summary, db)
  recover_all at ((k, j) ∷ t) summary db =
      recover_lease at (lease_of_row k j) summary db >>= λ (summary', db').
      recover_all at t summary' db'

  unfoldable pub recover_expired_leases :
      (String → String → Bool) → (Key → Bool) → ℕ → ℕ → Database → Result RecoverySummary
  unfolding expired_rows order_rows recover_all
  recover_expired_leases text_before locked at limit db = do
    require (leb 1 limit && leb limit 1000) lease_not_owned
    recover_all at (take limit (order_rows text_before (expired_rows locked at db.jobs)))
        nothing_recovered db
