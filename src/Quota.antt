-- ===== src/Quota.antt =====
-- The quota ledger: `PostgresQuotaLedger` of src/infrastructure/postgres/repositories.ts.
pub mod Limit
use reproforge.Base.{
  ℕ, ◌+◌, String, Bool, true, false, not, ◌&&◌, ◌||◌, Option, none, some, List, [], ◌∷◌, ◌++◌, map,
  exists, Outcome, ok, err, ◌>>=◌, ◌>>◌, require, leb, ltb, ◌==◌, ◌===◌, if◌then◌else◌,
}
use reproforge.Domain.Case.{is_datetime}
use reproforge.Domain.Run.{max_safe_integer}
use reproforge.Durable.Table.{Key, Table, find}
use reproforge.Durable.Rows.{
  JobRow, QuotaResource, active_jobs, artifact_bytes, cpu_milliseconds, exports, QuotaState,
  reserved, committed, released, expired, QuotaRow,
}
use reproforge.Durable.Records.{
  DurableError, schema_rejected, quota_not_active, insert_refused, is_opaque_id,
}
use reproforge.Durable.Writes.{is_reserved, release_row, holds_active_job}

pub record QuotaReservation : Type 0 where
  pub amount : ℕ
  pub case_id : String
  pub expires_at : ℕ
  pub job_id : String
  pub reservation_id : String
  pub resource : QuotaResource
  pub tenant_id : String

-- `quotaReservationSchema`
unfoldable pub is_reservation : QuotaReservation → Bool
is_reservation r =
    leb 1 r.amount
    && leb r.amount max_safe_integer
    && is_opaque_id r.case_id
    && is_datetime r.expires_at
    && is_opaque_id r.job_id
    && is_opaque_id r.reservation_id
    && is_opaque_id r.tenant_id

abbrev pub same_resource : QuotaResource → QuotaResource → Bool
same_resource active_jobs active_jobs = true
same_resource artifact_bytes artifact_bytes = true
same_resource cpu_milliseconds cpu_milliseconds = true
same_resource exports exports = true
same_resource _ _ = false

abbrev pub default_limits : QuotaResource → ℕ
default_limits active_jobs = 2
default_limits artifact_bytes = 1073741824
default_limits cpu_milliseconds = 3600000
default_limits exports = 20

-- What a row counts for.
abbrev pub amount_of : QuotaState → QuotaRow → ℕ
amount_of committed q = q.actual_amount
amount_of reserved q = q.reserved_amount
amount_of _ q = 0

abbrev pub is_of : String → QuotaResource → QuotaRow → Bool
is_of tenant_id resource q = q.tenant_id === tenant_id && same_resource q.resource resource

abbrev pub charge : String → QuotaResource → ℕ → QuotaRow → ℕ
charge tenant_id resource now q =
    if is_of tenant_id resource q && ltb now q.window_end then amount_of q.state q else 0

-- The sum over the rows of a tenant and a resource whose window is open.
unfoldable pub usage : String → QuotaResource → ℕ → List QuotaRow → ℕ
usage tenant_id resource now [] = 0
usage tenant_id resource now (q ∷ qs) =
    charge tenant_id resource now q + usage tenant_id resource now qs

abbrev pub expire_row : String → QuotaResource → ℕ → QuotaRow → QuotaRow
expire_row tenant_id resource now q =
    if is_of tenant_id resource q && is_reserved q.state && leb q.expires_at now
    then record q { state = expired; updated_at = now }
    else q

abbrev pub reservation_row : QuotaReservation → JobRow → QuotaRow
reservation_row r j = record {
  tenant_id = r.tenant_id;
  id = r.reservation_id;
  case_id = r.case_id;
  job_id = r.job_id;
  resource = r.resource;
  window_end = r.expires_at;
  reserved_amount = r.amount;
  actual_amount = 0;
  state = reserved;
  expires_at = r.expires_at;
  updated_at = j.created_at;
}

abbrev pub is_row : String → String → QuotaRow → Bool
is_row tenant_id id q = q.tenant_id === tenant_id && q.id === id

-- `INSERT … SELECT … FROM jobs … ON CONFLICT DO NOTHING`, whose check on the window the table makes.
unfoldable pub insert_reservation :
    QuotaReservation → Option JobRow → List QuotaRow → Outcome DurableError (Bool × List QuotaRow)
insert_reservation r none ledger = ok (false, ledger)
insert_reservation r (some j) ledger =
    if j.case_id === r.case_id
    then (if ltb j.created_at r.expires_at
        then (if exists (is_row r.tenant_id r.reservation_id) ledger
            then ok (false, ledger)
            else ok (true, ledger ++ reservation_row r j ∷ []))
        else err insert_refused)
    else ok (false, ledger)

-- `reserve`, at the transaction's time `now`.
unfoldable pub reserve_quota :
    (QuotaResource → ℕ)
    → QuotaReservation
    → ℕ
    → Table JobRow
    → List QuotaRow
    → Outcome DurableError (Bool × List QuotaRow)
unfolding usage insert_reservation is_reservation find
reserve_quota limits r now jobs ledger = do
  require (is_reservation r) schema_rejected
  let live = map (expire_row r.tenant_id r.resource now) ledger in
      (let used = usage r.tenant_id r.resource now live in
        (if leb used max_safe_integer && leb (used + r.amount) (limits r.resource)
          then insert_reservation r (find (record { tenant = r.tenant_id; id = r.job_id }) jobs)
              live
          else ok (false, live)))

abbrev pub commit_row : String → String → ℕ → ℕ → QuotaRow → QuotaRow
commit_row tenant_id id actual now q =
    if is_row tenant_id id q && is_reserved q.state && leb actual q.reserved_amount
    then record q { state = committed; actual_amount = actual; updated_at = now }
    else q

abbrev pub can_commit : String → String → ℕ → QuotaRow → Bool
can_commit tenant_id id actual q =
    is_row tenant_id id q && is_reserved q.state && leb actual q.reserved_amount

-- `commit`
unfoldable pub commit_quota :
    String → String → ℕ → ℕ → List QuotaRow → Outcome DurableError (List QuotaRow)
commit_quota tenant_id id actual now ledger =
    if exists (can_commit tenant_id id actual) ledger
    then ok (map (commit_row tenant_id id actual now) ledger)
    else err quota_not_active

abbrev pub can_release : String → String → QuotaRow → Bool
can_release tenant_id id q = is_row tenant_id id q && is_reserved q.state

abbrev pub released_row : String → String → ℕ → QuotaRow → QuotaRow
released_row tenant_id id now q =
    if can_release tenant_id id q then record q { state = released; updated_at = now } else q

-- `release`
unfoldable pub release_quota :
    String → String → ℕ → List QuotaRow → Outcome DurableError (List QuotaRow)
release_quota tenant_id id now ledger =
    if exists (can_release tenant_id id) ledger
    then ok (map (released_row tenant_id id now) ledger)
    else err quota_not_active

unfoldable pub count_rows : (QuotaRow → Bool) → List QuotaRow → ℕ
count_rows p [] = 0
count_rows p (q ∷ qs) = (if p q then 1 else 0) + count_rows p qs

-- `releaseForJob`
unfoldable pub release_for_job :
    String → String → ℕ → List QuotaRow → Outcome DurableError (ℕ × List QuotaRow)
unfolding count_rows
release_for_job tenant_id job_id at ledger =
    if is_opaque_id tenant_id && is_opaque_id job_id
    then ok (
      count_rows (holds_active_job tenant_id job_id) ledger,
      map (release_row tenant_id job_id at) ledger,
    )
    else err quota_not_active
