-- ===== src/Durable/Writes.antt =====
-- The statements that the transactions share.
use reproforge.Base.{
  ℕ, ◌+◌, String, Bool, true, false, ◌&&◌, ◌||◌, none, some, List, [], ◌∷◌, ◌++◌, map, Outcome, ok,
  err, leb, ◌==◌, ◌===◌, if◌then◌else◌,
}
use reproforge.Durable.Table.{Key, find, put}
use reproforge.Durable.Rows.{
  JobRow, CaseRow, QuotaRow, QuotaResource, active_jobs, QuotaState, reserved, released, EventId,
  named, recovery, cancellation, OutboxRow, Database,
}
use reproforge.Durable.Records.{DurableError, optimistic_conflict, update_refused}

-- The result of a transaction with the database that it leaves.
abbrev pub Result {ℓ} : Type ℓ → Type ℓ
Result A = Outcome DurableError (A × Database)

-- An UPDATE of one row, which the trigger on `updated_at` may refuse.
unfoldable pub write_job : Key → JobRow → JobRow → Database → Outcome DurableError Database
unfolding put
write_job k old new db =
    if leb old.updated_at new.updated_at
    then ok (record db { jobs = put k new db.jobs })
    else err update_refused

-- `UPDATE cases … WHERE version = $3`, and the check that it met its row.
unfoldable pub write_case :
    Key → ℕ → (CaseRow → CaseRow) → DurableError → Database → Outcome DurableError Database
unfolding put find
write_case k expected_version change lost db = elim (find k db.cases) [
  | none ↦ err lost
  | some old ↦
      if old.version == expected_version
      then (if leb old.updated_at (change old).updated_at
          then ok (record db { cases = put k (change old) db.cases })
          else err update_refused)
      else err lost
]

-- `advanceCaseVersion`
unfoldable pub advance_case_version : Key → ℕ → ℕ → Database → Outcome DurableError Database
unfolding write_case
advance_case_version k expected_version updated_at =
    write_case k expected_version
      (λ c. record c { version = c.version + 1; updated_at = updated_at }) optimistic_conflict

abbrev pub is_active_jobs : QuotaResource → Bool
is_active_jobs active_jobs = true
is_active_jobs _ = false

abbrev pub is_reserved : QuotaState → Bool
is_reserved reserved = true
is_reserved _ = false

abbrev pub holds_active_job : String → String → QuotaRow → Bool
holds_active_job tenant_id job_id q =
    q.tenant_id === tenant_id
    && q.job_id === job_id
    && is_active_jobs q.resource
    && is_reserved q.state

abbrev pub release_row : String → String → ℕ → QuotaRow → QuotaRow
release_row tenant_id job_id at q =
    if holds_active_job tenant_id job_id q
    then record q { state = released; updated_at = at }
    else q

-- `releaseActiveJobQuota`
unfoldable pub release_active_job_quota : String → String → ℕ → Database → Database
release_active_job_quota tenant_id job_id at db = record db {
  quota_ledger = map (release_row tenant_id job_id at) db.quota_ledger;
}

abbrev pub same_event : EventId → EventId → Bool
same_event (named a) (named b) = a === b
same_event (recovery t j n) (recovery u k m) = t === u && j === k && n == m
same_event (cancellation t j) (cancellation u k) = t === u && j === k
same_event _ _ = false

unfoldable pub has_event : String → EventId → List OutboxRow → Bool
has_event tenant_id event_id [] = false
has_event tenant_id event_id (e ∷ es) =
    e.message.tenant_id === tenant_id && same_event e.message.event_id event_id
    || has_event tenant_id event_id es

-- `INSERT … ON CONFLICT (tenant_id, id) DO NOTHING`
unfoldable pub insert_event_if_new : OutboxRow → Database → Database
unfolding has_event
insert_event_if_new row db =
    if has_event row.message.tenant_id row.message.event_id db.outbox_events
    then db
    else record db { outbox_events = db.outbox_events ++ row ∷ [] }
