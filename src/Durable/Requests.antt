-- ===== src/Durable/Requests.antt =====
-- What a request for cancellation does to the rows of the job and of its case.
use reproforge.Base.{
  ℕ, ◌≡◌, refl, subst, String, Bool, ◌&&◌, Option, none, some, ok, ◌>>=◌, arith, eq_iff, ◌===◌, ◌⊎◌,
  inl, inr, bind-ok,
}
use reproforge.Domain.Job.{JobState-discrete, queued, running}
use reproforge.Durable.Table.{Key, find}
use reproforge.Durable.Rows.{JobRow, Database, IdempotencyRow}
use reproforge.Durable.Records.{
  optimistic_conflict, TenantScope, DurableRecord, find_record, find_by_job_id,
}
use reproforge.Durable.Writes.{
  write_job, write_case, advance_case_version, release_active_job_quota,
}
use reproforge.Durable.Cancel.{
  cancelled_record, cancelled_case, CancellationRequestResult, job_key, requested_row,
  queued_cancelled_row, request_running, request_queued, request_read, request_found,
  request_cancellation,
}
use reproforge.Durable.Lookups.{find_record-IsRead, IsRead-job}
use reproforge.Durable.Steps.{case_of, Writes, advance-Writes}
use reproforge.Durable.Endings.{end-Writes}

-- A running job is marked, or a queued one cancelled.
pub data Requests (k : Key) (at : ℕ) (db db' : Database) : Type 0 where
  unchanged : db' ≡ db → Requests k at db db'
  marked :
      (j : JobRow)
      → j.state ≡ running
      → Writes k j (requested_row at j) db db'
      → Requests k at db db'
  stopped :
      (j : JobRow)
      → j.state ≡ queued
      → Writes k j (queued_cancelled_row at j) db db'
      → Requests k at db db'

module _ (looks_secret : String → Bool) (scope : TenantScope) (job_id : String) (at : ℕ) where
  request_running-Writes :
      (j : JobRow) (r : DurableRecord) (o : Option CancellationRequestResult) (db db' : Database)
      → find (job_key scope job_id) db.jobs ≡ some j
      → r.case_id ≡ j.case_id
      → r.version ≡ j.version
      → request_running looks_secret scope job_id at j r db ≡ ok (o, db')
      → Writes (job_key scope job_id) j (requested_row at j) db db'
  unfolding request_running
  request_running-Writes j r o db db' f s v e =
      let k = job_key scope job_id in
      let ck : Key = record { tenant = scope.tenant_id; id = r.case_id } in
      let (written, w, e₁) = bind-ok (write_job k j (requested_row at j) db) _ e in
      let (advanced, a, e₂) = bind-ok (advance_case_version ck r.version at written) _ e₁ in
      let same_key : ck ≡ case_of k j = cc s in
      let a' : advance_case_version (case_of k j) j.version at written ≡ ok advanced =
        cc (same_key, v, a) in
      let done : advanced ≡ db' = ground arith in
      subst (Writes k j (requested_row at j) db) done
        (advance-Writes k j (requested_row at j) at db written advanced f w a')

  request_queued-Writes :
      (j : JobRow) (r : DurableRecord) (o : Option CancellationRequestResult) (db db' : Database)
      → find (job_key scope job_id) db.jobs ≡ some j
      → r.case_id ≡ j.case_id
      → r.version ≡ j.version
      → request_queued looks_secret scope job_id at j r db ≡ ok (o, db')
      → Writes (job_key scope job_id) j (queued_cancelled_row at j) db db'
  unfolding request_queued release_active_job_quota
  request_queued-Writes j r o db db' f s v e =
      let k = job_key scope job_id in
      let ck : Key = record { tenant = scope.tenant_id; id = r.case_id } in
      let (m, c, e₁) = bind-ok (cancelled_record r at) _ e in
      let (saved, a, e₂) =
        bind-ok (write_case ck r.version (cancelled_case m at) optimistic_conflict db) _ e₁ in
      let (written, w, e₃) = bind-ok (write_job k j (queued_cancelled_row at j) saved) _ e₂ in
      let same_key : ck ≡ case_of k j = cc s in
      let a' =
        subst (λ n. write_case ck n (cancelled_case m at) optimistic_conflict db ≡ ok saved) v a in
      end-Writes k j (queued_cancelled_row at j) ck (cancelled_case m at) optimistic_conflict db
        saved written db' f same_key (λ x. refl) a' w (ground arith) (ground arith) (ground arith)

  request_read-Requests :
      (j : JobRow) (o : Option DurableRecord) (x : Option CancellationRequestResult)
      (db db' : Database)
      → find (job_key scope job_id) db.jobs ≡ some j
      → find_by_job_id looks_secret scope job_id db ≡ ok o
      → (j.state ≡ running) ⊎ (j.state ≡ queued)
      → request_read looks_secret scope job_id at j o db ≡ ok (x, db')
      → Requests (job_key scope job_id) at db db'
  unfolding find_by_job_id JobState-discrete
  request_read-Requests j none x db db' f b st e = cc
  request_read-Requests j (some r) x db db' f b st e =
      let wanted : IdempotencyRow → JobRow → Bool = λ key j.
        key.tenant_id === scope.tenant_id
        && key.caller_id === scope.caller_id
        && key.job_id === job_id in
      let found : find_record looks_secret wanted db db.idempotency_keys ≡ ok (some r) =
        ground arith in
      let read = find_record-IsRead looks_secret wanted db db.idempotency_keys r found in
      let met = read.met in
      let tenant = (eq_iff read.key.tenant_id scope.tenant_id).0 (ground arith) in
      let job = (eq_iff read.key.job_id job_id).0 (ground arith) in
      let (c, t, v, s) =
        IsRead-job looks_secret wanted db (job_key scope job_id) j r read f tenant job in
      elim st [
        | inl run ↦ marked j run (request_running-Writes j r x db db' f c v (ground arith))
        | inr wait ↦ stopped j wait (request_queued-Writes j r x db db' f c v (ground arith))
      ]

  -- Either nothing is to be done, or the record is read.
  request_kinds :
      (j : JobRow) (x : Option CancellationRequestResult) (db db' : Database)
      → request_found looks_secret scope job_id at (some j) db ≡ ok (x, db')
      → (db' ≡ db)
        ⊎ (((j.state ≡ running) ⊎ (j.state ≡ queued))
            × ((find_by_job_id looks_secret scope job_id db >>= λ r.
                  request_read looks_secret scope job_id at j r db)
                ≡ ok (x, db')))
  unfolding request_found
  request_kinds j x db db' e = ground arith

  request_found-Requests :
      (o : Option JobRow) (x : Option CancellationRequestResult) (db db' : Database)
      → find (job_key scope job_id) db.jobs ≡ o
      → request_found looks_secret scope job_id at o db ≡ ok (x, db')
      → Requests (job_key scope job_id) at db db'
  unfolding request_found
  request_found-Requests none x db db' f e = unchanged (ground arith)
  request_found-Requests (some j) x db db' f e = elim (request_kinds j x db db' e) [
    | inl same ↦ unchanged same
    | inr (st, e') ↦
        let (o, b, e₁) =
          bind-ok (find_by_job_id looks_secret scope job_id db)
            (λ r. request_read looks_secret scope job_id at j r db) e' in
        request_read-Requests j o x db db' f b st e₁
  ]

  pub request_cancellation-Requests :
      (x : Option CancellationRequestResult) (db db' : Database)
      → request_cancellation looks_secret scope job_id at db ≡ ok (x, db')
      → Requests (job_key scope job_id) at db db'
  unfolding request_cancellation
  request_cancellation-Requests x db db' e =
      request_found-Requests (find (job_key scope job_id) db.jobs) x db db' refl (ground arith)
