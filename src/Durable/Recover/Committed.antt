-- ===== src/Durable/Recover/Committed.antt =====
-- What `recoverExpiredLeases` did when it succeeds, as a whole.
use reproforge.Base.{
  false, ◌<◌, sym, true, inl, inr, ℕ, ◌+◌, ◌≤◌, ◌≡◌, String, Bool, ◌&&◌, Option, none, some, [],
  ◌∷◌, ok, require, bind-ok, arith, leb, length, take, length-take_bound, subst,
}
use reproforge.Domain.Job.{running, JobState-discrete}
use reproforge.Durable.Table.{Key, Table, find}
use reproforge.Audit.{append_audit}
use reproforge.Audit.Appended.{append_audit-length}
use reproforge.Durable.Endings.Failure.{fail_lease-Fails}
use reproforge.Durable.Rows.{JobRow, Database}
use reproforge.Durable.Records.{schema_rejected, lease_not_owned}
use reproforge.Durable.Lease.{JobLease, is_lease}
use reproforge.Durable.Finish.{
  LeaseFailure, LeaseFailureDisposition, cancelled, exhausted, requeued, fail_lease,
}
use reproforge.Durable.History.{fail, note, Runs, start, next}
use reproforge.Durable.Recover.Rows.{Recovered, Treated, recover_all-rows}
use reproforge.Durable.Recover.Whole.{
  Among, take-short, All-take, expired_rows-AllExpired, expired_rows-Among, order_rows-AllExpired,
  order_rows-Among, recover_all-recovers,
}
use reproforge.Durable.Recover.{
  is_expired, RecoverySummary, nothing_recovered, counted, count_disposition, lease_of_row,
  expired_rows, order_rows, expiry_failure, recovery_audit, recover_lease, recover_all,
  recover_expired_leases,
}

module _ (looks_secret : String → Bool) where
  count-one :
      (d : LeaseFailureDisposition) (s : RecoverySummary)
      → counted (count_disposition d s) ≡ counted s + 1
  count-one cancelled s = omega arith
  count-one exhausted s = omega arith
  count-one requeued s = omega arith

  append-Runs :
      (db mid db' : Database)
      → Runs looks_secret db mid
      → Runs looks_secret mid db'
      → Runs looks_secret db db'
  append-Runs db _ _ p (start mid) = p
  append-Runs db _ _ p (next mid last db' q step) =
      next db last db' (append-Runs db mid last p q) step

  -- The end of a lease that failed writes no audit event.
  fail_lease-audits :
      (l : JobLease) (how : LeaseFailure) (d : LeaseFailureDisposition) (db db' : Database)
      → fail_lease looks_secret l how db ≡ ok (d, db')
      → db'.audit_events ≡ db.audit_events
  fail_lease-audits l how d db db' e = elim (fail_lease-Fails looks_secret l how d db db' e) [
    | inl (_, c) ↦ c.writes.audits
    | inr f ↦ f.writes.audits
  ]

  recover_lease-Runs :
      (at : ℕ) (o : Option JobLease) (s s' : RecoverySummary) (db db' : Database)
      → recover_lease looks_secret at o s db ≡ ok (s', db')
      → Runs looks_secret db db'
        × (counted s' ≡ counted s + 1)
        × (length db'.audit_events ≡ length db.audit_events + 1)
  unfolding recover_lease
  recover_lease-Runs at none s s' db db' e = cc
  recover_lease-Runs at (some l) s s' db db' e =
      let (_, p, e₁) = bind-ok (require (is_lease l) schema_rejected) _ e in
      let ((d, mid), q, e₂) =
        bind-ok (fail_lease looks_secret l (expiry_failure looks_secret at) db) _ e₁ in
      let a = recovery_audit looks_secret l d at in
      let (audits, r, e₃) = bind-ok (append_audit a mid.audit_events) _ e₂ in
      let same : record mid { audit_events = audits } ≡ db' = ground arith in
      let summary : count_disposition d s ≡ s' = ground arith in
      (
        subst (Runs looks_secret db) same (
            next db mid _
              (next db db mid (start db) (fail l (expiry_failure looks_secret at) d db mid q))
              (note a audits mid r)),
        subst (λ x. counted x ≡ counted s + 1) summary (count-one d s),
        subst (λ (x : Database). length x.audit_events ≡ length db.audit_events + 1) same
            (subst (λ x. length audits ≡ length x + 1)
              (fail_lease-audits l (expiry_failure looks_secret at) d db mid q)
              (append_audit-length a mid.audit_events audits r)),
      )

  recover_all-Runs :
      (at : ℕ) (t : Table JobRow) (s s' : RecoverySummary) (db db' : Database)
      → recover_all looks_secret at t s db ≡ ok (s', db')
      → Runs looks_secret db db'
        × (counted s' ≡ counted s + length t)
        × (length db'.audit_events ≡ length db.audit_events + length t)
  unfolding recover_all
  recover_all-Runs at [] s s' db db' e =
      let same : db ≡ db' = ground arith in
      let summary : s ≡ s' = ground arith in
      (
        subst (Runs looks_secret db) same (start db),
        subst (λ x. counted x ≡ counted s + 0) summary (omega arith),
        subst (λ (x : Database). length x.audit_events ≡ length db.audit_events + 0) same
            (omega arith),
      )
  recover_all-Runs at ((k, j) ∷ t) s s' db db' e =
      let ((s₁, mid), p, e₁) =
        bind-ok (recover_lease looks_secret at (lease_of_row k j) s db) _ e in
      let (runs, one, noted) = recover_lease-Runs at (lease_of_row k j) s s₁ db mid p in
      let (rest, many, all_noted) = recover_all-Runs at t s₁ s' mid db' e₁ in
      (append-Runs db mid db' runs rest, omega (arith, one, many), omega (arith, noted, all_noted))

  expired_row :
      (at : ℕ) (j : JobRow) (t : ℕ)
      → j.state ≡ running
      → j.lease_expires_at ≡ some t
      → t ≤ at
      → is_expired at j ≡ true
  unfolding JobState-discrete
  expired_row at j t r column passed = ground arith

  -- What a recovery did.
  pub record IsRecovery (locked : Key → Bool) (at limit : ℕ) (s : RecoverySummary)
      (db db' : Database) : Type 0 where
    pub run : Runs looks_secret db db'
    pub bounded : counted s ≤ limit
    pub audited : length db'.audit_events ≡ length db.audit_events + counted s
    pub rows : (k : Key) (j : JobRow) → find k db.jobs ≡ some j → Treated looks_secret at k j db'
    pub whole :
        counted s < limit
        → (k : Key) (j : JobRow) → find k db.jobs ≡ some j
        → locked k ≡ false
        → j.state ≡ running
        → (t : ℕ) → j.lease_expires_at ≡ some t
        → t ≤ at
        → (j' : JobRow) × (find k db'.jobs ≡ some j') × Recovered looks_secret at j j'

  -- A recovery that succeeds is a run of the transactions of the history. It counts at most `limit`
  -- leases and leaves one audit event for each that it counts. Each job's row is afterwards the row
  -- that it was, or else the job was running with a lease that had run out, and that lease was
  -- failed as retryable: the job is queued, failed or cancelled as such a failure asks. And if it
  -- counts fewer than `limit`, then every job that was running with a lease that had run out, and
  -- whose row no other transaction had locked, was treated so.
  pub recover_expired_leases-IsRecovery :
      (text_before : String → String → Bool) (locked : Key → Bool) (at limit : ℕ)
      (s : RecoverySummary) (db db' : Database)
      → recover_expired_leases looks_secret text_before locked at limit db ≡ ok (s, db')
      → IsRecovery locked at limit s db db'
  unfolding recover_expired_leases
  recover_expired_leases-IsRecovery text_before locked at limit s db db' e =
      let ordered = order_rows text_before (expired_rows locked at db.jobs) in
      let (_, p, e₁) = bind-ok (require (leb 1 limit && leb limit 1000) lease_not_owned) _ e in
      let (runs, many, noted) =
        recover_all-Runs at (take limit ordered) nothing_recovered s db db' e₁ in
      let expired =
        order_rows-AllExpired text_before at (expired_rows locked at db.jobs)
          (expired_rows-AllExpired locked at db.jobs) in
      let chosen =
        All-take (λ (r : Key × JobRow). is_expired at r.1 ≡ true) limit ordered expired in
      record {
        run = runs;
        bounded = omega (arith, many, length-take_bound limit ordered);
        audited = omega (arith, many, noted);
        rows =
            recover_all-rows looks_secret at (take limit ordered) nothing_recovered s db db' chosen
              e₁;
        whole = λ few k j f free r t column passed.
            let x : is_expired at j ≡ true = expired_row at j t r column passed in
            let all : take limit ordered ≡ ordered =
              take-short limit ordered (omega (arith, many, few)) in
            recover_all-recovers looks_secret at (take limit ordered) nothing_recovered s db db'
              chosen e₁ k j j
              (subst (Among (k, j)) (sym all) (
                order_rows-Among text_before (k, j) (expired_rows locked at db.jobs)
                  (expired_rows-Among locked at k j db.jobs f x free)))
              f;
      }
