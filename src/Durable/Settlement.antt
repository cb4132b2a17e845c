-- ===== src/Durable/Settlement.antt =====
-- What an ended job leaves in the ledger and in the outbox.
use reproforge.Base.{
  ℕ, ◌≡◌, refl, sym, subst, String, Bool, true, false, List, [], ◌∷◌, ◌++◌, map, exists, ok, arith,
  eq_iff,
}
use reproforge.Durable.Rows.{QuotaRow, EventId, named, recovery, cancellation, OutboxRow, Database}
use reproforge.Durable.Records.{DurableRecord}
use reproforge.Durable.Writes.{
  holds_active_job, release_row, release_active_job_quota, same_event, has_event,
}
use reproforge.Durable.Lease.{JobLease}
use reproforge.Durable.Cancel.{cancel_lease}
use reproforge.Durable.Finish.{complete_lease}
use reproforge.Durable.Endings.Completion.{complete_lease-Completes}
use reproforge.Durable.Endings.Cancellation.{cancel_lease-Cancels}

-- The job holds a reservation of an active job.
abbrev pub holds_quota : JobLease → Database → Bool
holds_quota l db = exists (holds_active_job l.tenant_id l.job_id) db.quota_ledger

-- The retry of the attempt is announced.
abbrev pub announces_retry : JobLease → Database → Bool
announces_retry l db =
    has_event l.tenant_id (recovery l.tenant_id l.job_id l.attempt) db.outbox_events

release_row-holds :
    (t i : String) (at : ℕ) (q : QuotaRow) → holds_active_job t i (release_row t i at q) ≡ false
release_row-holds t i at q = ground arith

exists-release :
    (t i : String) (at : ℕ) (qs : List QuotaRow)
    → exists (holds_active_job t i) (map (release_row t i at) qs) ≡ false
exists-release t i at [] = refl
exists-release t i at (q ∷ qs) = rw (release_row-holds t i at q) (exists-release t i at qs)

holds_quota-release :
    (l : JobLease) (at : ℕ) (db : Database)
    → holds_quota l (release_active_job_quota l.tenant_id l.job_id at db) ≡ false
unfolding release_active_job_quota
holds_quota-release l at db = exists-release l.tenant_id l.job_id at db.quota_ledger

freed :
    (l : JobLease) (at : ℕ) (db db' : Database)
    → db' ≡ release_active_job_quota l.tenant_id l.job_id at db
    → holds_quota l db' ≡ false
freed l at db db' e = subst (λ x. holds_quota l x ≡ false) (sym e) (holds_quota-release l at db)

pub same_event_refl : (a : EventId) → same_event a a ≡ true
same_event_refl (named a) = (eq_iff a a).1 refl
same_event_refl (recovery t j n) = ground (arith, eq_iff t t, eq_iff j j)
same_event_refl (cancellation t j) = ground (arith, eq_iff t t, eq_iff j j)

pub has_event-append :
    (t : String) (i : EventId) (es : List OutboxRow) (e : OutboxRow)
    → has_event t i (e ∷ []) ≡ true
    → has_event t i (es ++ e ∷ []) ≡ true
unfolding has_event
has_event-append t i [] e h = h
has_event-append t i (x ∷ es) e h = ground (arith, has_event-append t i es e h)

module _ (looks_secret : String → Bool) where
  -- A completed job holds no reservation of an active job any more.
  pub complete_lease-frees :
      (l : JobLease) (r r' : DurableRecord) (db db' : Database)
      → complete_lease looks_secret l r db ≡ ok (r', db')
      → holds_quota l db' ≡ false
  complete_lease-frees l r r' db db' e =
      let c = complete_lease-Completes looks_secret l r r' db db' e in
      freed l r.updated_at c.base db' c.released

  -- Neither does a job that its worker cancelled.
  cancel_lease-frees :
      (l : JobLease) (at : ℕ) (r : DurableRecord) (db db' : Database)
      → cancel_lease looks_secret l at db ≡ ok (r, db')
      → holds_quota l db' ≡ false
  cancel_lease-frees l at r db db' e =
      let c = cancel_lease-Cancels looks_secret l at r db db' e in freed l at c.base db' c.released
