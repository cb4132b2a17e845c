-- ===== src/Durable/Endings/Row.antt =====
-- What becomes of the row of a job whose lease is given up.
use reproforge.Base.{
  ◌+◌, ◌<◌, ◌≡◌, refl, sym, subst, String, Bool, true, false, ◌&&◌, none, some, ok, arith, ltb, inl,
  inr, if◌then◌else◌, Bool-cases,
}
use reproforge.Domain.Job.{queued, running, failed, cancelled, is_some, JobState-discrete}
use reproforge.Durable.Table.{find, put}
use reproforge.Durable.Rows.{JobRow, Database}
use reproforge.Durable.Lease.{JobLease, owns, lease_key}
use reproforge.Durable.Finish.{
  LeaseFailureDisposition, exhausted, requeued, LeaseFailure, requeues, failed_row, fail_lease,
}
use reproforge.Durable.Cancel.{cancelled_row}
use reproforge.Durable.Endings.Failure.{fail_lease-Fails}

-- A running job loses its lease: it waits for a retry if no cancellation was asked, the failure may
-- be retried and an attempt is left; it is cancelled if that was asked; and else it failed.
pub data Outcomes (failure : LeaseFailure) (j j' : JobRow) : LeaseFailureDisposition → Type 0 where
  again :
      is_some j.cancellation_requested_at ≡ false
      → failure.retryable ≡ true
      → j.attempt < j.max_attempts
      → (j'.state ≡ queued) × (j'.next_attempt_at ≡ failure.next_attempt_at)
      → Outcomes failure j j' requeued
  broken :
      is_some j.cancellation_requested_at ≡ false
      → (failure.retryable && ltb j.attempt j.max_attempts) ≡ false
      → j'.state ≡ failed
      → Outcomes failure j j' exhausted
  withdrawn :
      is_some j.cancellation_requested_at ≡ true
      → j'.state ≡ cancelled
      → Outcomes failure j j' LeaseFailureDisposition.cancelled

pub record Ended (failure : LeaseFailure) (d : LeaseFailureDisposition) (j j' : JobRow)
    : Type 0 where
  pub ran : j.state ≡ running
  pub outcome : Outcomes failure j j' d
  pub free : (j'.lease_owner ≡ none) × (j'.lease_expires_at ≡ none)
  pub version : j'.version ≡ j.version + 1

owned-runs : (l : JobLease) (j : JobRow) → owns l j ≡ true → j.state ≡ running
unfolding JobState-discrete
owned-runs l j o = ground arith

lost-Ended :
    (failure : LeaseFailure) (j : JobRow)
    → j.state ≡ running
    → is_some j.cancellation_requested_at ≡ false
    → Ended failure (if requeues failure j then requeued else exhausted) j (failed_row failure j)
lost-Ended failure j r u = elim (Bool-cases (requeues failure j)) [
  | inl y ↦ rw y (record {
    ran = r;
    outcome = again u (ground arith) (ground arith) (refl, refl);
    free = (refl, refl);
    version = refl;
  })
  | inr n ↦
      rw n (record { ran = r; outcome = broken u n refl; free = (refl, refl); version = refl })
]

module _ (looks_secret : String → Bool) where
  pub fail_lease-Ended :
      (l : JobLease) (failure : LeaseFailure) (d : LeaseFailureDisposition) (db db' : Database)
      → fail_lease looks_secret l failure db ≡ ok (d, db')
      → (j : JobRow) × (j' : JobRow) × (find (lease_key l) db.jobs ≡ some j)
        × (db'.jobs ≡ put (lease_key l) j' db.jobs)
        × (owns l j ≡ true)
        × Ended failure d j j'
  fail_lease-Ended l failure d db db' e =
      elim (fail_lease-Fails looks_secret l failure d db db' e) [
        | inl (same, c) ↦
            let ended : Ended failure LeaseFailureDisposition.cancelled c.row
                (cancelled_row failure.at c.row) =
              record {
                ran = owned-runs l c.row c.owned;
                outcome = withdrawn c.asked refl;
                free = (refl, refl);
                version = refl;
              } in
            (
              c.row,
              cancelled_row failure.at c.row,
              c.writes.found,
              c.writes.jobs,
              c.owned,
              subst (λ x. Ended failure x c.row (cancelled_row failure.at c.row)) (sym same) ended,
            )
        | inr c ↦ (
          c.row,
          failed_row failure c.row,
          c.writes.found,
          c.writes.jobs,
          c.owned,
          subst (λ x. Ended failure x c.row (failed_row failure c.row)) (sym c.disposition)
              (lost-Ended failure c.row (owned-runs l c.row c.owned) c.unasked),
        )
      ]
