-- ===== src/Durable/History/Sound.antt =====
-- The constraints of the table of jobs hold of every row that the transactions write, and more:
-- the lease columns are set exactly while the job runs, and a cancellation is never forgotten.
use reproforge.Base.{
  ℕ, ◌+◌, ◌<◌, ◌≤◌, ◌≡◌, subst, String, Bool, true, false, not, ◌&&◌, ◌||◌, leb, ltb, Option, none,
  some, arith, ◌⊎◌, inl, inr, sym, Bool-cases, if◌then◌else◌,
}
use reproforge.Domain.Job.{
  JobState-discrete, queued, running, succeeded, failed, cancelled, same_job_state, is_some,
}
use reproforge.Durable.Table.{Key, find, same_key}
use reproforge.Durable.Effects.{find-put_self, find-put_ne, same_key-eq}
use reproforge.Durable.Rows.{JobRow, Database}
use reproforge.Durable.Records.{DurableRecord}
use reproforge.Durable.Lease.{JobLease, owns, ClaimInput, is_claimable, claimed_row, is_renewable}
use reproforge.Durable.Cancel.{cancelled_row, requested_row, queued_cancelled_row}
use reproforge.Durable.Finish.{is_completable, fits_lease, completed_row, LeaseFailure, failed_row}
use reproforge.Durable.History.{
  RowStep, claimed, renewed, completed, lost, requested, withdrawn, Change, same, noted, wrote,
  Runs, start, next, Step-Change,
}

abbrev agree : Bool → Bool → Bool
agree a b = if a then b else not b

-- `jobs_attempt_bounds`
abbrev attempts_fit : JobRow → Bool
attempts_fit j = ltb 0 j.max_attempts && leb j.attempt j.max_attempts

-- `jobs_lease_complete`, and that the job runs exactly while it has a lease
abbrev lease_fits : Option String → Option ℕ → Option ℕ → Bool → Bool
lease_fits none none none runs = not runs
lease_fits (some _) (some a) (some e) runs = runs && ltb a e
lease_fits _ _ _ runs = false

-- `jobs_failure_shape`
abbrev failure_fits : Option String → Option String → Option Bool → Bool → Bool
failure_fits none none none over = not over
failure_fits (some _) (some _) (some _) over = over
failure_fits _ _ _ over = false

abbrev pub is_sound : JobRow → Bool
is_sound j =
    attempts_fit j
    && lease_fits j.lease_owner j.lease_acquired_at j.lease_expires_at
        (same_job_state j.state running)
    && failure_fits j.failure_code j.failure_message j.failure_retryable
        (same_job_state j.state failed)
    -- `jobs_cancelled_state`, and the converse
    && agree (is_some j.cancelled_at) (same_job_state j.state cancelled)
    && (not (is_some j.cancellation_requested_at)
        || same_job_state j.state running
        || same_job_state j.state cancelled)

ended_sound :
    (r : DurableRecord) (j : JobRow)
    → 0 < j.max_attempts
    → j.attempt ≤ j.max_attempts
    → is_some j.cancelled_at ≡ false
    → is_some j.cancellation_requested_at ≡ false
    → (r.snapshot_job.state ≡ succeeded) ⊎ (r.snapshot_job.state ≡ failed)
    → is_some r.snapshot_job.failure ≡ same_job_state r.snapshot_job.state failed
    → is_sound (completed_row r j) ≡ true
unfolding JobState-discrete
ended_sound r j m a c q e f = ground arith

completable-unasked :
    (l : JobLease) (r : DurableRecord) (j : JobRow)
    → is_completable l r j ≡ true
    → is_some j.cancellation_requested_at ≡ false
completable-unasked l r j c = ground arith

ends :
    (l : JobLease) (r : DurableRecord)
    → fits_lease l r ≡ true
    → (r.snapshot_job.state ≡ succeeded) ⊎ (r.snapshot_job.state ≡ failed)
unfolding JobState-discrete
ends l r f = ground arith

module _ (j : JobRow) (s : is_sound j ≡ true) where
  claimed_sound :
      (input : ClaimInput)
      → is_claimable j input.at ≡ true
      → 1 ≤ input.lease_seconds
      → is_sound (claimed_row input j) ≡ true
  unfolding JobState-discrete
  claimed_sound input c l = ground arith

  renewed_sound :
      (l : JobLease) (at expires_at : ℕ)
      → is_renewable l j ≡ true
      → l.expires_at < expires_at
      → is_sound (record j {
        lease_expires_at = some expires_at;
        updated_at = at;
        version = j.version + 1;
      })
        ≡ true
  unfolding JobState-discrete
  renewed_sound l at expires_at c e = ground arith

  completed_sound :
      (l : JobLease) (r : DurableRecord)
      → is_completable l r j ≡ true
      → fits_lease l r ≡ true
      → is_some r.snapshot_job.failure ≡ same_job_state r.snapshot_job.state failed
      → is_sound (completed_row r j) ≡ true
  unfolding JobState-discrete
  completed_sound l r c f e =
      ended_sound r j (ground arith) (ground arith) (ground arith) (completable-unasked l r j c)
        (ends l r f) e

  cancelled_sound : (l : JobLease) (at : ℕ) → owns l j ≡ true → is_sound (cancelled_row at j) ≡ true
  unfolding JobState-discrete
  cancelled_sound l at o = ground arith

  lost_sound :
      (l : JobLease) (failure : LeaseFailure)
      → owns l j ≡ true
      → is_some j.cancellation_requested_at ≡ false
      → is_sound (failed_row failure j) ≡ true
  unfolding JobState-discrete
  lost_sound l failure o n = ground arith

  requested_sound : (at : ℕ) → j.state ≡ running → is_sound (requested_row at j) ≡ true
  unfolding JobState-discrete
  requested_sound at r = ground arith

  withdrawn_sound : (at : ℕ) → j.state ≡ queued → is_sound (queued_cancelled_row at j) ≡ true
  unfolding JobState-discrete
  withdrawn_sound at q = ground arith

RowStep-sound : (j j' : JobRow) → RowStep j j' → is_sound j ≡ true → is_sound j' ≡ true
RowStep-sound _ _ (claimed input j c l) s = claimed_sound j s input c l
RowStep-sound _ _ (renewed l at expires_at j c e) s = renewed_sound j s l at expires_at c e
RowStep-sound _ _ (completed l r j c f e) s = completed_sound j s l r c f e
RowStep-sound _ _ (RowStep.cancelled l at j o a) s = cancelled_sound j s l at o
RowStep-sound _ _ (lost l failure j o n) s = lost_sound j s l failure o n
RowStep-sound _ _ (requested at j r) s = requested_sound j s at r
RowStep-sound _ _ (withdrawn at j q) s = withdrawn_sound j s at q

-- Every row of the table of jobs is sound.
abbrev pub AreSound : Database → Type 0
AreSound db = (k : Key) (j : JobRow) → find k db.jobs ≡ some j → is_sound j ≡ true

Change-sound : (db db' : Database) → Change db db' → AreSound db → AreSound db'
Change-sound _ _ (same db) s = s
Change-sound _ _ (noted db audits) s = s
Change-sound _ _ (wrote i old new db db' r w) s = λ k j f. elim (Bool-cases (same_key i k)) [
  | inl p ↦
      let at_key : find k db'.jobs ≡ some new =
        subst (λ x. find x db'.jobs ≡ some new) (same_key-eq i k p)
          (subst (λ t. find i t ≡ some new) (sym w.jobs) (find-put_self i new db.jobs)) in
      let this : new ≡ j = cc (at_key, f) in
      subst (λ x. is_sound x ≡ true) this (RowStep-sound old new r (s i old w.found))
  | inr n ↦ s k j (cc (w.jobs, find-put_ne i k new db.jobs n, f))
]

module _ (looks_secret : String → Bool) where
  -- From a table of jobs whose rows meet the constraints, every run of claims, renewals,
  -- completions, cancellations, failures and requests leads to such a table: the attempts stay
  -- within their bound, the lease is there exactly while the job runs and ends after it began, the
  -- failure columns are filled exactly for a failed job and `cancelled_at` exactly for a cancelled
  -- one, and a job of which cancellation was asked is running or cancelled.
  pub Runs-sound : (db db' : Database) → Runs looks_secret db db' → AreSound db → AreSound db'
  Runs-sound _ _ (start db) s = s
  Runs-sound _ _ (next db mid db' runs step) s =
      Change-sound mid db' (Step-Change looks_secret mid db' step) (Runs-sound db mid runs s)
