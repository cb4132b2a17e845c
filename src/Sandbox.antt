-- ===== src/Sandbox.antt =====
-- The lifecycle of an isolated attempt: `SnapshotRunCoordinator.execute` of
-- src/execution/sandbox-lifecycle.ts. The provider, the run and the signal are parameters: their
-- answers by the number of calls that the coordinator has awaited so far. A session is known by the
-- number of calls at which it was created, and the prepared one is 0. A stop that the abort begins
-- is the one that the end of the run awaits, as the map of pending cleanups has it.
pub mod Cleanup
pub mod Bounds
use reproforge.Base.{
  ℕ, zero, suc, ◌+◌, String, Bool, true, false, not, ◌&&◌, ◌||◌, Option, none, some, List, [], ◌∷◌,
  ◌++◌, Outcome, ok, err, ◌>>=◌, ◌>>◌, require, leb, ltb, ◌==◌, if◌then◌else◌,
}
use reproforge.Durable.Records.{is_opaque_id}

pub data CleanupStatus : Type 0 where
  clean quarantined : CleanupStatus

-- `AttemptLifecycleCode`
pub data LifecycleCode : Type 0 where
  attempt_timeout budget_exhausted cancelled execution_failed provider_interrupted : LifecycleCode

pub data ResourceType : Type 0 where
  sandbox snapshot : ResourceType

-- `QuarantineRecord`; its reason is always that the cleanup failed.
pub record QuarantineRecord : Type 0 where
  pub attempt_id : String
  pub provider_resource_id : String
  pub resource_type : ResourceType

-- What the signal of the attempt shows.
pub data Signal : Type 0 where
  quiet aborted timed_out : Signal

-- What a run can throw, as the coordinator tells the cases apart.
pub data RunError : Type 0 where
  interruption : RunError
  exhaustion : RunError
  lifecycle : LifecycleCode → RunError
  unknown : RunError

pub record Session : Type 0 where
  pub number : ℕ
  pub sandbox_id : String

pub record Stop : Type 0 where
  pub session : Session
  pub done : Bool

pub record Deletion : Type 0 where
  pub snapshot_id : String
  pub done : Bool

-- The answers of the provider and of the run to the call of a given number; `none` is a throw.
pub record Surroundings {ℓ} (V : Type ℓ) : Type ℓ where
  pub signal : ℕ → Signal
  pub takes_snapshot : ℕ → Option String
  pub creates : ℕ → Option String
  pub runs : ℕ → ℕ → Outcome RunError V
  pub stops : ℕ → Bool
  pub deletes : ℕ → Bool

-- What the coordinator has done so far.
pub record Progress : Type 0 where
  pub calls : ℕ
  pub created : List Session
  pub stopped : List Stop
  pub snapshots : List String
  pub deleted : List Deletion
  pub quarantine : List QuarantineRecord
  pub cleanup_status : CleanupStatus
  pub provider_retries : ℕ

abbrev pub beginning : Progress
beginning = record {
  calls = 0;
  created = [];
  stopped = [];
  snapshots = [];
  deleted = [];
  quarantine = [];
  cleanup_status = clean;
  provider_retries = 0;
}

-- The error of an aborted signal.
abbrev pub aborted_code : Signal → Option LifecycleCode
aborted_code quiet = none
aborted_code aborted = some cancelled
aborted_code timed_out = some attempt_timeout

abbrev pub sandbox_record : String → Session → QuarantineRecord
sandbox_record attempt_id s = record {
  attempt_id = attempt_id;
  provider_resource_id = s.sandbox_id;
  resource_type = sandbox;
}

abbrev pub snapshot_record : String → String → QuarantineRecord
snapshot_record attempt_id id = record {
  attempt_id = attempt_id;
  provider_resource_id = id;
  resource_type = snapshot;
}

-- `quarantine`: a failure to deliver the record changes nothing here.
unfoldable pub add_quarantine : QuarantineRecord → Progress → Progress
add_quarantine r s = record s { quarantine = s.quarantine ++ r ∷ []; cleanup_status = quarantined }

unfoldable pub was_stopped : ℕ → List Stop → Bool
was_stopped n [] = false
was_stopped n (x ∷ xs) = x.session.number == n || was_stopped n xs

abbrev pub note_stop : Session → Bool → Progress → Progress
note_stop session done s = record s {
  calls = s.calls + 1;
  stopped = s.stopped ++ record { session = session; done = done } ∷ [];
}

abbrev pub stop_with : String → Session → Bool → Progress → Progress
stop_with attempt_id session true s = note_stop session true s
stop_with attempt_id session false s =
    add_quarantine (sandbox_record attempt_id session) (note_stop session false s)

abbrev pub prepared : String → Session
prepared sandbox_id = record { number = 0; sandbox_id = sandbox_id }

-- The outcome of one round of a run: a value, a retry, or an error.
pub data Round {ℓ} (V : Type ℓ) : Type ℓ where
  value : V → Round V
  again : Round V
  ended : LifecycleCode → Round V

pub data AttemptError : Type 0 where
  rejected : AttemptError
  -- `AttemptLifecycleError`
  stopped_by : LifecycleCode → CleanupStatus → AttemptError

-- `SnapshotRunResult`
pub record RunResult {ℓ} (V : Type ℓ) : Type ℓ where
  pub cleanup_status : CleanupStatus
  pub provider_retries : ℕ
  pub values : List V

module _ {ℓ} {V : Type ℓ} (world : Surroundings V) (attempt_id : String) where
  -- `cleanupSession`
  unfoldable pub cleanup_session : Session → Progress → Progress
  unfolding was_stopped add_quarantine
  cleanup_session session s =
      if was_stopped session.number s.stopped
      then s
      else stop_with attempt_id session (world.stops s.calls) s

  abbrev pub called : Progress → Progress
  called s = record s { calls = s.calls + 1 }

  abbrev pub retried : Progress → Progress
  retried s = record s { provider_retries = s.provider_retries + 1 }

  -- What the catch clause makes of an error, where the signal is quiet.
  abbrev pub caught : ℕ → RunError → Round V
  caught left exhaustion = ended budget_exhausted
  caught zero interruption = ended provider_interrupted
  caught (suc left) interruption = again
  caught left (lifecycle code) = ended code
  caught left unknown = ended execution_failed

  abbrev pub judged : ℕ → Outcome RunError V → Round V
  judged left (ok v) = value v
  judged left (err e) = caught left e

  -- An aborted signal comes before everything that the run gave.
  abbrev pub judge : ℕ → Option LifecycleCode → Outcome RunError V → Round V
  judge left (some code) result = ended code
  judge left none result = judged left result

  abbrev pub created_session : Progress → String → Session
  created_session s sandbox_id = record { number = s.calls + 1; sandbox_id = sandbox_id }

  abbrev pub with_session : Progress → String → Progress
  with_session s sandbox_id = record s {
    calls = s.calls + 1;
    created = s.created ++ created_session s sandbox_id ∷ [];
  }

  -- One use of a created session, with its cleanup.
  unfoldable pub use_session : ℕ → ℕ → String → Progress → Round V × Progress
  unfolding cleanup_session
  use_session left index sandbox_id s =
      let ran = called (with_session s sandbox_id) in
      (
        judge left (aborted_code (world.signal ran.calls))
            (world.runs index (with_session s sandbox_id).calls),
        cleanup_session (created_session s sandbox_id) ran,
      )

  -- A round gives its result, or is made again with one retry less.
  abbrev pub after_round :
      Round V × Progress
      → (Progress → Outcome LifecycleCode V × Progress)
      → Outcome LifecycleCode V × Progress
  after_round (value v, s) next = (ok v, s)
  after_round (ended code, s) next = (err code, s)
  after_round (again, s) next = next (retried s)

  -- The creation failed: it is tried again while a retry is left.
  abbrev pub after_failure :
      ℕ
      → Option LifecycleCode
      → Progress
      → (Progress → Outcome LifecycleCode V × Progress)
      → Outcome LifecycleCode V × Progress
  after_failure left (some code) s next = (err code, s)
  after_failure zero none s next = (err provider_interrupted, s)
  after_failure (suc left) none s next = next (retried s)

  unfoldable pub after_creation :
      ℕ
      → ℕ
      → Option String
      → Progress
      → (Progress → Outcome LifecycleCode V × Progress)
      → Outcome LifecycleCode V × Progress
  unfolding use_session
  after_creation left index (some sandbox_id) s next =
      after_round (use_session left index sandbox_id s) next
  after_creation left index none s next =
      after_failure left (aborted_code (world.signal (called s).calls)) (called s) next

  abbrev pub unless_aborted {κ} :
      {W : Type κ}
      → Option LifecycleCode
      → Progress
      → Outcome LifecycleCode W × Progress
      → Outcome LifecycleCode W × Progress
  unless_aborted (some code) s rest = (err code, s)
  unless_aborted none s rest = rest

  -- The rounds of one run, with the retries that are left. With none left nothing is made again, so
  -- that the last continuation is not reached.
  unfoldable pub run_rounds : ℕ → ℕ → Progress → Outcome LifecycleCode V × Progress
  unfolding after_creation
  run_rounds zero index s =
      unless_aborted (aborted_code (world.signal s.calls)) s
        (after_creation zero index (world.creates s.calls) s (λ s'. (err provider_interrupted, s')))
  run_rounds (suc left) index s =
      unless_aborted (aborted_code (world.signal s.calls)) s
        (after_creation (suc left) index (world.creates s.calls) s (run_rounds left index))

  abbrev pub after_run {κ} :
      {W : Type κ}
      → Outcome LifecycleCode V × Progress
      → (V → Progress → Outcome LifecycleCode W × Progress)
      → Outcome LifecycleCode W × Progress
  after_run (ok v, s) next = next v s
  after_run (err code, s) next = (err code, s)

  -- The loop over the runs.
  unfoldable pub run_all : ℕ → ℕ → ℕ → List V → Progress → Outcome LifecycleCode (List V) × Progress
  unfolding run_rounds
  run_all retries zero index values s = (ok values, s)
  run_all retries (suc n) index values s =
      after_run (run_rounds retries index s)
        (λ v s'. run_all retries n (index + 1) (values ++ v ∷ []) s')

  abbrev pub taken : String → Progress → Progress
  taken id s = record s { calls = s.calls + 1; snapshots = s.snapshots ++ id ∷ [] }

  unfoldable pub after_snapshot :
      ℕ → ℕ → Session → Option String → Progress → Outcome LifecycleCode (List V) × Progress
  unfolding run_all cleanup_session
  after_snapshot retries n session none s =
      unless_aborted (aborted_code (world.signal (s.calls + 1))) (called s)
        (err provider_interrupted, called s)
  after_snapshot retries n session (some id) s =
      run_all retries n 0 [] (cleanup_session session (taken id s))

  -- The body of the `try`.
  unfoldable pub attempt_body :
      ℕ → ℕ → Session → Progress → Outcome LifecycleCode (List V) × Progress
  unfolding after_snapshot
  attempt_body retries n session s =
      unless_aborted (aborted_code (world.signal s.calls)) s
        (after_snapshot retries n session (world.takes_snapshot s.calls) s)

  abbrev pub delete_with : String → Bool → Progress → Progress
  delete_with id done s =
      let noted = record s {
        calls = s.calls + 1;
        deleted = s.deleted ++ record { snapshot_id = id; done = done } ∷ [];
      } in
      if done then noted else add_quarantine (snapshot_record attempt_id id) noted

  -- The snapshots are deleted: there is one at most.
  unfoldable pub delete_snapshots : List String → Progress → Progress
  unfolding add_quarantine
  delete_snapshots [] s = s
  delete_snapshots (id ∷ ids) s = delete_snapshots ids (delete_with id (world.deletes s.calls) s)

  -- The `finally` of the attempt.
  unfoldable pub finish_attempt : Session → Progress → Progress
  unfolding cleanup_session delete_snapshots
  finish_attempt session s =
      let stopped = cleanup_session session s in delete_snapshots stopped.snapshots stopped

  abbrev pub concluded :
      Outcome LifecycleCode (List V) → Progress → Outcome AttemptError (RunResult V) × Progress
  concluded (ok values) s = (
    ok (record {
      cleanup_status = s.cleanup_status;
      provider_retries = s.provider_retries;
      values = values;
    }),
    s,
  )
  concluded (err code) s = (err (stopped_by code s.cleanup_status), s)

  -- `execute`, with `maxProviderRetries`, `runCount` and the prepared session
  unfoldable pub execute_attempt : ℕ → ℕ → String → Outcome AttemptError (RunResult V) × Progress
  unfolding attempt_body finish_attempt is_opaque_id
  execute_attempt retries n sandbox_id =
      if is_opaque_id attempt_id && leb 1 n && leb n 6
      then (let (result, s) = attempt_body retries n (prepared sandbox_id) beginning in
          concluded result (finish_attempt (prepared sandbox_id) s))
      else (err rejected, beginning)
