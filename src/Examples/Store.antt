-- ===== src/Examples/Store.antt =====
-- A durable store with one reproduction: reserved, claimed, asked to be cancelled, cancelled.
use reproforge.Base.{
  ℕ, ◌≡◌, ◌+◌, ◌⊎◌, refl, String, Bool, true, false, none, some, [], ◌∷◌, Outcome, ok, err, arith,
  is_sha256, Bool-cases, inl, inr,
}
use reproforge.Domain.Case.{can_transition, CaseState-discrete, draft}
use reproforge.Domain.Job.{can_transition_job, JobState-discrete, queued}
use reproforge.Durable.Table.{Key, same_key, find}
use reproforge.Durable.Rows.{JobRow, Database}
use reproforge.Durable.Records.{
  DurableError, TenantScope, DurableRecord, is_opaque_id, parses, agrees, validate_record,
  find_by_idempotency_key,
}
use reproforge.Durable.Lease.{JobLease, lease_key, ClaimInput, claim_key, claimed_row, claim_lease}
use reproforge.Durable.Cancel.{
  requested, cancelled_row, requested_row, request_cancellation, cancel_lease,
}
use reproforge.Durable.Reserve.{scope_of, new_job, new_case, case_key_of, reserve}
use reproforge.Durable.Reserve.Once.{reserve-find, reserve-again}

abbrev pub looks_clean : String → Bool
looks_clean s = false

abbrev hash : String
hash = "aaaaaaaaaaaaaaaaaaaaaaaaaaaaaaaaaaaaaaaaaaaaaaaaaaaaaaaaaaaaaaaa"

abbrev pub ticket : DurableRecord
ticket = record {
  caller_id = "user";
  case_id = "case";
  command_hash = hash;
  created_at = 5;
  idempotency_key = "key";
  job_id = "job";
  snapshot_case = record {
    id = "case";
    state = draft;
    history = [];
    created_at = 5;
    updated_at = 5;
  };
  snapshot_job = record {
    attempt = 0;
    case_id = "case";
    created_at = 5;
    failure = none;
    id = "job";
    progress_phase = draft;
    state = queued;
    updated_at = 5;
  };
  content = "{}";
  tenant_id = "acme";
  updated_at = 5;
  version = 1;
}

abbrev pub nothing : Database
nothing = record {
  active_tenants = "acme" ∷ [];
  cases = [];
  jobs = [];
  idempotency_keys = [];
  quota_ledger = [];
  outbox_events = [];
  audit_events = [];
  bundles = [];
}

abbrev pub after {ℓ} : {A : Type ℓ} → Database → Outcome DurableError (A × Database) → Database
after db (ok (a, db')) = db'
after db (err e) = db

abbrev pub waiting : Database
waiting = after nothing (reserve looks_clean ticket nothing)

abbrev pub worker : ℕ → String → ClaimInput
worker at owner = record {
  at = at;
  job_id = "job";
  lease_seconds = 60;
  owner_id = owner;
  tenant_id = "acme";
}

abbrev pub lease : ℕ → ℕ → String → JobLease
lease at attempt owner = record {
  acquired_at = at;
  attempt = attempt;
  expires_at = at + 60000;
  job_id = "job";
  owner_id = owner;
  tenant_id = "acme";
}

abbrev pub at_work : Database
at_work = after waiting (claim_lease (worker 10 "one") waiting)

abbrev pub taken_over : Database
taken_over = after at_work (claim_lease (worker 70000 "two") at_work)

abbrev pub user : TenantScope
user = record { caller_id = "user"; principal_id = "user"; tenant_id = "acme" }

abbrev pub asked_to_stop : Database
asked_to_stop = after at_work (request_cancellation looks_clean user "job" 20 at_work)

abbrev pub stopped : Database
stopped = after asked_to_stop (cancel_lease looks_clean (lease 10 1 "one") 30 asked_to_stop)

abbrev pub first_row : JobRow
first_row = new_job ticket

abbrev pub asked_row : JobRow
asked_row = requested_row 20 (claimed_row (worker 10 "one") first_row)

reserved_now :
    reserve looks_clean ticket nothing ≡ ok (record { created = true; stored = ticket }, waiting)
unfolding reserve parses is_opaque_id agrees is_sha256 CaseState-discrete JobState-discrete
reserved_now = refl

valid_ticket : validate_record looks_clean true ticket ≡ ok ticket
unfolding validate_record parses is_opaque_id agrees is_sha256 CaseState-discrete JobState-discrete
valid_ticket = refl

reserve-find_example :
    (find_by_idempotency_key looks_clean (scope_of ticket) "key" waiting ≡ ok (some ticket))
    × (((true ≡ true) × (ticket ≡ ticket)) ⊎ ((true ≡ false) × (waiting ≡ nothing)))
reserve-find_example =
    reserve-find looks_clean ticket (record { created = true; stored = ticket }) nothing waiting
      reserved_now

reserve-again_example :
    reserve looks_clean ticket waiting ≡ ok (record { created = false; stored = ticket }, waiting)
reserve-again_example =
    reserve-again looks_clean ticket ticket (record { created = true; stored = ticket }) nothing
      waiting reserved_now valid_ticket (refl, refl, refl)

pub claimed_once : claim_lease (worker 10 "one") waiting ≡ ok (some (lease 10 1 "one"), at_work)
unfolding claim_lease reserve parses is_opaque_id agrees is_sha256 CaseState-discrete
    JobState-discrete
claimed_once = refl

pub claimed_again :
    claim_lease (worker 70000 "two") at_work ≡ ok (some (lease 70000 2 "two"), taken_over)
unfolding claim_lease reserve parses is_opaque_id agrees is_sha256 CaseState-discrete
    JobState-discrete
claimed_again = refl

pub asked_once :
    request_cancellation looks_clean user "job" 20 at_work
    ≡ ok
        (some (record { case_id = "case"; changed = true; disposition = requested }), asked_to_stop)
unfolding request_cancellation claim_lease reserve parses is_opaque_id agrees is_sha256
    CaseState-discrete JobState-discrete
asked_once = refl

pub stopped_once :
    (r : DurableRecord) × (cancel_lease looks_clean (lease 10 1 "one") 30 asked_to_stop
      ≡ ok (r, stopped))
unfolding cancel_lease request_cancellation claim_lease reserve parses is_opaque_id agrees is_sha256
    CaseState-discrete JobState-discrete can_transition can_transition_job
stopped_once = (_, refl)

pub asked_found : find (claim_key (worker 10 "one")) asked_to_stop.jobs ≡ some asked_row
unfolding find request_cancellation claim_lease reserve parses is_opaque_id agrees is_sha256
    CaseState-discrete JobState-discrete
asked_found = refl

pub stopped_found :
    find (lease_key (lease 10 1 "one")) stopped.jobs ≡ some (cancelled_row 30 asked_row)
unfolding find cancel_lease request_cancellation claim_lease reserve parses is_opaque_id agrees
    is_sha256 CaseState-discrete JobState-discrete can_transition can_transition_job
stopped_found = refl

-- A table of one row, as the store's tables here are.
pub find-single :
    {R : Type 0} (k i : Key) (r s : R)
    → find i ((k, r) ∷ []) ≡ some s
    → (r ≡ s) × (same_key k i ≡ true)
unfolding find
find-single k i r s f = elim (Bool-cases (same_key k i)) [
  | inl e ↦ (ground arith, e)
  | inr n ↦ absurd (ground arith)
]

pub waiting_jobs : waiting.jobs ≡ (claim_key (worker 10 "one"), first_row) ∷ []
unfolding reserve parses is_opaque_id agrees is_sha256
waiting_jobs = refl

pub waiting_cases : waiting.cases ≡ (case_key_of ticket, new_case ticket) ∷ []
unfolding reserve parses is_opaque_id agrees is_sha256
waiting_cases = refl

pub asked_jobs : asked_to_stop.jobs ≡ (claim_key (worker 10 "one"), asked_row) ∷ []
unfolding request_cancellation claim_lease reserve parses is_opaque_id agrees is_sha256
    CaseState-discrete JobState-discrete
asked_jobs = refl
