-- ===== src/Examples/Ends.antt =====
-- The ends of a lease: a completion, a cancellation and a failure.
use reproforge.Base.{◌≡◌, refl, true, false, [], ◌∷◌, ok, is_sha256}
use reproforge.Domain.Case.{CaseState-discrete, can_transition, inspecting}
use reproforge.Domain.Job.{JobState-discrete, can_transition_job, succeeded}
use reproforge.Durable.Rows.{QuotaRow, active_jobs, reserved, Database}
use reproforge.Durable.Records.{DurableRecord, is_opaque_id, parses, agrees}
use reproforge.Durable.Cancel.{request_cancellation, cancel_lease}
use reproforge.Durable.Lease.{claim_lease}
use reproforge.Durable.Reserve.{reserve}
use reproforge.Durable.Finish.{complete_lease, LeaseFailure, fail_lease}
use reproforge.Durable.Settlement.{holds_quota, complete_lease-frees}
use reproforge.Examples.Store.{looks_clean, ticket, after, at_work, lease, asked_to_stop}

abbrev active : QuotaRow
active = record {
  tenant_id = "acme";
  id = "quota";
  case_id = "case";
  job_id = "job";
  resource = active_jobs;
  window_end = 90;
  reserved_amount = 1;
  actual_amount = 0;
  state = reserved;
  expires_at = 90;
  updated_at = 5;
}

abbrev charged : Database → Database
charged db = record db { quota_ledger = active ∷ [] }

abbrev outcome : DurableRecord
outcome = record ticket {
  snapshot_job = record ticket.snapshot_job {
    attempt = 1;
    progress_phase = inspecting;
    state = succeeded;
    updated_at = 40;
  };
  updated_at = 40;
  version = 2;
}

abbrev completed : Database
completed = after at_work (complete_lease looks_clean (lease 10 1 "one") outcome (charged at_work))

completed_once :
    complete_lease looks_clean (lease 10 1 "one") outcome (charged at_work)
    ≡ ok (record outcome { version = 3 }, completed)
unfolding complete_lease claim_lease reserve parses is_opaque_id agrees is_sha256 CaseState-discrete
    JobState-discrete
completed_once = refl

complete_lease-frees_example : holds_quota (lease 10 1 "one") completed ≡ false
complete_lease-frees_example =
    complete_lease-frees looks_clean (lease 10 1 "one") outcome (record outcome { version = 3 })
      (charged at_work) completed completed_once

abbrev dropped : Database
dropped = after at_work (cancel_lease looks_clean (lease 10 1 "one") 30 (charged asked_to_stop))

dropped_once :
    (r : DurableRecord) × (cancel_lease looks_clean (lease 10 1 "one") 30 (charged asked_to_stop)
      ≡ ok (r, dropped))
unfolding cancel_lease request_cancellation claim_lease reserve parses is_opaque_id agrees is_sha256
    CaseState-discrete JobState-discrete can_transition can_transition_job
dropped_once = (_, refl)

abbrev crash : LeaseFailure
crash = record { at = 20; code = "CRASH"; next_attempt_at = 30; retryable = true }

abbrev queued_again : Database
queued_again = after at_work (fail_lease looks_clean (lease 10 1 "one") crash (charged at_work))
