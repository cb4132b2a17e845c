-- ===== src/Examples/Starts.antt =====
-- A start, and another under the same key with another command.
use reproforge.Base.{[], ◌≡◌, refl, true, Outcome, ok, err, is_sha256}
use reproforge.Domain.Case.{CaseState-discrete}
use reproforge.Domain.Job.{JobState-discrete}
use reproforge.Durable.Rows.{
  named, success, target_text, reproduction, requested, active_jobs, Database,
}
use reproforge.Durable.Records.{is_opaque_id, parses, agrees, validate_record}
use reproforge.Durable.Reserve.{ReservationResult}
use reproforge.Quota.{default_limits, is_reservation}
use reproforge.Start.{
  StartInput, StartError, idempotency_conflict, is_start_input, reserve_durable_start,
}
use reproforge.Start.Once.{start-again}
use reproforge.Examples.Store.{looks_clean, ticket, nothing}

abbrev first_start : StartInput
first_start = record {
  audit_event = record {
    action = "case.start-requested";
    actor_id = "user";
    event_id = named "audit";
    metadata = [];
    occurred_at = 5;
    outcome = success;
    target_id = target_text "case";
    target_type = reproduction;
    tenant_id = "acme";
  };
  outbox_message = record {
    case_id = "case";
    event_id = named "event";
    job_id = "job";
    kind = requested;
    tenant_id = "acme";
  };
  quota_reservation = record {
    amount = 1;
    case_id = "case";
    expires_at = 90;
    job_id = "job";
    reservation_id = "quota";
    resource = active_jobs;
    tenant_id = "acme";
  };
  start_record = ticket;
}

abbrev other_start : StartInput
other_start = record first_start {
  start_record = record ticket {
    command_hash = "bbbbbbbbbbbbbbbbbbbbbbbbbbbbbbbbbbbbbbbbbbbbbbbbbbbbbbbbbbbbbbbb";
  };
}

abbrev state_after : Outcome StartError (ReservationResult × Database) → Database
state_after (ok (x, db)) = db
state_after (err e) = nothing

abbrev begun : Database
begun = state_after (reserve_durable_start looks_clean default_limits first_start 6 nothing)

begun_once :
    reserve_durable_start looks_clean default_limits first_start 6 nothing
    ≡ ok (record { created = true; stored = ticket }, begun)
unfolding reserve_durable_start is_start_input is_reservation parses is_opaque_id agrees is_sha256
    CaseState-discrete JobState-discrete
begun_once = refl

other_valid :
    validate_record looks_clean true other_start.start_record ≡ ok other_start.start_record
unfolding validate_record parses is_opaque_id agrees is_sha256
other_valid = refl

other_parses : is_start_input other_start ≡ true
unfolding is_start_input is_reservation parses is_opaque_id
other_parses = refl

start-again_example :
    reserve_durable_start looks_clean default_limits other_start 7 begun ≡ err idempotency_conflict
start-again_example =
    start-again looks_clean default_limits first_start other_start 6 7
      (record { created = true; stored = ticket }) nothing begun begun_once other_parses refl
      other_valid (refl, refl, refl)
