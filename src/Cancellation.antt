-- ===== src/Cancellation.antt =====
-- The cancellation of a job by its user: `requestDurableCancellation` of
-- src/application/durable-cancellation.ts, one transaction on the repository, the audit and the outbox.
pub mod Announced
use reproforge.Base.{
  ℕ, String, Bool, true, false, Option, none, some, ok, ◌>>=◌, ◌>>◌, require, if◌then◌else◌, [],
  ◌∷◌,
}
use reproforge.Audit.{append_audit}
use reproforge.Durable.Rows.{
  AuditEvent, text, success, job, target_text, MessageKind, EventId, QueueMessage, OutboxRow,
  Database,
}
use reproforge.Durable.Records.{
  DurableError, schema_rejected, invalid_record, TenantScope, is_tenant_scope, is_opaque_id,
}
use reproforge.Durable.Writes.{Result}
use reproforge.Durable.Cancel.{
  Disposition, cancelled_now, CancellationRequestResult, request_cancellation,
}
use reproforge.Outbox.{append_event}

pub data CancellationDisposition : Type 0 where
  cancelled not_found requested : CancellationDisposition

pub record DurableCancellationResult : Type 0 where
  pub accepted : Bool
  pub changed_job : Bool
  pub disposition : CancellationDisposition

abbrev answer_of : Disposition → CancellationDisposition
answer_of cancelled_now = cancelled
answer_of Disposition.requested = CancellationDisposition.requested

abbrev pub cancellation_message : TenantScope → String → CancellationRequestResult → QueueMessage
cancellation_message scope job_id r = record {
  case_id = r.case_id;
  event_id = EventId.cancellation scope.tenant_id job_id;
  job_id = job_id;
  kind = MessageKind.cancelled;
  tenant_id = scope.tenant_id;
}

abbrev disposition_text : Disposition → String
disposition_text cancelled_now = "cancelled"
disposition_text Disposition.requested = "requested"

abbrev pub cancellation_audit : TenantScope → String → ℕ → CancellationRequestResult → AuditEvent
cancellation_audit scope job_id at r = record {
  action = "job.cancellation-requested";
  actor_id = scope.principal_id;
  event_id = EventId.cancellation scope.tenant_id job_id;
  metadata = ("disposition", text (disposition_text r.disposition)) ∷ [];
  occurred_at = at;
  outcome = success;
  target_id = target_text job_id;
  target_type = job;
  tenant_id = scope.tenant_id;
}

abbrev accepted_result : CancellationRequestResult → DurableCancellationResult
accepted_result r = record {
  accepted = true;
  changed_job = r.changed;
  disposition = answer_of r.disposition;
}

-- What follows the answer of the repository.
unfoldable pub answer_cancellation :
    TenantScope
    → String
    → ℕ
    → ℕ
    → Option CancellationRequestResult
    → Database
    → Result DurableCancellationResult
unfolding append_audit append_event
answer_cancellation scope job_id at now none db =
    ok (record { accepted = false; changed_job = false; disposition = not_found }, db)
answer_cancellation scope job_id at now (some r) db =
    if r.changed
    then (do
      audits ← append_audit (cancellation_audit scope job_id at r) db.audit_events
      events ← append_event (cancellation_message scope job_id r) now db.outbox_events
      ok (accepted_result r, record db { outbox_events = events; audit_events = audits }))
    else ok (accepted_result r, db)

module _ (looks_secret : String → Bool) where
  -- `requestDurableCancellation`, at the transaction's time `now`.
  unfoldable pub request_durable_cancellation :
      TenantScope → String → ℕ → ℕ → Database → Result DurableCancellationResult
  unfolding answer_cancellation request_cancellation is_opaque_id
  request_durable_cancellation scope job_id at now db = do
    require (is_tenant_scope scope) schema_rejected
    require (is_opaque_id job_id) invalid_record
    (r, asked) ← request_cancellation looks_secret scope job_id at db
    answer_cancellation scope job_id at now r asked
