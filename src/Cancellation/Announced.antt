-- ===== src/Cancellation/Announced.antt =====
-- A cancellation that changed its job is announced.
use reproforge.Base.{◌≡◌, String, true}
use reproforge.Audit.{has_audit_event}
use reproforge.Durable.Rows.{EventId, Database}
use reproforge.Durable.Records.{TenantScope}
use reproforge.Durable.Writes.{has_event}

-- The audit event of the cancellation and its message are stored.
abbrev pub IsAnnounced : TenantScope → String → Database → Type 0
IsAnnounced scope job_id db =
    let id = EventId.cancellation scope.tenant_id job_id in
    (has_audit_event scope.tenant_id id db.audit_events ≡ true)
    × (has_event scope.tenant_id id db.outbox_events ≡ true)
