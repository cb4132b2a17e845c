-- ===== src/Start.antt =====
-- The start of a reproduction: `reserveDurableStart` of src/application/durable-start.ts, one
-- transaction on the repository, the ledger, the audit events and the outbox.
pub mod Once
use reproforge.Base.{
  ℕ, String, Bool, true, false, not, ◌&&◌, Outcome, ok, err, ◌>>=◌, ◌>>◌, require, List, ◌===◌,
  if◌then◌else◌,
}
use reproforge.Audit.{is_audit_event, append_audit}
use reproforge.Domain.Job.{ReproductionJob}
use reproforge.Durable.Rows.{
  AuditEvent, TargetId, target_text, target_number, QuotaResource, QuotaRow, QueueMessage,
  OutboxRow, Database,
}
use reproforge.Durable.Records.{DurableError, DurableRecord, parses}
use reproforge.Durable.Reserve.{ReservationResult, reserve}
use reproforge.Outbox.{is_message, append_event}
use reproforge.Quota.{QuotaReservation, is_reservation, reserve_quota}

pub record StartInput : Type 0 where
  pub audit_event : AuditEvent
  pub outbox_message : QueueMessage
  pub quota_reservation : QuotaReservation
  pub start_record : DurableRecord

pub data StartError : Type 0 where
  idempotency_conflict invalid_start_input quota_exceeded : StartError
  -- the error of a port, which passes through
  port_failed : DurableError → StartError

abbrev pub through {ℓ} : {A : Type ℓ} → Outcome DurableError A → Outcome StartError A
through (ok a) = ok a
through (err e) = err (port_failed e)

-- The schemas of `validateStartInput`.
unfoldable pub is_start_input : StartInput → Bool
unfolding parses is_audit_event is_reservation
is_start_input i =
    parses i.start_record
    && is_audit_event i.audit_event
    && is_message i.outbox_message
    && is_reservation i.quota_reservation

abbrev is_target : TargetId → String → Bool
is_target (target_text s) id = s === id
is_target (target_number n) id = false

-- Whether the parts are about one case and job.
abbrev pub is_aligned : StartInput → Bool
is_aligned i =
    i.start_record.case_id === i.start_record.snapshot_case.id
    && i.start_record.job_id === i.start_record.snapshot_job.id
    && i.start_record.case_id === i.start_record.snapshot_job.case_id
    && i.audit_event.tenant_id === i.start_record.tenant_id
    && is_target i.audit_event.target_id i.start_record.case_id
    && i.outbox_message.tenant_id === i.start_record.tenant_id
    && i.outbox_message.case_id === i.start_record.case_id
    && i.outbox_message.job_id === i.start_record.job_id
    && i.quota_reservation.tenant_id === i.start_record.tenant_id
    && i.quota_reservation.case_id === i.start_record.case_id
    && i.quota_reservation.job_id === i.start_record.job_id

module _ (looks_secret : String → Bool) (limits : QuotaResource → ℕ) where
  -- What follows the reservation of a new record.
  unfoldable pub start_new :
      StartInput
      → ℕ
      → ReservationResult
      → Database
      → Outcome StartError (ReservationResult × Database)
  unfolding reserve_quota append_audit append_event
  start_new i now result db = do
    (granted, ledger) ←
        through (reserve_quota limits i.quota_reservation now db.jobs db.quota_ledger)
    require granted quota_exceeded
    audits ← through (append_audit i.audit_event db.audit_events)
    events ← through (append_event i.outbox_message now db.outbox_events)
    ok (result, record db { quota_ledger = ledger; outbox_events = events; audit_events = audits })

  unfoldable pub start_reserved :
      StartInput
      → ℕ
      → ReservationResult
      → Database
      → Outcome StartError (ReservationResult × Database)
  unfolding start_new
  start_reserved i now result db =
      if result.created
      then start_new i now result db
      else if result.stored.command_hash === i.start_record.command_hash
      then ok (result, db)
      else err idempotency_conflict

  -- `reserveDurableStart`
  unfoldable pub reserve_durable_start :
      StartInput → ℕ → Database → Outcome StartError (ReservationResult × Database)
  unfolding is_start_input reserve start_reserved
  reserve_durable_start i now db = do
    require (is_start_input i) invalid_start_input
    require (is_aligned i) invalid_start_input
    (result, reserved) ← through (reserve looks_secret i.start_record db)
    start_reserved i now result reserved
