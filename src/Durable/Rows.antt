-- ===== src/Durable/Rows.antt =====
-- The rows that the durable store keeps. A column that may be NULL is an `Option`; the tenant and
-- the identifier of a case, a job and an event stand in the key of its table.
use reproforge.Base.{ℕ, String, Bool, Option, List}
use reproforge.Domain.Case.{CaseState, ReproCase}
use reproforge.Domain.Job.{JobState}
use reproforge.Durable.Table.{Table}

pub record JobRow : Type 0 where
  pub case_id : String
  pub state : JobState
  pub progress_phase : CaseState
  pub attempt : ℕ
  pub max_attempts : ℕ
  pub next_attempt_at : ℕ
  pub lease_owner : Option String
  pub lease_acquired_at : Option ℕ
  pub lease_expires_at : Option ℕ
  pub cancellation_requested_at : Option ℕ
  pub cancelled_at : Option ℕ
  pub failure_code : Option String
  pub failure_message : Option String
  pub failure_retryable : Option Bool
  pub version : ℕ
  pub created_at : ℕ
  pub updated_at : ℕ

-- `domain` and `content` are the JSON of the column `domain_state`: the case, and what stands
-- beside it (the source, the result), which no operation here looks into.
pub record CaseRow : Type 0 where
  pub state : CaseState
  pub domain : ReproCase
  pub content : String
  pub version : ℕ
  pub created_at : ℕ
  pub updated_at : ℕ

pub record IdempotencyRow : Type 0 where
  pub tenant_id : String
  pub caller_id : String
  pub idempotency_key : String
  pub command_hash : String
  pub case_id : String
  pub job_id : String

pub data QuotaResource : Type 0 where
  active_jobs artifact_bytes cpu_milliseconds exports : QuotaResource

pub data QuotaState : Type 0 where
  reserved committed released expired : QuotaState

pub record QuotaRow : Type 0 where
  pub tenant_id : String
  pub id : String
  pub case_id : String
  pub job_id : String
  pub resource : QuotaResource
  pub window_end : ℕ
  pub reserved_amount : ℕ
  pub actual_amount : ℕ
  pub state : QuotaState
  pub expires_at : ℕ
  pub updated_at : ℕ

pub data MessageKind : Type 0 where
  requested cancelled recovery_requested deletion_requested : MessageKind

-- The identifiers that the source makes from a SHA-256 digest are kept as the text that it
-- hashes, so that two of them are one exactly if they were made for the same job and attempt.
pub data EventId : Type 0 where
  named : String → EventId
  recovery : String → String → ℕ → EventId
  cancellation : String → String → EventId

pub record QueueMessage : Type 0 where
  pub case_id : String
  pub event_id : EventId
  pub job_id : String
  pub kind : MessageKind
  pub tenant_id : String

pub data EventStatus : Type 0 where
  pending sending delivered dead : EventStatus

pub record OutboxRow : Type 0 where
  pub message : QueueMessage
  pub status : EventStatus
  pub delivery_count : ℕ
  pub next_attempt_at : ℕ
  pub claim_owner : Option String
  pub claim_expires_at : Option ℕ
  pub delivered_at : Option ℕ
  pub provider_message_id : Option String
  pub last_error_code : Option String
  pub created_at : ℕ
  pub updated_at : ℕ
  pub version : ℕ

-- `auditMetadataValueSchema`; a finite number of the program's events is a count.
pub data AuditValue : Type 0 where
  text : String → AuditValue
  number : ℕ → AuditValue
  flag : Bool → AuditValue
  null : AuditValue

pub data AuditOutcome : Type 0 where
  success denied failure : AuditOutcome

pub data AuditTarget : Type 0 where
  account artifact reproduction installation job repository : AuditTarget

-- The identifier of a target: a text, or `String(n)` of a number.
pub data TargetId : Type 0 where
  target_text : String → TargetId
  target_number : ℕ → TargetId

pub record AuditEvent : Type 0 where
  pub action : String
  pub actor_id : String
  pub event_id : EventId
  pub metadata : List (String × AuditValue)
  pub occurred_at : ℕ
  pub outcome : AuditOutcome
  pub target_id : TargetId
  pub target_type : AuditTarget
  pub tenant_id : String

pub record Database : Type 0 where
  pub active_tenants : List String
  pub cases : Table CaseRow
  pub jobs : Table JobRow
  pub idempotency_keys : List IdempotencyRow
  pub quota_ledger : List QuotaRow
  pub outbox_events : List OutboxRow
  pub audit_events : List AuditEvent
  -- The cases with an available artifact of kind `bundle`, by tenant and case.
  pub bundles : Table (Unit {0})
