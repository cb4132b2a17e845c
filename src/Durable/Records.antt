-- ===== src/Durable/Records.antt =====
-- The durable record, its checks, and how rows are read back: `validateRecord`, `rowToRecord` and
-- the lookups of src/infrastructure/postgres/repositories.ts, with the schemas of
-- src/application/ports/production.ts. What a snapshot holds beside the case and the job (source,
-- result, budget) is one opaque text, `content`, whose schemas are not modelled.
use Prim.Native.Char.{code}
use reproforge.Base.{
  ℕ, String, Bool, true, false, not, ◌&&◌, ◌||◌, Option, none, some, List, [], ◌∷◌, Outcome, ok,
  err, ◌>>=◌, ◌>>◌, require, ltb, leb, ◌==◌, ◌===◌, is_nonempty, is_sha256, utf16_length,
  if◌then◌else◌,
}
use reproforge.Domain.Case.{CaseError, ReproCase, parse_case, same_case_state}
use reproforge.Domain.Job.{JobError, JobFailure, ReproductionJob, parse_job}
use reproforge.Durable.Table.{find}
use reproforge.Durable.Rows.{JobRow, CaseRow, IdempotencyRow, Database}

pub data DurableError : Type 0 where
  invalid_record corrupt_record optimistic_conflict lease_not_owned quota_not_active : DurableError
  -- a schema's `parse` throws
  schema_rejected : DurableError
  -- the trigger of a table refuses an update that moves `updated_at` backwards
  update_refused : DurableError
  -- a key or a constraint of a table refuses an insert
  insert_refused : DurableError
  case_refused : CaseError → DurableError
  job_refused : JobError → DurableError

abbrev is_alphanumeric : ℕ → Bool
is_alphanumeric c = leb b'0' c && leb c b'9' || leb b'A' c && leb c b'Z' || leb b'a' c && leb c b'z'

id_characters : String → Bool
id_characters String.[] = true
id_characters (String.◌∷◌ c s) =
    (is_alphanumeric (code c)
      || code c == b'.'
      || code c == b'_'
      || code c == b':'
      || code c == b'-')
    && id_characters s

starts_alphanumeric : String → Bool
starts_alphanumeric String.[] = false
starts_alphanumeric (String.◌∷◌ c s) = is_alphanumeric (code c)

-- `opaqueIdSchema`
unfoldable pub is_opaque_id : String → Bool
unfolding id_characters starts_alphanumeric utf16_length
is_opaque_id s = starts_alphanumeric s && id_characters s && leb (utf16_length s) 128

abbrev is_upper : ℕ → Bool
is_upper c = leb b'A' c && leb c b'Z'

code_characters : String → Bool
code_characters String.[] = true
code_characters (String.◌∷◌ c s) =
    (is_upper (code c) || leb b'0' (code c) && leb (code c) b'9' || code c == b'_')
    && code_characters s

starts_upper : String → Bool
starts_upper String.[] = false
starts_upper (String.◌∷◌ c s) = is_upper (code c)

-- `/^[A-Z][A-Z0-9_]{0,95}$/`
unfoldable pub is_failure_code : String → Bool
unfolding code_characters starts_upper utf16_length
is_failure_code s = starts_upper s && code_characters s && leb (utf16_length s) 96

-- `/[\u0000-\u001f\u007f]/`
unfoldable pub has_control_character : String → Bool
has_control_character String.[] = false
has_control_character (String.◌∷◌ c s) =
    (ltb (code c) 32 || code c == 127) || has_control_character s

pub record TenantScope : Type 0 where
  pub caller_id : String
  pub principal_id : String
  pub tenant_id : String

-- `tenantScopeSchema`
abbrev pub is_tenant_scope : TenantScope → Bool
is_tenant_scope s =
    is_opaque_id s.caller_id && is_opaque_id s.principal_id && is_opaque_id s.tenant_id

pub record DurableRecord : Type 0 where
  pub caller_id : String
  pub case_id : String
  pub command_hash : String
  pub created_at : ℕ
  pub idempotency_key : String
  pub job_id : String
  pub snapshot_case : ReproCase
  pub snapshot_job : ReproductionJob
  pub content : String
  pub tenant_id : String
  pub updated_at : ℕ
  pub version : ℕ

abbrev pub accepts {ℓ κ} : {E : Type ℓ} {A : Type κ} → Outcome E A → Bool
accepts (ok _) = true
accepts (err _) = false

abbrev no_failure : Option (Option JobFailure)
no_failure = some none

-- The failure columns, read as the source does: all NULL is no failure, and a failure with a
-- missing part does not parse.
abbrev pub failure_of : Option String → Option String → Option Bool → Option (Option JobFailure)
failure_of none none none = no_failure
failure_of (some code) (some message) (some retryable) =
    some (some (record { code = code; message = message; retryable = retryable }))
failure_of _ _ _ = none

abbrev pub record_of : IdempotencyRow → CaseRow → JobRow → Option JobFailure → DurableRecord
record_of key c j failure = record {
  caller_id = key.caller_id;
  case_id = key.case_id;
  command_hash = key.command_hash;
  created_at = c.created_at;
  idempotency_key = key.idempotency_key;
  job_id = key.job_id;
  snapshot_case = c.domain;
  snapshot_job = record {
    attempt = j.attempt;
    case_id = j.case_id;
    created_at = j.created_at;
    failure = failure;
    id = key.job_id;
    progress_phase = j.progress_phase;
    state = j.state;
    updated_at = j.updated_at;
  };
  content = c.content;
  tenant_id = key.tenant_id;
  updated_at = c.updated_at;
  version = c.version;
}

-- Every error that is thrown while a row is read comes out as a corrupt record.
abbrev as_corrupt : Outcome DurableError DurableRecord → Outcome DurableError DurableRecord
as_corrupt (ok r) = ok r
as_corrupt (err e) = err corrupt_record

-- The rows that DURABLE_SELECT joins to a key.
abbrev pub join : Database → IdempotencyRow → Option (CaseRow × JobRow)
join db key = elim (find (record { tenant = key.tenant_id; id = key.case_id }) db.cases) [
  | none ↦ none
  | some c ↦ elim (find (record { tenant = key.tenant_id; id = key.job_id }) db.jobs) [
    | none ↦ none
    | some j ↦ if j.case_id === key.case_id then some (c, j) else none
  ]
]

-- The schemas that `validateRecord` runs on the parts of a record.
unfoldable pub parses : DurableRecord → Bool
unfolding parse_case parse_job
parses r =
    is_opaque_id r.caller_id
    && is_opaque_id r.tenant_id
    && accepts (parse_case r.snapshot_case)
    && accepts (parse_job r.snapshot_job)

module _ (looks_secret : String → Bool) where
  abbrev is_sanitized : Option JobFailure → Bool
  is_sanitized none = true
  is_sanitized (some failure) =
      is_failure_code failure.code
      && leb (utf16_length failure.message) 512
      && not (has_control_character failure.message)
      && not (looks_secret failure.message)

  -- The fields of a record that parses must agree. `looks_secret` is the test of the last regular
  -- expression, which the engine's matcher runs.
  unfoldable pub agrees : Bool → DurableRecord → Bool
  agrees initial r =
      is_sha256 r.command_hash
      && is_nonempty r.idempotency_key
      && leb (utf16_length r.idempotency_key) 128
      && r.case_id === r.snapshot_case.id
      && r.job_id === r.snapshot_job.id
      && r.case_id === r.snapshot_job.case_id
      && leb 1 r.version
      && (not initial || r.version == 1)
      && leb r.created_at r.updated_at
      && is_sanitized r.snapshot_job.failure

  -- `validateRecord`
  unfoldable pub validate_record : Bool → DurableRecord → Outcome DurableError DurableRecord
  validate_record initial r = do
    require (parses r) invalid_record
    require (agrees initial r) invalid_record
    ok r

  abbrev read_with_failure :
      IdempotencyRow
      → CaseRow
      → JobRow
      → Option (Option JobFailure)
      → Outcome DurableError DurableRecord
  read_with_failure key c j none = err corrupt_record
  read_with_failure key c j (some failure) =
      if same_case_state c.domain.state c.state
      then as_corrupt (validate_record false (record_of key c j failure))
      else err corrupt_record

  unfoldable pub row_to_record :
      IdempotencyRow → CaseRow → JobRow → Outcome DurableError DurableRecord
  unfolding validate_record
  row_to_record key c j =
      if c.version == j.version
      then read_with_failure key c j
          (failure_of j.failure_code j.failure_message j.failure_retryable)
      else err corrupt_record

  unfoldable pub next_row :
      (IdempotencyRow → JobRow → Bool)
      → IdempotencyRow
      → Option (CaseRow × JobRow)
      → Outcome DurableError (Option DurableRecord)
      → Outcome DurableError (Option DurableRecord)
  unfolding row_to_record
  next_row wanted key none rest = rest
  next_row wanted key (some (c, j)) rest =
      if wanted key j then (row_to_record key c j >>= λ r. ok (some r)) else rest

  -- `find`: the first joined row that meets the condition.
  unfoldable pub find_record :
      (IdempotencyRow → JobRow → Bool)
      → Database
      → List IdempotencyRow
      → Outcome DurableError (Option DurableRecord)
  unfolding find next_row
  find_record wanted db [] = ok none
  find_record wanted db (key ∷ keys) =
      let rest = find_record wanted db keys in next_row wanted key (join db key) rest

  unfoldable pub find_by_case_id :
      TenantScope → String → Database → Outcome DurableError (Option DurableRecord)
  unfolding find_record
  find_by_case_id scope case_id db =
      if is_tenant_scope scope
      then find_record
          (λ key j.
            key.tenant_id === scope.tenant_id
            && key.caller_id === scope.caller_id
            && key.case_id === case_id)
          db db.idempotency_keys
      else err schema_rejected

  unfoldable pub find_by_idempotency_key :
      TenantScope → String → Database → Outcome DurableError (Option DurableRecord)
  unfolding find_record
  find_by_idempotency_key scope idempotency_key db =
      if is_tenant_scope scope
      then find_record
          (λ key j.
            key.tenant_id === scope.tenant_id
            && key.caller_id === scope.caller_id
            && key.idempotency_key === idempotency_key)
          db db.idempotency_keys
      else err schema_rejected

  unfoldable pub find_by_job_id :
      TenantScope → String → Database → Outcome DurableError (Option DurableRecord)
  unfolding find_record
  find_by_job_id scope job_id db =
      if is_tenant_scope scope
      then find_record
          (λ key j.
            key.tenant_id === scope.tenant_id
            && key.caller_id === scope.caller_id
            && key.job_id === job_id)
          db db.idempotency_keys
      else err schema_rejected
