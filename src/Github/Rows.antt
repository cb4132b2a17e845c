-- ===== src/Github/Rows.antt =====
-- The tables of src/infrastructure/postgres/migrations/0007_identity_github_authorization.sql and
-- 0009_github_event_ordering.sql, and the statements on them that the store shares.
use reproforge.Base.{
  ℕ, String, Bool, true, false, not, ◌&&◌, ◌||◌, Option, none, some, List, [], ◌∷◌, ◌++◌, Outcome,
  ok, err, leb, ◌==◌, ◌===◌, every, if◌then◌else◌,
}
use reproforge.Domain.Job.{is_some}
use reproforge.Durable.Rows.{AuditEvent}
use reproforge.Durable.Records.{DurableError}
use reproforge.Audit.{append_audit}
use reproforge.Github.Authorization.{AuthorizationStatus, active, removed, suspended}
use reproforge.Github.Schemas.{RepositorySelection}

pub record InstallationRow : Type 0 where
  pub tenant_id : String
  pub installation_id : ℕ
  pub linked_by_principal_id : String
  pub account_id : ℕ
  pub account_login : String
  pub repository_selection : RepositorySelection
  pub permissions : List (String × String)
  pub status : AuthorizationStatus
  pub created_at : ℕ
  pub updated_at : ℕ
  pub suspended_at : Option ℕ
  pub removed_at : Option ℕ
  pub provider_updated_at : Option ℕ

pub record RepositoryRow : Type 0 where
  pub tenant_id : String
  pub repository_id : String
  pub installation_id : ℕ
  pub provider_repository_id : ℕ
  pub full_name : String
  pub default_branch : String
  pub is_private : Bool
  pub status : AuthorizationStatus
  pub created_at : ℕ
  pub updated_at : ℕ
  pub removed_at : Option ℕ
  pub provider_updated_at : Option ℕ

pub data DeliveryOutcome : Type 0 where
  processing accepted ignored : DeliveryOutcome

pub record DeliveryRow : Type 0 where
  pub delivery_id : String
  pub payload_hash : String
  pub installation_id : Option ℕ
  pub received_at : ℕ
  pub expires_at : ℕ
  pub tenant_id : Option String
  pub outcome : DeliveryOutcome
  pub processed_at : Option ℕ

pub record Principal : Type 0 where
  pub tenant_id : String
  pub id : String

pub record Tables : Type 0 where
  pub principals : List Principal
  pub installations : List InstallationRow
  pub repositories : List RepositoryRow
  pub deliveries : List DeliveryRow
  pub audit_events : List AuditEvent

pub data GithubError : Type 0 where
  -- a schema refuses its input
  rejected : GithubError
  -- a key or a check of a table refuses the statement
  refused : GithubError
  snapshot_mismatch : GithubError
  audit_refused : DurableError → GithubError

module _ {ℓ} {A : Type ℓ} where
  -- The first row that a SELECT meets.
  unfoldable pub find_row : (A → Bool) → List A → Option A
  find_row wanted [] = none
  find_row wanted (r ∷ rows) = if wanted r then some r else find_row wanted rows

  -- The rows after an UPDATE.
  unfoldable pub update_rows : (A → Bool) → (A → A) → List A → List A
  update_rows wanted change [] = []
  update_rows wanted change (r ∷ rows) =
      (if wanted r then change r else r) ∷ update_rows wanted change rows

  -- Whether the checks of the table hold of every row that the UPDATE writes.
  unfoldable pub keeps_checks : (A → Bool) → (A → Bool) → (A → A) → List A → Bool
  keeps_checks check wanted change rows = every (λ r. not (wanted r) || check (change r)) rows

abbrev pub is_suspended : AuthorizationStatus → Bool
is_suspended suspended = true
is_suspended _ = false

abbrev pub is_active : AuthorizationStatus → Bool
is_active active = true
is_active _ = false

abbrev pub is_removed_status : AuthorizationStatus → Bool
is_removed_status removed = true
is_removed_status _ = false

-- `github_installations_status_timestamps`
unfoldable pub check_installation : InstallationRow → Bool
check_installation r =
    (not (is_suspended r.status) || is_some r.suspended_at)
    && (not (is_removed_status r.status) || is_some r.removed_at)
    && leb r.created_at r.updated_at

-- `github_repositories_status_valid` and `github_repositories_status_timestamps`
unfoldable pub check_repository : RepositoryRow → Bool
check_repository r =
    not (is_suspended r.status)
    && (not (is_removed_status r.status) || is_some r.removed_at)
    && leb r.created_at r.updated_at

abbrev pub is_installation_at : String → ℕ → InstallationRow → Bool
is_installation_at tenant_id id r = r.tenant_id === tenant_id && r.installation_id == id

abbrev pub is_repository_of : String → ℕ → RepositoryRow → Bool
is_repository_of tenant_id id r = r.tenant_id === tenant_id && r.installation_id == id

abbrev pub is_repository_at : String → ℕ → ℕ → RepositoryRow → Bool
is_repository_at tenant_id id provider_id r =
    is_repository_of tenant_id id r && r.provider_repository_id == provider_id

unfoldable pub update_installations :
    (InstallationRow → Bool)
    → (InstallationRow → InstallationRow)
    → Tables
    → Outcome GithubError Tables
unfolding update_rows keeps_checks check_installation
update_installations wanted change t =
    if keeps_checks check_installation wanted change t.installations
    then ok (record t { installations = update_rows wanted change t.installations })
    else err refused

unfoldable pub update_repositories :
    (RepositoryRow → Bool) → (RepositoryRow → RepositoryRow) → Tables → Outcome GithubError Tables
unfolding update_rows keeps_checks check_repository
update_repositories wanted change t =
    if keeps_checks check_repository wanted change t.repositories
    then ok (record t { repositories = update_rows wanted change t.repositories })
    else err refused

-- A repository whose primary key or provider's identifier is taken is refused, and so is one of an
-- installation that is not there.
unfoldable pub insert_repository : RepositoryRow → Tables → Outcome GithubError Tables
unfolding find_row check_repository
insert_repository row t =
    if check_repository row
      && is_some (find_row (is_installation_at row.tenant_id row.installation_id) t.installations)
      && not (
          is_some (
            find_row (λ r. r.tenant_id === row.tenant_id && r.repository_id === row.repository_id)
              t.repositories))
      && not (
          is_some
            (find_row (λ r. r.provider_repository_id == row.provider_repository_id) t.repositories))
    then ok (record t { repositories = t.repositories ++ row ∷ [] })
    else err refused

abbrev recorded : Tables → Outcome DurableError (List AuditEvent) → Outcome GithubError Tables
recorded t (ok events) = ok (record t { audit_events = events })
recorded t (err e) = err (audit_refused e)

-- `appendAudit`
unfoldable pub record_audit : AuditEvent → Tables → Outcome GithubError Tables
unfolding append_audit
record_audit e t = recorded t (append_audit e t.audit_events)
