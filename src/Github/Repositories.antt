-- ===== src/Github/Repositories.antt =====
-- What the store does with the repositories of an installation: `upsertRepository`,
-- `applyRepositoryTransition` and `applyRepositoryWebhook`. The identifiers that the store makes
-- are a parameter: the one that a repository gets if it is stored in this transaction.
use reproforge.Base.{
  ℕ, String, Bool, Option, none, some, List, [], ◌∷◌, Outcome, ok, ◌>>=◌, ◌>>◌, require,
  if◌then◌else◌,
}
use reproforge.Durable.Records.{is_opaque_id}
use reproforge.Github.Authorization.{
  AuthorizationStatus, active, AuthorizationState, reduce_authorization,
}
use reproforge.Github.Schemas.{Repository}
use reproforge.Github.Rows.{
  RepositoryRow, Tables, GithubError, rejected, find_row, is_active, is_removed_status,
  is_repository_at, update_repositories, insert_repository,
}
use reproforge.Github.Webhooks.{optional_default, default_to, same_state, repository_state}

abbrev new_repository : String → String → ℕ → Repository → Option ℕ → ℕ → ℕ → RepositoryRow
new_repository tenant_id repository_id installation_id r provider_updated_at created updated =
    record {
      tenant_id = tenant_id;
      repository_id = repository_id;
      installation_id = installation_id;
      provider_repository_id = r.repository_id;
      full_name = r.full_name;
      default_branch = r.default_branch;
      is_private = r.is_private;
      status = active;
      created_at = created;
      updated_at = updated;
      removed_at = none;
      provider_updated_at = provider_updated_at;
    }

abbrev refreshed : Repository → Option ℕ → ℕ → RepositoryRow → RepositoryRow
refreshed r provider_updated_at now row = record row {
  full_name = r.full_name;
  default_branch = r.default_branch;
  is_private = r.is_private;
  status = active;
  removed_at = none;
  provider_updated_at = optional_default provider_updated_at row.provider_updated_at;
  updated_at = now;
}

abbrev pub fresh_id : (ℕ → String) → ℕ → Option RepositoryRow → String
fresh_id new_id provider_id none = new_id provider_id
fresh_id new_id provider_id (some row) = row.repository_id

unfoldable pub write_repository :
    String
    → String
    → ℕ
    → Repository
    → Option ℕ
    → ℕ
    → Option RepositoryRow
    → Tables
    → Outcome GithubError Tables
unfolding update_repositories insert_repository
write_repository tenant_id repository_id installation_id r provider_updated_at now none t =
    insert_repository
      (new_repository tenant_id repository_id installation_id r provider_updated_at now now) t
write_repository tenant_id repository_id installation_id r provider_updated_at now (some row) t =
    update_repositories (is_repository_at tenant_id installation_id r.repository_id)
      (refreshed r provider_updated_at now) t

unfoldable pub upsert_found :
    (ℕ → String)
    → String
    → ℕ
    → Repository
    → Option ℕ
    → ℕ
    → Option RepositoryRow
    → Tables
    → Outcome GithubError Tables
unfolding write_repository is_opaque_id
upsert_found new_id tenant_id installation_id r provider_updated_at now existing t =
    require (is_opaque_id (fresh_id new_id r.repository_id existing)) rejected
    >> write_repository tenant_id (fresh_id new_id r.repository_id existing) installation_id r
        provider_updated_at now existing t

-- `upsertRepository`; `now` is the database's CURRENT_TIMESTAMP.
unfoldable pub upsert_repository :
    (ℕ → String) → String → ℕ → Option ℕ → ℕ → Repository → Tables → Outcome GithubError Tables
unfolding upsert_found find_row
upsert_repository new_id tenant_id installation_id provider_updated_at now r t =
    upsert_found new_id tenant_id installation_id r provider_updated_at now
      (find_row (is_repository_at tenant_id installation_id r.repository_id) t.repositories) t

unfoldable pub upsert_repositories :
    (ℕ → String) → String → ℕ → Option ℕ → ℕ → List Repository → Tables → Outcome GithubError Tables
unfolding upsert_repository
upsert_repositories new_id tenant_id installation_id provider_updated_at now [] t = ok t
upsert_repositories new_id tenant_id installation_id provider_updated_at now (r ∷ rs) t =
    upsert_repository new_id tenant_id installation_id provider_updated_at now r t
    >>= upsert_repositories new_id tenant_id installation_id provider_updated_at now rs

-- The input of `applyRepositoryTransition`, for one of the provider's repositories.
pub record RepositoryTransition : Type 0 where
  pub at : ℕ
  pub installation_id : ℕ
  pub provider_repository_id : ℕ
  pub provider_updated_at : ℕ
  pub status : AuthorizationStatus
  pub tenant_id : String

unfoldable pub start_repository :
    (ℕ → String)
    → RepositoryTransition
    → ℕ
    → Option Repository
    → Tables
    → Outcome GithubError Tables
unfolding insert_repository is_opaque_id
start_repository new_id input now none t = ok t
start_repository new_id input now (some r) t =
    if is_active input.status
    then (require (is_opaque_id (new_id r.repository_id)) rejected
        >> insert_repository
            (new_repository input.tenant_id (new_id r.repository_id) input.installation_id r
              (some input.provider_updated_at) now now)
            t)
    else ok t

abbrev name_of : Option Repository → Option String
name_of none = none
name_of (some r) = some r.full_name

abbrev branch_of : Option Repository → Option String
branch_of none = none
branch_of (some r) = some r.default_branch

abbrev privacy_of : Option Repository → Option Bool
privacy_of none = none
privacy_of (some r) = some r.is_private

abbrev with_repository_state :
    AuthorizationState → ℕ → Option Repository → RepositoryRow → RepositoryRow
with_repository_state next at r row = record row {
  status = next.status;
  removed_at = if is_removed_status next.status then some at else none;
  full_name = default_to (name_of r) row.full_name;
  default_branch = default_to (branch_of r) row.default_branch;
  is_private = default_to (privacy_of r) row.is_private;
  provider_updated_at = next.provider_updated_at;
  updated_at = at;
}

unfoldable pub move_repository :
    RepositoryTransition
    → Option Repository
    → AuthorizationState
    → AuthorizationState
    → Tables
    → Outcome GithubError Tables
unfolding same_state update_repositories
move_repository input r current next t =
    if same_state next current
    then ok t
    else update_repositories
        (is_repository_at input.tenant_id input.installation_id input.provider_repository_id)
        (with_repository_state next input.at r) t

unfoldable pub transition_found :
    (ℕ → String)
    → RepositoryTransition
    → ℕ
    → Option Repository
    → Option RepositoryRow
    → Tables
    → Outcome GithubError Tables
unfolding start_repository move_repository reduce_authorization
transition_found new_id input now r none t = start_repository new_id input now r t
transition_found new_id input now r (some row) t =
    move_repository input r (repository_state row)
      (reduce_authorization (repository_state row)
        (record { at = input.provider_updated_at; status = input.status }))
      t

-- `applyRepositoryTransition`
unfoldable pub apply_repository_transition :
    (ℕ → String)
    → RepositoryTransition
    → ℕ
    → Option Repository
    → Tables
    → Outcome GithubError Tables
unfolding transition_found find_row
apply_repository_transition new_id input now r t =
    transition_found new_id input now r
      (find_row
        (is_repository_at input.tenant_id input.installation_id input.provider_repository_id)
        t.repositories)
      t
