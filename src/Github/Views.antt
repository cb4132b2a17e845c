-- ===== src/Github/Views.antt =====
-- What the rest of the program reads of a repository: `SELECT_REPOSITORY`, `repositoryFromRow`,
-- `findRepository` and `listRepositories`.
use reproforge.Base.{
  ℕ, String, Bool, ◌&&◌, ◌||◌, Option, none, some, List, Outcome, ok, ◌>>=◌, ◌>>◌, require, ◌===◌,
  if◌then◌else◌,
}
use reproforge.Durable.Records.{is_opaque_id}
use reproforge.Github.Authorization.{AuthorizationStatus, active, removed, suspended}
use reproforge.Github.Schemas.{is_exact, is_provider_id}
use reproforge.Github.Rows.{
  InstallationRow, RepositoryRow, Tables, GithubError, rejected, find_row, is_suspended,
  is_removed_status, is_installation_at,
}

-- `GitHubRepositoryAuthorization`
pub record RepositoryAuthorization : Type 0 where
  pub default_branch : String
  pub full_name : String
  pub installation_id : ℕ
  pub is_private : Bool
  pub permissions : List (String × String)
  pub provider_repository_id : ℕ
  pub repository_id : String
  pub status : AuthorizationStatus
  pub tenant_id : String

-- The status that the query computes from the two rows.
unfoldable pub joined_status : InstallationRow → RepositoryRow → AuthorizationStatus
joined_status i r =
    if is_suspended i.status
    then suspended
    else if is_removed_status i.status || is_removed_status r.status
    then removed
    else active

-- `repositoryFromRow`
unfoldable pub repository_from_row :
    InstallationRow → RepositoryRow → Outcome GithubError RepositoryAuthorization
unfolding is_exact is_opaque_id joined_status
repository_from_row i r = do
  require (is_provider_id r.installation_id) rejected
  require (is_exact i.permissions) rejected
  require (is_provider_id r.provider_repository_id) rejected
  require (is_opaque_id r.repository_id) rejected
  require (is_opaque_id r.tenant_id) rejected
  ok (record {
    default_branch = r.default_branch;
    full_name = r.full_name;
    installation_id = r.installation_id;
    is_private = r.is_private;
    permissions = i.permissions;
    provider_repository_id = r.provider_repository_id;
    repository_id = r.repository_id;
    status = joined_status i r;
    tenant_id = r.tenant_id;
  })

abbrev pub is_repository_named : String → String → RepositoryRow → Bool
is_repository_named tenant_id repository_id r =
    r.tenant_id === tenant_id && r.repository_id === repository_id

unfoldable pub read_installation :
    RepositoryRow → Option InstallationRow → Outcome GithubError (Option RepositoryAuthorization)
unfolding repository_from_row
read_installation r none = ok none
read_installation r (some i) = repository_from_row i r >>= λ a. ok (some a)

unfoldable pub read_repository :
    Option RepositoryRow → Tables → Outcome GithubError (Option RepositoryAuthorization)
unfolding read_installation find_row
read_repository none t = ok none
read_repository (some r) t =
    read_installation r
      (find_row (is_installation_at r.tenant_id r.installation_id) t.installations)

-- `findRepository`
unfoldable pub find_repository :
    String → String → Tables → Outcome GithubError (Option RepositoryAuthorization)
unfolding read_repository find_row is_opaque_id
find_repository tenant_id repository_id t = do
  require (is_opaque_id tenant_id) rejected
  require (is_opaque_id repository_id) rejected
  read_repository (find_row (is_repository_named tenant_id repository_id) t.repositories) t
