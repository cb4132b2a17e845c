-- ===== src/Github/Linking.antt =====
-- `bind`: a principal links an installation that the provider has confirmed.
use reproforge.Base.{
  ℕ, String, ◌&&◌, Option, none, some, [], ◌∷◌, ◌++◌, Outcome, ok, err, ◌>>=◌, ◌>>◌, require, ◌==◌,
  ◌===◌, if◌then◌else◌,
}
use reproforge.Domain.Job.{is_some}
use reproforge.Durable.Rows.{named, AuditEvent, text, success, installation, target_number}
use reproforge.Github.Authorization.{active}
use reproforge.Github.Schemas.{
  Actor, is_actor, Installation, is_installation, RepositorySelection, all_repositories,
  selected_repositories,
}
use reproforge.Github.Rows.{
  InstallationRow, Tables, GithubError, rejected, refused, find_row, is_active, is_installation_at,
  is_repository_of, update_installations, update_repositories, record_audit,
}
use reproforge.Github.Webhooks.{removed_repository}
use reproforge.Github.Repositories.{upsert_repositories}
use reproforge.Github.Store.{Ambient}

abbrev linked_row : Actor → Installation → ℕ → InstallationRow
linked_row actor i now = record {
  tenant_id = actor.tenant_id;
  installation_id = i.installation_id;
  linked_by_principal_id = actor.principal_id;
  account_id = i.account_id;
  account_login = i.account_login;
  repository_selection = i.repository_selection;
  permissions = i.permissions;
  status = active;
  created_at = now;
  updated_at = now;
  suspended_at = none;
  removed_at = none;
  provider_updated_at = i.provider_updated_at;
}

abbrev relinked : Actor → Installation → ℕ → InstallationRow → InstallationRow
relinked actor i now r = record r {
  linked_by_principal_id = actor.principal_id;
  account_id = i.account_id;
  account_login = i.account_login;
  repository_selection = i.repository_selection;
  permissions = i.permissions;
  provider_updated_at = i.provider_updated_at;
  status = active;
  suspended_at = none;
  removed_at = none;
  updated_at = now;
}

-- The identifier of an installation is unique over all tenants.
unfoldable pub write_installation :
    Actor → Installation → ℕ → Option InstallationRow → Tables → Outcome GithubError Tables
unfolding update_installations
write_installation actor i now none t =
    ok (record t { installations = t.installations ++ linked_row actor i now ∷ [] })
write_installation actor i now (some r) t =
    if r.tenant_id === actor.tenant_id
    then update_installations (is_installation_at actor.tenant_id i.installation_id)
        (relinked actor i now) t
    else err refused

abbrev selection_text : RepositorySelection → String
selection_text all_repositories = "all"
selection_text selected_repositories = "selected"

abbrev linked_audit : Ambient → Actor → Installation → AuditEvent
linked_audit a actor i = record {
  action = "github.installation-linked";
  actor_id = actor.principal_id;
  event_id = named a.audit_id;
  metadata = ("selection", text (selection_text i.repository_selection)) ∷ [];
  occurred_at = a.at;
  outcome = success;
  target_id = target_number i.installation_id;
  target_type = installation;
  tenant_id = actor.tenant_id;
}

-- `bind`
unfoldable pub bind_installation :
    Ambient → Actor → Installation → Tables → Outcome GithubError Tables
unfolding is_actor is_installation find_row write_installation update_repositories
    upsert_repositories record_audit
bind_installation a actor i t = do
  require (is_actor actor) rejected
  require (is_installation i) rejected
  require
      (is_some (
        find_row (λ p. p.tenant_id === actor.tenant_id && p.id === actor.principal_id)
          t.principals))
      refused
  linked ←
      write_installation actor i a.now
        (find_row (λ r. r.installation_id == i.installation_id) t.installations) t
  cleared ←
      update_repositories
        (λ r. is_repository_of actor.tenant_id i.installation_id r && is_active r.status)
        (removed_repository a.now) linked
  stored ←
      upsert_repositories a.new_id actor.tenant_id i.installation_id none a.now i.repositories
        cleared
  record_audit (linked_audit a actor i) stored
