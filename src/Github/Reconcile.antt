-- ===== src/Github/Reconcile.antt =====
-- `applyRepositoryWebhook`: the repositories follow a snapshot of the installation where there is
-- one, and the webhook's own lists where there is none.
use reproforge.Base.{
  ℕ, String, Bool, ◌&&◌, Option, none, some, List, [], ◌∷◌, Outcome, ok, ◌>>=◌, ◌>>◌, require, ◌==◌,
  is_nonempty, length, if◌then◌else◌,
}
use reproforge.Domain.Job.{is_some}
use reproforge.Durable.Rows.{
  named, AuditEvent, text, number, flag, success, installation, target_number,
}
use reproforge.Github.Authorization.{active, removed}
use reproforge.Github.Schemas.{Repository, Installation, AddedRepository, RepositoryPayload}
use reproforge.Github.Rows.{
  InstallationRow, Tables, GithubError, snapshot_mismatch, is_active, is_installation_at,
  is_repository_of, update_installations, update_repositories,
}
use reproforge.Github.Webhooks.{optional_default, removed_repository}
use reproforge.Github.Repositories.{
  RepositoryTransition, apply_repository_transition, upsert_repositories,
}

abbrev pub transition_of : String → RepositoryPayload → ℕ → ℕ → RepositoryTransition
transition_of tenant_id p at id = record {
  at = at;
  installation_id = p.installation_id;
  provider_repository_id = id;
  provider_updated_at = p.updated_at;
  status = removed;
  tenant_id = tenant_id;
}

unfoldable pub remove_listed :
    (ℕ → String) → String → RepositoryPayload → ℕ → ℕ → List ℕ → Tables → Outcome GithubError Tables
unfolding apply_repository_transition
remove_listed new_id tenant_id p at now [] t = ok t
remove_listed new_id tenant_id p at now (id ∷ ids) t =
    apply_repository_transition new_id (transition_of tenant_id p at id) now none t
    >>= remove_listed new_id tenant_id p at now ids

-- The repository of an entry that names all of it, with a branch and a name that are not empty.
abbrev pub complete_entry : ℕ → Option String → Option String → Option Bool → Option Repository
complete_entry id (some branch) (some name) (some is_private) =
    if is_nonempty branch && is_nonempty name
    then some (record {
      default_branch = branch;
      full_name = name;
      is_private = is_private;
      repository_id = id;
    })
    else none
complete_entry id _ _ _ = none

unfoldable pub add_entry :
    (ℕ → String)
    → String
    → RepositoryPayload
    → ℕ
    → ℕ
    → ℕ
    → Option Repository
    → Tables
    → Outcome GithubError Tables
unfolding apply_repository_transition
add_entry new_id tenant_id p at now id none t = ok t
add_entry new_id tenant_id p at now id (some r) t =
    apply_repository_transition new_id
      (record (transition_of tenant_id p at id) { status = active }) now (some r) t

unfoldable pub add_listed :
    (ℕ → String)
    → String
    → RepositoryPayload
    → ℕ
    → ℕ
    → List AddedRepository
    → Tables
    → Outcome GithubError Tables
unfolding add_entry
add_listed new_id tenant_id p at now [] t = ok t
add_listed new_id tenant_id p at now (e ∷ es) t =
    add_entry new_id tenant_id p at now e.id
      (complete_entry e.id e.default_branch e.full_name e.is_private) t
    >>= add_listed new_id tenant_id p at now es

abbrev pub with_snapshot : Installation → ℕ → InstallationRow → InstallationRow
with_snapshot i at r = record r {
  account_id = i.account_id;
  account_login = i.account_login;
  repository_selection = i.repository_selection;
  permissions = i.permissions;
  provider_updated_at = optional_default i.provider_updated_at r.provider_updated_at;
  updated_at = at;
}

unfoldable pub apply_listed :
    (ℕ → String)
    → String
    → RepositoryPayload
    → ℕ
    → ℕ
    → Option Installation
    → Tables
    → Outcome GithubError Tables
unfolding remove_listed add_listed upsert_repositories update_installations update_repositories
apply_listed new_id tenant_id p at now none t =
    remove_listed new_id tenant_id p at now p.repositories_removed t
    >>= add_listed new_id tenant_id p at now p.repositories_added
apply_listed new_id tenant_id p at now (some i) t = do
  require (i.installation_id == p.installation_id) snapshot_mismatch
  written ←
      update_installations (is_installation_at tenant_id i.installation_id) (with_snapshot i at) t
  cleared ←
      update_repositories
        (λ r. is_repository_of tenant_id i.installation_id r && is_active r.status)
        (removed_repository at) written
  upsert_repositories new_id tenant_id i.installation_id i.provider_updated_at now i.repositories
      cleared

abbrev repositories_audit : String → String → RepositoryPayload → Bool → ℕ → AuditEvent
repositories_audit audit_id tenant_id p reconciled at = record {
  action = "github.repositories-updated";
  actor_id = "github-webhook";
  event_id = named audit_id;
  metadata =
      ("added", number (length p.repositories_added))
      ∷ ("provider", text "github")
      ∷ ("reconciled", flag reconciled)
      ∷ ("removed", number (length p.repositories_removed))
      ∷ [];
  occurred_at = at;
  outcome = success;
  target_id = target_number p.installation_id;
  target_type = installation;
  tenant_id = tenant_id;
}

-- `applyRepositoryWebhook`
unfoldable pub apply_repository_webhook :
    (ℕ → String)
    → String
    → String
    → RepositoryPayload
    → ℕ
    → ℕ
    → Option Installation
    → Tables
    → Outcome GithubError (AuditEvent × Tables)
unfolding apply_listed
apply_repository_webhook new_id audit_id tenant_id p at now i t =
    apply_listed new_id tenant_id p at now i t >>= λ t'.
    ok (repositories_audit audit_id tenant_id p (is_some i) at, t')
