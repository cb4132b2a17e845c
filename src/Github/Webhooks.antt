-- ===== src/Github/Webhooks.antt =====
-- What a webhook of GitHub changes: `applyInstallationWebhook`, `applyRepositoryWebhook` and
-- `applyRepositoryTransition` of
-- src/infrastructure/github/postgres-github-authorization-store.ts.
use reproforge.Base.{
  ℕ, String, Bool, true, false, not, ◌&&◌, ◌||◌, Option, none, some, [], ◌∷◌, Outcome, ok, ◌>>=◌,
  ◌==◌, ◌===◌, if◌then◌else◌,
}
use reproforge.Durable.Rows.{named, AuditEvent, text, flag, success, installation, target_number}
use reproforge.Github.Authorization.{
  AuthorizationStatus, active, removed, suspended, AuthorizationState, reduce_authorization,
}
use reproforge.Github.Schemas.{is_exact, InstallationPayload}
use reproforge.Github.Rows.{
  InstallationRow, RepositoryRow, Tables, GithubError, find_row, is_suspended, is_removed_status,
  is_installation_at, is_repository_of, update_installations, update_repositories,
}

abbrev pub optional_default {ℓ} : {A : Type ℓ} → Option A → Option A → Option A
optional_default (some a) d = some a
optional_default none d = d

abbrev pub default_to {ℓ} : {A : Type ℓ} → Option A → A → A
default_to (some a) d = a
default_to none d = d

-- The status that a webhook on an installation asks for; `none` where it asks for nothing.
unfoldable pub desired_status : InstallationPayload → Option AuthorizationStatus
unfolding is_exact
desired_status p =
    if p.action === "deleted"
    then some removed
    else if p.action === "suspended" || not (is_exact p.permissions)
    then some suspended
    else if p.action === "unsuspended" || p.action === "new_permissions_accepted"
    then some active
    else none

abbrev same_status : AuthorizationStatus → AuthorizationStatus → Bool
same_status active active = true
same_status removed removed = true
same_status suspended suspended = true
same_status _ _ = false

abbrev same_optional_time : Option ℕ → Option ℕ → Bool
same_optional_time none none = true
same_optional_time (some a) (some b) = a == b
same_optional_time _ _ = false

unfoldable pub same_state : AuthorizationState → AuthorizationState → Bool
same_state a b =
    same_status a.status b.status && same_optional_time a.provider_updated_at b.provider_updated_at

abbrev pub installation_state : InstallationRow → AuthorizationState
installation_state r = record { provider_updated_at = r.provider_updated_at; status = r.status }

abbrev pub repository_state : RepositoryRow → AuthorizationState
repository_state r = record { provider_updated_at = r.provider_updated_at; status = r.status }

abbrev pub with_installation_state : AuthorizationState → ℕ → InstallationRow → InstallationRow
with_installation_state next at r = record r {
  status = next.status;
  suspended_at = if is_suspended next.status then some at else none;
  removed_at = if is_removed_status next.status then some at else none;
  updated_at = at;
  provider_updated_at = next.provider_updated_at;
}

abbrev pub removed_repository : ℕ → RepositoryRow → RepositoryRow
removed_repository at r = record r { status = removed; removed_at = some at; updated_at = at }

abbrev status_action : AuthorizationStatus → String
status_action removed = "github.installation-removed"
status_action suspended = "github.installation-suspended"
status_action active = "github.installation-activated"

abbrev status_audit : String → String → InstallationPayload → AuthorizationStatus → ℕ → AuditEvent
status_audit audit_id tenant_id p status at = record {
  action = status_action status;
  actor_id = "github-webhook";
  event_id = named audit_id;
  metadata = ("permissionsExact", flag (is_exact p.permissions)) ∷ ("provider", text "github") ∷ [];
  occurred_at = at;
  outcome = success;
  target_id = target_number p.installation_id;
  target_type = installation;
  tenant_id = tenant_id;
}

-- The repositories of an installation that is removed go with it.
unfoldable pub remove_repositories_if : Bool → String → ℕ → ℕ → Tables → Outcome GithubError Tables
unfolding update_repositories
remove_repositories_if gone tenant_id id at t =
    if gone
    then update_repositories
        (λ r. is_repository_of tenant_id id r && not (is_removed_status r.status))
        (removed_repository at) t
    else ok t

unfoldable pub apply_state :
    String
    → String
    → InstallationPayload
    → AuthorizationState
    → AuthorizationState
    → ℕ
    → Tables
    → Outcome GithubError (Option AuditEvent × Tables)
unfolding same_state update_installations remove_repositories_if
apply_state audit_id tenant_id p current next at t =
    if same_state next current then ok (none, t) else (do
      written ←
          update_installations (is_installation_at tenant_id p.installation_id)
            (with_installation_state next at) t
      cleared ←
          remove_repositories_if (is_removed_status next.status) tenant_id p.installation_id at
            written
      ok (some (status_audit audit_id tenant_id p next.status at), cleared))

unfoldable pub apply_desired :
    String
    → String
    → InstallationPayload
    → ℕ
    → Tables
    → Option AuthorizationStatus
    → Option InstallationRow
    → Outcome GithubError (Option AuditEvent × Tables)
unfolding apply_state reduce_authorization
apply_desired audit_id tenant_id p at t (some status) (some row) =
    apply_state audit_id tenant_id p (installation_state row)
      (reduce_authorization (installation_state row)
        (record { at = p.updated_at; status = status }))
      at t
apply_desired audit_id tenant_id p at t _ _ = ok (none, t)

-- `applyInstallationWebhook`
unfoldable pub apply_installation_webhook :
    String
    → String
    → InstallationPayload
    → ℕ
    → Tables
    → Outcome GithubError (Option AuditEvent × Tables)
unfolding apply_desired desired_status find_row
apply_installation_webhook audit_id tenant_id p at t =
    apply_desired audit_id tenant_id p at t (desired_status p)
      (find_row (is_installation_at tenant_id p.installation_id) t.installations)
