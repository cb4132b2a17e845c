-- ===== src/Examples/Github.antt =====
-- GitHub: reports out of order, a removed and a suspended installation, and a state that is used.
use mathlib.Core.List.{Mem, Mem-prop, mem-cons, mem-cons_self, mem-cons_of_mem}
use mathlib.Core.Logic.Or
use reproforge.Base.{ℕ, ◌≡◌, ◌↔◌, refl, sym, subst, String, true, none, some, List, [], ◌∷◌, ok}
use reproforge.Github.Authorization.{
  AuthorizationStatus, active, removed, suspended, AuthorizationState, AuthorizationTransition,
  after_reports,
}
use reproforge.Github.Authorization.Order.{reports_converge}
use reproforge.Github.Schemas.{all_repositories, InstallationPayload}
use reproforge.Github.Rows.{InstallationRow, RepositoryRow, Tables, find_row, is_installation_at}
use reproforge.Github.Store.{on_installation, Envelope, Ambient, taken, process_webhook}
use reproforge.Github.Views.{RepositoryAuthorization, find_repository}
use reproforge.Github.Removal.{
  Arrival, after_webhooks, Grant, removed_repositories-stay, activation-Grant,
}
use reproforge.Github.InstallationState.{
  StateRecord, Consumption, is_hashed, is_usable, consume_state,
}
use reproforge.Github.InstallationState.Once.{consuming, making, after_uses, consume_state-once}

abbrev unknown : AuthorizationState
unknown = record { provider_updated_at = none; status = active }

abbrev pause : AuthorizationTransition
pause = record { at = 20; status = suspended }

abbrev resume : AuthorizationTransition
resume = record { at = 30; status = active }

same_reports :
    (t : AuthorizationTransition)
    → Mem t (pause ∷ resume ∷ []) ↔ Mem t (resume ∷ pause ∷ resume ∷ [])
same_reports t = (
  λ m.
      Or.elim Mem-prop (mem-cons.0 m)
        (λ e.
          subst (λ (z : AuthorizationTransition). Mem z (resume ∷ pause ∷ resume ∷ [])) (sym e)
            (mem-cons_of_mem resume mem-cons_self))
        (λ n. mem-cons_of_mem resume (mem-cons_of_mem pause n)),
  λ m.
      Or.elim Mem-prop (mem-cons.0 m)
        (λ e.
          subst (λ (z : AuthorizationTransition). Mem z (pause ∷ resume ∷ [])) (sym e)
            (mem-cons_of_mem pause mem-cons_self))
        (λ n. n),
)

reports_converge_example :
    after_reports unknown (pause ∷ resume ∷ [])
    ≡ after_reports unknown (resume ∷ pause ∷ resume ∷ [])
reports_converge_example =
    reports_converge unknown (pause ∷ resume ∷ []) (resume ∷ pause ∷ resume ∷ []) same_reports

resumed :
    after_reports unknown (pause ∷ resume ∷ [])
    ≡ record { provider_updated_at = some 30; status = active }
unfolding after_reports
resumed = refl

abbrev read_only : List (String × String)
read_only = ("contents", "read") ∷ ("issues", "read") ∷ ("metadata", "read") ∷ []

abbrev linked : AuthorizationStatus → InstallationRow
linked status = record {
  tenant_id = "acme";
  installation_id = 7;
  linked_by_principal_id = "user";
  account_id = 3;
  account_login = "octo";
  repository_selection = all_repositories;
  permissions = read_only;
  status = status;
  created_at = 5;
  updated_at = 10;
  suspended_at = some 10;
  removed_at = some 10;
  provider_updated_at = some 10;
}

abbrev widget : RepositoryRow
widget = record {
  tenant_id = "acme";
  repository_id = "repo_1";
  installation_id = 7;
  provider_repository_id = 11;
  full_name = "octo/widget";
  default_branch = "main";
  is_private = true;
  status = active;
  created_at = 5;
  updated_at = 10;
  removed_at = none;
  provider_updated_at = none;
}

abbrev tables : AuthorizationStatus → Tables
tables status = record {
  principals = [];
  installations = linked status ∷ [];
  repositories = widget ∷ [];
  deliveries = [];
  audit_events = [];
}

abbrev unsuspension : InstallationPayload
unsuspension = record {
  action = "unsuspended";
  installation_id = 7;
  permissions = read_only;
  suspended_at = none;
  updated_at = 20;
}

abbrev delivery : Envelope
delivery = record { delivery_id = "d-1"; payload = on_installation unsuspension }

abbrev arrival_at : Ambient
arrival_at = record {
  at = 25;
  now = 25;
  audit_id = "audit_1";
  new_id = λ n. "repo_2";
  payload_hash = "hash";
}

abbrev arrival : Arrival
arrival = record { ambient = arrival_at; envelope = delivery; snapshot = none }

abbrev reading : RepositoryAuthorization
reading = record {
  default_branch = "main";
  full_name = "octo/widget";
  installation_id = 7;
  is_private = true;
  permissions = read_only;
  provider_repository_id = 11;
  repository_id = "repo_1";
  status = removed;
  tenant_id = "acme";
}

removed_there :
    find_row (is_installation_at "acme" 7) (tables removed).installations ≡ some (linked removed)
unfolding find_row
removed_there = refl

read_removed :
    find_repository "acme" "repo_1" (after_webhooks (arrival ∷ arrival ∷ []) (tables removed))
    ≡ ok (some reading)
unfolding find_repository after_webhooks
read_removed = refl

removed_repositories-stay_example : reading.status ≡ removed
removed_repositories-stay_example =
    removed_repositories-stay "acme" 7 (arrival ∷ arrival ∷ []) (tables removed) (linked removed)
      "repo_1" reading removed_there refl read_removed refl

abbrev reactivated : InstallationRow
reactivated = record (linked suspended) {
  status = active;
  suspended_at = none;
  removed_at = none;
  updated_at = 25;
  provider_updated_at = some 20;
}

abbrev granted : Tables
granted = after_webhooks (arrival ∷ []) (tables suspended)

suspended_there :
    find_row (is_installation_at "acme" 7) (tables suspended).installations
    ≡ some (linked suspended)
unfolding find_row
suspended_there = refl

unsuspended : process_webhook arrival_at delivery none (tables suspended) ≡ ok (taken, granted)
unfolding process_webhook after_webhooks
unsuspended = refl

active_there : find_row (is_installation_at "acme" 7) granted.installations ≡ some reactivated
unfolding find_row after_webhooks
active_there = refl

activation-Grant_example : Grant delivery.payload 7 (linked suspended)
activation-Grant_example =
    activation-Grant "acme" 7 arrival_at delivery none (tables suspended) granted taken
      (linked suspended) reactivated suspended_there unsuspended active_there refl refl

abbrev state : StateRecord
state = record {
  consumed_at = none;
  created_at = 5;
  expires_at = 600005;
  principal_id = "user";
  state_hash = "digest";
  tenant_id = "acme";
}

abbrev use_at : ℕ → Consumption
use_at at = record { at = at; principal_id = "user"; state_hash = "digest"; tenant_id = "acme" }

used_now : (consume_state (use_at 9) (state ∷ [])).0 ≡ some (record state { consumed_at = some 9 })
unfolding consume_state
used_now = refl

consume_state-once_example :
    ((s : StateRecord) × (find_row (is_hashed "digest") (state ∷ []) ≡ some s)
      × (is_usable (use_at 9) s ≡ true))
    × ((consume_state (use_at 10) (
          after_uses
            (making state ∷ consuming (use_at 9) ∷ [])
            (consume_state (use_at 9) (state ∷ [])).1)).0
        ≡ none)
consume_state-once_example =
    consume_state-once (use_at 9) (use_at 10) (making state ∷ consuming (use_at 9) ∷ [])
      (state ∷ []) (record state { consumed_at = some 9 }) used_now refl
