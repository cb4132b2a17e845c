-- ===== src/Github/Store.antt =====
-- `PostgresGitHubAuthorizationStore`: linking an installation, taking a webhook, and what the rest
-- of the program reads of a repository.
use reproforge.Base.{
  ℕ, ◌+◌, ◌*◌, String, Bool, true, false, ◌&&◌, ◌||◌, Option, none, some, List, [], ◌∷◌, ◌++◌,
  Outcome, ok, ◌>>=◌, ◌>>◌, require, leb, ◌==◌, ◌===◌, utf16_length, is_nonempty, if◌then◌else◌,
}
use Prim.Native.Char.{code}
use reproforge.Durable.Rows.{AuditEvent}
use reproforge.Github.Schemas.{
  Installation, is_installation, InstallationPayload, is_installation_payload, RepositoryPayload,
  is_repository_payload,
}
use reproforge.Github.Rows.{
  InstallationRow, DeliveryRow, processing, accepted, ignored, Tables, GithubError, rejected,
  find_row, update_rows, record_audit,
}
use reproforge.Github.Webhooks.{apply_installation_webhook}
use reproforge.Github.Reconcile.{apply_repository_webhook}

-- The body of a webhook: of the shape of the schema for its event, or of another.
pub data Payload : Type 0 where
  on_installation : InstallationPayload → Payload
  on_repositories : RepositoryPayload → Payload
  other : Payload

-- `GitHubWebhookEnvelope`
pub record Envelope : Type 0 where
  pub delivery_id : String
  pub payload : Payload

-- What a transaction takes from outside: the readings of the two clocks, the identifiers that are
-- made, and the digest of the payload.
pub record Ambient : Type 0 where
  pub at : ℕ
  pub now : ℕ
  pub audit_id : String
  pub new_id : ℕ → String
  pub payload_hash : String

-- `parsed.success`
unfoldable pub as_parsed : Payload → Payload
unfolding is_installation_payload is_repository_payload
as_parsed (on_installation p) = if is_installation_payload p then on_installation p else other
as_parsed (on_repositories p) = if is_repository_payload p then on_repositories p else other
as_parsed other = other

abbrev pub subject : Payload → Option ℕ
subject (on_installation p) = some p.installation_id
subject (on_repositories p) = some p.installation_id
subject other = none

abbrev tenant_of : Option InstallationRow → Option String
tenant_of none = none
tenant_of (some r) = some r.tenant_id

-- `SELECT tenant_id FROM github_installations WHERE installation_id = $1`
unfoldable pub owner_of : ℕ → Tables → Option String
unfolding find_row
owner_of id t = tenant_of (find_row (λ r. r.installation_id == id) t.installations)

unfoldable pub has_delivery : String → List DeliveryRow → Bool
has_delivery id [] = false
has_delivery id (d ∷ ds) = d.delivery_id === id || has_delivery id ds

abbrev pub new_delivery : Ambient → Envelope → Payload → DeliveryRow
new_delivery a e parsed = record {
  delivery_id = e.delivery_id;
  payload_hash = a.payload_hash;
  installation_id = subject parsed;
  received_at = a.at;
  expires_at = a.at + 30 * 24 * 60 * 60000;
  tenant_id = none;
  outcome = processing;
  processed_at = none;
}

abbrev is_processing : DeliveryRow → Bool
is_processing d = elim d.outcome [ processing ↦ true | _ ↦ false ]

-- `completeDelivery`
unfoldable pub complete_delivery : String → ℕ → Option String → Bool → Tables → Tables
unfolding update_rows
complete_delivery id at tenant_id took t = record t {
  deliveries =
      update_rows (λ d. d.delivery_id === id && is_processing d)
        (λ d. record d {
          tenant_id = tenant_id;
          outcome = if took then accepted else ignored;
          processed_at = some at;
        })
        t.deliveries;
}

pub data Receipt : Type 0 where
  taken duplicate : Receipt

-- A delivery that was seen before is looked at again only if a snapshot came with it.
unfoldable pub apply_again :
    Ambient → RepositoryPayload → Installation → Option String → Tables → Outcome GithubError Tables
unfolding apply_repository_webhook
apply_again a p i none t = ok t
apply_again a p i (some tenant_id) t =
    apply_repository_webhook a.new_id a.audit_id tenant_id p a.at a.now (some i) t >>= λ (_, t').
    ok t'

unfoldable pub take_duplicate :
    Ambient → Payload → Option Installation → Tables → Outcome GithubError Tables
unfolding apply_again owner_of
take_duplicate a (on_repositories p) (some i) t = apply_again a p i (owner_of p.installation_id t) t
take_duplicate a _ _ t = ok t

unfoldable pub finish_audited :
    Ambient → Envelope → String → Option AuditEvent → Tables → Outcome GithubError Tables
unfolding complete_delivery record_audit
finish_audited a e tenant_id none t =
    ok (complete_delivery e.delivery_id a.at (some tenant_id) false t)
finish_audited a e tenant_id (some event) t =
    record_audit event (complete_delivery e.delivery_id a.at (some tenant_id) true t)

unfoldable pub apply_payload :
    Ambient
    → Envelope
    → Payload
    → Option Installation
    → String
    → Tables
    → Outcome GithubError Tables
unfolding apply_installation_webhook apply_repository_webhook finish_audited
apply_payload a e (on_installation p) i tenant_id t =
    apply_installation_webhook a.audit_id tenant_id p a.at t >>= λ (event, t').
    finish_audited a e tenant_id event t'
apply_payload a e (on_repositories p) i tenant_id t =
    apply_repository_webhook a.new_id a.audit_id tenant_id p a.at a.now i t >>= λ (event, t').
    finish_audited a e tenant_id (some event) t'
apply_payload a e other i tenant_id t = ok (complete_delivery e.delivery_id a.at none false t)

unfoldable pub take_owned :
    Ambient
    → Envelope
    → Payload
    → Option Installation
    → Option String
    → Tables
    → Outcome GithubError Tables
unfolding apply_payload complete_delivery
take_owned a e parsed i none t = ok (complete_delivery e.delivery_id a.at none false t)
take_owned a e parsed i (some tenant_id) t = apply_payload a e parsed i tenant_id t

unfoldable pub take_new :
    Ambient
    → Envelope
    → Payload
    → Option Installation
    → Option ℕ
    → Tables
    → Outcome GithubError Tables
unfolding take_owned owner_of complete_delivery
take_new a e parsed i none t = ok (complete_delivery e.delivery_id a.at none false t)
take_new a e parsed i (some id) t = take_owned a e parsed i (owner_of id t) t

delivery_characters : String → Bool
delivery_characters String.[] = true
delivery_characters (String.◌∷◌ c s) =
    (leb b'0' (code c) && leb (code c) b'9'
      || leb b'A' (code c) && leb (code c) b'Z'
      || leb b'a' (code c) && leb (code c) b'z'
      || code c == b'-')
    && delivery_characters s

unfoldable pub is_delivery_id : String → Bool
unfolding delivery_characters utf16_length
is_delivery_id s = is_nonempty s && leb (utf16_length s) 128 && delivery_characters s

abbrev pub is_optional_installation : Option Installation → Bool
is_optional_installation none = true
is_optional_installation (some i) = is_installation i

-- `processWebhook`
unfoldable pub process_webhook :
    Ambient → Envelope → Option Installation → Tables → Outcome GithubError (Receipt × Tables)
unfolding is_delivery_id is_installation as_parsed has_delivery take_duplicate take_new
process_webhook a e i t = do
  require (is_delivery_id e.delivery_id) rejected
  require (is_optional_installation i) rejected
  if has_delivery e.delivery_id t.deliveries
      then (take_duplicate a (as_parsed e.payload) i t >>= λ t'. ok (duplicate, t'))
      else (take_new a e (as_parsed e.payload) i (subject (as_parsed e.payload))
            (record t { deliveries = t.deliveries ++ new_delivery a e (as_parsed e.payload) ∷ [] })
          >>= λ t'. ok (taken, t'))
