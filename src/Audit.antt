-- ===== src/Audit.antt =====
-- Audit events: `auditEventSchema` of src/application/ports/production.ts, and the append of
-- `PostgresAuditSink` in src/infrastructure/postgres/repositories.ts.
pub mod Appended
use Prim.Native.Char.{code}
use reproforge.Base.{
  ℕ, ◌+◌, String, Bool, true, false, not, ◌&&◌, ◌||◌, List, [], ◌∷◌, ◌++◌, Outcome, ok, err, leb,
  ◌==◌, ◌===◌, is_nonempty, utf16_length, every, if◌then◌else◌,
}
use reproforge.Domain.Case.{is_datetime}
use reproforge.Durable.Rows.{
  EventId, named, AuditValue, text, number, flag, null, AuditOutcome, AuditTarget, TargetId,
  target_text, target_number, AuditEvent,
}
use reproforge.Durable.Records.{DurableError, schema_rejected, insert_refused, is_opaque_id}
use reproforge.Durable.Writes.{same_event}

abbrev lower : ℕ → ℕ
lower c = if leb b'A' c && leb c b'Z' then c + 32 else c

-- Whether the text starts with the word, without regard to case.
starts_with_word : String → String → Bool
starts_with_word String.[] s = true
starts_with_word (String.◌∷◌ w ws) String.[] = false
starts_with_word (String.◌∷◌ w ws) (String.◌∷◌ c s) =
    code w == lower (code c) && starts_with_word ws s

holds_word : String → String → Bool
unfolding starts_with_word
holds_word w String.[] = starts_with_word w String.[]
holds_word w (String.◌∷◌ c s) = starts_with_word w (String.◌∷◌ c s) || holds_word w s

-- `forbiddenAuditKey`
unfoldable pub is_forbidden_key : String → Bool
unfolding holds_word
is_forbidden_key key =
    holds_word "authorization" key
    || holds_word "cookie" key
    || holds_word "credential" key
    || holds_word "password" key
    || holds_word "secret" key
    || holds_word "source" key
    || holds_word "token" key
    || holds_word "command" key

abbrev is_value : AuditValue → Bool
is_value (text s) = leb (utf16_length s) 512
is_value _ = true

abbrev is_entry : String × AuditValue → Bool
is_entry (key, value) =
    is_nonempty key && leb (utf16_length key) 64 && not (is_forbidden_key key) && is_value value

abbrev is_action_character : ℕ → Bool
is_action_character c =
    leb b'a' c && leb c b'z' || leb b'0' c && leb c b'9' || c == b'.' || c == b'-'

action_characters : String → Bool
action_characters String.[] = true
action_characters (String.◌∷◌ c s) = is_action_character (code c) && action_characters s

starts_lower : String → Bool
starts_lower String.[] = false
starts_lower (String.◌∷◌ c s) = leb b'a' (code c) && leb (code c) b'z'

is_action : String → Bool
unfolding action_characters starts_lower utf16_length
is_action s = starts_lower s && action_characters s && leb (utf16_length s) 96

abbrev is_event_id : EventId → Bool
is_event_id (named id) = is_opaque_id id
is_event_id _ = true

is_target_id : TargetId → Bool
unfolding is_opaque_id
is_target_id (target_text s) = is_opaque_id s
is_target_id (target_number n) = true

-- `auditEventSchema`
unfoldable pub is_audit_event : AuditEvent → Bool
unfolding is_action is_opaque_id is_forbidden_key utf16_length is_target_id
is_audit_event e =
    is_action e.action
    && is_opaque_id e.actor_id
    && is_event_id e.event_id
    && every is_entry e.metadata
    && is_datetime e.occurred_at
    && is_target_id e.target_id
    && is_opaque_id e.tenant_id

unfoldable pub has_audit_event : String → EventId → List AuditEvent → Bool
has_audit_event tenant_id event_id [] = false
has_audit_event tenant_id event_id (e ∷ es) =
    e.tenant_id === tenant_id && same_event e.event_id event_id
    || has_audit_event tenant_id event_id es

-- `PostgresAuditSink.append`: an event whose key is taken is refused.
unfoldable pub append_audit : AuditEvent → List AuditEvent → Outcome DurableError (List AuditEvent)
unfolding is_audit_event has_audit_event
append_audit e events =
    if is_audit_event e
    then (if has_audit_event e.tenant_id e.event_id events
        then err insert_refused
        else ok (events ++ e ∷ []))
    else err schema_rejected
