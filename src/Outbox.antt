-- ===== src/Outbox.antt =====
-- The transactional outbox: `PostgresOutbox` of src/infrastructure/postgres/repositories.ts, and
-- the publisher of src/application/outbox-publisher.ts.
pub mod Publisher
pub mod Claims
pub mod Delivery
pub mod Appended
pub mod Once
use reproforge.Base.{
  ℕ, ◌+◌, ◌*◌, String, Bool, true, false, not, ◌&&◌, ◌||◌, Option, none, some, List, [], ◌∷◌, ◌++◌,
  Outcome, ok, err, leb, ltb, ◌==◌, ◌===◌, is_nonempty, utf16_length, take, if◌then◌else◌,
}
use reproforge.Durable.Rows.{
  QueueMessage, EventId, named, EventStatus, pending, sending, delivered, dead, OutboxRow,
}
use reproforge.Durable.Records.{
  DurableError, schema_rejected, insert_refused, is_opaque_id, is_failure_code,
}
use reproforge.Durable.Writes.{has_event, same_event}

pub record ClaimPending : Type 0 where
  pub at : ℕ
  pub claim_seconds : ℕ
  pub limit : ℕ
  pub owner_id : String

pub record OutboxClaim : Type 0 where
  pub claimed_at : ℕ
  pub claim_expires_at : ℕ
  pub claim_owner_id : String
  pub delivery_attempt : ℕ
  pub message : QueueMessage
  pub version : ℕ

abbrev pub event_key : QueueMessage → String × EventId
event_key m = (m.tenant_id, m.event_id)

abbrev pub same_message : QueueMessage → QueueMessage → Bool
same_message m n = m.tenant_id === n.tenant_id && same_event m.event_id n.event_id

abbrev is_event_id : EventId → Bool
is_event_id (named id) = is_opaque_id id
is_event_id _ = true

abbrev pub is_message : QueueMessage → Bool
is_message m =
    is_opaque_id m.case_id
    && is_event_id m.event_id
    && is_opaque_id m.job_id
    && is_opaque_id m.tenant_id

abbrev pub new_event : QueueMessage → ℕ → OutboxRow
new_event m now = record {
  message = m;
  status = pending;
  delivery_count = 0;
  next_attempt_at = now;
  claim_owner = none;
  claim_expires_at = none;
  delivered_at = none;
  provider_message_id = none;
  last_error_code = none;
  created_at = now;
  updated_at = now;
  version = 1;
}

-- `append`, at the transaction's time `now`. The primary key refuses an event that is there.
unfoldable pub append_event :
    QueueMessage → ℕ → List OutboxRow → Outcome DurableError (List OutboxRow)
unfolding has_event is_opaque_id
append_event m now events =
    if not (is_message m)
    then err schema_rejected
    else if has_event m.tenant_id m.event_id events
    then err insert_refused
    else ok (events ++ new_event m now ∷ [])

abbrev has_run_out : Option ℕ → ℕ → Bool
has_run_out none at = false
has_run_out (some t) at = leb t at

abbrev pub is_pending : EventStatus → Bool
is_pending pending = true
is_pending _ = false

abbrev pub is_sending : EventStatus → Bool
is_sending sending = true
is_sending _ = false

abbrev pub is_due : ℕ → OutboxRow → Bool
is_due at e =
    is_pending e.status && leb e.next_attempt_at at
    || is_sending e.status && has_run_out e.claim_expires_at at

abbrev pub claim_expiry : ClaimPending → ℕ
claim_expiry input = input.at + input.claim_seconds * 1000

abbrev pub claimed_event : ClaimPending → OutboxRow → OutboxRow
claimed_event input e = record e {
  status = sending;
  claim_owner = some input.owner_id;
  claim_expires_at = some (claim_expiry input);
  delivery_count = e.delivery_count + 1;
  last_error_code = none;
  updated_at = input.at;
  version = e.version + 1;
}

abbrev pub claim_of : ClaimPending → OutboxRow → OutboxClaim
claim_of input e = record {
  claimed_at = input.at;
  claim_expires_at = claim_expiry input;
  claim_owner_id = input.owner_id;
  delivery_attempt = e.delivery_count;
  message = e.message;
  version = e.version;
}

abbrev pub is_policy : ClaimPending → Bool
is_policy input =
    leb 1 input.claim_seconds
    && leb input.claim_seconds 3600
    && leb 1 input.limit
    && leb input.limit 1000
    && is_opaque_id input.owner_id

unfoldable pub due_events : ℕ → List OutboxRow → List OutboxRow
due_events at [] = []
due_events at (e ∷ es) = let rest = due_events at es in if is_due at e then e ∷ rest else rest

unfoldable pub has_message : QueueMessage → List OutboxRow → Bool
has_message m [] = false
has_message m (e ∷ es) = same_message e.message m || has_message m es

-- The update of the rows that were chosen.
unfoldable pub claim_events : ClaimPending → List OutboxRow → List OutboxRow → List OutboxRow
unfolding has_message
claim_events input chosen [] = []
claim_events input chosen (e ∷ es) =
    (if has_message e.message chosen then claimed_event input e else e)
    ∷ claim_events input chosen es

-- `RETURNING`: a claim for each row that was written.
unfoldable pub claims_of : ClaimPending → List OutboxRow → List OutboxRow → List OutboxClaim
unfolding has_message
claims_of input chosen [] = []
claims_of input chosen (e ∷ es) =
    let rest = claims_of input chosen es in
    if has_message e.message chosen then claim_of input (claimed_event input e) ∷ rest else rest

-- The order of the candidates, by time and then by the database's collation, is `order`.
module _ (order : List OutboxRow → List OutboxRow) where
  -- `claimPending`
  unfoldable pub claim_pending : ClaimPending → List OutboxRow → List OutboxClaim × List OutboxRow
  unfolding due_events claim_events claims_of take
  claim_pending input events =
      let chosen = take input.limit (order (due_events input.at events)) in
      if is_policy input
      then (claims_of input chosen events, claim_events input chosen events)
      else ([], events)

abbrev same_text : Option String → String → Bool
same_text none s = false
same_text (some t) s = t === s

abbrev same_instant : Option ℕ → ℕ → Bool
same_instant none n = false
same_instant (some m) n = m == n

-- The row that a claim still holds.
abbrev pub answers : OutboxClaim → OutboxRow → Bool
answers claim e =
    same_message e.message claim.message
    && is_sending e.status
    && same_text e.claim_owner claim.claim_owner_id
    && same_instant e.claim_expires_at claim.claim_expires_at
    && e.delivery_count == claim.delivery_attempt
    && e.version == claim.version

abbrev pub delivered_event : ℕ → Option String → OutboxRow → OutboxRow
delivered_event at id e = record e {
  status = delivered;
  delivered_at = some at;
  provider_message_id = id;
  claim_owner = none;
  claim_expires_at = none;
  last_error_code = none;
  updated_at = at;
  version = e.version + 1;
}

abbrev pub is_message_id : Option String → Bool
is_message_id none = true
is_message_id (some s) = is_nonempty s && leb (utf16_length s) 512

-- An UPDATE of the rows that a claim holds; the key makes them one at most.
unfoldable pub update_event :
    OutboxClaim → (OutboxRow → OutboxRow) → List OutboxRow → List OutboxRow
update_event claim change [] = []
update_event claim change (e ∷ es) =
    if answers claim e then change e ∷ es else e ∷ update_event claim change es

unfoldable pub held_event : OutboxClaim → List OutboxRow → Option OutboxRow
held_event claim [] = none
held_event claim (e ∷ es) = if answers claim e then some e else held_event claim es

abbrev pub is_held : OutboxClaim → List OutboxRow → Bool
is_held claim events = elim (held_event claim events) [ none ↦ false | some _ ↦ true ]

-- `markDelivered`
unfoldable pub mark_delivered :
    OutboxClaim → ℕ → Option String → List OutboxRow → Bool × List OutboxRow
unfolding update_event held_event
mark_delivered claim at id events =
    if leb claim.claimed_at at && is_message_id id
    then (is_held claim events, update_event claim (delivered_event at id) events)
    else (false, events)

pub record PublishFailure : Type 0 where
  pub error_code : String
  pub failed_at : ℕ
  pub max_attempts : ℕ
  pub next_attempt_at : ℕ

pub data OutboxFailureDisposition : Type 0 where
  retry dead_letter lost : OutboxFailureDisposition

abbrev pub is_spent : PublishFailure → OutboxRow → Bool
is_spent failure e = leb failure.max_attempts e.delivery_count

abbrev pub failed_event : PublishFailure → OutboxRow → OutboxRow
failed_event failure e = record e {
  status = if is_spent failure e then dead else pending;
  next_attempt_at = failure.next_attempt_at;
  last_error_code = some failure.error_code;
  claim_owner = none;
  claim_expires_at = none;
  updated_at = failure.failed_at;
  version = e.version + 1;
}

abbrev pub disposition_of : PublishFailure → Option OutboxRow → OutboxFailureDisposition
disposition_of failure none = lost
disposition_of failure (some e) = if is_spent failure e then dead_letter else retry

abbrev pub accepts_failure : OutboxClaim → PublishFailure → Bool
accepts_failure claim failure =
    leb claim.claimed_at failure.failed_at
    && leb failure.failed_at failure.next_attempt_at
    && leb 1 failure.max_attempts
    && leb failure.max_attempts 32
    && is_failure_code failure.error_code

-- `recordFailure`
unfoldable pub record_failure :
    OutboxClaim → PublishFailure → List OutboxRow → OutboxFailureDisposition × List OutboxRow
unfolding update_event held_event
record_failure claim failure events =
    if accepts_failure claim failure
    then (
      disposition_of failure (held_event claim events),
      update_event claim (failed_event failure) events,
    )
    else (lost, events)
