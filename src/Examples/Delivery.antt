-- ===== src/Examples/Delivery.antt =====
-- An outbox of two events with two publishers, and a ledger of reservations.
use reproforge.Base.{
  ℕ, ◌≡◌, ◌+◌, ◌<◌, ◌≤◌, refl, String, Bool, true, false, Option, none, some, List, [], ◌∷◌,
  Outcome, ok, err, arith, All, ◌==◌, ◌*◌, min, if◌then◌else◌,
}
use reproforge.Durable.Rows.{
  QueueMessage, named, requested, OutboxRow, pending, active_jobs, QuotaRow, JobRow,
}
use reproforge.Durable.Table.{Table}
use reproforge.Durable.Records.{DurableError, is_opaque_id}
use reproforge.Outbox.{
  ClaimPending, OutboxClaim, has_message, claim_pending, is_held, mark_delivered,
}
use reproforge.Outbox.Claims.{is_keyed, Selects}
use reproforge.Outbox.Delivery.{event_fits, OutboxRuns, outbox-fits}
use reproforge.Outbox.Delivery
use reproforge.Outbox.Once.{IsSpent, mark_delivered-once, claim_pending-keeps}
use reproforge.Outbox.Publisher.{PublisherPolicy, settled, publish_batch, publish_batch-settles}
use reproforge.Quota.{QuotaReservation, default_limits, reserve_quota, usage}
use reproforge.Quota.Limit.{WithinLimits, QuotaRuns, usage-bounded}
use reproforge.Quota.Limit
use reproforge.Examples.Store.{first_row}

abbrev event : String → OutboxRow
event name = record {
  message = record {
    case_id = "case";
    event_id = named name;
    job_id = "job";
    kind = requested;
    tenant_id = "acme";
  };
  status = pending;
  delivery_count = 0;
  next_attempt_at = 5;
  claim_owner = none;
  claim_expires_at = none;
  delivered_at = none;
  provider_message_id = none;
  last_error_code = none;
  created_at = 5;
  updated_at = 5;
  version = 1;
}

abbrev fresh : List OutboxRow
fresh = event "a" ∷ event "b" ∷ []

abbrev as_stored : List OutboxRow → List OutboxRow
as_stored es = es

stored : Selects as_stored
stored m es h = h

abbrev polling : ℕ → String → ClaimPending
polling at owner = record { at = at; claim_seconds = 30; limit = 1; owner_id = owner }

abbrev sending_a : List OutboxRow
sending_a = (claim_pending as_stored (polling 10 "one") fresh).1

abbrev claim_a : OutboxClaim
claim_a = record {
  claimed_at = 10;
  claim_expires_at = 30010;
  claim_owner_id = "one";
  delivery_attempt = 1;
  message = (event "a").message;
  version = 2;
}

keyed : is_keyed fresh ≡ true
unfolding has_message
keyed = refl

outbox-fits_example :
    (is_keyed sending_a ≡ true) × All (λ (e : OutboxRow). event_fits e ≡ true) sending_a
outbox-fits_example =
    outbox-fits as_stored stored fresh sending_a
      (Delivery.claim (polling 10 "one") fresh fresh (Delivery.start fresh)) keyed
      (refl, (refl, tt))

sending_keyed : is_keyed sending_a ≡ true
unfolding claim_pending has_message is_opaque_id
sending_keyed = refl

held : is_held claim_a sending_a ≡ true
unfolding claim_pending reproforge.Outbox.held_event is_opaque_id
held = refl

claim_pending-keeps_example :
    is_held claim_a (claim_pending as_stored (polling 20 "two") sending_a).1 ≡ true
claim_pending-keeps_example =
    claim_pending-keeps as_stored (polling 20 "two") claim_a sending_a stored sending_keyed held
      (omega arith)

abbrev delivered_a : List OutboxRow
delivered_a = (mark_delivered claim_a 15 (some "msg") sending_a).1

delivered_once : mark_delivered claim_a 15 (some "msg") sending_a ≡ (true, delivered_a)
unfolding mark_delivered claim_pending reproforge.Base.utf16_length is_opaque_id
delivered_once = refl

mark_delivered-once_example : IsSpent claim_a delivered_a
mark_delivered-once_example =
    mark_delivered-once as_stored stored claim_a 15 (some "msg") sending_a delivered_a delivered_a
      sending_keyed delivered_once (Delivery.start delivered_a)

abbrev publisher : PublisherPolicy
publisher = record { claim_seconds = 30; max_attempts = 8; max_batch_size = 10; owner_id = "one" }

abbrev clock : ℕ → ℕ
clock n = 10 + n

abbrev flaky : QueueMessage → ℕ → Option (Option String)
flaky m tick = if tick == 1 then some (some "msg") else none

publish_batch-settles_example :
    settled (publish_batch publisher as_stored clock flaky fresh).0
    ≡ (publish_batch publisher as_stored clock flaky fresh).0.claimed_events
publish_batch-settles_example = publish_batch-settles publisher as_stored clock flaky fresh

-- One event is delivered and the other is scheduled again.
flaky_batch : (publish_batch publisher as_stored clock flaky fresh).0.retry_scheduled ≡ 1
unfolding publish_batch is_opaque_id reproforge.Durable.Records.is_failure_code
flaky_batch = refl

abbrev booking : QuotaReservation
booking = record {
  amount = 1;
  case_id = "case";
  expires_at = 90;
  job_id = "job";
  reservation_id = "quota";
  resource = active_jobs;
  tenant_id = "acme";
}

abbrev jobs : Table JobRow
jobs = (record { tenant = "acme"; id = "job" }, first_row) ∷ []

abbrev ledger_of : Outcome DurableError (Bool × List QuotaRow) → List QuotaRow
ledger_of (ok (b, l)) = l
ledger_of (err e) = []

abbrev booked : List QuotaRow
booked = ledger_of (reserve_quota default_limits booking 10 jobs [])

booked_once : reserve_quota default_limits booking 10 jobs [] ≡ ok (true, booked)
unfolding reserve_quota is_opaque_id
booked_once = refl

nothing_used : WithinLimits default_limits 10 []
unfolding usage
nothing_used t r = omega arith

usage-bounded_example : WithinLimits default_limits 50 booked
usage-bounded_example =
    usage-bounded default_limits 10 50 [] booked
      (Limit.wait 10 10 50 [] booked
        (Limit.book booking jobs true 10 10 [] [] booked (Limit.start 10 []) booked_once)
        (omega arith))
      nothing_used
