-- ===== src/Outbox/Publisher.antt =====
-- The publisher of src/application/outbox-publisher.ts. The queue and the clock are parameters:
-- the answer of the queue to a message, and the readings of the clock by their number.
use native.Mathlib.Nat.{one-le-pow, pow-succ'}
use reproforge.Base.{
  ℕ, suc, ◌+◌, ◌*◌, ◌-◌, ◌^◌, ◌≤◌, ◌≡◌, refl, subst, min, String, Bool, true, false, ◌&&◌, Option,
  none, some, List, [], ◌∷◌, leb, arith, length,
}
use reproforge.Durable.Rows.{QueueMessage, OutboxRow}
use reproforge.Outbox.{
  ClaimPending, OutboxClaim, claim_pending, mark_delivered, PublishFailure,
  OutboxFailureDisposition, retry, dead_letter, lost, record_failure,
}

abbrev pub delay_seconds : ℕ → ℕ
delay_seconds attempt = min 300 (5 * 2 ^ (attempt - 1))

abbrev pub next_attempt : OutboxClaim → ℕ → ℕ
next_attempt claim failed_at = failed_at + delay_seconds claim.delivery_attempt * 1000

pub record PublishSummary : Type 0 where
  pub claimed_events : ℕ
  pub conflicted : ℕ
  pub dead_events : ℕ
  pub delivered_events : ℕ
  pub retry_scheduled : ℕ

pub record PublisherPolicy : Type 0 where
  pub claim_seconds : ℕ
  pub max_attempts : ℕ
  pub max_batch_size : ℕ
  pub owner_id : String

-- The constructor's check.
abbrev pub is_publisher : PublisherPolicy → Bool
is_publisher p =
    leb 1 p.claim_seconds
    && leb p.claim_seconds 3600
    && leb 1 p.max_attempts
    && leb p.max_attempts 32
    && leb 1 p.max_batch_size
    && leb p.max_batch_size 1000

abbrev pub count_delivery : Bool → PublishSummary → PublishSummary
count_delivery true s = record s { delivered_events = s.delivered_events + 1 }
count_delivery false s = record s { conflicted = s.conflicted + 1 }

abbrev pub count_failure : OutboxFailureDisposition → PublishSummary → PublishSummary
count_failure dead_letter s = record s { dead_events = s.dead_events + 1 }
count_failure retry s = record s { retry_scheduled = s.retry_scheduled + 1 }
count_failure lost s = record s { conflicted = s.conflicted + 1 }

abbrev pub publish_failure : PublisherPolicy → OutboxClaim → ℕ → PublishFailure
publish_failure policy claim failed_at = record {
  error_code = "QUEUE_PUBLISH_FAILED";
  failed_at = failed_at;
  max_attempts = policy.max_attempts;
  next_attempt_at = next_attempt claim failed_at;
}

abbrev pub settled : PublishSummary → ℕ
settled s = s.conflicted + s.dead_events + s.delivered_events + s.retry_scheduled

count_delivery-one :
    (b : Bool) (s : PublishSummary)
    → (settled (count_delivery b s) ≡ settled s + 1)
      × ((count_delivery b s).claimed_events ≡ s.claimed_events)
count_delivery-one true s = (omega arith, refl)
count_delivery-one false s = (omega arith, refl)

count_failure-one :
    (d : OutboxFailureDisposition) (s : PublishSummary)
    → (settled (count_failure d s) ≡ settled s + 1)
      × ((count_failure d s).claimed_events ≡ s.claimed_events)
count_failure-one dead_letter s = (omega arith, refl)
count_failure-one retry s = (omega arith, refl)
count_failure-one lost s = (omega arith, refl)

next_exponent : (n : ℕ) → suc (n + 1 - 1) ≡ n + 2 - 1
next_exponent n = omega arith

-- The pause before the next attempt is five seconds after the first attempt, doubles with each
-- further one, and never exceeds five minutes.
delay_seconds-bounds :
    (attempt : ℕ)
    → (5 ≤ delay_seconds attempt)
      × (delay_seconds attempt ≤ 300)
      × (delay_seconds 1 ≡ 5)
      × (delay_seconds (attempt + 2) ≡ min 300 (2 * delay_seconds (attempt + 1)))
delay_seconds-bounds attempt =
    let power : 1 ≤ 2 ^ (attempt - 1) = one-le-pow (attempt - 1) 2 (omega arith) in
    let doubles : 2 ^ (attempt + 2 - 1) ≡ 2 * 2 ^ (attempt + 1 - 1) =
      subst (λ n. 2 ^ n ≡ 2 * 2 ^ (attempt + 1 - 1)) (next_exponent attempt)
        (pow-succ' 2 (attempt + 1 - 1)) in
    (omega (arith, power), omega arith, refl, omega (arith, doubles))

module _ (policy : PublisherPolicy) (order : List OutboxRow → List OutboxRow) (clock : ℕ → ℕ) where
  -- What follows the answer of the queue: the identifier that it gave, or its failure.
  unfoldable pub publish_answer :
      OutboxClaim
      → ℕ
      → Option (Option String)
      → PublishSummary
      → List OutboxRow
      → PublishSummary × List OutboxRow
  unfolding mark_delivered record_failure
  publish_answer claim at (some id) s events =
      let (b, events') = mark_delivered claim at id events in (count_delivery b s, events')
  publish_answer claim at none s events =
      let (d, events') = record_failure claim (publish_failure policy claim at) events in
      (count_failure d s, events')

  unfoldable pub publish_claims :
      (QueueMessage → ℕ → Option (Option String))
      → ℕ
      → List OutboxClaim
      → PublishSummary
      → List OutboxRow
      → PublishSummary × List OutboxRow
  unfolding publish_answer
  publish_claims send tick [] s events = (s, events)
  publish_claims send tick (claim ∷ claims) s events =
      let (s', events') = publish_answer claim (clock tick) (send claim.message tick) s events in
      publish_claims send (suc tick) claims s' events'

  -- `publishBatch`
  unfoldable pub publish_batch :
      (QueueMessage → ℕ → Option (Option String)) → List OutboxRow → PublishSummary × List OutboxRow
  unfolding claim_pending publish_claims
  publish_batch send events =
      let input : ClaimPending = record {
        at = clock 0;
        claim_seconds = policy.claim_seconds;
        limit = policy.max_batch_size;
        owner_id = policy.owner_id;
      } in
      let (claims, events') = claim_pending order input events in
      publish_claims send 1 claims
        (record {
          claimed_events = length claims;
          conflicted = 0;
          dead_events = 0;
          delivered_events = 0;
          retry_scheduled = 0;
        })
        events'

  settled-answer :
      (claim : OutboxClaim) (at : ℕ) (answer : Option (Option String)) (s : PublishSummary)
      (events : List OutboxRow)
      → (settled (publish_answer claim at answer s events).0 ≡ settled s + 1)
        × ((publish_answer claim at answer s events).0.claimed_events ≡ s.claimed_events)
  unfolding publish_answer
  settled-answer claim at (some id) s events =
      count_delivery-one (mark_delivered claim at id events).0 s
  settled-answer claim at none s events =
      count_failure-one (record_failure claim (publish_failure policy claim at) events).0 s

  settled-claims :
      (send : QueueMessage → ℕ → Option (Option String)) (tick : ℕ) (claims : List OutboxClaim)
      (s : PublishSummary) (events : List OutboxRow)
      → (settled (publish_claims send tick claims s events).0 ≡ settled s + length claims)
        × ((publish_claims send tick claims s events).0.claimed_events ≡ s.claimed_events)
  unfolding publish_claims
  settled-claims send tick [] s events = (omega arith, refl)
  settled-claims send tick (claim ∷ claims) s events =
      let answer = publish_answer claim (clock tick) (send claim.message tick) s events in
      let (one, same) = settled-answer claim (clock tick) (send claim.message tick) s events in
      let (many, still) = settled-claims send (suc tick) claims answer.0 answer.1 in
      (omega (arith, one, many), cc (still, same))

  -- Whatever the queue and the clock do, a batch accounts for each claimed event exactly once, as
  -- delivered, dead, scheduled again or conflicted.
  pub publish_batch-settles :
      (send : QueueMessage → ℕ → Option (Option String)) (events : List OutboxRow)
      → settled (publish_batch send events).0 ≡ (publish_batch send events).0.claimed_events
  unfolding publish_batch
  publish_batch-settles send events =
      let input : ClaimPending = record {
        at = clock 0;
        claim_seconds = policy.claim_seconds;
        limit = policy.max_batch_size;
        owner_id = policy.owner_id;
      } in
      let (claims, events') = claim_pending order input events in
      let first : PublishSummary = record {
        claimed_events = length claims;
        conflicted = 0;
        dead_events = 0;
        delivered_events = 0;
        retry_scheduled = 0;
      } in
      let (many, still) = settled-claims send 1 claims first events' in omega (arith, many, still)
