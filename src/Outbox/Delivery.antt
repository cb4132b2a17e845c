-- ===== src/Outbox/Delivery.antt =====
-- Delivery from the outbox: the columns fit the status, a claim settles an event at most once, and
-- a claim that lasts is not taken away.
use reproforge.Base.{
  ℕ, ◌+◌, ◌≡◌, refl, sym, ◌∙◌, ap, subst, String, Bool, true, false, not, ◌&&◌, ◌||◌, Option, some,
  List, ltb, arith, All,
}
use reproforge.Domain.Job.{is_some}
use reproforge.Durable.Rows.{
  QueueMessage, EventStatus, pending, sending, delivered, dead, OutboxRow,
}
use reproforge.Outbox.{
  ClaimPending, OutboxClaim, same_message, has_message, claim_pending, mark_delivered,
  PublishFailure, record_failure,
}
use reproforge.Outbox.Claims.{
  is_keyed, EventStep, claimed, marked, failed, Moves, empty, keeps, writes, Selects,
  claim_pending-Moves, mark_delivered-Moves, record_failure-Moves,
}

-- A claim that the row bears, which ends after the row's last update.
abbrev is_claimed : Option String → Option ℕ → ℕ → Bool
is_claimed (some owner) (some t) updated_at = ltb updated_at t
is_claimed _ _ updated_at = false

abbrev is_unclaimed : OutboxRow → Bool
is_unclaimed e = not (is_some e.claim_owner) && not (is_some e.claim_expires_at)

-- `outbox_delivery_state`
abbrev state_fits : EventStatus → OutboxRow → Bool
state_fits pending e =
    not (is_some e.delivered_at) && is_unclaimed e && not (is_some e.provider_message_id)
state_fits sending e =
    not (is_some e.delivered_at)
    && is_claimed e.claim_owner e.claim_expires_at e.updated_at
    && not (is_some e.provider_message_id)
state_fits delivered e = is_some e.delivered_at && is_unclaimed e
state_fits dead e =
    not (is_some e.delivered_at)
    && is_unclaimed e
    && not (is_some e.provider_message_id)
    && is_some e.last_error_code

abbrev pub event_fits : OutboxRow → Bool
event_fits e = state_fits e.status e

EventStep-fits : (e f : OutboxRow) → EventStep e f → event_fits e ≡ true → event_fits f ≡ true
EventStep-fits _ _ (claimed input e d c) p = ground arith
EventStep-fits _ _ (marked claim at id e a) p = ground arith
EventStep-fits _ _ (failed claim failure e a) p = ground arith

Moves-All :
    (P : OutboxRow → Bool) (es fs : List OutboxRow)
    → ((e f : OutboxRow) → EventStep e f → P e ≡ true → P f ≡ true)
    → Moves es fs
    → All (λ (e : OutboxRow). P e ≡ true) es
    → All (λ (e : OutboxRow). P e ≡ true) fs
Moves-All P _ _ s empty a = tt
Moves-All P _ _ s (keeps e es fs m) (p, ps) = (p, Moves-All P es fs s m ps)
Moves-All P _ _ s (writes e f es fs step m) (p, ps) = (s e f step p, Moves-All P es fs s m ps)

pub EventStep-message : (e f : OutboxRow) → EventStep e f → f.message ≡ e.message
EventStep-message _ _ (claimed input e d c) = refl
EventStep-message _ _ (marked claim at id e a) = refl
EventStep-message _ _ (failed claim failure e a) = refl

pub EventStep-version : (e f : OutboxRow) → EventStep e f → f.version ≡ e.version + 1
EventStep-version _ _ (claimed input e d c) = refl
EventStep-version _ _ (marked claim at id e a) = refl
EventStep-version _ _ (failed claim failure e a) = refl

Moves-has :
    (m : QueueMessage) (es fs : List OutboxRow) → Moves es fs → has_message m fs ≡ has_message m es
unfolding has_message
Moves-has m _ _ empty = refl
Moves-has m _ _ (keeps e es fs r) = ap (λ b. same_message e.message m || b) (Moves-has m es fs r)
Moves-has m _ _ (writes e f es fs s r) =
    ap (λ x. same_message x m || has_message m fs) (EventStep-message e f s)
    ∙ ap (λ b. same_message e.message m || b) (Moves-has m es fs r)

pub Moves-keyed : (es fs : List OutboxRow) → Moves es fs → is_keyed es ≡ true → is_keyed fs ≡ true
Moves-keyed _ _ empty k = refl
Moves-keyed _ _ (keeps e es fs r) k =
    ground (arith, Moves-has e.message es fs r, Moves-keyed es fs r)
Moves-keyed _ _ (writes e f es fs s r) k =
    let same_key = EventStep-message e f s in
    let has = Moves-has f.message es fs r in
    let alone : has_message f.message es ≡ false =
      subst (λ x. has_message x es ≡ false) (sym same_key) (ground arith) in
    let rest = Moves-keyed es fs r (ground arith) in ground arith

module _ (order : List OutboxRow → List OutboxRow) (selects : Selects order) where
  -- The publishers' operations on the outbox, in the order in which they commit.
  pub data OutboxRuns : List OutboxRow → List OutboxRow → Type 0 where
    start : (es : List OutboxRow) → OutboxRuns es es
    claim :
        (input : ClaimPending) (es fs : List OutboxRow)
        → OutboxRuns es fs
        → OutboxRuns es (claim_pending order input fs).1
    mark :
        (c : OutboxClaim) (at : ℕ) (id : Option String) (es fs : List OutboxRow)
        → OutboxRuns es fs
        → OutboxRuns es (mark_delivered c at id fs).1
    fail :
        (c : OutboxClaim) (failure : PublishFailure) (es fs : List OutboxRow)
        → OutboxRuns es fs
        → OutboxRuns es (record_failure c failure fs).1

  -- A row-wise property that the writes preserve holds after every run.
  pub Runs-All :
      (P : OutboxRow → Bool)
      → ((e f : OutboxRow) → EventStep e f → P e ≡ true → P f ≡ true)
      → (es fs : List OutboxRow) → OutboxRuns es fs
      → is_keyed es ≡ true
      → All (λ (e : OutboxRow). P e ≡ true) es
      → (is_keyed fs ≡ true) × All (λ (e : OutboxRow). P e ≡ true) fs
  Runs-All P s _ _ (start es) k a = (k, a)
  Runs-All P s _ _ (claim input es fs r) k a =
      let (l, b) = Runs-All P s es fs r k a in
      let m = claim_pending-Moves order input fs selects l in
      (Moves-keyed fs _ m l, Moves-All P fs _ s m b)
  Runs-All P s _ _ (mark c at id es fs r) k a =
      let (l, b) = Runs-All P s es fs r k a in
      let m = mark_delivered-Moves c at id fs in (Moves-keyed fs _ m l, Moves-All P fs _ s m b)
  Runs-All P s _ _ (fail c failure es fs r) k a =
      let (l, b) = Runs-All P s es fs r k a in
      let m = record_failure-Moves c failure fs in (Moves-keyed fs _ m l, Moves-All P fs _ s m b)

  -- Where the events have distinct keys and meet the table's constraint on the status, every run of
  -- claims, deliveries and failures leaves them so: the claim columns are filled exactly while an
  -- event is being sent, and the claim ends later; the delivery column is filled exactly once it is
  -- delivered; and a dead event has its error.
  pub outbox-fits :
      (es fs : List OutboxRow)
      → OutboxRuns es fs
      → is_keyed es ≡ true
      → All (λ (e : OutboxRow). event_fits e ≡ true) es
      → (is_keyed fs ≡ true) × All (λ (e : OutboxRow). event_fits e ≡ true) fs
  outbox-fits es fs r k a = Runs-All event_fits EventStep-fits es fs r k a
