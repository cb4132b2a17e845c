-- ===== src/Outbox/Claims.antt =====
-- What the operations on the outbox do to each of its rows.
use reproforge.Base.{
  ℕ, zero, suc, ◌≡◌, String, Bool, true, false, not, ◌&&◌, Option, List, [], ◌∷◌, leb, eq_iff,
  arith, take, inl, inr, Bool-cases, All,
}
use reproforge.Durable.Rows.{QueueMessage, EventId, named, recovery, cancellation, OutboxRow}
use reproforge.Durable.Writes.{same_event}
use reproforge.Outbox.{
  ClaimPending, OutboxClaim, same_message, is_due, claimed_event, is_policy, due_events,
  has_message, claim_events, claim_pending, answers, delivered_event, update_event, mark_delivered,
  PublishFailure, failed_event, record_failure, accepts_failure, is_message_id,
}

-- The primary key of the table: no two events of a tenant have one identifier.
abbrev pub is_keyed : List OutboxRow → Bool
is_keyed [] = true
is_keyed (e ∷ es) = not (has_message e.message es) && is_keyed es

-- How an operation writes one event.
pub data EventStep : OutboxRow → OutboxRow → Type 0 where
  claimed :
      (input : ClaimPending) (e : OutboxRow)
      → is_due input.at e ≡ true
      → is_policy input ≡ true
      → EventStep e (claimed_event input e)
  marked :
      (claim : OutboxClaim) (at : ℕ) (id : Option String) (e : OutboxRow)
      → answers claim e ≡ true
      → EventStep e (delivered_event at id e)
  failed :
      (claim : OutboxClaim) (failure : PublishFailure) (e : OutboxRow)
      → answers claim e ≡ true
      → EventStep e (failed_event failure e)

-- Row by row, an event stays as it is or is written.
pub data Moves : List OutboxRow → List OutboxRow → Type 0 where
  empty : Moves [] []
  keeps : (e : OutboxRow) (es fs : List OutboxRow) → Moves es fs → Moves (e ∷ es) (e ∷ fs)
  writes :
      (e f : OutboxRow) (es fs : List OutboxRow)
      → EventStep e f
      → Moves es fs
      → Moves (e ∷ es) (f ∷ fs)

pub still : (es : List OutboxRow) → Moves es es
still [] = empty
still (e ∷ es) = keeps e es es (still es)

same_event-sym : (a b : EventId) → same_event a b ≡ true → same_event b a ≡ true
same_event-sym (named a) (named b) e = ground (arith, eq_iff a b, eq_iff b a)
same_event-sym (recovery t j n) (recovery u k m) e =
    ground (arith, eq_iff t u, eq_iff u t, eq_iff j k, eq_iff k j)
same_event-sym (cancellation t j) (cancellation u k) e =
    ground (arith, eq_iff t u, eq_iff u t, eq_iff j k, eq_iff k j)
same_event-sym a b e = ground arith

same_event_trans :
    (a b c : EventId) → same_event a b ≡ true → same_event b c ≡ true → same_event a c ≡ true
same_event_trans (named a) (named b) (named c) p q =
    ground (arith, eq_iff a b, eq_iff b c, eq_iff a c)
same_event_trans (recovery t j n) (recovery u k m) (recovery v l o) p q =
    ground (arith, eq_iff t u, eq_iff u v, eq_iff t v, eq_iff j k, eq_iff k l, eq_iff j l)
same_event_trans (cancellation t j) (cancellation u k) (cancellation v l) p q =
    ground (arith, eq_iff t u, eq_iff u v, eq_iff t v, eq_iff j k, eq_iff k l, eq_iff j l)
same_event_trans a b c p q = ground arith

pub same_message-sym : (m n : QueueMessage) → same_message m n ≡ true → same_message n m ≡ true
same_message-sym m n e = ground (
  arith,
  eq_iff m.tenant_id n.tenant_id,
  eq_iff n.tenant_id m.tenant_id,
  same_event-sym m.event_id n.event_id,
)

pub same_message_trans :
    (m n o : QueueMessage)
    → same_message m n ≡ true
    → same_message n o ≡ true
    → same_message m o ≡ true
same_message_trans m n o p q = ground (
  arith,
  eq_iff m.tenant_id n.tenant_id,
  eq_iff n.tenant_id o.tenant_id,
  eq_iff m.tenant_id o.tenant_id,
  same_event_trans m.event_id n.event_id o.event_id,
)

All-map2 {ℓ κ μ ν} :
    {A : Type ℓ} {P : A → Type κ} {Q : A → Type μ} {R : A → Type ν} (xs : List A)
    → ((x : A) → P x → Q x → R x)
    → All P xs
    → All Q xs
    → All R xs
All-map2 [] f p q = tt
All-map2 (x ∷ xs) f (p, ps) (q, qs) = (f x p q, All-map2 xs f ps qs)

pub others :
    (m : QueueMessage) (es : List OutboxRow)
    → has_message m es ≡ false
    → All (λ (e : OutboxRow). same_message e.message m ≡ false) es
unfolding has_message
others m [] n = tt
others m (e ∷ es) n = (ground arith, others m es (ground arith))

has_message-due :
    (m : QueueMessage) (at : ℕ) (es : List OutboxRow)
    → has_message m (due_events at es) ≡ true
    → has_message m es ≡ true
unfolding has_message due_events
has_message-due m at [] h = h
has_message-due m at (e ∷ es) h = elim (Bool-cases (is_due at e)) [
  | inl d ↦ elim (Bool-cases (same_message e.message m)) [
    | inl s ↦ ground arith
    | inr n ↦ ground (arith, has_message-due m at es (ground arith))
  ]
  | inr d ↦ ground (arith, has_message-due m at es (rw d at h))
]

has_message-take :
    (m : QueueMessage) (n : ℕ) (es : List OutboxRow)
    → has_message m (take n es) ≡ true
    → has_message m es ≡ true
unfolding has_message take
has_message-take m zero es h = cc h
has_message-take m (suc n) [] h = h
has_message-take m (suc n) (e ∷ es) h = elim (Bool-cases (same_message e.message m)) [
  | inl s ↦ ground arith
  | inr d ↦ ground (arith, has_message-take m n es (ground arith))
]

-- Of keyed events, the ones that bear the identifier of a due event are due.
due_only :
    (at : ℕ) (es : List OutboxRow)
    → is_keyed es ≡ true
    → All
        (λ (e : OutboxRow). has_message e.message (due_events at es) ≡ true → is_due at e ≡ true)
        es
unfolding has_message due_events
due_only at [] k = tt
due_only at (x ∷ es) k =
    let alone : has_message x.message es ≡ false = ground arith in
    (
      λ h. elim (Bool-cases (is_due at x)) [
        | inl d ↦ d
        | inr n ↦ absurd (cc (has_message-due x.message at es (rw n at h), alone))
      ],
      All-map2 es
          (λ e rest apart h. elim (Bool-cases (is_due at x)) [
            | inr n ↦ rest (rw n at h)
            | inl d ↦ rest (ground (arith, same_message-sym x.message e.message))
          ])
          (due_only at es (ground arith)) (others x.message es alone),
    )

claim_events-Moves :
    (input : ClaimPending) (chosen es : List OutboxRow)
    → is_policy input ≡ true
    → All (λ (e : OutboxRow). has_message e.message chosen ≡ true → is_due input.at e ≡ true) es
    → Moves es (claim_events input chosen es)
unfolding claim_events
claim_events-Moves input chosen [] q a = empty
claim_events-Moves input chosen (e ∷ es) q (p, ps) =
    elim (Bool-cases (has_message e.message chosen)) [
      | inl h ↦ rw h (
          writes e (claimed_event input e) es _ (claimed input e (p h) q)
            (claim_events-Moves input chosen es q ps))
      | inr n ↦ rw n (keeps e es _ (claim_events-Moves input chosen es q ps))
    ]

-- What an ORDER BY may do: it brings in no row.
abbrev pub Selects : (List OutboxRow → List OutboxRow) → Type 0
Selects order =
    (m : QueueMessage) (es : List OutboxRow)
    → has_message m (order es) ≡ true
    → has_message m es ≡ true

pub chosen_due :
    (order : List OutboxRow → List OutboxRow) (input : ClaimPending) (es : List OutboxRow)
    → Selects order
    → is_keyed es ≡ true
    → All
        (λ (e : OutboxRow).
          has_message e.message (take input.limit (order (due_events input.at es))) ≡ true
          → is_due input.at e ≡ true)
        es
chosen_due order input es s k =
    All-map2 es
      (λ e p q h.
        p (s e.message (due_events input.at es) (has_message-take e.message input.limit _ h)))
      (due_only input.at es k) (due_only input.at es k)

pub claim_pending-Moves :
    (order : List OutboxRow → List OutboxRow) (input : ClaimPending) (es : List OutboxRow)
    → Selects order
    → is_keyed es ≡ true
    → Moves es (claim_pending order input es).1
unfolding claim_pending
claim_pending-Moves order input es s k = elim (Bool-cases (is_policy input)) [
  | inl p ↦ rw p (claim_events-Moves input _ es p (chosen_due order input es s k))
  | inr n ↦ rw n (still es)
]

update_event-Moves :
    (claim : OutboxClaim) (change : OutboxRow → OutboxRow) (es : List OutboxRow)
    → ((e : OutboxRow) → answers claim e ≡ true → EventStep e (change e))
    → Moves es (update_event claim change es)
unfolding update_event
update_event-Moves claim change [] s = empty
update_event-Moves claim change (e ∷ es) s = elim (Bool-cases (answers claim e)) [
  | inl a ↦ rw a (writes e (change e) es es (s e a) (still es))
  | inr n ↦ rw n (keeps e es _ (update_event-Moves claim change es s))
]

pub mark_delivered-Moves :
    (claim : OutboxClaim) (at : ℕ) (id : Option String) (es : List OutboxRow)
    → Moves es (mark_delivered claim at id es).1
unfolding mark_delivered
mark_delivered-Moves claim at id es =
    elim (Bool-cases (leb claim.claimed_at at && is_message_id id)) [
      | inl p ↦
          rw p (update_event-Moves claim (delivered_event at id) es (λ e a. marked claim at id e a))
      | inr n ↦ rw n (still es)
    ]

pub record_failure-Moves :
    (claim : OutboxClaim) (failure : PublishFailure) (es : List OutboxRow)
    → Moves es (record_failure claim failure es).1
unfolding record_failure
record_failure-Moves claim failure es = elim (Bool-cases (accepts_failure claim failure)) [
  | inl p ↦
      rw p (update_event-Moves claim (failed_event failure) es (λ e a. failed claim failure e a))
  | inr n ↦ rw n (still es)
]
