-- ===== src/Outbox/Once.antt =====
-- A claim settles its event at most once.
use reproforge.Base.{
  ℕ, ◌+◌, ◌<◌, ◌≡◌, refl, sym, ap, subst, String, Bool, true, false, not, ◌&&◌, ◌||◌, Option, none,
  List, [], ◌∷◌, leb, ltb, arith, All, inl, inr, Bool-cases, Option-cases,
}
use reproforge.Durable.Rows.{QueueMessage, OutboxRow}
use reproforge.Outbox.{
  ClaimPending, OutboxClaim, same_message, is_due, is_policy, claim_events, has_message,
  claim_pending, answers, delivered_event, update_event, held_event, is_held, mark_delivered,
  PublishFailure, failed_event, record_failure, lost, is_message_id, accepts_failure,
}
use reproforge.Outbox.Claims.{
  is_keyed, EventStep, Selects, others, same_message-sym, same_message_trans, chosen_due,
  mark_delivered-Moves,
}
use reproforge.Outbox.Delivery.{
  EventStep-message, EventStep-version, OutboxRuns, Runs-All, Moves-keyed,
}

-- An event that is not the one of a claim, or has left it behind.
abbrev beyond : OutboxClaim → OutboxRow → Bool
beyond claim e = not (same_message e.message claim.message) || ltb claim.version e.version

EventStep-beyond :
    (claim : OutboxClaim) (e f : OutboxRow)
    → EventStep e f
    → beyond claim e ≡ true
    → beyond claim f ≡ true
EventStep-beyond claim e f s b =
    let message = EventStep-message e f s in
    let version = EventStep-version e f s in
    let moved : (not (same_message e.message claim.message) || ltb claim.version f.version) ≡ true =
      ground arith in
    subst (λ m. (not (same_message m claim.message) || ltb claim.version f.version) ≡ true)
      (sym message) moved

held-has :
    (claim : OutboxClaim) (es : List OutboxRow)
    → is_held claim es ≡ true
    → has_message claim.message es ≡ true
unfolding held_event has_message
held-has claim [] h = cc h
held-has claim (e ∷ es) h = elim (Bool-cases (answers claim e)) [
  | inl a ↦ ground arith
  | inr n ↦ ground (arith, held-has claim es (rw (n, is_held) at h))
]

beyond-held :
    (claim : OutboxClaim) (es : List OutboxRow)
    → All (λ (e : OutboxRow). beyond claim e ≡ true) es
    → is_held claim es ≡ false
unfolding held_event
beyond-held claim [] a = refl
beyond-held claim (e ∷ es) (p, ps) =
    let refused : answers claim e ≡ false = ground arith in
    rw (refused, is_held) (beyond-held claim es ps)

-- The events after the one of a claim are others.
others-beyond :
    (claim : OutboxClaim) (m : QueueMessage) (es : List OutboxRow)
    → same_message m claim.message ≡ true
    → All (λ (e : OutboxRow). same_message e.message m ≡ false) es
    → All (λ (e : OutboxRow). beyond claim e ≡ true) es
others-beyond claim m [] s a = tt
others-beyond claim m (e ∷ es) s (p, ps) = (
  ground (arith, same_message-sym m claim.message, same_message_trans e.message claim.message m),
  others-beyond claim m es s ps,
)

has_message-same :
    (m n : QueueMessage) (es : List OutboxRow)
    → same_message m n ≡ true
    → has_message n es ≡ true
    → has_message m es ≡ true
unfolding has_message
has_message-same m n [] s h = h
has_message-same m n (e ∷ es) s h =
    ground
      (arith, has_message-same m n es s, same_message-sym m n, same_message_trans e.message n m)

module _ (claim : OutboxClaim) (change : OutboxRow → OutboxRow)
    (same : (e : OutboxRow) → (change e).message ≡ e.message)
    (newer : (e : OutboxRow) → (change e).version ≡ e.version + 1) where
  update_event-beyond :
      (es : List OutboxRow)
      → is_keyed es ≡ true
      → is_held claim es ≡ true
      → All (λ (e : OutboxRow). beyond claim e ≡ true) (update_event claim change es)
  unfolding update_event held_event
  update_event-beyond [] k h = tt
  update_event-beyond (e ∷ es) k h = elim (Bool-cases (answers claim e)) [
    | inl a ↦
        let v = newer e in
        let here : beyond claim (change e) ≡ true = ground arith in
        rw a (
          here,
          others-beyond claim e.message es (ground arith) (others e.message es (ground arith)),
        )
    | inr n ↦
        let later = rw (n, is_held) at h in
        let rest = update_event-beyond es (ground arith) later in
        let apart : same_message e.message claim.message ≡ false =
          elim (Bool-cases (same_message e.message claim.message)) [
            | inr m ↦ m
            | inl s ↦ absurd (
                ground
                  (arith, has_message-same e.message claim.message es s (held-has claim es later)))
          ] in
        rw n (ground arith, rest)
  ]

update_event-unheld :
    (claim : OutboxClaim) (change : OutboxRow → OutboxRow) (es : List OutboxRow)
    → is_held claim es ≡ false
    → update_event claim change es ≡ es
unfolding update_event held_event
update_event-unheld claim change [] h = refl
update_event-unheld claim change (e ∷ es) h = elim (Bool-cases (answers claim e)) [
  | inl a ↦ absurd (ground arith)
  | inr n ↦ rw n (ap (λ t. e ∷ t) (update_event-unheld claim change es (rw (n, is_held) at h)))
]

held_event-unheld :
    (claim : OutboxClaim) (es : List OutboxRow)
    → is_held claim es ≡ false
    → held_event claim es ≡ none
held_event-unheld claim es h = elim (Option-cases (held_event claim es)) [
  | inl p ↦ p
  | inr (e, p) ↦ absurd (ground arith)
]

-- A claim by which nothing can be settled any more.
abbrev pub IsSpent : OutboxClaim → List OutboxRow → Type 0
IsSpent claim es =
    ((at : ℕ) (id : Option String) → mark_delivered claim at id es ≡ (false, es))
    × ((failure : PublishFailure) → record_failure claim failure es ≡ (lost, es))

unheld-IsSpent :
    (claim : OutboxClaim) (es : List OutboxRow) → is_held claim es ≡ false → IsSpent claim es
unfolding mark_delivered record_failure
unheld-IsSpent claim es h = (
  λ at id. elim (Bool-cases (leb claim.claimed_at at && is_message_id id)) [
    | inl p ↦ rw (p, h, update_event-unheld claim (delivered_event at id) es h) refl
    | inr n ↦ rw n refl
  ],
  λ failure. elim (Bool-cases (accepts_failure claim failure)) [
    | inl p ↦
        rw (p, held_event-unheld claim es h, update_event-unheld claim (failed_event failure) es h)
          refl
    | inr n ↦ rw n refl
  ],
)

mark_delivered-true :
    (claim : OutboxClaim) (at : ℕ) (id : Option String) (es es' : List OutboxRow)
    → mark_delivered claim at id es ≡ (true, es')
    → (is_held claim es ≡ true) × (update_event claim (delivered_event at id) es ≡ es')
unfolding mark_delivered
mark_delivered-true claim at id es es' e =
    elim (Bool-cases (leb claim.claimed_at at && is_message_id id)) [
      | inl p ↦
          let q = rw p at e in
          (ap (λ (x : Bool × List OutboxRow). x.0) q, ap (λ (x : Bool × List OutboxRow). x.1) q)
      | inr n ↦ absurd (cc (ap (λ (x : Bool × List OutboxRow). x.0) (rw n at e)))
    ]

module _ (order : List OutboxRow → List OutboxRow) (selects : Selects order) where
  -- Of events with distinct keys: after a claim was marked as delivered, it is spent, and it stays
  -- so whatever claims, deliveries and failures follow.
  pub mark_delivered-once :
      (claim : OutboxClaim) (at : ℕ) (id : Option String) (es es' later : List OutboxRow)
      → is_keyed es ≡ true
      → mark_delivered claim at id es ≡ (true, es')
      → OutboxRuns order selects es' later
      → IsSpent claim later
  mark_delivered-once claim at id es es' later k e runs =
      let (held, done) = mark_delivered-true claim at id es es' e in
      let after =
        update_event-beyond claim (delivered_event at id) (λ e. refl) (λ e. refl) es k held in
      let moved = subst (λ t. All (λ (x : OutboxRow). beyond claim x ≡ true) t) done after in
      let keyed : is_keyed es' ≡ true =
        subst (λ t. is_keyed t ≡ true) (ap (λ (x : Bool × List OutboxRow). x.1) e)
          (Moves-keyed es _ (mark_delivered-Moves claim at id es) k) in
      let (_, all) =
        Runs-All order selects (beyond claim) (EventStep-beyond claim) es' later runs keyed moved in
      unheld-IsSpent claim later (beyond-held claim later all)

claim_events-held :
    (claim : OutboxClaim) (input : ClaimPending) (chosen es : List OutboxRow)
    → input.at < claim.claim_expires_at
    → All (λ (e : OutboxRow). has_message e.message chosen ≡ true → is_due input.at e ≡ true) es
    → is_held claim es ≡ true
    → is_held claim (claim_events input chosen es) ≡ true
unfolding claim_events held_event
claim_events-held claim input chosen [] t a h = h
claim_events-held claim input chosen (e ∷ es) t (p, ps) h = elim (Bool-cases (answers claim e)) [
  | inl ours ↦
      let resting : is_due input.at e ≡ false = ground arith in
      let kept : has_message e.message chosen ≡ false =
        elim (Bool-cases (has_message e.message chosen)) [
          | inl c ↦ absurd (cc (p c, resting))
          | inr n ↦ n
        ] in
      rw (kept, is_held, ours) refl
  | inr other ↦
      let rest = claim_events-held claim input chosen es t ps (rw (other, is_held) at h) in
      ground arith
]

-- Of events with distinct keys: until a claim runs out, no other claim takes its event away.
pub claim_pending-keeps :
    (order : List OutboxRow → List OutboxRow) (input : ClaimPending) (claim : OutboxClaim)
    (es : List OutboxRow)
    → Selects order
    → is_keyed es ≡ true
    → is_held claim es ≡ true
    → input.at < claim.claim_expires_at
    → is_held claim (claim_pending order input es).1 ≡ true
unfolding claim_pending
claim_pending-keeps order input claim es s k h t = elim (Bool-cases (is_policy input)) [
  | inl p ↦ rw p (claim_events-held claim input _ es t (chosen_due order input es s k) h)
  | inr n ↦ rw n h
]
