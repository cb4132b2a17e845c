-- ===== src/Outbox/Appended.antt =====
-- What `append` leaves in the outbox.
use reproforge.Base.{ℕ, ◌≡◌, subst, true, List, [], ◌∷◌, ◌++◌, ok, arith, eq_iff}
use reproforge.Durable.Rows.{QueueMessage, OutboxRow}
use reproforge.Durable.Writes.{has_event}
use reproforge.Durable.Settlement.{same_event_refl, has_event-append}
use reproforge.Outbox.{new_event, append_event}

pub append_event-has :
    (m : QueueMessage) (now : ℕ) (es fs : List OutboxRow)
    → append_event m now es ≡ ok fs
    → has_event m.tenant_id m.event_id fs ≡ true
unfolding append_event
append_event-has m now es fs e =
    let grown : es ++ new_event m now ∷ [] ≡ fs = ground arith in
    let last : has_event m.tenant_id m.event_id (new_event m now ∷ []) ≡ true =
      ground (arith, same_event_refl m.event_id, eq_iff m.tenant_id m.tenant_id) in
    subst (λ x. has_event m.tenant_id m.event_id x ≡ true) grown
      (has_event-append m.tenant_id m.event_id es (new_event m now) last)
