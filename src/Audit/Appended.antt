-- ===== src/Audit/Appended.antt =====
-- What `append` leaves in the audit events.
use reproforge.Base.{
  length, length-append, ◌+◌, ◌≡◌, subst, true, List, [], ◌∷◌, ◌++◌, ok, arith, eq_iff,
}
use reproforge.Durable.Rows.{AuditEvent}
use reproforge.Durable.Settlement.{same_event_refl}
use reproforge.Audit.{has_audit_event, append_audit}

has_audit_event-last :
    (e : AuditEvent) (es : List AuditEvent)
    → has_audit_event e.tenant_id e.event_id (es ++ e ∷ []) ≡ true
unfolding has_audit_event
has_audit_event-last e [] =
    ground (arith, same_event_refl e.event_id, eq_iff e.tenant_id e.tenant_id)
has_audit_event-last e (x ∷ es) = ground (arith, has_audit_event-last e es)

pub append_audit-has :
    (e : AuditEvent) (es fs : List AuditEvent)
    → append_audit e es ≡ ok fs
    → has_audit_event e.tenant_id e.event_id fs ≡ true
unfolding append_audit
append_audit-has e es fs p =
    let grown : es ++ e ∷ [] ≡ fs = ground arith in
    subst (λ x. has_audit_event e.tenant_id e.event_id x ≡ true) grown (has_audit_event-last e es)

pub append_audit-length :
    (e : AuditEvent) (es fs : List AuditEvent)
    → append_audit e es ≡ ok fs
    → length fs ≡ length es + 1
unfolding append_audit
append_audit-length e es fs p =
    let grown : es ++ e ∷ [] ≡ fs = ground arith in
    subst (λ x. length x ≡ length es + 1) grown (omega (arith, length-append es (e ∷ [])))
