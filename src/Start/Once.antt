-- ===== src/Start/Once.antt =====
-- A start is made once.
use reproforge.Base.{
  ℕ, ◌≡◌, refl, sym, subst, ap, String, Bool, true, false, some, List, [], ◌∷◌, Outcome, ok, err,
  require, bind-ok, ◌===◌, arith, ◌⊎◌, inl, inr, has_text, if◌then◌else◌,
}
use reproforge.Audit.{append_audit}
use reproforge.Durable.Rows.{
  AuditEvent, QuotaResource, QuotaRow, IdempotencyRow, JobRow, OutboxRow, Database,
}
use reproforge.Durable.Records.{
  DurableError, TenantScope, validate_record, join, next_row, find_record, find_by_idempotency_key,
}
use reproforge.Durable.Reserve.{ReservationResult, scope_of, reserve}
use reproforge.Durable.Reserve.Once.{reserve-Reserves, reserve-find, active_after, reserve-existing}
use reproforge.Outbox.{append_event}
use reproforge.Quota.{reserve_quota}
use reproforge.Start.{
  StartInput, idempotency_conflict, invalid_start_input, quota_exceeded, through, is_start_input,
  is_aligned, start_new, start_reserved, reserve_durable_start,
}

-- The database with another ledger, another outbox and other audit events.
abbrev beside : Database → List QuotaRow → List OutboxRow → List AuditEvent → Database
beside db ledger events audits = record db {
  quota_ledger = ledger;
  outbox_events = events;
  audit_events = audits;
}

through-ok : {A : Type 0} (m : Outcome DurableError A) (a : A) → through m ≡ ok a → m ≡ ok a
through-ok (ok b) a e = ground arith
through-ok (err b) a e = cc e

module _ (looks_secret : String → Bool) (limits : QuotaResource → ℕ) where
  -- The lookups read none of the three.
  find_record-beside :
      (wanted : IdempotencyRow → JobRow → Bool) (db : Database) (ledger : List QuotaRow)
      (events : List OutboxRow) (audits : List AuditEvent) (keys : List IdempotencyRow)
      → find_record looks_secret wanted (beside db ledger events audits) keys
        ≡ find_record looks_secret wanted db keys
  unfolding find_record
  find_record-beside wanted db ledger events audits [] = refl
  find_record-beside wanted db ledger events audits (key ∷ keys) =
      ap (λ rest. next_row looks_secret wanted key (join db key) rest)
        (find_record-beside wanted db ledger events audits keys)

  find_by_idempotency_key-beside :
      (scope : TenantScope) (key : String) (db : Database) (ledger : List QuotaRow)
      (events : List OutboxRow) (audits : List AuditEvent)
      → find_by_idempotency_key looks_secret scope key (beside db ledger events audits)
        ≡ find_by_idempotency_key looks_secret scope key db
  unfolding find_by_idempotency_key
  find_by_idempotency_key-beside scope key db ledger events audits =
      rw (find_record-beside _ db ledger events audits db.idempotency_keys) refl

  -- What follows a reservation leaves the cases, the jobs and the keys alone.
  start_new-beside :
      (i : StartInput) (now : ℕ) (result x : ReservationResult) (db db' : Database)
      → start_new looks_secret limits i now result db ≡ ok (x, db')
      → (x ≡ result) × (db' ≡ beside db db'.quota_ledger db'.outbox_events db'.audit_events)
  unfolding start_new
  start_new-beside i now result x db db' e =
      let ((granted, ledger), p, e₁) =
        bind-ok (through (reserve_quota limits i.quota_reservation now db.jobs db.quota_ledger)) _
          e in
      let (_, q, e₂) = bind-ok (require granted quota_exceeded) _ e₁ in
      let (audits, s, e₃) = bind-ok (through (append_audit i.audit_event db.audit_events)) _ e₂ in
      let (events, r, e₄) =
        bind-ok (through (append_event i.outbox_message now db.outbox_events)) _ e₃ in
      let done : beside db ledger events audits ≡ db' = ground arith in
      (
        ground arith,
        subst (λ y. y ≡ beside db y.quota_ledger y.outbox_events y.audit_events) done refl,
      )

  start_reserved-kinds :
      (i : StartInput) (now : ℕ) (result x : ReservationResult) (db db' : Database)
      → start_reserved looks_secret limits i now result db ≡ ok (x, db')
      → (start_new looks_secret limits i now result db ≡ ok (x, db'))
        ⊎ ((result.created ≡ false) × (x ≡ result) × (db ≡ db'))
  unfolding start_reserved
  start_reserved-kinds i now result x db db' e = ground arith

  start_reserved-beside :
      (i : StartInput) (now : ℕ) (result x : ReservationResult) (db db' : Database)
      → start_reserved looks_secret limits i now result db ≡ ok (x, db')
      → (x ≡ result) × (db' ≡ beside db db'.quota_ledger db'.outbox_events db'.audit_events)
  start_reserved-beside i now result x db db' e =
      elim (start_reserved-kinds i now result x db db' e) [
        | inl new ↦ start_new-beside i now result x db db' new
        | inr (_, same, done) ↦ (
          same,
          subst (λ y. y ≡ beside db y.quota_ledger y.outbox_events y.audit_events) done refl,
        )
      ]

  -- After a start, another valid start under the same tenant, caller and idempotency key changes
  -- nothing: it returns the record of the first if its command is the same, and is refused as a
  -- conflict if it is another.
  pub start-again :
      (i j : StartInput) (now later : ℕ) (x : ReservationResult) (db db' : Database)
      → reserve_durable_start looks_secret limits i now db ≡ ok (x, db')
      → is_start_input j ≡ true
      → is_aligned j ≡ true
      → validate_record looks_secret true j.start_record ≡ ok j.start_record
      → (j.start_record.tenant_id ≡ i.start_record.tenant_id)
        × (j.start_record.caller_id ≡ i.start_record.caller_id)
        × (j.start_record.idempotency_key ≡ i.start_record.idempotency_key)
      → reserve_durable_start looks_secret limits j later db' ≡ (
          if x.stored.command_hash === j.start_record.command_hash
          then ok (record { created = false; stored = x.stored }, db')
          else err idempotency_conflict)
  unfolding reserve_durable_start start_reserved
  start-again i j now later x db db' e valid aligned v (t, c, k) =
      let r = i.start_record in
      let s = j.start_record in
      let (_, p, e₁) = bind-ok (require (is_start_input i) invalid_start_input) _ e in
      let (_, q, e₂) = bind-ok (require (is_aligned i) invalid_start_input) _ e₁ in
      let ((result, reserved), m, e₃) = bind-ok (through (reserve looks_secret r db)) _ e₂ in
      let made = through-ok (reserve looks_secret r db) (result, reserved) m in
      let w = reserve-Reserves looks_secret r result db reserved made in
      let (found, _) = reserve-find looks_secret r result db reserved made in
      let (same, kept) = start_reserved-beside i now result x reserved db' e₃ in
      let active : has_text db'.active_tenants s.tenant_id ≡ true = cc (
        t,
        w.active,
        active_after looks_secret r result db reserved w,
        ap (λ (y : Database). y.active_tenants) kept,
      ) in
      let scope : scope_of r ≡ scope_of s =
        λ n. record { caller_id = sym c n; principal_id = sym c n; tenant_id = sym t n } in
      let stored : find_by_idempotency_key looks_secret (scope_of s) s.idempotency_key db'
          ≡ ok (some x.stored) =
        cc (
          found,
          scope,
          k,
          kept,
          ap (λ (y : ReservationResult). y.stored) same,
          find_by_idempotency_key-beside (scope_of s) s.idempotency_key reserved db'.quota_ledger
              db'.outbox_events db'.audit_events,
        ) in
      let again = reserve-existing looks_secret s x.stored db' v active stored in
      rw (valid, aligned, again) refl
