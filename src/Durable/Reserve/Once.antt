-- ===== src/Durable/Reserve/Once.antt =====
-- A reservation is made once, and what was reserved is found again.
use reproforge.Base.{
  ◌≡◌, refl, sym, ◌∙◌, ap, subst, String, Bool, true, false, Option, none, some, List, [], ◌∷◌,
  ◌++◌, Outcome, ok, err, require, bind-ok, require-ok, arith, eq_iff, ◌⊎◌, inl, inr, Bool-cases,
  has_text, exists,
}
use reproforge.Domain.Case.{CaseState, CaseState-discrete, same_case_state}
use reproforge.Domain.Job.{JobFailure}
use reproforge.Durable.Rows.{JobRow, CaseRow, IdempotencyRow, Database}
use reproforge.Durable.Records.{
  DurableError, invalid_record, is_tenant_scope, DurableRecord, parses, agrees, validate_record,
  failure_of, record_of, join, row_to_record, next_row, find_record, find_by_idempotency_key,
}
use reproforge.Durable.Finish.{code_of, message_of, retryable_of}
use reproforge.Durable.Endings.Completion.{validate_record-eq}
use reproforge.Durable.Effects.{find-put_self}
use reproforge.Durable.Reserve.{
  ReservationResult, scope_of, key_row, new_case, new_job, case_key_of, job_key_of, has_key,
  can_insert, inserted, reserve_new, reserve,
}

module _ {A : Type 0} where
  or : A → Outcome DurableError A → A
  or a (ok b) = b
  or a (err _) = a

  ok-eq : (a b : A) (m : Outcome DurableError A) → m ≡ ok a → m ≡ ok b → a ≡ b
  unfolding or
  ok-eq a b m p q = ap (or a) (sym p ∙ q)

failure_of-code :
    (f : Option JobFailure) → failure_of (code_of f) (message_of f) (retryable_of f) ≡ some f
failure_of-code none = refl
failure_of-code (some f) = refl

same_case_state_refl : (s : CaseState) → same_case_state s s ≡ true
unfolding CaseState-discrete
same_case_state_refl s = ground arith

module _ (looks_secret : String → Bool) where
  agrees-ids :
      (r : DurableRecord)
      → agrees looks_secret true r ≡ true
      → (r.job_id ≡ r.snapshot_job.id)
        × (r.case_id ≡ r.snapshot_job.case_id)
        × (r.version ≡ 1)
        × (agrees looks_secret false r ≡ true)
  unfolding agrees
  agrees-ids r a = (
    (eq_iff r.job_id r.snapshot_job.id).0 (ground arith),
    (eq_iff r.case_id r.snapshot_job.case_id).0 (ground arith),
    ground arith,
    ground arith,
  )

  -- The rows of a new record read back as the record.
  record_of-new :
      (r : DurableRecord)
      → r.job_id ≡ r.snapshot_job.id
      → r.case_id ≡ r.snapshot_job.case_id
      → r.version ≡ 1
      → record_of (key_row r) (new_case r) (new_job r) r.snapshot_job.failure ≡ r
  record_of-new r j c v = λ n. record r {
    snapshot_job = record r.snapshot_job { id = j n; case_id = c n };
    version = sym v n;
  }

  row_to_record-new :
      (r r' : DurableRecord)
      → validate_record looks_secret true r ≡ ok r'
      → row_to_record looks_secret (key_row r) (new_case r) (new_job r) ≡ ok r
  unfolding row_to_record validate_record
  row_to_record-new r r' e =
      let (_, p, e₁) = bind-ok (require (parses r) invalid_record) _ e in
      let (_, q, e₂) = bind-ok (require (agrees looks_secret true r) invalid_record) _ e₁ in
      let (j, c, v, a) = agrees-ids r (require-ok (agrees looks_secret true r) invalid_record q) in
      let same = record_of-new r j c v in
      let ps = require-ok (parses r) invalid_record p in
      rw
        (
          failure_of-code r.snapshot_job.failure,
          same_case_state_refl r.snapshot_case.state,
          same,
          ps,
          a,
        )
        refl

  abbrev wants : DurableRecord → IdempotencyRow → JobRow → Bool
  wants r key j = has_key r key

  next_row-unwanted :
      (r : DurableRecord) (key : IdempotencyRow) (o : Option (CaseRow × JobRow))
      (rest : Outcome DurableError (Option DurableRecord))
      → has_key r key ≡ false
      → next_row looks_secret (wants r) key o rest ≡ rest
  unfolding next_row
  next_row-unwanted r key none rest n = refl
  next_row-unwanted r key (some (c, j)) rest n = rw n refl

  -- Keys that are not asked for are passed over.
  find_record-append :
      (r : DurableRecord) (db : Database) (keys : List IdempotencyRow) (key : IdempotencyRow)
      → exists (has_key r) keys ≡ false
      → find_record looks_secret (wants r) db (keys ++ key ∷ [])
        ≡ next_row looks_secret (wants r) key (join db key) (ok none)
  unfolding find_record
  find_record-append r db [] key n = refl
  find_record-append r db (k ∷ keys) key n =
      next_row-unwanted r k (join db k) _ (ground arith)
      ∙ find_record-append r db keys key (ground arith)

  join-inserted :
      (r : DurableRecord) (db : Database)
      → join (inserted r db) (key_row r) ≡ some (new_case r, new_job r)
  join-inserted r db = ground (
    arith,
    find-put_self (case_key_of r) (new_case r) db.cases,
    find-put_self (job_key_of r) (new_job r) db.jobs,
    eq_iff r.case_id r.case_id,
  )

  has_key_self : (r : DurableRecord) → has_key r (key_row r) ≡ true
  has_key_self r = ground (
    arith,
    eq_iff r.tenant_id r.tenant_id,
    eq_iff r.caller_id r.caller_id,
    eq_iff r.idempotency_key r.idempotency_key,
  )

  next_row-new :
      (r r' : DurableRecord) (rest : Outcome DurableError (Option DurableRecord))
      → validate_record looks_secret true r ≡ ok r'
      → next_row looks_secret (wants r) (key_row r) (some (new_case r, new_job r)) rest
        ≡ ok (some r)
  unfolding next_row
  next_row-new r r' rest e = rw (has_key_self r, row_to_record-new r r' e) refl

  find_by_idempotency_key-inserted :
      (r r' : DurableRecord) (db : Database)
      → validate_record looks_secret true r ≡ ok r'
      → is_tenant_scope (scope_of r) ≡ true
      → exists (has_key r) db.idempotency_keys ≡ false
      → find_by_idempotency_key looks_secret (scope_of r) r.idempotency_key (inserted r db)
        ≡ ok (some r)
  unfolding find_by_idempotency_key
  find_by_idempotency_key-inserted r r' db e s n = rw s (
      find_record-append r (inserted r db) db.idempotency_keys (key_row r) n
      ∙ ap (λ o. next_row looks_secret (wants r) (key_row r) o (ok none)) (join-inserted r db)
      ∙ next_row-new r r' (ok none) e)

  -- Either the key was new, or the store stays as it is.
  reserve_new-kinds :
      (r : DurableRecord) (o : Option DurableRecord) (x : ReservationResult) (db db' : Database)
      → reserve_new r o db ≡ ok (x, db')
      → ((x.created ≡ true) × (x.stored ≡ r) × (db' ≡ inserted r db) × (can_insert r db ≡ true))
        ⊎ ((x.created ≡ false) × (o ≡ some x.stored) × (db' ≡ db))
  unfolding reserve_new
  reserve_new-kinds r (some stored) x db db' e =
      let p = ok-eq (record { created = false; stored = stored }, db) (x, db') _ refl e in
      inr (
        ap (λ (y : ReservationResult × Database). y.0.created) (sym p),
        ap (λ (y : ReservationResult × Database). some y.0.stored) p,
        ap (λ (y : ReservationResult × Database). y.1) (sym p),
      )
  reserve_new-kinds r none x db db' e = elim (Bool-cases (can_insert r db)) [
    | inr n ↦ absurd (ground arith)
    | inl c ↦
        let p =
          ok-eq (record { created = true; stored = r }, inserted r db) (x, db') _ refl
            (rw c at e) in
        inl (
          ap (λ (y : ReservationResult × Database). y.0.created) (sym p),
          ap (λ (y : ReservationResult × Database). y.0.stored) (sym p),
          ap (λ (y : ReservationResult × Database). y.1) (sym p),
          c,
        )
  ]

  can_insert-new :
      (r : DurableRecord) (db : Database)
      → can_insert r db ≡ true
      → exists (has_key r) db.idempotency_keys ≡ false
  unfolding can_insert
  can_insert-new r db c = ground arith

  find_by_idempotency_key-scope :
      (r : DurableRecord) (o : Option DurableRecord) (db : Database)
      → find_by_idempotency_key looks_secret (scope_of r) r.idempotency_key db ≡ ok o
      → is_tenant_scope (scope_of r) ≡ true
  unfolding find_by_idempotency_key
  find_by_idempotency_key-scope r o db e = ground arith

  -- The parts of a reservation that succeeds.
  pub record Reserves (r : DurableRecord) (x : ReservationResult) (db db' : Database) : Type 0 where
    pub valid : validate_record looks_secret true r ≡ ok r
    pub active : has_text db.active_tenants r.tenant_id ≡ true
    pub existing : Option DurableRecord
    pub looked :
        find_by_idempotency_key looks_secret (scope_of r) r.idempotency_key db ≡ ok existing
    pub done : reserve_new r existing db ≡ ok (x, db')

  pub reserve-Reserves :
      (r : DurableRecord) (x : ReservationResult) (db db' : Database)
      → reserve looks_secret r db ≡ ok (x, db')
      → Reserves r x db db'
  unfolding reserve
  reserve-Reserves r x db db' e =
      let (v, q, e₁) = bind-ok (validate_record looks_secret true r) _ e in
      let (_, t, e₂) =
        bind-ok (require (has_text db.active_tenants v.tenant_id) invalid_record) _ e₁ in
      let (o, f, e₃) =
        bind-ok (find_by_idempotency_key looks_secret (scope_of v) v.idempotency_key db)
          (λ m. reserve_new v m db) e₂ in
      subst (λ y. Reserves y x db db') (validate_record-eq looks_secret true r v q)
        (record {
          valid =
              subst (λ y. validate_record looks_secret true y ≡ ok v)
                (sym (validate_record-eq looks_secret true r v q)) q;
          active = require-ok (has_text db.active_tenants v.tenant_id) invalid_record t;
          existing = o;
          looked = f;
          done = e₃;
        })

  -- After a successful reservation, whether it stored its record or met an earlier one, the record
  -- that it returned is the one that the caller finds under the idempotency key; if none was
  -- created, the store is as it was.
  pub reserve-find :
      (r : DurableRecord) (x : ReservationResult) (db db' : Database)
      → reserve looks_secret r db ≡ ok (x, db')
      → (find_by_idempotency_key looks_secret (scope_of r) r.idempotency_key db'
          ≡ ok (some x.stored))
        × (((x.created ≡ true) × (x.stored ≡ r)) ⊎ ((x.created ≡ false) × (db' ≡ db)))
  reserve-find r x db db' e =
      let w = reserve-Reserves r x db db' e in
      elim (reserve_new-kinds r w.existing x db db' w.done) [
        | inl (c, s, d, i) ↦
            let scope = find_by_idempotency_key-scope r w.existing db w.looked in
            let here =
              find_by_idempotency_key-inserted r r db w.valid scope (can_insert-new r db i) in
            (cc (here, d, s), inl (c, s))
        | inr (c, s, d) ↦ (cc (w.looked, d, s), inr (c, d))
      ]

  pub active_after :
      (r : DurableRecord) (x : ReservationResult) (db db' : Database)
      → Reserves r x db db'
      → db'.active_tenants ≡ db.active_tenants
  active_after r x db db' w = elim (reserve_new-kinds r w.existing x db db' w.done) [
    | inl (_, _, d, _) ↦ ap (λ (y : Database). y.active_tenants) d
    | inr (_, _, d) ↦ ap (λ (y : Database). y.active_tenants) d
  ]

  -- Where the key is found, a valid reservation returns what is there.
  pub reserve-existing :
      (s stored : DurableRecord) (db : Database)
      → validate_record looks_secret true s ≡ ok s
      → has_text db.active_tenants s.tenant_id ≡ true
      → find_by_idempotency_key looks_secret (scope_of s) s.idempotency_key db ≡ ok (some stored)
      → reserve looks_secret s db ≡ ok (record { created = false; stored = stored }, db)
  unfolding reserve reserve_new
  reserve-existing s stored db v a f = rw (v, a, f) refl

  -- A second valid reservation under the same tenant, caller and idempotency key creates nothing,
  -- whatever its command: it returns the record of the first and leaves the store as it is.
  pub reserve-again :
      (r s : DurableRecord) (x : ReservationResult) (db db' : Database)
      → reserve looks_secret r db ≡ ok (x, db')
      → validate_record looks_secret true s ≡ ok s
      → (s.tenant_id ≡ r.tenant_id)
        × (s.caller_id ≡ r.caller_id)
        × (s.idempotency_key ≡ r.idempotency_key)
      → reserve looks_secret s db' ≡ ok (record { created = false; stored = x.stored }, db')
  reserve-again r s x db db' e v (t, c, i) =
      let w = reserve-Reserves r x db db' e in
      let (found, _) = reserve-find r x db db' e in
      let active : has_text db'.active_tenants s.tenant_id ≡ true =
        subst (λ y. has_text db'.active_tenants y ≡ true) (sym t)
          (subst (λ y. has_text y r.tenant_id ≡ true) (sym (active_after r x db db' w)) w.active) in
      let scope : scope_of r ≡ scope_of s =
        λ n. record { caller_id = sym c n; principal_id = sym c n; tenant_id = sym t n } in
      let found_again : find_by_idempotency_key looks_secret (scope_of s) s.idempotency_key db'
          ≡ ok (some x.stored) =
        cc (found, scope, i) in
      reserve-existing s x.stored db' v active found_again
