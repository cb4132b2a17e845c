-- ===== src/Durable/Lookups.antt =====
-- What a record that was read back says of the rows that it was read from.
use reproforge.Base.{
  ◌≡◌, refl, subst, String, Bool, true, Option, none, some, Outcome, ok, arith, eq_iff,
  Option-cases, ◌⊎◌, inl, inr, Bool-cases, bind-ok, List, [], ◌∷◌,
}
use reproforge.Durable.Table.{Key, find}
use reproforge.Durable.Rows.{JobRow, CaseRow, IdempotencyRow, Database}
use reproforge.Durable.Records.{
  DurableError, DurableRecord, join, next_row, find_record, row_to_record, validate_record,
}

module _ (looks_secret : String → Bool) where
  -- The rows behind a record.
  pub record IsRead (wanted : IdempotencyRow → JobRow → Bool) (db : Database) (r : DurableRecord)
      : Type 0 where
    pub key : IdempotencyRow
    pub case_row : CaseRow
    pub job_row : JobRow
    pub joined : join db key ≡ some (case_row, job_row)
    pub met : wanted key job_row ≡ true
    pub read : row_to_record looks_secret key case_row job_row ≡ ok r

  next_row-IsRead :
      (wanted : IdempotencyRow → JobRow → Bool) (db : Database) (key : IdempotencyRow)
      (o : Option (CaseRow × JobRow)) (rest : Outcome DurableError (Option DurableRecord))
      (r : DurableRecord)
      → join db key ≡ o
      → next_row looks_secret wanted key o rest ≡ ok (some r)
      → IsRead wanted db r ⊎ (rest ≡ ok (some r))
  unfolding next_row
  next_row-IsRead wanted db key none rest r p e = inr e
  next_row-IsRead wanted db key (some (c, j)) rest r p e = elim (Bool-cases (wanted key j)) [
    | inl met ↦
        let (r', q, e₁) = bind-ok (row_to_record looks_secret key c j) _ (rw met at e) in
        inl (record {
          key = key;
          case_row = c;
          job_row = j;
          joined = p;
          met = met;
          read = ground arith;
        })
    | inr n ↦ inr (rw n at e)
  ]

  pub find_record-IsRead :
      (wanted : IdempotencyRow → JobRow → Bool) (db : Database) (keys : List IdempotencyRow)
      (r : DurableRecord)
      → find_record looks_secret wanted db keys ≡ ok (some r)
      → IsRead wanted db r
  unfolding find_record
  find_record-IsRead wanted db [] r e = absurd (ground arith)
  find_record-IsRead wanted db (key ∷ keys) r e =
      elim (next_row-IsRead wanted db key (join db key) (find_record looks_secret wanted db keys) r
        refl e) [ inl here ↦ here | inr there ↦ find_record-IsRead wanted db keys r there ]

  pub row_to_record-fields :
      (key : IdempotencyRow) (c : CaseRow) (j : JobRow) (r : DurableRecord)
      → row_to_record looks_secret key c j ≡ ok r
      → (r.case_id ≡ key.case_id)
        × (r.tenant_id ≡ key.tenant_id)
        × (r.job_id ≡ key.job_id)
        × (r.version ≡ j.version)
        × (r.snapshot_job.state ≡ j.state)
  unfolding row_to_record validate_record
  row_to_record-fields key c j r e = ground arith

  join-job :
      (db : Database) (key : IdempotencyRow) (c : CaseRow) (j : JobRow)
      → join db key ≡ some (c, j)
      → (find (record { tenant = key.tenant_id; id = key.job_id }) db.jobs ≡ some j)
        × (j.case_id ≡ key.case_id)
  join-job db key c j e =
      elim (Option-cases (find (record { tenant = key.tenant_id; id = key.case_id }) db.cases)) [
        | inl p ↦ absurd (ground arith)
        | inr (x, p) ↦
            elim (Option-cases
              (find (record { tenant = key.tenant_id; id = key.job_id }) db.jobs)) [
                | inl q ↦ absurd (ground arith)
                | inr (y, q) ↦ (ground arith, ground (arith, eq_iff y.case_id key.case_id))
              ]
      ]

  -- A record that was found by the job's key names the case and the version of that job's row.
  pub IsRead-job :
      (wanted : IdempotencyRow → JobRow → Bool) (db : Database) (k : Key) (j : JobRow)
      (r : DurableRecord) (read : IsRead wanted db r)
      → find k db.jobs ≡ some j
      → read.key.tenant_id ≡ k.tenant
      → read.key.job_id ≡ k.id
      → (r.case_id ≡ j.case_id)
        × (r.tenant_id ≡ k.tenant)
        × (r.version ≡ j.version)
        × (r.snapshot_job.state ≡ j.state)
  IsRead-job wanted db k j r read f t i =
      let (c, tenant, job, v, s) =
        row_to_record-fields read.key read.case_row read.job_row r read.read in
      let (g, same) = join-job db read.key read.case_row read.job_row read.joined in
      let at_key : find k db.jobs ≡ some read.job_row =
        subst (λ x. find x db.jobs ≡ some read.job_row) (λ n. record { tenant = t n; id = i n })
          g in
      let row : read.job_row ≡ j = cc in (cc, cc, cc, cc)
