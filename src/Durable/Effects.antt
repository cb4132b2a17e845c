-- ===== src/Durable/Effects.antt =====
-- What the writes leave behind.
use reproforge.Base.{ℕ, ◌≡◌, true, false, some, ok, arith, eq_iff, Option-cases, inl, inr}
use reproforge.Durable.Table.{Key, same_key, Table, find, put, find-put}
use reproforge.Durable.Rows.{JobRow, CaseRow, Database}
use reproforge.Durable.Records.{DurableError}
use reproforge.Durable.Writes.{write_job, write_case}

pub find-put_self {ℓ} : {R : Type ℓ} (k : Key) (r : R) (t : Table R) → find k (put k r t) ≡ some r
find-put_self k r t = ground (arith, find-put k k r t, eq_iff k.tenant k.tenant, eq_iff k.id k.id)

pub same_key_refl : (k : Key) → same_key k k ≡ true
same_key_refl k = ground (arith, eq_iff k.tenant k.tenant, eq_iff k.id k.id)

pub same_key-eq : (k j : Key) → same_key k j ≡ true → k ≡ j
same_key-eq k j h =
    let t = (eq_iff k.tenant j.tenant).0 (ground arith) in
    let i = (eq_iff k.id j.id).0 (ground arith) in λ n. record { tenant = t n; id = i n }

pub find-put_ne {ℓ} :
    {R : Type ℓ} (k j : Key) (r : R) (t : Table R)
    → same_key k j ≡ false
    → find j (put k r t) ≡ find j t
find-put_ne k j r t h = ground (arith, find-put k j r t)

module _ (k : Key) (old new : JobRow) (db db' : Database)
    (e : write_job k old new db ≡ ok db') where
  pub jobs-write_job : db'.jobs ≡ put k new db.jobs
  unfolding write_job
  jobs-write_job = ground arith

  pub audits-write_job : db'.audit_events ≡ db.audit_events
  unfolding write_job
  audits-write_job = ground arith

  pub cases-write_job : db'.cases ≡ db.cases
  unfolding write_job
  cases-write_job = ground arith

module _ (k : Key) (version : ℕ) (change : CaseRow → CaseRow) (lost : DurableError)
    (db db' : Database) (e : write_case k version change lost db ≡ ok db') where
  pub jobs-write_case : db'.jobs ≡ db.jobs
  unfolding write_case
  jobs-write_case = ground arith

  pub audits-write_case : db'.audit_events ≡ db.audit_events
  unfolding write_case
  audits-write_case = ground arith

  pub cases-write_case :
      (c : CaseRow) × (find k db.cases ≡ some c)
      × (c.version ≡ version)
      × (db'.cases ≡ put k (change c) db.cases)
  unfolding write_case
  cases-write_case = elim (Option-cases (find k db.cases)) [
    | inl p ↦ absurd (ground arith)
    | inr (c, p) ↦ (c, p, ground arith, ground arith)
  ]
