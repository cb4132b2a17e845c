-- ===== src/Durable/Steps.antt =====
-- What each successful transaction on a lease does to the rows of the job and of its case.
use reproforge.Base.{
  ℕ, ◌+◌, ◌≤◌, ◌<◌, ◌≡◌, refl, ◌∙◌, ap, subst, true, ◌&&◌, Option, none, some, ok, require, arith,
  leb, ltb, inl, inr, Bool-cases, bind-ok,
}
use reproforge.Durable.Table.{Key, find, put}
use reproforge.Durable.Rows.{JobRow, CaseRow, Database}
use reproforge.Durable.Records.{schema_rejected, lease_not_owned, optimistic_conflict}
use reproforge.Durable.Writes.{write_job, advance_case_version}
use reproforge.Durable.Lease.{
  JobLease, is_lease, lease_key, ClaimInput, is_claimable, lease_of, claimed_row, claim_key,
  claim_row, claim_found, claim_lease, is_renewable, renew_found, renew_lease,
}
use reproforge.Durable.Effects.{
  jobs-write_job, cases-write_job, audits-write_job, audits-write_case, jobs-write_case,
  cases-write_case,
}

abbrev pub case_of : Key → JobRow → Key
case_of k j = record { tenant = k.tenant; id = j.case_id }

-- One job row and its case row were written, in step, and no audit event.
pub record Writes (k : Key) (old new : JobRow) (db db' : Database) : Type 0 where
  pub found : find k db.jobs ≡ some old
  pub jobs : db'.jobs ≡ put k new db.jobs
  pub case_old : CaseRow
  pub case_new : CaseRow
  pub case_found : find (case_of k old) db.cases ≡ some case_old
  pub case_version : case_old.version ≡ old.version
  pub case_next : case_new.version ≡ old.version + 1
  pub cases : db'.cases ≡ put (case_of k old) case_new db.cases
  pub audits : db'.audit_events ≡ db.audit_events

-- The two statements that most transactions consist of.
pub advance-Writes :
    (k : Key) (old new : JobRow) (at : ℕ) (db db₁ db' : Database)
    → find k db.jobs ≡ some old
    → write_job k old new db ≡ ok db₁
    → advance_case_version (case_of k old) old.version at db₁ ≡ ok db'
    → Writes k old new db db'
unfolding advance_case_version
advance-Writes k old new at db db₁ db' f w a =
    let same_cases = cases-write_job k old new db db₁ w in
    let change : CaseRow → CaseRow = λ c. record c { version = c.version + 1; updated_at = at } in
    let (c, p, v, q) =
      cases-write_case (case_of k old) old.version change optimistic_conflict db₁ db' a in
    record {
      found = f;
      jobs =
          jobs-write_case (case_of k old) old.version change optimistic_conflict db₁ db' a
          ∙ jobs-write_job k old new db db₁ w;
      case_old = c;
      case_new = change c;
      case_found = subst (λ t. find (case_of k old) t ≡ some c) same_cases p;
      case_version = v;
      case_next = ap (λ n. n + 1) v;
      cases = subst (λ t. db'.cases ≡ put (case_of k old) (change c) t) same_cases q;
      audits =
          audits-write_case (case_of k old) old.version change optimistic_conflict db₁ db' a
          ∙ audits-write_job k old new db db₁ w;
    }

-- A successful claim met a claimable row and wrote it.
pub record Claims (input : ClaimInput) (l : JobLease) (db db' : Database) : Type 0 where
  pub row : JobRow
  pub claimable : is_claimable row input.at ≡ true
  pub lease : l ≡ lease_of input row
  pub lasts : 1 ≤ input.lease_seconds
  pub writes : Writes (claim_key input) row (claimed_row input row) db db'

claim_row-Claims :
    (input : ClaimInput) (j : JobRow) (l : JobLease) (db db' : Database)
    → find (claim_key input) db.jobs ≡ some j
    → is_claimable j input.at ≡ true
    → 1 ≤ input.lease_seconds
    → claim_row input j db ≡ ok (some l, db')
    → Claims input l db db'
unfolding claim_row
claim_row-Claims input j l db db' f c s e =
    let k = claim_key input in
    let (db₁, w, e₁) = bind-ok (write_job k j (claimed_row input j) db) _ e in
    let (db₂, a, e₂) = bind-ok (advance_case_version (case_of k j) j.version input.at db₁) _ e₁ in
    let (_, r, e₃) = bind-ok (require (is_lease (lease_of input j)) schema_rejected) _ e₂ in
    let done : db₂ ≡ db' = ground arith in
    record {
      row = j;
      claimable = c;
      lease = ground arith;
      lasts = s;
      writes =
          subst (Writes k j (claimed_row input j) db) done
            (advance-Writes k j (claimed_row input j) input.at db db₁ db₂ f w a);
    }

claim_found-Claims :
    (input : ClaimInput) (o : Option JobRow) (l : JobLease) (db db' : Database)
    → find (claim_key input) db.jobs ≡ o
    → 1 ≤ input.lease_seconds
    → claim_found input o db ≡ ok (some l, db')
    → Claims input l db db'
unfolding claim_found
claim_found-Claims input none l db db' f s e = absurd (ground arith)
claim_found-Claims input (some j) l db db' f s e = elim (Bool-cases (is_claimable j input.at)) [
  | inl c ↦ claim_row-Claims input j l db db' f c s (rw c at e)
  | inr n ↦ absurd (ground arith)
]

pub claim_lease-Claims :
    (input : ClaimInput) (l : JobLease) (db db' : Database)
    → claim_lease input db ≡ ok (some l, db')
    → Claims input l db db'
unfolding claim_lease
claim_lease-Claims input l db db' e =
    claim_found-Claims input (find (claim_key input) db.jobs) l db db' refl (ground arith)
      (ground arith)

-- A successful renewal met the row of its owner.
pub record Renews (l : JobLease) (at expires_at : ℕ) (db db' : Database) : Type 0 where
  pub row : JobRow
  pub renewable : is_renewable l row ≡ true
  pub later : (l.acquired_at ≤ at) × (at < l.expires_at) × (l.expires_at < expires_at)
  pub writes :
      Writes
        (lease_key l)
        row
        (record row {
          lease_expires_at = some expires_at;
          updated_at = at;
          version = row.version + 1;
        })
        db
        db'

renew_found-Renews :
    (l l' : JobLease) (at expires_at : ℕ) (o : Option JobRow) (db db' : Database)
    → find (lease_key l) db.jobs ≡ o
    → (l.acquired_at ≤ at) × (at < l.expires_at) × (l.expires_at < expires_at)
    → renew_found l at expires_at o db ≡ ok (l', db')
    → Renews l at expires_at db db'
unfolding renew_found
renew_found-Renews l l' at expires_at none db db' f t e = cc
renew_found-Renews l l' at expires_at (some j) db db' f t e = elim (Bool-cases (is_renewable l j)) [
  | inr n ↦ absurd (ground arith)
  | inl c ↦
      let k = lease_key l in
      let new : JobRow = record j {
        lease_expires_at = some expires_at;
        updated_at = at;
        version = j.version + 1;
      } in
      let (db₁, w, e₁) = bind-ok (write_job k j new db) _ (rw c at e) in
      let (db₂, a, e₂) = bind-ok (advance_case_version (case_of k j) j.version at db₁) _ e₁ in
      let (_, r, e₃) =
        bind-ok (require (is_lease (record l { expires_at = expires_at })) schema_rejected) _ e₂ in
      let done : db₂ ≡ db' = ground arith in
      record {
        row = j;
        renewable = c;
        later = t;
        writes = subst (Writes k j new db) done (advance-Writes k j new at db db₁ db₂ f w a);
      }
]

pub renew_lease-Renews :
    (l l' : JobLease) (at expires_at : ℕ) (db db' : Database)
    → renew_lease l at expires_at db ≡ ok (l', db')
    → Renews l at expires_at db db'
unfolding renew_lease
renew_lease-Renews l l' at expires_at db db' e =
    let (_, p, e₁) = bind-ok (require (is_lease l) schema_rejected) _ e in
    let (_, q, e₂) =
      bind-ok
        (require (leb l.acquired_at at && ltb at l.expires_at && ltb l.expires_at expires_at)
          lease_not_owned)
        _ e₁ in
    renew_found-Renews l l' at expires_at (find (lease_key l) db.jobs) db db' refl
      (ground arith, ground arith, ground arith) e₂
