-- ===== src/Durable/Recover/Rows.antt =====
-- What a recovery does to the rows of the jobs.
use reproforge.Base.{
  ℕ, ◌≤◌, ◌≡◌, refl, sym, ◌∙◌, subst, String, Bool, true, false, ◌⊎◌, inl, inr, Option, none, some,
  [], ◌∷◌, ok, require, bind-ok, arith, All, Bool-cases,
}
use reproforge.Domain.Job.{running, same_job_state, JobState-discrete}
use reproforge.Durable.Table.{Key, same_key, Table, find, put}
use reproforge.Audit.{append_audit}
use reproforge.Durable.Rows.{JobRow, Database}
use reproforge.Durable.Records.{schema_rejected}
use reproforge.Durable.Lease.{JobLease, is_lease, lease_key, owns, has_expired}
use reproforge.Durable.Finish.{LeaseFailure, LeaseFailureDisposition, fail_lease}
use reproforge.Durable.Effects.{find-put_self, find-put_ne, same_key-eq}
use reproforge.Durable.Endings.Row.{Outcomes, again, broken, withdrawn, Ended, fail_lease-Ended}
use reproforge.Durable.Recover.{
  RecoverySummary, lease_of_row, is_expired, lease_columns, expiry_failure, recovery_audit,
  recover_lease, recover_all,
}

abbrev pub AllExpired : ℕ → Table JobRow → Type 0
AllExpired at = All (λ (r : Key × JobRow). is_expired at r.1 ≡ true)

module _ (looks_secret : String → Bool) where
  -- A row whose lease had run out, and the row after the failure of that lease.
  pub record Recovered (at : ℕ) (j j' : JobRow) : Type 0 where
    pub expired_at : ℕ
    pub expiry : j.lease_expires_at ≡ some expired_at
    pub expired : expired_at ≤ at
    pub disposition : LeaseFailureDisposition
    pub ended : Ended (expiry_failure looks_secret at) disposition j j'

  outcome-stopped :
      (failure : LeaseFailure) (j j' : JobRow) (d : LeaseFailureDisposition)
      → Outcomes failure j j' d
      → same_job_state j'.state running ≡ false
  unfolding JobState-discrete
  outcome-stopped failure j j' _ (again u y n (s, t)) = rw s refl
  outcome-stopped failure j j' _ (broken u n s) = rw s refl
  outcome-stopped failure j j' _ (withdrawn a s) = rw s refl

  Recovered-stopped :
      (at : ℕ) (j j' : JobRow) → Recovered at j j' → same_job_state j'.state running ≡ false
  Recovered-stopped at j j' r =
      outcome-stopped (expiry_failure looks_secret at) j j' r.disposition r.ended.outcome

  pub Recovered-apart : (at : ℕ) (i j k : JobRow) → Recovered at i j → Recovered at j k → ⊥
  unfolding JobState-discrete
  Recovered-apart at i j k r s =
      let still = s.ended.ran in let over = Recovered-stopped at i j r in ground arith

  lease_columns-fields :
      (k : Key) (attempt : ℕ) (owner : Option String) (acquired_at expires_at : Option ℕ)
      (l : JobLease)
      → lease_columns k attempt owner acquired_at expires_at ≡ some l
      → (lease_key l ≡ k) × (expires_at ≡ some l.expires_at)
  lease_columns-fields k n (some o) (some a) (some e) l p = (ground arith, ground arith)
  lease_columns-fields k n none a e l p = cc p
  lease_columns-fields k n (some o) none e l p = cc p
  lease_columns-fields k n (some o) (some a) none l p = cc p

  expiry-owned :
      (j : JobRow) (l : JobLease) (at : ℕ) (o : Option ℕ)
      → o ≡ some l.expires_at
      → has_expired o at ≡ true
      → owns l j ≡ true
      → (j.lease_expires_at ≡ some l.expires_at) × (l.expires_at ≤ at)
  expiry-owned j l at o p x q = (ground arith, ground arith)

  -- The recovery of one expired row, wherever it was read.
  pub recover_lease-row :
      (at : ℕ) (k : Key) (i : JobRow) (o : Option JobLease) (s s' : RecoverySummary)
      (db db' : Database)
      → is_expired at i ≡ true
      → lease_of_row k i ≡ o
      → recover_lease looks_secret at o s db ≡ ok (s', db')
      → (j : JobRow) × (j' : JobRow) × (find k db.jobs ≡ some j)
        × (db'.jobs ≡ put k j' db.jobs)
        × Recovered at j j'
  unfolding recover_lease
  recover_lease-row at k i none s s' db db' x p e = cc e
  recover_lease-row at k i (some l) s s' db db' x p e =
      let failure = expiry_failure looks_secret at in
      let (_, _, e₁) = bind-ok (require (is_lease l) schema_rejected) _ e in
      let ((d, mid), q, e₂) = bind-ok (fail_lease looks_secret l failure db) _ e₁ in
      let (audits, r, e₃) =
        bind-ok (append_audit (recovery_audit looks_secret l d at) mid.audit_events) _ e₂ in
      let same : mid.jobs ≡ db'.jobs = ground arith in
      let (j, j', f, w, o, ended) = fail_lease-Ended looks_secret l failure d db mid q in
      let (key, column) =
        lease_columns-fields k i.attempt i.lease_owner i.lease_acquired_at i.lease_expires_at l p in
      let (expiry, expired) = expiry-owned j l at i.lease_expires_at column (ground arith) o in
      (
        j,
        j',
        subst (λ x. find x db.jobs ≡ some j) key f,
        subst (λ x. db'.jobs ≡ put x j' db.jobs) key (sym same ∙ w),
        record {
          expired_at = l.expires_at;
          expiry = expiry;
          expired = expired;
          disposition = d;
          ended = ended;
        },
      )

  -- What became of one row: nothing, or its lease had run out and was failed.
  abbrev pub Treated : ℕ → Key → JobRow → Database → Type 0
  Treated at k j db = (j' : JobRow) × (find k db.jobs ≡ some j') × ((j' ≡ j) ⊎ Recovered at j j')

  pub put-treated :
      (at : ℕ) (k i : Key) (j old new : JobRow) (db db' : Database)
      → find i db.jobs ≡ some old
      → db'.jobs ≡ put i new db.jobs
      → Recovered at old new
      → find k db.jobs ≡ some j
      → ((same_key i k ≡ true) × (find k db'.jobs ≡ some new) × Recovered at j new)
        ⊎ ((same_key i k ≡ false) × (find k db'.jobs ≡ some j))
  put-treated at k i j old new db db' g w r f = elim (Bool-cases (same_key i k)) [
    | inl s ↦
        let key = same_key-eq i k s in
        let this : old ≡ j = cc (g, f, key) in
        inl (
          s,
          subst (λ t. find k t ≡ some new) (sym w)
              (subst (λ x. find k (put x new db.jobs) ≡ some new) (sym key)
                (find-put_self k new db.jobs)),
          subst (λ (x : JobRow). Recovered at x new) this r,
        )
    | inr n ↦ inr (n, subst (λ t. find k t ≡ some j) (sym w) (find-put_ne i k new db.jobs n ∙ f))
  ]

  pub recover_all-rows :
      (at : ℕ) (t : Table JobRow) (s s' : RecoverySummary) (db db' : Database)
      → AllExpired at t
      → recover_all looks_secret at t s db ≡ ok (s', db')
      → (k : Key) (j : JobRow) → find k db.jobs ≡ some j
      → Treated at k j db'
  unfolding recover_all
  recover_all-rows at [] s s' db db' x e k j f =
      let same : db ≡ db' = ground arith in
      (j, subst (λ (y : Database). find k y.jobs ≡ some j) same f, inl refl)
  recover_all-rows at ((i, r) ∷ t) s s' db db' (x, xs) e k j f =
      let ((s₁, mid), p, e₁) =
        bind-ok (recover_lease looks_secret at (lease_of_row i r) s db) _ e in
      let (old, new, g, w, rec) =
        recover_lease-row at i r (lease_of_row i r) s s₁ db mid x refl p in
      let rest = recover_all-rows at t s₁ s' mid db' xs e₁ k in
      elim (put-treated at k i j old new db mid g w rec f) [
        | inl (_, h, done) ↦
            let (j', h', either) = rest new h in
            (
              j',
              h',
              inr (elim either [
                | inl same ↦ subst (λ (y : JobRow). Recovered at j y) (sym same) done
                | inr twice ↦ absurd (Recovered-apart at j new j' done twice)
              ]),
            )
        | inr (_, h) ↦ rest j h
      ]
