-- ===== src/Consumer/Progress/Claimed.antt =====
-- A lease that was just claimed can be given up.
use reproforge.Base.{
  ℕ, ◌+◌, ◌*◌, String, Bool, true, false, ◌&&◌, ◌≡◌, refl, sym, subst, inl, inr, Option, none, some,
  Outcome, ok, require, require-ok, bind-ok, Bool-cases, arith, eq_iff, ◌===◌, ◌==◌, leb,
}
use reproforge.Domain.Job.{is_some, JobState-discrete}
use reproforge.Durable.Table.{find}
use reproforge.Durable.Rows.{JobRow, CaseRow, Database}
use reproforge.Durable.Records.{DurableError, schema_rejected, optimistic_conflict, is_failure_code}
use reproforge.Durable.Writes.{write_job, write_case, advance_case_version}
use reproforge.Durable.Lease.{
  JobLease, is_lease, owns, lease_key, ClaimInput, is_claimable, lease_of, claimed_row, claim_key,
  claim_row, claim_found, claim_lease,
}
use reproforge.Durable.Cancel.{is_cancellation_requested}
use reproforge.Durable.Finish.{settle, fail_lease}
use reproforge.Durable.Effects.{find-put_self, cases-write_case}
use reproforge.Durable.Steps.{case_of}
use reproforge.Outbox.Publisher.{delay_seconds}
use reproforge.Consumer.{retry_at, worker_failure, failure_at}
use reproforge.Consumer.Progress.{fail_lease-returns}

is_code :
    (code name : String)
    → (code === name) ≡ true
    → is_failure_code name ≡ true
    → is_failure_code code ≡ true
is_code code name e h =
    subst (λ (x : String). is_failure_code x ≡ true) (sym ((eq_iff code name).0 e)) h

-- Every code that the consumer reports is one that the store accepts.
worker_failure-code : (code : String) → is_failure_code (worker_failure code).code ≡ true
unfolding worker_failure is_failure_code
worker_failure-code code = elim (Bool-cases (code === "BUDGET_EXHAUSTED")) [
  | inl e ↦ rw e (is_code code "BUDGET_EXHAUSTED" e refl)
  | inr a ↦ elim (Bool-cases (code === "CANCELLED")) [
    | inl e ↦ rw a (rw e (is_code code "CANCELLED" e refl))
    | inr b ↦ elim (Bool-cases (code === "UNSUPPORTED_SOURCE")) [
      | inl e ↦ rw a (rw b (rw e (is_code code "UNSUPPORTED_SOURCE" e refl)))
      | inr c ↦ elim (Bool-cases (code === "EXECUTION_FAILED")) [
        | inl e ↦ rw a (rw b (rw c (rw e (is_code code "EXECUTION_FAILED" e refl))))
        | inr d ↦ elim (Bool-cases (code === "PROVIDER_INTERRUPTED")) [
          | inl e ↦ rw a (rw b (rw c (rw d (rw e (is_code code "PROVIDER_INTERRUPTED" e refl)))))
          | inr f ↦ rw a (rw b (rw c (rw d (rw f refl))))
        ]
      ]
    ]
  ]
]

-- What a claim leaves: the lease is in order, and the case was advanced at the time of the claim.
record Leaves (input : ClaimInput) (l : JobLease) (j : JobRow) (db' : Database) : Type 0 where
  lease_ok : is_lease l ≡ true
  case_row : CaseRow
  case_found : find (case_of (claim_key input) j) db'.cases ≡ some case_row
  case_version : (case_row.version == j.version + 1) ≡ true
  case_time : case_row.updated_at ≡ input.at

claim_row-Leaves :
    (input : ClaimInput) (j : JobRow) (l : JobLease) (db db' : Database)
    → claim_row input j db ≡ ok (some l, db')
    → Leaves input l j db'
unfolding claim_row advance_case_version
claim_row-Leaves input j l db db' e =
    let k = claim_key input in
    let change : CaseRow → CaseRow =
      λ c. record c { version = c.version + 1; updated_at = input.at } in
    let (db₁, w, e₁) = bind-ok (write_job k j (claimed_row input j) db) _ e in
    let (db₂, a, e₂) =
      bind-ok (write_case (case_of k j) j.version change optimistic_conflict db₁) _ e₁ in
    let (_, r, e₃) = bind-ok (require (is_lease (lease_of input j)) schema_rejected) _ e₂ in
    let (c, p, v, q) =
      cases-write_case (case_of k j) j.version change optimistic_conflict db₁ db₂ a in
    let done : db₂ ≡ db' = ground arith in
    let lease : lease_of input j ≡ l = ground arith in
    let met : is_lease (lease_of input j) ≡ true =
      require-ok (is_lease (lease_of input j)) schema_rejected r in
    record {
      lease_ok = subst (λ (x : JobLease). is_lease x ≡ true) lease met;
      case_row = change c;
      case_found =
          subst (λ (x : Database). find (case_of k j) x.cases ≡ some (change c)) done
            (subst (λ t. find (case_of k j) t ≡ some (change c)) (sym q)
              (find-put_self (case_of k j) (change c) db₁.cases));
      case_version = ground arith;
      case_time = refl;
    }

claim_found-Leaves :
    (input : ClaimInput) (j : JobRow) (l : JobLease) (o : Option JobRow) (db db' : Database)
    → o ≡ some j
    → claim_found input o db ≡ ok (some l, db')
    → Leaves input l j db'
unfolding claim_found
claim_found-Leaves input j l none db db' p e = cc
claim_found-Leaves input j l (some i) db db' p e =
    let same : i ≡ j = cc in
    elim (Bool-cases (is_claimable i input.at)) [
      | inl c ↦
          subst (λ (x : JobRow). Leaves input l x db') same
            (claim_row-Leaves input i l db db' (rw c at e))
      | inr n ↦ absurd (ground arith)
    ]

claim_lease-Leaves :
    (input : ClaimInput) (j : JobRow) (l : JobLease) (db db' : Database)
    → find (claim_key input) db.jobs ≡ some j
    → claim_lease input db ≡ ok (some l, db')
    → Leaves input l j db'
unfolding claim_lease
claim_lease-Leaves input j l db db' f e =
    claim_found-Leaves input j l (find (claim_key input) db.jobs) db db' f (ground arith)

owns-claimed :
    (input : ClaimInput) (j : JobRow) → owns (lease_of input j) (claimed_row input j) ≡ true
unfolding JobState-discrete
owns-claimed input j = ground (arith, eq_iff input.owner_id input.owner_id)

add_later : (n d : ℕ) → leb n (n + d) ≡ true
add_later n d = ground arith

retry_at-later : (now attempt : ℕ) → leb now (retry_at now attempt) ≡ true
retry_at-later now attempt = add_later now (delay_seconds attempt * 1000)

not_asked :
    (l : JobLease) (db : Database) (j : JobRow)
    → is_lease l ≡ true
    → find (lease_key l) db.jobs ≡ some j
    → owns l j ≡ true
    → is_cancellation_requested l db ≡ ok false
    → is_some j.cancellation_requested_at ≡ false
unfolding is_cancellation_requested
not_asked l db j s f o e =
    let e' : ◌≡◌ {A = Outcome DurableError Bool}
        (ok (owns l j && is_some j.cancellation_requested_at)) (ok false) =
      rw f at (rw s at e) in
    ground arith

module _ (looks_secret : String → Bool) (l : JobLease) (j : JobRow) (input : ClaimInput) (ended : ℕ)
    (code : String) where
  -- After its claim, a lease of which no cancellation is asked can always be given up.
  pub claimed_fails :
      (db db' : Database)
      → find (claim_key input) db.jobs ≡ some j
      → l ≡ lease_of input j
      → claim_lease input db ≡ ok (some l, db')
      → find (claim_key input) db'.jobs ≡ some (claimed_row input j)
      → is_cancellation_requested l db' ≡ ok false
      → leb input.at ended ≡ true
      → (db'' : Database) × (fail_lease looks_secret l (failure_at l ended code) db'
          ≡ ok (settle l (failure_at l ended code) (claimed_row input j) db''))
  claimed_fails db db' f lease e g unasked later =
      let left = claim_lease-Leaves input j l db db' f e in
      let own : owns l (claimed_row input j) ≡ true =
        subst (λ (x : JobLease). owns x (claimed_row input j) ≡ true) (sym lease)
          (owns-claimed input j) in
      let at_key : find (lease_key l) db'.jobs ≡ some (claimed_row input j) =
        subst (λ (x : JobLease). find (lease_key x) db'.jobs ≡ some (claimed_row input j))
          (sym lease) g in
      let case_at : find (case_of (lease_key l) (claimed_row input j)) db'.cases
          ≡ some left.case_row =
        subst
          (λ (x : JobLease).
            find (case_of (lease_key x) (claimed_row input j)) db'.cases ≡ some left.case_row)
          (sym lease) left.case_found in
      fail_lease-returns looks_secret l (failure_at l ended code) (claimed_row input j)
        left.case_row db' left.lease_ok
        (subst (λ (x : JobLease). leb x.acquired_at ended ≡ true) (sym lease) later)
        (retry_at-later ended l.attempt) (worker_failure-code code) at_key own
        (not_asked l db' (claimed_row input j) left.lease_ok at_key own unasked) later case_at
        left.case_version (subst (λ (x : ℕ). leb x ended ≡ true) (sym left.case_time) later)
