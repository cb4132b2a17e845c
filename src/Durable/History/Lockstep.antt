-- ===== src/Durable/History/Lockstep.antt =====
-- The versions of a job and of its case move together.
use reproforge.Base.{
  ◌≡◌, refl, sym, ◌∙◌, ap, subst, String, Bool, false, some, ◌⊎◌, inl, inr, Bool-cases,
}
use reproforge.Durable.Table.{Key, same_key, find}
use reproforge.Durable.Rows.{JobRow, CaseRow, Database}
use reproforge.Durable.Effects.{find-put_self, find-put_ne, same_key-eq, same_key_refl}
use reproforge.Durable.Steps.{case_of, Writes}
use reproforge.Durable.History.{RowStep, Change, same, noted, wrote, Runs, start, next, Step-Change}
use reproforge.Durable.History.Order.{RowStep-IsStep}

-- Every job has a case, the case has the version of the job, and no other job has that case.
pub record InLockstep (db : Database) : Type 0 where
  pub paired :
      (k : Key) (j : JobRow)
      → find k db.jobs ≡ some j
      → (c : CaseRow) × (find (case_of k j) db.cases ≡ some c) × (c.version ≡ j.version)
  pub alone :
      (k i : Key) (j h : JobRow)
      → find k db.jobs ≡ some j
      → find i db.jobs ≡ some h
      → case_of k j ≡ case_of i h
      → k ≡ i

module _ (i : Key) (old new : JobRow) (db db' : Database) (r : RowStep old new)
    (w : Writes i old new db db') where
  -- The row of a key after the write, with the row before it for the same case.
  found_before :
      (k : Key) (j : JobRow)
      → find k db'.jobs ≡ some j
      → (j₀ : JobRow) × (find k db.jobs ≡ some j₀)
        × (case_of k j ≡ case_of k j₀)
        × (((k ≡ i) × (j ≡ new)) ⊎ ((same_key i k ≡ false) × (j ≡ j₀)))
  found_before k j f = elim (Bool-cases (same_key i k)) [
    | inl p ↦
        let at_i = same_key-eq i k p in
        let here : find k db'.jobs ≡ some new =
          subst (λ x. find x db'.jobs ≡ some new) at_i
            (subst (λ t. find i t ≡ some new) (sym w.jobs) (find-put_self i new db.jobs)) in
        let this : j ≡ new = cc (here, f) in
        let kept = (RowStep-IsStep old new r).same_case in
        (
          old,
          subst (λ x. find x db.jobs ≡ some old) at_i w.found,
          ap (λ n. record { tenant = k.tenant; id = n })
              (ap (λ (x : JobRow). x.case_id) this ∙ kept),
          inl (sym at_i, this),
        )
    | inr n ↦ (j, cc (w.jobs, find-put_ne i k new db.jobs n, f), refl, inr (n, refl))
  ]

  alone-wrote :
      InLockstep db
      → (k h : Key) (j l : JobRow) → find k db'.jobs ≡ some j
      → find h db'.jobs ≡ some l
      → case_of k j ≡ case_of h l
      → k ≡ h
  alone-wrote s k h j l f g e =
      let (j₀, f₀, p, _) = found_before k j f in
      let (l₀, g₀, q, _) = found_before h l g in s.alone k h j₀ l₀ f₀ g₀ (sym p ∙ e ∙ q)

  -- The case of another job is another case.
  apart :
      InLockstep db
      → (k : Key) (j : JobRow) → find k db.jobs ≡ some j
      → same_key i k ≡ false
      → same_key (case_of i old) (case_of k j) ≡ false
  apart s k j f n = elim (Bool-cases (same_key (case_of i old) (case_of k j))) [
    | inr m ↦ m
    | inl p ↦
        let e = s.alone i k old j w.found f (same_key-eq (case_of i old) (case_of k j) p) in
        absurd (cc (subst (λ x. same_key i x ≡ false) (sym e) n, same_key_refl i))
  ]

  paired-wrote :
      InLockstep db
      → (k : Key) (j : JobRow) → find k db'.jobs ≡ some j
      → (c : CaseRow) × (find (case_of k j) db'.cases ≡ some c) × (c.version ≡ j.version)
  paired-wrote s k j f =
      let (j₀, f₀, p, either) = found_before k j f in
      elim either [
        | inl (at_i, this) ↦
            let kept = (RowStep-IsStep old new r).same_case in
            let key : case_of i old ≡ case_of k j = λ n. record {
              tenant = ap (λ (x : Key). x.tenant) (sym at_i) n;
              id = (sym kept ∙ ap (λ (x : JobRow). x.case_id) (sym this)) n;
            } in
            let written : find (case_of i old) db'.cases ≡ some w.case_new =
              subst (λ t. find (case_of i old) t ≡ some w.case_new) (sym w.cases)
                (find-put_self (case_of i old) w.case_new db.cases) in
            let version = (RowStep-IsStep old new r).version in
            (
              w.case_new,
              subst (λ x. find x db'.cases ≡ some w.case_new) key written,
              w.case_next ∙ sym version ∙ ap (λ (x : JobRow). x.version) (sym this),
            )
        | inr (n, this) ↦
            let (c, g, v) = s.paired k j₀ f₀ in
            let kept : find (case_of k j₀) db'.cases ≡ some c =
              subst (λ t. find (case_of k j₀) t ≡ some c) (sym w.cases)
                (find-put_ne (case_of i old) (case_of k j₀) w.case_new db.cases (apart s k j₀ f₀ n)
                  ∙ g) in
            (
              c,
              subst (λ x. find x db'.cases ≡ some c) (sym p) kept,
              v ∙ ap (λ (x : JobRow). x.version) (sym this),
            )
      ]

Change-lockstep : (db db' : Database) → Change db db' → InLockstep db → InLockstep db'
Change-lockstep _ _ (same db) s = s
Change-lockstep _ _ (noted db audits) s = record { paired = s.paired; alone = s.alone }
Change-lockstep _ _ (wrote i old new db db' r w) s = record {
  paired = paired-wrote i old new db db' r w s;
  alone = alone-wrote i old new db db' r w s;
}

module _ (looks_secret : String → Bool) where
  -- Where every job has a case of its own with the job's version, every run of claims, renewals,
  -- completions, cancellations, failures and requests leaves it so: no transaction writes one of
  -- the two rows without the other.
  pub Runs-lockstep :
      (db db' : Database) → Runs looks_secret db db' → InLockstep db → InLockstep db'
  Runs-lockstep _ _ (start db) s = s
  Runs-lockstep _ _ (next db mid db' runs step) s =
      Change-lockstep mid db' (Step-Change looks_secret mid db' step) (Runs-lockstep db mid runs s)
