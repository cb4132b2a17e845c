-- ===== src/Quota/Limit.antt =====
-- The ledger keeps every tenant within its limits.
use reproforge.Base.{
  ℕ, ◌+◌, ◌≤◌, ◌≡◌, refl, sym, subst, String, Bool, true, ◌&&◌, Option, none, some, List, [], ◌∷◌,
  ◌++◌, map, ok, require, bind-ok, leb, eq_iff, arith, ◌⊎◌, inl, inr, Bool-cases,
}
use reproforge.Domain.Run.{max_safe_integer}
use reproforge.Durable.Table.{Table, find}
use reproforge.Durable.Rows.{
  JobRow, QuotaResource, active_jobs, artifact_bytes, cpu_milliseconds, exports, QuotaRow,
}
use reproforge.Durable.Records.{schema_rejected}
use reproforge.Durable.Writes.{release_row}
use reproforge.Quota.{
  QuotaReservation, is_reservation, same_resource, is_of, charge, usage, expire_row,
  reservation_row, insert_reservation, reserve_quota, commit_row, commit_quota, released_row,
  release_quota, release_for_job,
}

module _ (tenant_id : String) (resource : QuotaResource) where
  usage-map :
      (now : ℕ) (f : QuotaRow → QuotaRow) (qs : List QuotaRow)
      → ((q : QuotaRow) → charge tenant_id resource now (f q) ≤ charge tenant_id resource now q)
      → usage tenant_id resource now (map f qs) ≤ usage tenant_id resource now qs
  unfolding usage
  usage-map now f [] le = omega arith
  usage-map now f (q ∷ qs) le = omega (arith, le q, usage-map now f qs le)

  usage-append :
      (now : ℕ) (qs : List QuotaRow) (q : QuotaRow)
      → usage tenant_id resource now (qs ++ q ∷ [])
        ≡ usage tenant_id resource now qs + charge tenant_id resource now q
  unfolding usage
  usage-append now [] q = omega arith
  usage-append now (p ∷ qs) q = omega (arith, usage-append now qs q)

  charge-later :
      (now later : ℕ) (q : QuotaRow)
      → now ≤ later
      → charge tenant_id resource later q ≤ charge tenant_id resource now q
  charge-later now later q t = ground arith

  usage-later :
      (now later : ℕ) (qs : List QuotaRow)
      → now ≤ later
      → usage tenant_id resource later qs ≤ usage tenant_id resource now qs
  unfolding usage
  usage-later now later [] t = omega arith
  usage-later now later (q ∷ qs) t =
      omega (arith, charge-later now later q t, usage-later now later qs t)

  expire-charge :
      (t : String) (r : QuotaResource) (at now : ℕ) (q : QuotaRow)
      → charge tenant_id resource now (expire_row t r at q) ≤ charge tenant_id resource now q
  expire-charge t r at now q = ground arith

  commit-charge :
      (t i : String) (actual at now : ℕ) (q : QuotaRow)
      → charge tenant_id resource now (commit_row t i actual at q) ≤ charge tenant_id resource now q
  commit-charge t i actual at now q = ground arith

  released-charge :
      (t i : String) (at now : ℕ) (q : QuotaRow)
      → charge tenant_id resource now (released_row t i at q) ≤ charge tenant_id resource now q
  released-charge t i at now q = ground arith

  release-charge :
      (t i : String) (at now : ℕ) (q : QuotaRow)
      → charge tenant_id resource now (release_row t i at q) ≤ charge tenant_id resource now q
  release-charge t i at now q = ground arith

same_resource-eq : (a b : QuotaResource) → same_resource a b ≡ true → a ≡ b
same_resource-eq active_jobs active_jobs e = refl
same_resource-eq artifact_bytes artifact_bytes e = refl
same_resource-eq cpu_milliseconds cpu_milliseconds e = refl
same_resource-eq exports exports e = refl
same_resource-eq a b e = absurd (cc e)

insert-kinds :
    (r : QuotaReservation) (j : JobRow) (b : Bool) (live ledger' : List QuotaRow)
    → insert_reservation r (some j) live ≡ ok (b, ledger')
    → (ledger' ≡ live) ⊎ (ledger' ≡ live ++ reservation_row r j ∷ [])
unfolding insert_reservation
insert-kinds r j b live ledger' e = ground arith

module _ (limits : QuotaResource → ℕ) where
  -- No tenant uses more of a resource than the limit.
  abbrev pub WithinLimits : ℕ → List QuotaRow → Type 0
  WithinLimits now ledger =
      (tenant_id : String) (resource : QuotaResource)
      → usage tenant_id resource now ledger ≤ limits resource

  -- The new row is charged to its own tenant and resource alone.
  reservation-charge :
      (r : QuotaReservation) (j : JobRow) (t : String) (s : QuotaResource) (now : ℕ)
      → (charge t s now (reservation_row r j) ≡ 0)
        ⊎ ((r.tenant_id ≡ t) × (r.resource ≡ s) × (charge t s now (reservation_row r j) ≤ r.amount))
  reservation-charge r j t s now = elim (Bool-cases (is_of t s (reservation_row r j))) [
    | inr n ↦ inl (ground arith)
    | inl e ↦ inr (
      (eq_iff r.tenant_id t).0 (ground arith),
      same_resource-eq r.resource s (ground arith),
      ground arith,
    )
  ]

  insert-within :
      (r : QuotaReservation) (o : Option JobRow) (now : ℕ) (b : Bool) (live ledger' : List QuotaRow)
      → WithinLimits now live
      → usage r.tenant_id r.resource now live + r.amount ≤ limits r.resource
      → insert_reservation r o live ≡ ok (b, ledger')
      → WithinLimits now ledger'
  unfolding insert_reservation
  insert-within r none now b live ledger' w room e = subst (WithinLimits now) (ground arith) w
  insert-within r (some j) now b live ledger' w room e = elim (insert-kinds r j b live ledger' e) [
    | inl same ↦ subst (WithinLimits now) (sym same) w
    | inr grown ↦ subst (WithinLimits now) (sym grown) (λ t s.
        let base = w t s in
        let sum = usage-append t s now live (reservation_row r j) in
        elim (reservation-charge r j t s now) [
          | inl free ↦ omega (arith, base, sum, free)
          | inr (p, q, c) ↦
              let here : usage t s now live + r.amount ≤ limits s =
                subst (λ x. usage x s now live + r.amount ≤ limits s) p
                  (subst (λ x. usage r.tenant_id x now live + r.amount ≤ limits x) q room) in
              omega (arith, sum, c, here)
        ])
  ]

  reserve_quota-within :
      (r : QuotaReservation) (now : ℕ) (jobs : Table JobRow) (b : Bool)
      (ledger ledger' : List QuotaRow)
      → WithinLimits now ledger
      → reserve_quota limits r now jobs ledger ≡ ok (b, ledger')
      → WithinLimits now ledger'
  unfolding reserve_quota
  reserve_quota-within r now jobs b ledger ledger' w e =
      let (_, p, e₁) = bind-ok (require (is_reservation r) schema_rejected) _ e in
      let live = map (expire_row r.tenant_id r.resource now) ledger in
      let w' : WithinLimits now live = λ t s. omega (
        arith,
        w t s,
        usage-map t s now (expire_row r.tenant_id r.resource now) ledger
            (expire-charge t s r.tenant_id r.resource now now),
      ) in
      let used = usage r.tenant_id r.resource now live in
      elim (Bool-cases (leb used max_safe_integer && leb (used + r.amount) (limits r.resource))) [
        | inl room ↦
            insert-within r (find (record { tenant = r.tenant_id; id = r.job_id }) jobs) now b live
              ledger' w' (ground arith) (rw room at e₁)
        | inr full ↦ subst (WithinLimits now) (ground arith) w'
      ]

  -- The operations on the ledger, with the times at which they run, and the passing of time.
  pub data QuotaRuns : ℕ → List QuotaRow → ℕ → List QuotaRow → Type 0 where
    start : (now : ℕ) (ledger : List QuotaRow) → QuotaRuns now ledger now ledger
    wait :
        (t now later : ℕ) (l ledger : List QuotaRow)
        → QuotaRuns t l now ledger
        → now ≤ later
        → QuotaRuns t l later ledger
    book :
        (r : QuotaReservation) (jobs : Table JobRow) (b : Bool) (t now : ℕ)
        (l ledger ledger' : List QuotaRow)
        → QuotaRuns t l now ledger
        → reserve_quota limits r now jobs ledger ≡ ok (b, ledger')
        → QuotaRuns t l now ledger'
    commit :
        (tenant_id id : String) (actual t now : ℕ) (l ledger ledger' : List QuotaRow)
        → QuotaRuns t l now ledger
        → commit_quota tenant_id id actual now ledger ≡ ok ledger'
        → QuotaRuns t l now ledger'
    release :
        (tenant_id id : String) (t now : ℕ) (l ledger ledger' : List QuotaRow)
        → QuotaRuns t l now ledger
        → release_quota tenant_id id now ledger ≡ ok ledger'
        → QuotaRuns t l now ledger'
    release_job :
        (tenant_id job_id : String) (at n t now : ℕ) (l ledger ledger' : List QuotaRow)
        → QuotaRuns t l now ledger
        → release_for_job tenant_id job_id at ledger ≡ ok (n, ledger')
        → QuotaRuns t l now ledger'

  map-within :
      (now : ℕ) (f : QuotaRow → QuotaRow) (ledger ledger' : List QuotaRow)
      → ((t : String) (s : QuotaResource) (q : QuotaRow) → charge t s now (f q) ≤ charge t s now q)
      → ledger' ≡ map f ledger
      → WithinLimits now ledger
      → WithinLimits now ledger'
  map-within now f ledger ledger' le e w =
      subst (WithinLimits now) (sym e)
        (λ t s. omega (arith, w t s, usage-map t s now f ledger (le t s)))

  commit-map :
      (t i : String) (actual now : ℕ) (l l' : List QuotaRow)
      → commit_quota t i actual now l ≡ ok l'
      → l' ≡ map (commit_row t i actual now) l
  unfolding commit_quota
  commit-map t i actual now l l' e = ground arith

  release-map :
      (t i : String) (now : ℕ) (l l' : List QuotaRow)
      → release_quota t i now l ≡ ok l'
      → l' ≡ map (released_row t i now) l
  unfolding release_quota
  release-map t i now l l' e = ground arith

  release_job-map :
      (t i : String) (at n : ℕ) (l l' : List QuotaRow)
      → release_for_job t i at l ≡ ok (n, l')
      → l' ≡ map (release_row t i at) l
  unfolding release_for_job
  release_job-map t i at n l l' e = ground arith

  -- From a ledger within the limits, whatever reservations, commitments and releases follow, and
  -- however much time passes, no tenant ever uses more of a resource than the limit.
  pub usage-bounded :
      (t now : ℕ) (l ledger : List QuotaRow)
      → QuotaRuns t l now ledger
      → WithinLimits t l
      → WithinLimits now ledger
  usage-bounded _ _ _ _ (start now ledger) w = w
  usage-bounded _ _ _ _ (wait t now later l ledger runs time) w =
      let before = usage-bounded t now l ledger runs w in
      λ x s. omega (arith, before x s, usage-later x s now later ledger time)
  usage-bounded _ _ _ _ (book r jobs b t now l ledger ledger' runs e) w =
      reserve_quota-within r now jobs b ledger ledger' (usage-bounded t now l ledger runs w) e
  usage-bounded _ _ _ _ (commit x i actual t now l ledger ledger' runs e) w =
      map-within now (commit_row x i actual now) ledger ledger'
        (λ y s q. commit-charge y s x i actual now now q)
        (commit-map x i actual now ledger ledger' e) (usage-bounded t now l ledger runs w)
  usage-bounded _ _ _ _ (release x i t now l ledger ledger' runs e) w =
      map-within now (released_row x i now) ledger ledger'
        (λ y s q. released-charge y s x i now now q) (release-map x i now ledger ledger' e)
        (usage-bounded t now l ledger runs w)
  usage-bounded _ _ _ _ (release_job x i at n t now l ledger ledger' runs e) w =
      map-within now (release_row x i at) ledger ledger' (λ y s q. release-charge y s x i at now q)
        (release_job-map x i at n ledger ledger' e) (usage-bounded t now l ledger runs w)
