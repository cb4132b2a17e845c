-- ===== src/Sandbox/Bounds/Attempt.antt =====
-- The bounds of a whole attempt.
use reproforge.Base.{
  ℕ, ◌+◌, ◌*◌, ◌≤◌, String, Bool, true, false, ◌&&◌, ◌≡◌, refl, sym, ◌∙◌, ap, subst, inl, inr,
  Option, none, some, List, [], ◌∷◌, length, Outcome, ok, err, Bool-cases, Option-cases, arith, leb,
}
use reproforge.Durable.Records.{is_opaque_id}
use reproforge.Sandbox.{
  LifecycleCode, Session, Surroundings, Progress, beginning, aborted_code, add_quarantine, prepared,
  AttemptError, RunResult, cleanup_session, run_all, taken, after_snapshot, attempt_body,
  delete_with, delete_snapshots, finish_attempt, concluded, execute_attempt,
}
use reproforge.Sandbox.Bounds.{HasValues, Within, cleanup_session-same, run_all-Within}

-- The cleanup asks for nothing more.
module _ {ℓ} {V : Type ℓ} (world : Surroundings V) (a : String) where
  delete_with-same :
      (id : String) (done : Bool) (s : Progress)
      → ((delete_with world a id done s).created ≡ s.created)
        × ((delete_with world a id done s).provider_retries ≡ s.provider_retries)
  unfolding add_quarantine
  delete_with-same id true s = (refl, refl)
  delete_with-same id false s = (refl, refl)

  delete_snapshots-same :
      (ids : List String) (s : Progress)
      → ((delete_snapshots world a ids s).created ≡ s.created)
        × ((delete_snapshots world a ids s).provider_retries ≡ s.provider_retries)
  unfolding delete_snapshots
  delete_snapshots-same [] s = (refl, refl)
  delete_snapshots-same (id ∷ ids) s =
      let (c, r) = delete_with-same id (world.deletes s.calls) s in
      let (c', r') = delete_snapshots-same ids (delete_with world a id (world.deletes s.calls) s) in
      (c' ∙ c, r' ∙ r)

  finish_attempt-same :
      (session : Session) (s : Progress)
      → ((finish_attempt world a session s).created ≡ s.created)
        × ((finish_attempt world a session s).provider_retries ≡ s.provider_retries)
  unfolding finish_attempt
  finish_attempt-same session s =
      let t = cleanup_session world a session s in
      let (c, r) = cleanup_session-same world a session s in
      let (c', r') = delete_snapshots-same t.snapshots t in (c' ∙ c, r' ∙ r)

  after_snapshot-Within :
      (retries n : ℕ) (session : Session) (o : Option String) (s : Progress)
      → Within (n * (retries + 1)) (n * retries) s (after_snapshot world a retries n session o s).1
        × HasValues n (after_snapshot world a retries n session o s).0
  unfolding after_snapshot
  after_snapshot-Within retries n session (some id) s =
      let t = cleanup_session world a session (taken world a id s) in
      let (c, r) = cleanup_session-same world a session (taken world a id s) in
      let (w, g) = run_all-Within world a retries n 0 [] t in
      (
        record {
          created = omega (arith, w.created, ap length c);
          retried = omega (arith, w.retried, r);
        },
        subst (λ (m : ℕ). HasValues m (run_all world a retries n 0 [] t).0) (omega arith) g,
      )
  after_snapshot-Within retries n session none s =
      elim (Option-cases (aborted_code (world.signal (s.calls + 1)))) [
        | inl quiet_now ↦ rw quiet_now (record { created = omega arith; retried = omega arith }, tt)
        | inr (code, now) ↦ rw now (record { created = omega arith; retried = omega arith }, tt)
      ]

  attempt_body-Within :
      (retries n : ℕ) (session : Session) (s : Progress)
      → Within (n * (retries + 1)) (n * retries) s (attempt_body world a retries n session s).1
        × HasValues n (attempt_body world a retries n session s).0
  unfolding attempt_body
  attempt_body-Within retries n session s =
      elim (Option-cases (aborted_code (world.signal s.calls))) [
        | inl quiet_now ↦
            rw quiet_now (after_snapshot-Within retries n session (world.takes_snapshot s.calls) s)
        | inr (code, now) ↦ rw now (record { created = omega arith; retried = omega arith }, tt)
      ]

-- A result has a value for each run, and tells the retries that were made.
abbrev pub IsComplete {ℓ} :
    {V : Type ℓ} → ℕ → Progress → Outcome AttemptError (RunResult V) → Type 0
IsComplete n s (ok r) = (length r.values ≡ n) × (r.provider_retries ≡ s.provider_retries)
IsComplete n s (err e) = Unit

module _ {ℓ} {V : Type ℓ} (world : Surroundings V) (a : String) where
  concluded-IsComplete :
      (n : ℕ) (result : Outcome LifecycleCode (List V)) (s : Progress)
      → HasValues n result
      → ((concluded world a result s).1 ≡ s) × IsComplete n s (concluded world a result s).0
  concluded-IsComplete n (ok values) s h = (refl, (h, refl))
  concluded-IsComplete n (err code) s h = (refl, tt)

  -- Whatever the provider, the runs and the signal do, an attempt of `n` runs with so many retries
  -- each creates at most `n * (retries + 1)` sessions beside the prepared one, makes at most
  -- `n * retries` retries, and if it gives a result, then with one value for each run and the
  -- number of retries that were made.
  pub execute_attempt-bounds :
      (retries n : ℕ) (sandbox_id : String)
      → (length (execute_attempt world a retries n sandbox_id).1.created ≤ n * (retries + 1))
        × ((execute_attempt world a retries n sandbox_id).1.provider_retries ≤ n * retries)
        × IsComplete n
            (execute_attempt world a retries n sandbox_id).1
            (execute_attempt world a retries n sandbox_id).0
  unfolding execute_attempt
  execute_attempt-bounds retries n sandbox_id =
      elim (Bool-cases (is_opaque_id a && leb 1 n && leb n 6)) [
        | inr bad ↦ rw bad (omega arith, omega arith, tt)
        | inl good ↦
            let p = prepared sandbox_id in
            let body = attempt_body world a retries n p beginning in
            let done = finish_attempt world a p body.1 in
            let (w, values) = attempt_body-Within world a retries n p beginning in
            let (c, r) = finish_attempt-same world a p body.1 in
            let (same, complete) = concluded-IsComplete n body.0 done values in
            rw good (
              omega (arith, w.created, ap length c, ap (λ (x : Progress). length x.created) same),
              omega (arith, w.retried, r, ap (λ (x : Progress). x.provider_retries) same),
              subst (λ (x : Progress). IsComplete n x (concluded world a body.0 done).0) (sym same)
                  complete,
            )
      ]
