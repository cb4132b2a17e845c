-- ===== src/Sandbox/Bounds.antt =====
-- How much an attempt can ask of the provider, and what it gives.
pub mod Attempt
use reproforge.Base.{
  ℕ, zero, suc, ◌+◌, ◌*◌, ◌≤◌, String, Bool, true, false, ◌&&◌, ◌≡◌, refl, sym, ◌∙◌, ap, subst, inl,
  inr, Option, none, some, List, [], ◌∷◌, ◌++◌, length, length-append, Outcome, ok, err, Bool-cases,
  Option-cases, arith, leb,
}
use reproforge.Durable.Records.{is_opaque_id}
use reproforge.Sandbox.{
  LifecycleCode, provider_interrupted, Session, Surroundings, Progress, beginning, aborted_code,
  add_quarantine, was_stopped, stop_with, prepared, RunError, interruption, exhaustion, lifecycle,
  unknown, judge, Round, value, again, ended, AttemptError, RunResult, cleanup_session, called,
  retried, created_session, with_session, use_session, after_round, after_failure, after_creation,
  unless_aborted, run_rounds, after_run, run_all, taken, after_snapshot, attempt_body, delete_with,
  delete_snapshots, finish_attempt, concluded, execute_attempt,
}

-- A result has a value for each run.
abbrev pub HasValues {ℓ} : {V : Type ℓ} → ℕ → Outcome LifecycleCode (List V) → Type 0
HasValues n (ok values) = length values ≡ n
HasValues n (err code) = Unit

-- From one state to another at most so many sessions are created and so many retries are made.
pub record Within (sessions retries : ℕ) (s t : Progress) : Type 0 where
  pub created : length t.created ≤ length s.created + sessions
  pub retried : t.provider_retries ≤ s.provider_retries + retries

stop_with-same :
    (a : String) (session : Session) (done : Bool) (s : Progress)
    → ((stop_with a session done s).created ≡ s.created)
      × ((stop_with a session done s).provider_retries ≡ s.provider_retries)
unfolding add_quarantine
stop_with-same a session true s = (refl, refl)
stop_with-same a session false s = (refl, refl)

module _ {ℓ} {V : Type ℓ} (world : Surroundings V) (a : String) where
  pub cleanup_session-same :
      (session : Session) (s : Progress)
      → ((cleanup_session world a session s).created ≡ s.created)
        × ((cleanup_session world a session s).provider_retries ≡ s.provider_retries)
  unfolding cleanup_session
  cleanup_session-same session s = elim (Bool-cases (was_stopped session.number s.stopped)) [
    | inl y ↦ rw y (refl, refl)
    | inr n ↦ rw n (stop_with-same a session (world.stops s.calls) s)
  ]

  use_session-Within :
      (left index : ℕ) (id : String) (s : Progress)
      → Within 1 0 s (use_session world a left index id s).1
  unfolding use_session
  use_session-Within left index id s =
      let new = created_session world a s id in
      let (c, r) = cleanup_session-same new (called world a (with_session world a s id)) in
      record {
        created = omega (arith, ap length c, length-append {0} s.created (new ∷ []));
        retried = omega (arith, r);
      }

  -- What the next rounds of a run with `left` retries may take.
  abbrev Next : ℕ → (Progress → Outcome LifecycleCode V × Progress) → Type 0
  Next zero next = Unit {0}
  Next (suc left) next = (t : Progress) → Within (left + 1) left t (next t).1

  -- A round with no retry left does not ask for another.
  abbrev IsAllowed : ℕ → Round V → Type 0
  IsAllowed zero again = ⊥
  IsAllowed zero (value v) = Unit {0}
  IsAllowed zero (ended code) = Unit {0}
  IsAllowed (suc left) r = Unit {0}

  judge-IsAllowed :
      (left : ℕ) (o : Option LifecycleCode) (result : Outcome RunError V)
      → IsAllowed left (judge world a left o result)
  judge-IsAllowed (suc left) o result = tt
  judge-IsAllowed zero (some code) result = tt
  judge-IsAllowed zero none (ok v) = tt
  judge-IsAllowed zero none (err interruption) = tt
  judge-IsAllowed zero none (err exhaustion) = tt
  judge-IsAllowed zero none (err (lifecycle code)) = tt
  judge-IsAllowed zero none (err unknown) = tt

  after_round-Within :
      (left : ℕ) (r : Round V) (s t : Progress)
      (next : Progress → Outcome LifecycleCode V × Progress)
      → IsAllowed left r
      → Next left next
      → Within 1 0 s t
      → Within (left + 1) left s (after_round world a (r, t) next).1
  after_round-Within left (value v) s t next y h w = record {
    created = omega (arith, w.created);
    retried = omega (arith, w.retried);
  }
  after_round-Within left (ended code) s t next y h w = record {
    created = omega (arith, w.created);
    retried = omega (arith, w.retried);
  }
  after_round-Within zero again s t next y h w = absurd y
  after_round-Within (suc left) again s t next y h w =
      let k = h (retried world a t) in
      record {
        created = omega (arith, w.created, k.created);
        retried = omega (arith, w.retried, k.retried);
      }

  after_failure-Within :
      (left : ℕ) (o : Option LifecycleCode) (s : Progress)
      (next : Progress → Outcome LifecycleCode V × Progress)
      → Next left next
      → Within (left + 1) left s (after_failure world a left o s next).1
  after_failure-Within left (some code) s next h = record {
    created = omega arith;
    retried = omega arith;
  }
  after_failure-Within zero none s next h = record { created = omega arith; retried = omega arith }
  after_failure-Within (suc left) none s next h =
      let w = h (retried world a s) in
      record { created = omega (arith, w.created); retried = omega (arith, w.retried) }

  after_creation-Within :
      (left index : ℕ) (o : Option String) (s : Progress)
      (next : Progress → Outcome LifecycleCode V × Progress)
      → Next left next
      → Within (left + 1) left s (after_creation world a left index o s next).1
  unfolding after_creation use_session
  after_creation-Within left index (some id) s next h =
      let ran = called world a (with_session world a s id) in
      after_round-Within left
        (judge world a left (aborted_code (world.signal ran.calls))
          (world.runs index (with_session world a s id).calls))
        s (cleanup_session world a (created_session world a s id) ran) next
        (judge-IsAllowed left (aborted_code (world.signal ran.calls))
          (world.runs index (with_session world a s id).calls))
        h (use_session-Within left index id s)
  after_creation-Within left index none s next h =
      let w =
        after_failure-Within left (aborted_code (world.signal (s.calls + 1))) (called world a s)
          next h in
      record { created = w.created; retried = w.retried }

  unless_aborted-Within {κ} :
      {W : Type κ} (sessions retries : ℕ) (o : Option LifecycleCode) (s : Progress)
      (rest : Outcome LifecycleCode W × Progress)
      → Within sessions retries s rest.1
      → Within sessions retries s (unless_aborted world a o s rest).1
  unless_aborted-Within sessions retries (some code) s rest w = record {
    created = omega arith;
    retried = omega arith;
  }
  unless_aborted-Within sessions retries none s rest w = w

  run_rounds-Within :
      (left index : ℕ) (s : Progress) → Within (left + 1) left s (run_rounds world a left index s).1
  unfolding run_rounds
  run_rounds-Within zero index s =
      unless_aborted-Within 1 0 (aborted_code (world.signal s.calls)) s
        (after_creation world a zero index (world.creates s.calls) s
          (λ t. (err provider_interrupted, t)))
        (after_creation-Within zero index (world.creates s.calls) s
          (λ t. (err provider_interrupted, t)) tt)
  run_rounds-Within (suc left) index s =
      unless_aborted-Within (suc left + 1) (suc left) (aborted_code (world.signal s.calls)) s
        (after_creation world a (suc left) index (world.creates s.calls) s
          (run_rounds world a left index))
        (after_creation-Within (suc left) index (world.creates s.calls) s
          (run_rounds world a left index) (λ t. run_rounds-Within left index t))

  after_run-Within :
      (c r x y n : ℕ) (result : Outcome LifecycleCode V) (s t : Progress)
      (next : V → Progress → Outcome LifecycleCode (List V) × Progress)
      → Within c r s t
      → ((v : V) → Within x y t (next v t).1 × HasValues n (next v t).0)
      → Within (c + x) (r + y) s (after_run world a (result, t) next).1
        × HasValues n (after_run world a (result, t) next).0
  after_run-Within c r x y n (ok v) s t next w h =
      let (k, values) = h v in
      (
        record {
          created = omega (arith, w.created, k.created);
          retried = omega (arith, w.retried, k.retried);
        },
        values,
      )
  after_run-Within c r x y n (err code) s t next w h =
      (record { created = omega (arith, w.created); retried = omega (arith, w.retried) }, tt)

  pub run_all-Within :
      (retries n index : ℕ) (values : List V) (s : Progress)
      → Within (n * (retries + 1)) (n * retries) s (run_all world a retries n index values s).1
        × HasValues (length values + n) (run_all world a retries n index values s).0
  unfolding run_all
  run_all-Within retries zero index values s =
      (record { created = omega arith; retried = omega arith }, omega arith)
  run_all-Within retries (suc n) index values s =
      let next =
        λ (v : V) (t : Progress). run_all world a retries n (index + 1) (values ++ v ∷ []) t in
      let ran = run_rounds world a retries index s in
      let (w, given) =
        after_run-Within (retries + 1) retries (n * (retries + 1)) (n * retries)
          (length values + suc n) ran.0 s ran.1 next (run_rounds-Within retries index s)
          (λ v.
            let (k, g) = run_all-Within retries n (index + 1) (values ++ v ∷ []) ran.1 in
            (
              k,
              subst (λ (m : ℕ). HasValues m (next v ran.1).0)
                  (omega (arith, length-append {ℓ} values (v ∷ []))) g,
            )) in
      (record { created = grind (arith, w.created); retried = grind (arith, w.retried) }, given)
