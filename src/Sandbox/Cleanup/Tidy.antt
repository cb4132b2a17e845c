-- ===== src/Sandbox/Cleanup/Tidy.antt =====
-- What an attempt leaves after each of its steps, once the prepared session was stopped.
use mathlib.Core.List.{map-append, append-nil}
use reproforge.Base.{
  ℕ, zero, suc, ◌+◌, ◌≤◌, String, Bool, true, false, ◌≡◌, refl, sym, ◌∙◌, ap, subst, Option, none,
  some, List, [], ◌∷◌, ◌++◌, map, All, Outcome, ok, err, arith,
}
use reproforge.Sandbox.{
  LifecycleCode, provider_interrupted, Session, Surroundings, Progress, aborted_code,
  sandbox_record, add_quarantine, was_stopped, stop_with, Round, value, again, ended,
  cleanup_session, called, retried, created_session, with_session, use_session, after_round,
  after_failure, after_creation, unless_aborted, run_rounds, after_run, run_all,
}
use reproforge.Sandbox.Cleanup.{
  failed_stops, status_of, has_session, are_different, failed_stops-append, status_of-append,
  was_stopped-session, has_session-fresh, are_different-append, All-later, All-append,
}

-- After the prepared session: each session was stopped once, in the order of their creation, and
-- what could not be stopped is in quarantine.
pub record IsTidy (a : String) (session : Session) (s : Progress) : Type 0 where
  pub stopped_all : map (λ x. x.session) s.stopped ≡ session ∷ s.created
  pub fresh : All (λ x. x.number ≤ s.calls) (session ∷ s.created)
  pub different : are_different (session ∷ s.created) ≡ true
  pub records : s.quarantine ≡ failed_stops a s.stopped
  pub status : s.cleanup_status ≡ status_of s.quarantine
  pub undeleted : s.deleted ≡ []

IsTidy-later :
    (a : String) (session : Session) (s t : Progress)
    → IsTidy a session s
    → s.calls ≤ t.calls
    → t.created ≡ s.created
    → t.stopped ≡ s.stopped
    → t.quarantine ≡ s.quarantine
    → t.cleanup_status ≡ s.cleanup_status
    → t.deleted ≡ s.deleted
    → IsTidy a session t
IsTidy-later a session s t h l c p q u d = record {
  stopped_all = ap (map (λ x. x.session)) p ∙ h.stopped_all ∙ ap (λ x. session ∷ x) (sym c);
  fresh =
      subst (λ (xs : List Session). All (λ x. x.number ≤ t.calls) (session ∷ xs)) (sym c)
        (All-later s.calls t.calls (session ∷ s.created) l h.fresh);
  different =
      subst (λ (xs : List Session). are_different (session ∷ xs) ≡ true) (sym c) h.different;
  records = q ∙ h.records ∙ ap (failed_stops a) (sym p);
  status = u ∙ h.status ∙ ap status_of (sym q);
  undeleted = d ∙ h.undeleted;
}

-- A stop that is noted, with what it adds to the quarantine.
pub stop_with-records :
    (a : String) (session : Session) (done : Bool) (s : Progress)
    → s.quarantine ≡ failed_stops a s.stopped
    → s.cleanup_status ≡ status_of s.quarantine
    → ((stop_with a session done s).quarantine
        ≡ failed_stops a (s.stopped ++ record { session = session; done = done } ∷ []))
      × ((stop_with a session done s).cleanup_status
          ≡ status_of (stop_with a session done s).quarantine)
unfolding failed_stops add_quarantine
stop_with-records a session true s r u = (
  r
      ∙ sym (append-nil (failed_stops a s.stopped))
      ∙ sym (failed_stops-append a s.stopped (record { session = session; done = true } ∷ [])),
  u,
)
stop_with-records a session false s r u = (
  ap (λ x. x ++ sandbox_record a session ∷ []) r
      ∙ sym (failed_stops-append a s.stopped (record { session = session; done = false } ∷ [])),
  sym (status_of-append s.quarantine (sandbox_record a session)),
)

pub stop_with-rest :
    (a : String) (session : Session) (done : Bool) (s : Progress)
    → ((stop_with a session done s).calls ≡ s.calls + 1)
      × ((stop_with a session done s).created ≡ s.created)
      × ((stop_with a session done s).deleted ≡ s.deleted)
      × ((stop_with a session done s).stopped
          ≡ s.stopped ++ record { session = session; done = done } ∷ [])
unfolding add_quarantine
stop_with-rest a session true s = (refl, refl, refl, refl)
stop_with-rest a session false s = (refl, refl, refl, refl)

module _ {ℓ} {V : Type ℓ} (world : Surroundings V) (a : String) (session : Session) where
  -- A session that was just created is stopped by its cleanup.
  use_session-IsTidy :
      (left index : ℕ) (sandbox_id : String) (s : Progress)
      → IsTidy a session s
      → IsTidy a session (use_session world a left index sandbox_id s).1
  unfolding use_session cleanup_session
  use_session-IsTidy left index sandbox_id s h =
      let new = created_session world a s sandbox_id in
      let ran = called world a (with_session world a s sandbox_id) in
      let unstopped : was_stopped new.number ran.stopped ≡ false =
        was_stopped-session (s.calls + 1) s.stopped
        ∙ ap (has_session (s.calls + 1)) h.stopped_all
        ∙ has_session-fresh s.calls (session ∷ s.created) h.fresh in
      let done = world.stops ran.calls in
      let (quarantine_eq, status_eq) = stop_with-records a new done ran h.records h.status in
      let (calls_eq, created_eq, deleted_eq, stopped_eq) = stop_with-rest a new done ran in
      let t = stop_with a new done ran in
      let all_calls : All (λ x. x.number ≤ s.calls + 1 + 1 + 1)
          (session ∷ (s.created ++ new ∷ [])) =
        All-append (s.calls + 1 + 1 + 1) (session ∷ s.created) new
          (All-later s.calls (s.calls + 1 + 1 + 1) (session ∷ s.created) (omega arith) h.fresh)
          (omega arith) in
      let tidy : IsTidy a session t = record {
        stopped_all =
            ap (map (λ x. x.session)) stopped_eq
            ∙ map-append (λ x. x.session) s.stopped (record { session = new; done = done } ∷ [])
            ∙ ap (λ xs. xs ++ new ∷ []) h.stopped_all
            ∙ ap (λ xs. session ∷ xs) (sym created_eq);
        fresh =
            subst (λ (n : ℕ). All (λ x. x.number ≤ n) (session ∷ t.created)) (sym calls_eq)
              (subst
                (λ (xs : List Session). All (λ x. x.number ≤ s.calls + 1 + 1 + 1) (session ∷ xs))
                (sym created_eq) all_calls);
        different =
            subst (λ (xs : List Session). are_different (session ∷ xs) ≡ true) (sym created_eq)
              (are_different-append s.calls (session ∷ s.created) new h.fresh refl h.different);
        records = quarantine_eq ∙ ap (failed_stops a) (sym stopped_eq);
        status = status_eq;
        undeleted = deleted_eq ∙ h.undeleted;
      } in
      rw unstopped tidy

  after_round-IsTidy :
      (r : Round V) (s : Progress) (next : Progress → Outcome LifecycleCode V × Progress)
      → IsTidy a session s
      → ((t : Progress) → IsTidy a session t → IsTidy a session (next t).1)
      → IsTidy a session (after_round world a (r, s) next).1
  after_round-IsTidy (value v) s next h n = h
  after_round-IsTidy (ended code) s next h n = h
  after_round-IsTidy again s next h n =
      n (retried world a s)
        (IsTidy-later a session s (retried world a s) h (omega arith) refl refl refl refl refl)

  after_failure-IsTidy :
      (left : ℕ) (o : Option LifecycleCode) (s : Progress)
      (next : Progress → Outcome LifecycleCode V × Progress)
      → IsTidy a session s
      → ((t : Progress) → IsTidy a session t → IsTidy a session (next t).1)
      → IsTidy a session (after_failure world a left o s next).1
  after_failure-IsTidy left (some code) s next h n = h
  after_failure-IsTidy zero none s next h n = h
  after_failure-IsTidy (suc left) none s next h n =
      n (retried world a s)
        (IsTidy-later a session s (retried world a s) h (omega arith) refl refl refl refl refl)

  after_creation-IsTidy :
      (left index : ℕ) (o : Option String) (s : Progress)
      (next : Progress → Outcome LifecycleCode V × Progress)
      → IsTidy a session s
      → ((t : Progress) → IsTidy a session t → IsTidy a session (next t).1)
      → IsTidy a session (after_creation world a left index o s next).1
  unfolding after_creation
  after_creation-IsTidy left index (some id) s next h n =
      after_round-IsTidy (use_session world a left index id s).0
        (use_session world a left index id s).1 next (use_session-IsTidy left index id s h) n
  after_creation-IsTidy left index none s next h n =
      after_failure-IsTidy left (aborted_code (world.signal (s.calls + 1))) (called world a s) next
        (IsTidy-later a session s (called world a s) h (omega arith) refl refl refl refl refl) n

  unless_aborted-IsTidy :
      (o : Option LifecycleCode) (s : Progress) (rest : Outcome LifecycleCode V × Progress)
      → IsTidy a session s
      → IsTidy a session rest.1
      → IsTidy a session (unless_aborted world a o s rest).1
  unless_aborted-IsTidy (some code) s rest h n = h
  unless_aborted-IsTidy none s rest h n = n

  run_rounds-IsTidy :
      (left index : ℕ) (s : Progress)
      → IsTidy a session s
      → IsTidy a session (run_rounds world a left index s).1
  unfolding run_rounds
  run_rounds-IsTidy zero index s h =
      unless_aborted-IsTidy (aborted_code (world.signal s.calls)) s
        (after_creation world a zero index (world.creates s.calls) s
          (λ t. (err provider_interrupted, t)))
        h
        (after_creation-IsTidy zero index (world.creates s.calls) s
          (λ t. (err provider_interrupted, t)) h (λ t n. n))
  run_rounds-IsTidy (suc left) index s h =
      unless_aborted-IsTidy (aborted_code (world.signal s.calls)) s
        (after_creation world a (suc left) index (world.creates s.calls) s
          (run_rounds world a left index))
        h
        (after_creation-IsTidy (suc left) index (world.creates s.calls) s
          (run_rounds world a left index) h (λ t n. run_rounds-IsTidy left index t n))

  after_run-IsTidy :
      (result : Outcome LifecycleCode V) (s : Progress)
      (next : V → Progress → Outcome LifecycleCode (List V) × Progress)
      → IsTidy a session s
      → ((v : V) (t : Progress) → IsTidy a session t → IsTidy a session (next v t).1)
      → IsTidy a session (after_run world a (result, s) next).1
  after_run-IsTidy (ok v) s next h n = n v s h
  after_run-IsTidy (err code) s next h n = h

  pub run_all-IsTidy :
      (retries n index : ℕ) (values : List V) (s : Progress)
      → IsTidy a session s
      → IsTidy a session (run_all world a retries n index values s).1
  unfolding run_all
  run_all-IsTidy retries zero index values s h = h
  run_all-IsTidy retries (suc n) index values s h =
      after_run-IsTidy (run_rounds world a retries index s).0 (run_rounds world a retries index s).1
        (λ v t. run_all world a retries n (index + 1) (values ++ v ∷ []) t)
        (run_rounds-IsTidy retries index s h)
        (λ v t k. run_all-IsTidy retries n (index + 1) (values ++ v ∷ []) t k)
