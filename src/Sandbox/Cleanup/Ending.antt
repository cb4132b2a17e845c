-- ===== src/Sandbox/Cleanup/Ending.antt =====
-- The end of an attempt: the last cleanup, the deletion of the snapshot, and what the caller is told.
use mathlib.Core.List.{map-append, append-nil, append_assoc}
use reproforge.Base.{
  ℕ, ◌+◌, ◌≤◌, String, Bool, true, false, ◌&&◌, ◌≡◌, refl, sym, ◌∙◌, ap, subst, ◌⊎◌, inl, inr,
  Option, none, some, List, [], ◌∷◌, ◌++◌, map, All, Outcome, ok, err, arith, leb,
}
use reproforge.Durable.Records.{is_opaque_id}
use reproforge.Sandbox.{
  CleanupStatus, clean, LifecycleCode, provider_interrupted, Session, Surroundings, Progress,
  beginning, aborted_code, snapshot_record, add_quarantine, was_stopped, stop_with, prepared,
  AttemptError, rejected, stopped_by, RunResult, cleanup_session, called, unless_aborted, taken,
  after_snapshot, attempt_body, delete_with, delete_snapshots, finish_attempt, concluded,
  execute_attempt,
}
use reproforge.Sandbox.Cleanup.{
  failed_stops, failed_deletions, status_of, has_session, are_different, failed_deletions-append,
  status_of-append, was_stopped-session, IsSettled,
}
use reproforge.Sandbox.Cleanup.Tidy.{IsTidy, stop_with-records, stop_with-rest, run_all-IsTidy}

-- No session was stopped or created yet.
record IsFresh (s : Progress) : Type 0 where
  created : s.created ≡ []
  stopped : s.stopped ≡ []
  quarantine : s.quarantine ≡ []
  deleted : s.deleted ≡ []
  status : s.cleanup_status ≡ clean

-- During the deletions: the snapshots that are left, and what holds besides.
record IsSettling (a : String) (session : Session) (ids : List String) (s : Progress) : Type 0 where
  stopped_all : map (λ x. x.session) s.stopped ≡ session ∷ s.created
  different : are_different (session ∷ s.created) ≡ true
  deleted_all : map (λ x. x.snapshot_id) s.deleted ++ ids ≡ s.snapshots
  records : s.quarantine ≡ failed_stops a s.stopped ++ failed_deletions a s.deleted
  status : s.cleanup_status ≡ status_of s.quarantine

module _ {ℓ} {V : Type ℓ} (world : Surroundings V) (a : String) where
  delete_with-rest :
      (id : String) (done : Bool) (s : Progress)
      → ((delete_with world a id done s).stopped ≡ s.stopped)
        × ((delete_with world a id done s).created ≡ s.created)
        × ((delete_with world a id done s).snapshots ≡ s.snapshots)
        × ((delete_with world a id done s).deleted
            ≡ s.deleted ++ record { snapshot_id = id; done = done } ∷ [])
  unfolding add_quarantine
  delete_with-rest id true s = (refl, refl, refl, refl)
  delete_with-rest id false s = (refl, refl, refl, refl)

  delete_with-records :
      (id : String) (done : Bool) (s : Progress)
      → s.quarantine ≡ failed_stops a s.stopped ++ failed_deletions a s.deleted
      → s.cleanup_status ≡ status_of s.quarantine
      → ((delete_with world a id done s).quarantine
          ≡ failed_stops a s.stopped
            ++ failed_deletions a (s.deleted ++ record { snapshot_id = id; done = done } ∷ []))
        × ((delete_with world a id done s).cleanup_status
            ≡ status_of (delete_with world a id done s).quarantine)
  unfolding failed_deletions add_quarantine
  delete_with-records id true s r u = (
    r
        ∙ ap (λ x. failed_stops a s.stopped ++ x)
            (sym (append-nil (failed_deletions a s.deleted))
              ∙ sym (
                  failed_deletions-append a s.deleted
                    (record { snapshot_id = id; done = true } ∷ []))),
    u,
  )
  delete_with-records id false s r u = (
    ap (λ x. x ++ snapshot_record a id ∷ []) r
        ∙ append_assoc (failed_stops a s.stopped) (failed_deletions a s.deleted)
            (snapshot_record a id ∷ [])
        ∙ ap (λ x. failed_stops a s.stopped ++ x)
            (sym (
              failed_deletions-append a s.deleted
                (record { snapshot_id = id; done = false } ∷ []))),
    sym (status_of-append s.quarantine (snapshot_record a id)),
  )

  delete_snapshots-IsSettled :
      (session : Session) (ids : List String) (s : Progress)
      → IsSettling a session ids s
      → IsSettled a session (delete_snapshots world a ids s)
  unfolding delete_snapshots
  delete_snapshots-IsSettled session [] s h = record {
    stopped_all = h.stopped_all;
    different = h.different;
    deleted_all = sym (append-nil (map (λ x. x.snapshot_id) s.deleted)) ∙ h.deleted_all;
    records = h.records;
    status = h.status;
  }
  delete_snapshots-IsSettled session (id ∷ ids) s h =
      let done = world.deletes s.calls in
      let t = delete_with world a id done s in
      let (stopped_eq, created_eq, snapshots_eq, deleted_eq) = delete_with-rest id done s in
      let (records_eq, status_eq) = delete_with-records id done s h.records h.status in
      delete_snapshots-IsSettled session ids t (record {
        stopped_all =
            ap (map (λ x. x.session)) stopped_eq
            ∙ h.stopped_all
            ∙ ap (λ x. session ∷ x) (sym created_eq);
        different =
            subst (λ (xs : List Session). are_different (session ∷ xs) ≡ true) (sym created_eq)
              h.different;
        deleted_all =
            ap (λ x. map (λ y. y.snapshot_id) x ++ ids) deleted_eq
            ∙ ap (λ x. x ++ ids)
                (map-append (λ y. y.snapshot_id) s.deleted
                  (record { snapshot_id = id; done = done } ∷ []))
            ∙ append_assoc (map (λ y. y.snapshot_id) s.deleted) (id ∷ []) ids
            ∙ h.deleted_all
            ∙ sym snapshots_eq;
        records =
            records_eq
            ∙ ap
                (λ x.
                  failed_stops a x
                  ++ failed_deletions a
                      (s.deleted ++ record { snapshot_id = id; done = done } ∷ []))
                (sym stopped_eq)
            ∙ ap (λ x. failed_stops a t.stopped ++ failed_deletions a x) (sym deleted_eq);
        status = status_eq;
      })

  module _ (sandbox_id : String) where
    abbrev Started : Progress → Type 0
    Started s = IsFresh s ⊎ IsTidy a (prepared sandbox_id) s

    -- The first cleanup of the prepared session.
    fresh_cleanup-IsTidy :
        (s : Progress)
        → IsFresh s
        → IsTidy a (prepared sandbox_id) (cleanup_session world a (prepared sandbox_id) s)
    unfolding cleanup_session failed_stops are_different
    fresh_cleanup-IsTidy s h =
        let p = prepared sandbox_id in
        let unstopped : was_stopped 0 s.stopped ≡ false = ap (was_stopped 0) h.stopped in
        let done = world.stops s.calls in
        let t = stop_with a p done s in
        let (quarantine_eq, status_eq) =
          stop_with-records a p done s (h.quarantine ∙ ap (failed_stops a) (sym h.stopped))
            (h.status ∙ ap status_of (sym h.quarantine)) in
        let (calls_eq, created_eq, deleted_eq, stopped_eq) = stop_with-rest a p done s in
        let tidy : IsTidy a p t = record {
          stopped_all =
              ap (map (λ x. x.session))
                (stopped_eq ∙ ap (λ x. x ++ record { session = p; done = done } ∷ []) h.stopped)
              ∙ ap (λ x. p ∷ x) (sym (created_eq ∙ h.created));
          fresh =
              subst (λ (xs : List Session). All (λ x. x.number ≤ t.calls) (p ∷ xs))
                (sym (created_eq ∙ h.created)) (omega arith, tt);
          different =
              subst (λ (xs : List Session). are_different (p ∷ xs) ≡ true)
                (sym (created_eq ∙ h.created)) refl;
          records = quarantine_eq ∙ ap (failed_stops a) (sym stopped_eq);
          status = status_eq;
          undeleted = deleted_eq ∙ h.deleted;
        } in
        rw unstopped tidy

    tidy_cleanup :
        (s : Progress)
        → IsTidy a (prepared sandbox_id) s
        → cleanup_session world a (prepared sandbox_id) s ≡ s
    unfolding cleanup_session has_session
    tidy_cleanup s h =
        let stopped : was_stopped 0 s.stopped ≡ true =
          was_stopped-session 0 s.stopped ∙ ap (has_session 0) h.stopped_all in
        rw stopped refl

    cleanup-IsTidy :
        (s : Progress)
        → Started s
        → IsTidy a (prepared sandbox_id) (cleanup_session world a (prepared sandbox_id) s)
    cleanup-IsTidy s (inl h) = fresh_cleanup-IsTidy s h
    cleanup-IsTidy s (inr h) = subst (IsTidy a (prepared sandbox_id)) (sym (tidy_cleanup s h)) h

    finish_attempt-IsSettled :
        (s : Progress)
        → Started s
        → IsSettled a (prepared sandbox_id) (finish_attempt world a (prepared sandbox_id) s)
    unfolding finish_attempt failed_deletions
    finish_attempt-IsSettled s h =
        let t = cleanup_session world a (prepared sandbox_id) s in
        let k = cleanup-IsTidy s h in
        delete_snapshots-IsSettled (prepared sandbox_id) t.snapshots t (record {
          stopped_all = k.stopped_all;
          different = k.different;
          deleted_all = ap (λ x. map (λ y. y.snapshot_id) x ++ t.snapshots) k.undeleted;
          records =
              k.records
              ∙ sym (append-nil (failed_stops a t.stopped))
              ∙ ap (λ x. failed_stops a t.stopped ++ failed_deletions a x) (sym k.undeleted);
          status = k.status;
        })

    unless_aborted-Started :
        (o : Option LifecycleCode) (s : Progress) (rest : Outcome LifecycleCode (List V) × Progress)
        → Started s
        → Started rest.1
        → Started (unless_aborted world a o s rest).1
    unless_aborted-Started (some code) s rest h k = h
    unless_aborted-Started none s rest h k = k

    after_snapshot-Started :
        (retries n : ℕ) (o : Option String) (s : Progress)
        → IsFresh s
        → Started (after_snapshot world a retries n (prepared sandbox_id) o s).1
    unfolding after_snapshot
    after_snapshot-Started retries n (some id) s h = inr (
        run_all-IsTidy world a (prepared sandbox_id) retries n 0 []
          (cleanup_session world a (prepared sandbox_id) (taken world a id s))
          (fresh_cleanup-IsTidy (taken world a id s) (record {
            created = h.created;
            stopped = h.stopped;
            quarantine = h.quarantine;
            deleted = h.deleted;
            status = h.status;
          })))
    after_snapshot-Started retries n none s h =
        let still : IsFresh (called world a s) = record {
          created = h.created;
          stopped = h.stopped;
          quarantine = h.quarantine;
          deleted = h.deleted;
          status = h.status;
        } in
        unless_aborted-Started (aborted_code (world.signal (s.calls + 1))) (called world a s)
          (err provider_interrupted, called world a s) (inl still) (inl still)

    attempt_body-Started :
        (retries n : ℕ) (s : Progress)
        → IsFresh s
        → Started (attempt_body world a retries n (prepared sandbox_id) s).1
    unfolding attempt_body
    attempt_body-Started retries n s h =
        unless_aborted-Started (aborted_code (world.signal s.calls)) s
          (after_snapshot world a retries n (prepared sandbox_id) (world.takes_snapshot s.calls) s)
          (inl h) (after_snapshot-Started retries n (world.takes_snapshot s.calls) s h)

-- The cleanup status that the caller is told.
abbrev pub told_status {ℓ} :
    {V : Type ℓ} → Outcome AttemptError (RunResult V) → Option CleanupStatus
told_status (ok r) = some r.cleanup_status
told_status (err rejected) = none
told_status (err (stopped_by code status)) = some status

module _ {ℓ} {V : Type ℓ} (world : Surroundings V) (a : String) where
  concluded-status :
      (result : Outcome LifecycleCode (List V)) (s : Progress)
      → ((concluded world a result s).1 ≡ s)
        × (told_status (concluded world a result s).0 ≡ some s.cleanup_status)
  concluded-status (ok values) s = (refl, refl)
  concluded-status (err code) s = (refl, refl)

  -- If the attempt's identifier and its number of runs are accepted, then, whatever the provider,
  -- the runs and the signal do, the attempt is settled in the end, and its caller is told the
  -- status of its cleanup, with the result as with an error.
  pub execute_attempt-IsSettled :
      (retries n : ℕ) (sandbox_id : String)
      → (is_opaque_id a && leb 1 n && leb n 6) ≡ true
      → IsSettled a (prepared sandbox_id) (execute_attempt world a retries n sandbox_id).1
        × (told_status (execute_attempt world a retries n sandbox_id).0
            ≡ some (execute_attempt world a retries n sandbox_id).1.cleanup_status)
  unfolding execute_attempt
  execute_attempt-IsSettled retries n sandbox_id valid =
      let p = prepared sandbox_id in
      let body = attempt_body world a retries n p beginning in
      let done = finish_attempt world a p body.1 in
      let settled : IsSettled a p done = finish_attempt-IsSettled world a sandbox_id body.1 (
        attempt_body-Started world a sandbox_id retries n beginning (record {
          created = refl;
          stopped = refl;
          quarantine = refl;
          deleted = refl;
          status = refl;
        })) in
      let (same, told) = concluded-status body.0 done in
      rw valid (
        subst (IsSettled a p) (sym same) settled,
        told ∙ ap (λ (x : Progress). some x.cleanup_status) (sym same),
      )
