-- ===== src/Sandbox/Cleanup.antt =====
-- What an attempt leaves behind, however it ends.
pub mod Tidy
pub mod Ending
use mathlib.Core.List.{map-append, append-nil, append_assoc}
use reproforge.Base.{
  ℕ, zero, suc, ◌+◌, ◌≤◌, String, Bool, true, false, not, ◌||◌, ◌&&◌, ◌≡◌, refl, sym, ◌∙◌, ap,
  subst, ◌⊎◌, inl, inr, Option, none, some, List, [], ◌∷◌, ◌++◌, map, All, Outcome, ok, err,
  Bool-cases, Option-cases, Option-cases, arith, leb, ◌==◌, if◌then◌else◌,
}
use reproforge.Durable.Records.{is_opaque_id}
use reproforge.Sandbox.{
  CleanupStatus, clean, quarantined, LifecycleCode, provider_interrupted, QuarantineRecord, Signal,
  RunError, Session, Stop, Deletion, Surroundings, Progress, beginning, aborted_code,
  sandbox_record, snapshot_record, add_quarantine, was_stopped, note_stop, stop_with, prepared,
  Round, value, again, ended, AttemptError, rejected, stopped_by, RunResult, cleanup_session,
  called, retried, created_session, with_session, use_session, after_round, after_failure,
  after_creation, unless_aborted, run_rounds, after_run, run_all, taken, after_snapshot,
  attempt_body, delete_with, delete_snapshots, finish_attempt, concluded, execute_attempt,
}

-- The records of the stops, and of the deletions, that failed.
unfoldable pub failed_stops : String → List Stop → List QuarantineRecord
failed_stops a [] = []
failed_stops a (x ∷ xs) =
    if x.done then failed_stops a xs else sandbox_record a x.session ∷ failed_stops a xs

unfoldable pub failed_deletions : String → List Deletion → List QuarantineRecord
failed_deletions a [] = []
failed_deletions a (x ∷ xs) =
    if x.done
    then failed_deletions a xs
    else snapshot_record a x.snapshot_id ∷ failed_deletions a xs

abbrev pub status_of : List QuarantineRecord → CleanupStatus
status_of [] = clean
status_of (r ∷ rs) = quarantined

unfoldable pub has_session : ℕ → List Session → Bool
has_session n [] = false
has_session n (x ∷ xs) = x.number == n || has_session n xs

unfoldable pub are_different : List Session → Bool
unfolding has_session
are_different [] = true
are_different (x ∷ xs) = not (has_session x.number xs) && are_different xs

pub failed_stops-append :
    (a : String) (xs ys : List Stop)
    → failed_stops a (xs ++ ys) ≡ failed_stops a xs ++ failed_stops a ys
unfolding failed_stops
failed_stops-append a [] ys = refl
failed_stops-append a (x ∷ xs) ys = elim (Bool-cases x.done) [
  | inl d ↦ rw d (failed_stops-append a xs ys)
  | inr n ↦ rw n (ap (λ l. sandbox_record a x.session ∷ l) (failed_stops-append a xs ys))
]

pub failed_deletions-append :
    (a : String) (xs ys : List Deletion)
    → failed_deletions a (xs ++ ys) ≡ failed_deletions a xs ++ failed_deletions a ys
unfolding failed_deletions
failed_deletions-append a [] ys = refl
failed_deletions-append a (x ∷ xs) ys = elim (Bool-cases x.done) [
  | inl d ↦ rw d (failed_deletions-append a xs ys)
  | inr n ↦ rw n (ap (λ l. snapshot_record a x.snapshot_id ∷ l) (failed_deletions-append a xs ys))
]

pub status_of-append :
    (rs : List QuarantineRecord) (r : QuarantineRecord) → status_of (rs ++ r ∷ []) ≡ quarantined
status_of-append [] r = refl
status_of-append (x ∷ rs) r = refl

pub was_stopped-session :
    (n : ℕ) (xs : List Stop) → was_stopped n xs ≡ has_session n (map (λ x. x.session) xs)
unfolding was_stopped has_session
was_stopped-session n [] = refl
was_stopped-session n (x ∷ xs) = ap (λ b. x.session.number == n || b) (was_stopped-session n xs)

pub has_session-fresh :
    (c : ℕ) (xs : List Session) → All (λ x. x.number ≤ c) xs → has_session (c + 1) xs ≡ false
unfolding has_session
has_session-fresh c [] h = refl
has_session-fresh c (x ∷ xs) h = ground (arith, has_session-fresh c xs h.1)

has_session-append :
    (n : ℕ) (xs : List Session) (y : Session)
    → has_session n (xs ++ y ∷ []) ≡ (has_session n xs || y.number == n)
unfolding has_session
has_session-append n [] y = ground arith
has_session-append n (x ∷ xs) y = ground (arith, has_session-append n xs y)

pub are_different-append :
    (c : ℕ) (xs : List Session) (y : Session)
    → All (λ x. x.number ≤ c) xs
    → y.number ≡ c + 1
    → are_different xs ≡ true
    → are_different (xs ++ y ∷ []) ≡ true
unfolding are_different has_session
are_different-append c [] y h e d = refl
are_different-append c (x ∷ xs) y h e d =
    ground (arith, has_session-append x.number xs y, are_different-append c xs y h.1 e)

pub All-later :
    (c d : ℕ) (xs : List Session) → c ≤ d → All (λ x. x.number ≤ c) xs → All (λ x. x.number ≤ d) xs
All-later c d [] l h = tt
All-later c d (x ∷ xs) l h = (omega arith, All-later c d xs l h.1)

pub All-append :
    (c : ℕ) (xs : List Session) (y : Session)
    → All (λ x. x.number ≤ c) xs
    → y.number ≤ c
    → All (λ x. x.number ≤ c) (xs ++ y ∷ [])
All-append c [] y h l = (l, tt)
All-append c (x ∷ xs) y h l = (h.0, All-append c xs y h.1 l)

-- What an attempt leaves in the end: each of its sessions, the prepared one first, was stopped once
-- and in the order of their creation; each snapshot that was taken was deleted; the quarantine holds
-- exactly what could not be stopped or deleted; and the status is clean exactly if it is empty.
pub record IsSettled (a : String) (session : Session) (s : Progress) : Type 0 where
  pub stopped_all : map (λ x. x.session) s.stopped ≡ session ∷ s.created
  pub different : are_different (session ∷ s.created) ≡ true
  pub deleted_all : map (λ x. x.snapshot_id) s.deleted ≡ s.snapshots
  pub records : s.quarantine ≡ failed_stops a s.stopped ++ failed_deletions a s.deleted
  pub status : s.cleanup_status ≡ status_of s.quarantine
