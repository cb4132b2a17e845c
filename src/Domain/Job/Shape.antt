-- ===== src/Domain/Job/Shape.antt =====
-- What holds of every job that the operations build.
use reproforge.Base.{
  ◌&&◌, ℕ, ◌+◌, ◌≤◌, ◌<◌, ◌≡◌, ◌↔◌, String, Bool, true, false, not, Option, ok, err, arith,
  if◌then◌else◌,
}
use reproforge.Domain.Case.{is_datetime}
use reproforge.Domain.Job.{
  JobState, queued, failed, cancelled, JobFailure, ReproductionJob, invalid_job_transition,
  invalid_job, is_some, is_failure, same_job_state, starts, parse_job, create_job,
  can_transition_job, TransitionOptions, transition_job, to_reproduction_progress,
}

-- The jobs that the two operations build.
pub data Reachable : ReproductionJob → Type 0 where
  created :
      (id case_id : String) (at : ℕ) {j : ReproductionJob}
      → create_job id case_id at ≡ ok j
      → Reachable j
  moved :
      {j : ReproductionJob} (to : JobState) (options : TransitionOptions) {j' : ReproductionJob}
      → Reachable j
      → transition_job j to options ≡ ok j'
      → Reachable j'

abbrev pub IsStarted : JobState → ℕ → Type 0
IsStarted queued n = n ≡ 0
IsStarted cancelled n = n ≤ 1
IsStarted _ n = n ≡ 1

pub record IsShaped (j : ReproductionJob) : Type 0 where
  pub started : IsStarted j.state j.attempt
  pub failure_iff : is_some j.failure ≡ true ↔ j.state ≡ failed

create_job-IsShaped :
    (id case_id : String) (at : ℕ) (j : ReproductionJob)
    → create_job id case_id at ≡ ok j
    → IsShaped j
unfolding create_job
create_job-IsShaped id case_id at j e = ground arith

transition_job-IsShaped :
    (j : ReproductionJob) (to : JobState) (options : TransitionOptions) (j' : ReproductionJob)
    → IsShaped j
    → transition_job j to options ≡ ok j'
    → IsShaped j'
unfolding transition_job can_transition_job
transition_job-IsShaped j queued options j' s e = ground arith
transition_job-IsShaped j _ options j' s e = ground arith

-- A job built by these operations alone has been started exactly once when it runs, succeeds or
-- fails, and never while it is queued; it carries a failure exactly when it is FAILED.
pub Reachable-IsShaped : (j : ReproductionJob) → Reachable j → IsShaped j
Reachable-IsShaped j (created id case_id at e) = create_job-IsShaped id case_id at j e
Reachable-IsShaped j (moved {j = i} to options r e) =
    transition_job-IsShaped i to options j (Reachable-IsShaped i r) e

abbrev moved_job : ReproductionJob → JobState → TransitionOptions → ReproductionJob
moved_job j to options = record j {
  attempt = if starts j.state to then j.attempt + 1 else j.attempt;
  failure = options.failure;
  progress_phase = options.progress_phase;
  state = to;
  updated_at = options.at;
}

abbrev fits_failure : Option JobFailure → JobState → Bool
fits_failure failure to =
    if is_some failure then same_job_state to failed else not (same_job_state to failed)

-- An intact job with an attempt to spare, given a failure that parses: a transition outside the
-- diagram is an error that names it; one of the diagram is made if it brings a failure exactly when
-- it goes to FAILED, and the schema refuses it otherwise.
transition_job_total :
    (j : ReproductionJob) (to : JobState) (options : TransitionOptions)
    → parse_job j ≡ ok j
    → j.attempt < 100
    → is_datetime options.at ≡ true
    → is_failure options.failure ≡ true
    → transition_job j to options ≡ (
        if can_transition_job j.state to
        then (if fits_failure options.failure to
            then ok (moved_job j to options)
            else err invalid_job)
        else err (invalid_job_transition j.state to))
unfolding transition_job can_transition_job
transition_job_total j to options p a d f = ground arith

-- The progress view shows a job as cancellable exactly when a transition to CANCELLED is allowed,
-- and as terminal exactly when none is; a terminal job makes no transition.
progress_flags :
    (j : ReproductionJob) (t : JobState)
    → ((to_reproduction_progress j).cancellable ≡ can_transition_job j.state cancelled)
      × ((to_reproduction_progress j).terminal ≡ not (can_transition_job j.state cancelled))
      × (((to_reproduction_progress j).terminal && can_transition_job j.state t) ≡ false)
unfolding to_reproduction_progress can_transition_job
progress_flags j t = ground arith
