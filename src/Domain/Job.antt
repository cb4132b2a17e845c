-- ===== src/Domain/Job.antt =====
-- The job state machine of src/domain/job.ts, and the progress view of
-- src/application/progress.ts.
pub mod Shape
use reproforge.Base.{
  ℕ, zero, suc, ◌+◌, String, Bool, true, false, not, ◌&&◌, ◌||◌, Option, none, some, List, [], ◌∷◌,
  Outcome, ok, err, ◌>>=◌, ◌>>◌, require, ltb, leb, ite, includes, is_nonempty, if◌then◌else◌,
}
use reproforge.Domain.Case.{CaseState, draft, is_datetime}

pub data JobState : Type 0 where
  queued running succeeded failed cancelled : JobState

unfoldable pub JobState-discrete : Discrete JobState
JobState-discrete = hlevel

abbrev pub same_job_state : JobState → JobState → Bool
unfolding JobState-discrete
same_job_state s t = ite (JobState-discrete s t) true false

abbrev pub job_terminal_states : List JobState
job_terminal_states = succeeded ∷ failed ∷ cancelled ∷ []

pub record JobFailure : Type 0 where
  pub code : String
  pub message : String
  pub retryable : Bool

pub record ReproductionJob : Type 0 where
  pub attempt : ℕ
  pub case_id : String
  pub created_at : ℕ
  pub failure : Option JobFailure
  pub id : String
  pub progress_phase : CaseState
  pub state : JobState
  pub updated_at : ℕ

pub data JobError : Type 0 where
  invalid_job_transition : JobState → JobState → JobError
  invalid_job : JobError

abbrev pub is_some {ℓ} : {A : Type ℓ} → Option A → Bool
is_some none = false
is_some (some _) = true

abbrev pub is_failure : Option JobFailure → Bool
is_failure none = true
is_failure (some f) = is_nonempty f.code && is_nonempty f.message

-- The issues that `superRefine` raises: an attempt is missing, a failure is missing, or a failure
-- stands where none may.
abbrev pub needs_attempt : JobState → Bool
needs_attempt queued = false
needs_attempt cancelled = false
needs_attempt _ = true

abbrev is_consistent : ReproductionJob → Bool
is_consistent job =
    not (needs_attempt job.state && ltb job.attempt 1)
    && not (same_job_state job.state failed && not (is_some job.failure))
    && not (not (same_job_state job.state failed) && is_some job.failure)

-- `reproductionJobSchema.parse`
unfoldable pub parse_job : ReproductionJob → Outcome JobError ReproductionJob
unfolding JobState-discrete
parse_job job =
    if leb job.attempt 100
      && is_nonempty job.case_id
      && is_datetime job.created_at
      && is_failure job.failure
      && is_nonempty job.id
      && is_datetime job.updated_at
      && is_consistent job
    then ok job
    else err invalid_job

allowed_transitions : JobState → List JobState
allowed_transitions queued = running ∷ cancelled ∷ []
allowed_transitions running = succeeded ∷ failed ∷ cancelled ∷ []
allowed_transitions succeeded = []
allowed_transitions failed = []
allowed_transitions cancelled = []

unfoldable pub create_job : String → String → ℕ → Outcome JobError ReproductionJob
unfolding parse_job
create_job id case_id at = parse_job (record {
  attempt = 0;
  case_id = case_id;
  created_at = at;
  failure = none;
  id = id;
  progress_phase = draft;
  state = queued;
  updated_at = at;
})

unfoldable pub can_transition_job : JobState → JobState → Bool
unfolding allowed_transitions JobState-discrete
can_transition_job from to = includes JobState-discrete (allowed_transitions from) to

-- The `options` argument, with the clock's reading in `at`.
pub record TransitionOptions : Type 0 where
  pub at : ℕ
  pub failure : Option JobFailure
  pub progress_phase : CaseState

abbrev pub starts : JobState → JobState → Bool
starts queued running = true
starts _ _ = false

unfoldable pub transition_job :
    ReproductionJob → JobState → TransitionOptions → Outcome JobError ReproductionJob
unfolding parse_job
transition_job current to options = do
  require (can_transition_job current.state to) (invalid_job_transition current.state to)
  parse_job (record current {
    attempt = if starts current.state to then current.attempt + 1 else current.attempt;
    failure = options.failure;
    progress_phase = options.progress_phase;
    state = to;
    updated_at = options.at;
  })

pub record ProgressView : Type 0 where
  pub attempt : ℕ
  pub cancellable : Bool
  pub failure : Option JobFailure
  pub phase : CaseState
  pub state : JobState
  pub terminal : Bool
  pub updated_at : ℕ

-- `progressViewSchema.parse` rejects nothing that the parsed job's schema let through.
unfoldable pub to_reproduction_progress : ReproductionJob → ProgressView
unfolding JobState-discrete
to_reproduction_progress job = record {
  attempt = job.attempt;
  cancellable = same_job_state job.state queued || same_job_state job.state running;
  failure = job.failure;
  phase = job.progress_phase;
  state = job.state;
  terminal = includes JobState-discrete job_terminal_states job.state;
  updated_at = job.updated_at;
}
