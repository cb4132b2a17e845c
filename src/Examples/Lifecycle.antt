-- ===== src/Examples/Lifecycle.antt =====
-- A case and a job from their creation to an end.
use reproforge.Base.{◌≡◌, ◌≤◌, refl, true, none, some, List, [], ◌∷◌, length}
use reproforge.Domain.Case.{
  CaseState, draft, ingesting, inspecting, hypothesizing, experimenting, verifying, minimizing,
  packaging, verified, TransitionEntry, ReproCase, create_case, transition_case, can_transition,
}
use reproforge.Domain.Case.Trail.{
  Reachable, created, moved, Reachable-history, verified-history, IsTrail, states_of,
}
use reproforge.Domain.Job.{
  queued, running, failed, ReproductionJob, TransitionOptions, create_job, transition_job,
  can_transition_job,
}
use reproforge.Domain.Job.Shape
use reproforge.Domain.Job.Shape.{IsShaped, Reachable-IsShaped}

abbrev step : CaseState → CaseState → TransitionEntry
step s t = record { from = s; to = t; reason = "next"; at = 5 }

abbrev case_at : CaseState → List TransitionEntry → ReproCase
case_at s h = record { id = "case"; state = s; history = h; created_at = 5; updated_at = 5 }

abbrev road : List TransitionEntry
road =
    step draft ingesting
    ∷ step ingesting inspecting
    ∷ step inspecting hypothesizing
    ∷ step hypothesizing experimenting
    ∷ step experimenting verifying
    ∷ step verifying minimizing
    ∷ step minimizing packaging
    ∷ step packaging verified
    ∷ []

abbrev done : ReproCase
done = case_at verified road

to_experiment : Reachable (
    case_at experimenting (
      step draft ingesting
      ∷ step ingesting inspecting
      ∷ step inspecting hypothesizing
      ∷ step hypothesizing experimenting
      ∷ []))
unfolding create_case transition_case can_transition
to_experiment =
    moved experimenting "next" 5
      (moved hypothesizing "next" 5
        (moved inspecting "next" 5 (moved ingesting "next" 5 (created "case" 5 refl) refl) refl)
        refl)
      refl

to_verified : Reachable done
unfolding transition_case can_transition
to_verified =
    moved verified "next" 5
      (moved packaging "next" 5
        (moved minimizing "next" 5 (moved verifying "next" 5 to_experiment refl) refl) refl)
      refl

Reachable-history_example : IsTrail draft done.history done.state × (length done.history ≤ 8)
Reachable-history_example = Reachable-history done to_verified

verified-history_example :
    states_of done.history
    ≡ ingesting ∷ inspecting ∷ hypothesizing ∷ experimenting ∷ verifying ∷ minimizing ∷ packaging
      ∷ verified ∷ []
verified-history_example = verified-history done to_verified refl

abbrev fresh_job : ReproductionJob
fresh_job = record {
  attempt = 0;
  case_id = "case";
  created_at = 5;
  failure = none;
  id = "job";
  progress_phase = draft;
  state = queued;
  updated_at = 5;
}

abbrev started : TransitionOptions
started = record { at = 6; failure = none; progress_phase = ingesting }

abbrev broken : TransitionOptions
broken = record {
  at = 7;
  failure = some (record { code = "E"; message = "broken"; retryable = true });
  progress_phase = ingesting;
}

abbrev running_job : ReproductionJob
running_job = record fresh_job {
  attempt = 1;
  progress_phase = ingesting;
  state = running;
  updated_at = 6;
}

abbrev failed_job : ReproductionJob
failed_job = record running_job { failure = broken.failure; state = failed; updated_at = 7 }

to_failed : Shape.Reachable failed_job
unfolding create_job transition_job can_transition_job
to_failed =
    Shape.moved failed broken (Shape.moved running started (Shape.created "job" "case" 5 refl) refl)
      refl

Reachable-IsShaped_example : IsShaped failed_job
Reachable-IsShaped_example = Reachable-IsShaped failed_job to_failed
