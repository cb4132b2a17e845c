-- ===== src/Examples/Evidence.antt =====
-- An oracle, its verification and the choice of a reduction, with a small engine for the host.
use Prim.Native.String.{compare}
use reproforge.Base.{
  ℕ, pos, ◌≡◌, ◌↔◌, set_of, ◌⊎◌, refl, String, true, false, none, some, [], ◌∷◌, ok, length,
  is_nonempty, if◌then◌else◌,
}
use reproforge.Domain.Host.{Host}
use reproforge.Domain.Run.{RunResult, is_run_result}
use reproforge.Domain.Oracle.{
  stdout, stderr, exit_code, output_contains, all, negation, cons, nil, FailureOracle,
  OracleEvaluation, contains_text, evaluate_oracle, is_failure_oracle, is_expression,
  evaluate_expression,
}
use reproforge.Domain.Oracle.Meaning.{Sat, tests, evaluate_oracle-decides}
use reproforge.Domain.Verification.{
  VerificationSummary, VerificationInput, verified, unstable, not_reproduced, blocked,
  count_matches, is_verification_input, verify_reproduction, summarize,
}
use reproforge.Domain.Verification.Status.{Some, IsProof, IsPinned, verified_iff, other_statuses}
use reproforge.Domain.Minimization.{
  locally_minimized, MinimizationProposal, MinimizationEvaluation, MinimizationInput,
  MinimizationResult, minimize_reproduction, evaluate_proposals,
}
use reproforge.Domain.Minimization.Choice.{Retained, Reduced, minimize_reproduction-best}
use reproforge.Domain.Minimization.Total.{minimize_reproduction-total}

abbrev engine : Host
engine = record {
  Value = String;
  undefined = "";
  parse_json = λ s. if is_nonempty s then some s else none;
  stringify = λ v. some v;
  is_object = λ v. false;
  get_property = λ v segment. v;
  is_regex = λ pattern. true;
  regex_test = λ pattern text. contains_text text pattern;
  locale_compare = λ a b. compare a b;
}

abbrev crash : FailureOracle String
crash = record {
  id = "crash";
  root = all (
      cons (exit_code (pos 1))
        (cons (output_contains stderr "boom") (cons (negation (output_contains stdout "ok")) nil)));
  version = 1;
}

abbrev run_of : String → ℕ → String → String → RunResult
run_of id code err_text out_text = record {
  capture = none;
  id = id;
  command = "test";
  duration_ms = 3;
  environment_hash = "env";
  exit_code = pos code;
  stderr = err_text;
  stdout = out_text;
}

abbrev failing : RunResult
failing = run_of "run" 1 "boom" ""

abbrev passing : RunResult
passing = run_of "control" 0 "" "ok"

crash_valid : is_failure_oracle engine crash ≡ true
unfolding is_failure_oracle is_expression
crash_valid = refl

evaluate_oracle-decides_example :
    (evaluation : OracleEvaluation) × (evaluate_oracle engine crash failing ≡ some evaluation)
    × ((evaluation.matched ≡ true) ↔ Sat engine failing crash.root)
    × (length evaluation.evidence ≡ tests engine failing crash.root)
evaluate_oracle-decides_example = evaluate_oracle-decides engine failing crash crash_valid

abbrev trial : VerificationInput String
trial = record {
  oracle = crash;
  control = passing;
  candidates = failing ∷ failing ∷ failing ∷ [];
  required_runs = none;
}

trial_valid : is_verification_input engine trial ≡ true
unfolding is_verification_input is_failure_oracle is_expression is_run_result
trial_valid = refl

-- A run of the verification: three crashes against a passing control.
trial_verified : (summarize engine trial).status ≡ verified
unfolding summarize evaluate_expression set_of count_matches
trial_verified = refl

verified_iff_example :
    (s : VerificationSummary) × (verify_reproduction engine trial ≡ some s)
    × ((s.status ≡ verified) ↔ IsProof engine trial)
verified_iff_example = verified_iff engine trial trial_valid

-- A candidate that passes among two that crash.
abbrev flaky : VerificationInput String
flaky = record trial { candidates = failing ∷ passing ∷ failing ∷ [] }

flaky_valid : is_verification_input engine flaky ≡ true
unfolding is_verification_input is_failure_oracle is_expression is_run_result
flaky_valid = refl

flaky_unstable : (summarize engine flaky).status ≡ unstable
unfolding summarize evaluate_expression set_of count_matches
flaky_unstable = refl

other_statuses_example :
    (s : VerificationSummary) × (verify_reproduction engine flaky ≡ some s)
    × ((s.status ≡ blocked) ↔ (Sat engine passing crash.root ⊎ (¬ IsPinned engine flaky)))
    × ((s.status ≡ unstable) ↔ (
        (¬ Sat engine passing crash.root)
        × IsPinned engine flaky
        × (¬ IsProof engine flaky)
        × Some (λ run. Sat engine run crash.root) flaky.candidates))
    × ((s.status ≡ not_reproduced) ↔ (
        (¬ Sat engine passing crash.root)
        × IsPinned engine flaky
        × (¬ Some (λ run. Sat engine run crash.root) flaky.candidates)))
other_statuses_example = other_statuses engine flaky flaky_valid

abbrev reduction : MinimizationProposal
reduction = record {
  candidates = failing ∷ failing ∷ failing ∷ [];
  control = passing;
  description = "drop a";
  id = "drop";
  removed_inputs = "a" ∷ [];
}

abbrev hunt : MinimizationInput String
hunt = record {
  baseline_candidates = failing ∷ failing ∷ failing ∷ [];
  baseline_control = passing;
  oracle = crash;
  proposals = reduction ∷ [];
  required_runs = none;
}

abbrev reduced : MinimizationEvaluation
reduced = record { id = "drop"; removed_inputs = "a" ∷ []; summary = summarize engine trial }

abbrev hunted : MinimizationResult
hunted = record {
  accepted_reduction_id = some "drop";
  accepted_removed_inputs = "a" ∷ [];
  claim = locally_minimized;
  evaluations = reduced ∷ [];
}

hunt_result : minimize_reproduction engine hunt ≡ ok hunted
unfolding minimize_reproduction verify_reproduction summarize is_run_result is_verification_input
    is_failure_oracle is_expression count_matches evaluate_expression set_of
hunt_result = refl

minimize_reproduction-best_example :
    (evaluate_proposals engine hunt hunt.proposals ≡ some hunted.evaluations)
    × (Retained hunted ⊎ Reduced hunted)
minimize_reproduction-best_example = minimize_reproduction-best engine hunt hunted hunt_result

minimize_reproduction-total_example :
    (r : MinimizationResult) × (minimize_reproduction engine hunt ≡ ok r)
unfolding minimize_reproduction verify_reproduction summarize is_run_result is_verification_input
    is_failure_oracle is_expression count_matches evaluate_expression set_of
minimize_reproduction-total_example =
    minimize_reproduction-total engine hunt (summarize engine trial) refl refl refl refl
