-- ===== src/Domain/Minimization.antt =====
-- The choice of a reduction, src/domain/minimization.ts.
pub mod Choice
pub mod Total
use Prim.Native.Nat.{compare, Ordering}
use reproforge.Base.{
  ℕ, String, Bool, true, false, not, ◌&&◌, Option, none, some, List, [], ◌∷◌, map, Outcome, ok, err,
  ltb, ◌==◌, every, length, is_nonempty, has_text, ◌===◌, if◌then◌else◌,
}
use reproforge.Domain.Host.{Host}
use reproforge.Domain.Run.{RunResult, is_run_result}
use reproforge.Domain.Oracle.{FailureOracle}
use reproforge.Domain.Verification.{
  VerificationSummary, VerificationStatus, verified, unstable, not_reproduced, blocked,
  VerificationInput, verify_reproduction,
}

pub record MinimizationProposal : Type 0 where
  pub candidates : List RunResult
  pub control : RunResult
  pub description : String
  pub id : String
  pub removed_inputs : List String

pub record MinimizationEvaluation : Type 0 where
  pub id : String
  pub removed_inputs : List String
  pub summary : VerificationSummary

pub data Claim : Type 0 where
  locally_minimized baseline_retained : Claim

pub record MinimizationResult : Type 0 where
  pub accepted_reduction_id : Option String
  pub accepted_removed_inputs : List String
  pub claim : Claim
  pub evaluations : List MinimizationEvaluation

pub record MinimizationInput (V : Type 0) : Type 0 where
  pub baseline_candidates : List RunResult
  pub baseline_control : RunResult
  pub oracle : FailureOracle V
  pub proposals : List MinimizationProposal
  pub required_runs : Option ℕ

pub data MinimizationError : Type 0 where
  schema_rejected : MinimizationError
  baseline_not_verified : MinimizationError

abbrev pub distinct_texts : List String → Bool
distinct_texts [] = true
distinct_texts (s ∷ ss) = not (has_text ss s) && distinct_texts ss

-- `minimizationProposalSchema`
unfoldable pub is_proposal : MinimizationProposal → Bool
is_proposal p =
    every is_run_result p.candidates
    && is_run_result p.control
    && is_nonempty p.description
    && is_nonempty p.id
    && ltb 0 (length p.removed_inputs)
    && every is_nonempty p.removed_inputs
    && distinct_texts p.removed_inputs

abbrev pub is_verified : VerificationStatus → Bool
is_verified verified = true
is_verified _ = false

-- `evaluations.find((evaluation) => evaluation.id === id)`
unfoldable pub find_evaluation :
    String → List MinimizationEvaluation → Option MinimizationEvaluation
find_evaluation id [] = none
find_evaluation id (e ∷ es) = if e.id === id then some e else find_evaluation id es

abbrev pub accepted_is_verified : Option MinimizationEvaluation → Bool
accepted_is_verified none = false
accepted_is_verified (some e) = is_verified e.summary.status

abbrev is_baseline_claim : MinimizationResult → Bool
is_baseline_claim r = elim r.claim [
  | baseline_retained ↦ length r.accepted_removed_inputs == 0
  | locally_minimized ↦ false
]

abbrev is_local_claim : Claim → Bool
is_local_claim locally_minimized = true
is_local_claim baseline_retained = false

-- The `superRefine` of `minimizationResultSchema`. What its fields ask holds of parsed proposals.
unfoldable pub is_minimization_result : MinimizationResult → Bool
unfolding find_evaluation
is_minimization_result r = elim r.accepted_reduction_id [
  | none ↦ is_baseline_claim r
  | some id ↦ accepted_is_verified (find_evaluation id r.evaluations) && is_local_claim r.claim
]

unfoldable pub verified_evaluations : List MinimizationEvaluation → List MinimizationEvaluation
verified_evaluations [] = []
verified_evaluations (e ∷ es) =
    let rest = verified_evaluations es in if is_verified e.summary.status then e ∷ rest else rest

abbrev pub size_of : MinimizationEvaluation → ℕ
size_of e = length e.removed_inputs

abbrev pub first_of_list : List MinimizationEvaluation → Option MinimizationEvaluation
first_of_list [] = none
first_of_list (e ∷ es) = some e

unfoldable pub result_of :
    List MinimizationEvaluation → Option MinimizationEvaluation → MinimizationResult
result_of evaluations none = record {
  accepted_reduction_id = none;
  accepted_removed_inputs = [];
  claim = baseline_retained;
  evaluations = evaluations;
}
result_of evaluations (some accepted) = record {
  accepted_reduction_id = some accepted.id;
  accepted_removed_inputs = accepted.removed_inputs;
  claim = locally_minimized;
  evaluations = evaluations;
}

unfoldable pub parse_result : MinimizationResult → Outcome MinimizationError MinimizationResult
unfolding is_minimization_result
parse_result r = if is_minimization_result r then ok r else err schema_rejected

module _ (host : Host) where
  open host use {Value, locale_compare}

  -- Whether the comparator of the sort is at most 0: more removed inputs first, then by id.
  unfoldable pub comes_first : MinimizationEvaluation → MinimizationEvaluation → Bool
  comes_first left right = elim (compare (size_of right) (size_of left)) [
    | Ordering.lt ↦ true
    | Ordering.gt ↦ false
    | Ordering.eq ↦ elim (locale_compare left.id right.id) [ Ordering.gt ↦ false | _ ↦ true ]
  ]

  unfoldable pub insert_sorted :
      MinimizationEvaluation → List MinimizationEvaluation → List MinimizationEvaluation
  unfolding comes_first
  insert_sorted e [] = e ∷ []
  insert_sorted e (f ∷ fs) = if comes_first e f then e ∷ f ∷ fs else f ∷ insert_sorted e fs

  -- `Array.prototype.sort`, which is stable.
  unfoldable pub sort_evaluations : List MinimizationEvaluation → List MinimizationEvaluation
  unfolding insert_sorted
  sort_evaluations [] = []
  sort_evaluations (e ∷ es) = insert_sorted e (sort_evaluations es)

  unfoldable pub verify_runs :
      MinimizationInput Value → List RunResult → RunResult → Option VerificationSummary
  verify_runs input candidates control = verify_reproduction host (record {
    oracle = input.oracle;
    control = control;
    candidates = candidates;
    required_runs = input.required_runs;
  })

  -- The evaluations of the proposals; `none` where a verification throws.
  unfoldable pub evaluate_proposals :
      MinimizationInput Value → List MinimizationProposal → Option (List MinimizationEvaluation)
  unfolding verify_runs
  evaluate_proposals input [] = some []
  evaluate_proposals input (p ∷ ps) = elim (verify_runs input p.candidates p.control) [
    | none ↦ none
    | some s ↦ elim (evaluate_proposals input ps) [
      | none ↦ none
      | some es ↦ some (record { id = p.id; removed_inputs = p.removed_inputs; summary = s } ∷ es)
    ]
  ]

  unfoldable pub choose : List MinimizationEvaluation → Option MinimizationEvaluation
  unfolding verified_evaluations sort_evaluations
  choose evaluations = first_of_list (sort_evaluations (verified_evaluations evaluations))

  unfoldable pub conclude :
      Option (List MinimizationEvaluation) → Outcome MinimizationError MinimizationResult
  unfolding choose result_of parse_result
  conclude none = err schema_rejected
  conclude (some evaluations) = parse_result (result_of evaluations (choose evaluations))

  unfoldable pub after_baseline :
      MinimizationInput Value
      → Option VerificationSummary
      → Outcome MinimizationError MinimizationResult
  unfolding conclude evaluate_proposals
  after_baseline input none = err schema_rejected
  after_baseline input (some baseline) =
      if is_verified baseline.status
      then conclude (evaluate_proposals input input.proposals)
      else err baseline_not_verified

  -- The oracle and the runs are parsed once more by `verifyReproduction`, which throws as well.
  unfoldable pub minimize_reproduction :
      MinimizationInput Value → Outcome MinimizationError MinimizationResult
  unfolding after_baseline is_proposal verify_runs
  minimize_reproduction input =
      if every is_proposal input.proposals
      then after_baseline input (verify_runs input input.baseline_candidates input.baseline_control)
      else err schema_rejected
