-- ===== src/Domain/Verification.antt =====
-- The verification of a reproduction, src/domain/verification.ts. The rate of the matching runs
-- is kept as its two counts, and the reason as data that the source renders as a sentence.
pub mod Status
use reproforge.Base.{
  ℕ, suc, ◌≡◌, String, Bool, true, false, not, ◌&&◌, Option, none, some, List, [], ◌∷◌, map, ltb,
  leb, ◌==◌, every, length, is_nonempty, set_of, if◌then◌else◌,
}
use reproforge.Domain.Host.{Host}
use reproforge.Domain.Run.{RunResult, is_run_result}
use reproforge.Domain.Oracle.{FailureOracle, is_failure_oracle, evaluate_expression}

pub data VerificationStatus : Type 0 where
  verified unstable not_reproduced blocked : VerificationStatus

pub data Reason : Type 0 where
  control_matched : Reason
  environments_differ : Reason
  all_matched : ℕ → Reason
  some_matched : ℕ → ℕ → Reason
  none_matched : ℕ → Reason

-- The quotient of two counts, and 0 for no runs.
pub record Rate : Type 0 where
  pub matches : ℕ
  pub runs : ℕ

pub record VerificationSummary : Type 0 where
  pub candidate_matches : ℕ
  pub control_matched : Bool
  pub oracle_id : String
  pub oracle_version : ℕ
  pub reason : Reason
  pub repeatability : Rate
  pub required_runs : ℕ
  pub status : VerificationStatus
  pub total_candidate_runs : ℕ

pub record VerificationInput (V : Type 0) : Type 0 where
  pub oracle : FailureOracle V
  pub control : RunResult
  pub candidates : List RunResult
  pub required_runs : Option ℕ

-- `.default(3)`
abbrev pub required_or_default : Option ℕ → ℕ
required_or_default none = 3
required_or_default (some n) = n

-- `verificationSummarySchema.parse`
unfoldable pub parse_summary : VerificationSummary → Option VerificationSummary
parse_summary s =
    if is_nonempty s.oracle_id
      && ltb 0 s.oracle_version
      && leb s.repeatability.matches s.repeatability.runs
      && ltb 0 s.required_runs
    then some s
    else none

-- The ladder that chooses the status and the reason.
unfoldable pub decide_status : Bool → Bool → ℕ → ℕ → ℕ → VerificationStatus × Reason
decide_status control pinned required matches total =
    if control
    then (blocked, control_matched)
    else if not pinned
    then (blocked, environments_differ)
    else if leb required total && matches == total
    then (verified, all_matched total)
    else if ltb 0 matches
    then (unstable, some_matched matches total)
    else (not_reproduced, none_matched total)

module _ (host : Host) where
  open host use {Value}

  -- `evaluateOracle(oracle, run).matched` for an oracle that has been parsed.
  abbrev pub oracle_matches : FailureOracle Value → RunResult → Bool
  oracle_matches oracle run = (evaluate_expression host oracle.root run).matched

  -- `verificationInputSchema`
  unfoldable pub is_verification_input : VerificationInput Value → Bool
  is_verification_input input =
      is_failure_oracle host input.oracle
      && is_run_result input.control
      && every is_run_result input.candidates
      && ltb 0 (required_or_default input.required_runs)

  -- The candidates that the filter keeps, counted.
  unfoldable pub count_matches : FailureOracle Value → List RunResult → ℕ
  count_matches oracle [] = 0
  count_matches oracle (run ∷ runs) =
      let rest = count_matches oracle runs in if oracle_matches oracle run then suc rest else rest

  abbrev pub environment_hashes : VerificationInput Value → List String
  environment_hashes input =
      set_of []
        (input.control.environment_hash ∷ map (λ run. run.environment_hash) input.candidates)

  -- The summary that is handed to its schema.
  unfoldable pub summarize : VerificationInput Value → VerificationSummary
  unfolding decide_status
  summarize input =
      let control = oracle_matches input.oracle input.control in
      let matches = count_matches input.oracle input.candidates in
      let total = length input.candidates in
      let required = required_or_default input.required_runs in
      let pinned = length (environment_hashes input) == 1 in
      record {
        candidate_matches = matches;
        control_matched = control;
        oracle_id = input.oracle.id;
        oracle_version = input.oracle.version;
        reason = (decide_status control pinned required matches total).1;
        repeatability = record { matches = matches; runs = total };
        required_runs = required;
        status = (decide_status control pinned required matches total).0;
        total_candidate_runs = total;
      }

  -- `none` where a schema throws.
  unfoldable pub verify_reproduction : VerificationInput Value → Option VerificationSummary
  unfolding summarize parse_summary
  verify_reproduction input =
      if is_verification_input input then parse_summary (summarize input) else none
