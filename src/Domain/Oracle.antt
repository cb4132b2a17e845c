-- ===== src/Domain/Oracle.antt =====
-- The failure oracle of src/domain/oracle.ts. The lines of evidence are kept as data: the source
-- renders each of them as one line of text.
pub mod Meaning
use text.Mathlib.Text.{find?}
use reproforge.Base.{
  ℕ, ℤ, String, Bool, true, false, not, ◌&&◌, ◌||◌, Option, none, some, List, [], ◌∷◌, ◌++◌, map,
  ltb, leb, every, exists, same_int, length, is_nonempty, utf16_length, ◌===◌, if◌then◌else◌,
}
use reproforge.Domain.Host.{Host}
use reproforge.Domain.Run.{RunResult}

pub data StreamName : Type 0 where
  stdout stderr : StreamName

mutual
  pub data OracleExpression (V : Type 0) : Type 0 where
    exit_code : ℤ → OracleExpression V
    output_contains : StreamName → String → OracleExpression V
    output_regex : StreamName → String → OracleExpression V
    json_field : StreamName → List String → V → OracleExpression V
    all : Children V → OracleExpression V
    any : Children V → OracleExpression V
    negation : OracleExpression V → OracleExpression V

  pub data Children (V : Type 0) : Type 0 where
    nil : Children V
    cons : OracleExpression V → Children V → Children V

pub record FailureOracle (V : Type 0) : Type 0 where
  pub id : String
  pub root : OracleExpression V
  pub version : ℕ

-- A line of evidence: the test that was made, and whether it matched.
pub data Evidence : Type 0 where
  exit_code_line : ℤ → Bool → ℤ → Evidence
  contains_line : StreamName → Bool → String → Evidence
  regex_line : StreamName → Bool → String → Evidence
  field_line : StreamName → List String → Bool → Evidence
  invalid_json_line : StreamName → Evidence
  not_line : Evidence → Evidence

pub record OracleEvaluation : Type 0 where
  pub evidence : List Evidence
  pub matched : Bool

abbrev pub flat_evidence : List OracleEvaluation → List Evidence
flat_evidence [] = []
flat_evidence (e ∷ es) = e.evidence ++ flat_evidence es

abbrev pub stream_value : RunResult → StreamName → String
stream_value run stdout = run.stdout
stream_value run stderr = run.stderr

abbrev pub contains_text : String → String → Bool
contains_text text part = elim (find? text part) [ none ↦ false | some _ ↦ true ]

abbrev pub same_json : Option String → Option String → Bool
same_json none none = true
same_json (some a) (some b) = a === b
same_json _ _ = false

abbrev has_child : {V : Type 0} → Children V → Bool
has_child nil = false
has_child (cons _ _) = true

module _ (host : Host) where
  open host use {
    Value, undefined, parse_json, stringify, is_object, get_property, is_regex, regex_test,
  }

  abbrev pub json_at_path : Value → List String → Value
  json_at_path value [] = value
  json_at_path value (segment ∷ path) =
      json_at_path (if is_object value then get_property value segment else undefined) path

  unfoldable mutual
    -- `oracleExpressionSchema`
    pub is_expression : OracleExpression Value → Bool
    is_expression (exit_code expected) = true
    is_expression (output_contains stream value) = true
    is_expression (output_regex stream pattern) = leb (utf16_length pattern) 256 && is_regex pattern
    is_expression (json_field stream path equals) = ltb 0 (length path)
    is_expression (all children) = has_child children && are_expressions children
    is_expression (any children) = has_child children && are_expressions children
    is_expression (negation child) = is_expression child

    pub are_expressions : Children Value → Bool
    are_expressions nil = true
    are_expressions (cons child rest) = is_expression child && are_expressions rest

  -- The `json_field` case, with the `catch` of the parser's throw.
  unfoldable pub evaluate_field : RunResult → StreamName → List String → Value → OracleEvaluation
  evaluate_field run stream path equals = elim (parse_json (stream_value run stream)) [
    | none ↦ record { evidence = invalid_json_line stream ∷ []; matched = false }
    | some parsed ↦
        let matched = same_json (stringify (json_at_path parsed path)) (stringify equals) in
        record { evidence = field_line stream path matched ∷ []; matched = matched }
  ]

  unfoldable mutual
    pub evaluate_expression : OracleExpression Value → RunResult → OracleEvaluation
    evaluate_expression (exit_code expected) run =
        let matched = same_int run.exit_code expected in
        record { evidence = exit_code_line run.exit_code matched expected ∷ []; matched = matched }
    evaluate_expression (output_contains stream value) run =
        let matched = contains_text (stream_value run stream) value in
        record { evidence = contains_line stream matched value ∷ []; matched = matched }
    evaluate_expression (output_regex stream pattern) run =
        let matched = regex_test pattern (stream_value run stream) in
        record { evidence = regex_line stream matched pattern ∷ []; matched = matched }
    evaluate_expression (json_field stream path equals) run = evaluate_field run stream path equals
    evaluate_expression (all children) run =
        let evaluations = evaluate_children children run in
        record {
          evidence = flat_evidence evaluations;
          matched = every (λ c. c.matched) evaluations;
        }
    evaluate_expression (any children) run =
        let evaluations = evaluate_children children run in
        record {
          evidence = flat_evidence evaluations;
          matched = exists (λ c. c.matched) evaluations;
        }
    evaluate_expression (negation child) run =
        let evaluation = evaluate_expression child run in
        record { evidence = map not_line evaluation.evidence; matched = not evaluation.matched }

    pub evaluate_children : Children Value → RunResult → List OracleEvaluation
    evaluate_children nil run = []
    evaluate_children (cons child rest) run =
        evaluate_expression child run ∷ evaluate_children rest run

  -- `failureOracleSchema`
  unfoldable pub is_failure_oracle : FailureOracle Value → Bool
  is_failure_oracle oracle =
      is_nonempty oracle.id && is_expression oracle.root && ltb 0 oracle.version

  -- `none` where `failureOracleSchema.parse` throws.
  unfoldable pub evaluate_oracle : FailureOracle Value → RunResult → Option OracleEvaluation
  evaluate_oracle oracle run =
      if is_failure_oracle oracle then some (evaluate_expression oracle.root run) else none
