-- ===== src/Domain/Oracle/Meaning.antt =====
-- What an oracle expression says of a run, and that the evaluator decides it.
use reproforge.Base.{
  ◌≡◌, refl, ◌↔◌, ◌⊎◌, ◌&&◌, ◌||◌, inl, inr, Bool, true, false, not, some, String, List, arith,
  same_int_iff, every, exists, length, ◌+◌, ℕ, length-append, length-map, ◌∙◌,
}
use reproforge.Domain.Host.{Host}
use reproforge.Domain.Run.{RunResult}
use reproforge.Domain.Oracle.{
  OracleExpression, Children, StreamName, exit_code, output_contains, output_regex, json_field, all,
  any, negation, nil, cons, stream_value, contains_text, same_json, json_at_path, FailureOracle,
  OracleEvaluation, is_failure_oracle, evaluate_oracle, flat_evidence, not_line, evaluate_field,
  evaluate_expression, evaluate_children,
}

not_iff : {P : Type 0} (b : Bool) → ((b ≡ true) ↔ P) → ((not b ≡ true) ↔ (¬ P))
not_iff true h = (λ e. cc, λ n. absurd (n (h.0 refl)))
not_iff false h = (λ e p. cc (h.1 p), λ n. refl)

and_iff :
    {P Q : Type 0} (a b : Bool) → ((a ≡ true) ↔ P) → ((b ≡ true) ↔ Q) → ((a && b) ≡ true) ↔ (P × Q)
and_iff true b h k = (λ e. (h.0 refl, k.0 e), λ (p, q). k.1 q)
and_iff false b h k = (λ e. cc, λ (p, q). h.1 p)

or_iff :
    {P Q : Type 0} (a b : Bool) → ((a ≡ true) ↔ P) → ((b ≡ true) ↔ Q) → ((a || b) ≡ true) ↔ (P ⊎ Q)
or_iff true b h k = (λ e. inl (h.0 refl), λ p. refl)
or_iff false b h k = (λ e. inr (k.0 e), λ p. elim p [ inl x ↦ cc (h.1 x) | inr y ↦ k.1 y ])

module _ (host : Host) (run : RunResult) where
  open host use {Value, parse_json, stringify, regex_test}

  mutual
    pub Sat : OracleExpression Value → Type 0
    Sat (exit_code expected) = run.exit_code ≡ expected
    Sat (output_contains stream value) = contains_text (stream_value run stream) value ≡ true
    Sat (output_regex stream pattern) = regex_test pattern (stream_value run stream) ≡ true
    Sat (json_field stream path equals) =
        (parsed : Value) × (parse_json (stream_value run stream) ≡ some parsed)
        × (same_json (stringify (json_at_path host parsed path)) (stringify equals) ≡ true)
    Sat (all children) = AllSat children
    Sat (any children) = AnySat children
    Sat (negation child) = ¬ Sat child

    pub AllSat : Children Value → Type 0
    AllSat nil = Unit
    AllSat (cons child rest) = Sat child × AllSat rest

    pub AnySat : Children Value → Type 0
    AnySat nil = ⊥
    AnySat (cons child rest) = Sat child ⊎ AnySat rest

  abbrev pub matched : OracleExpression Value → Bool
  matched e = (evaluate_expression host e run).matched

  field_iff :
      (stream : StreamName) (path : List String) (equals : Value)
      → ((evaluate_field host run stream path equals).matched ≡ true)
        ↔ Sat (json_field stream path equals)
  unfolding evaluate_field Sat
  field_iff stream path equals = (λ h. ground arith, λ (v, p, q). ground arith)

  mutual
    unfolding evaluate_expression Sat

    pub matched_iff : (e : OracleExpression Value) → (matched e ≡ true) ↔ Sat e
    matched_iff (exit_code expected) = same_int_iff run.exit_code expected
    matched_iff (output_contains stream value) = (λ h. h, λ h. h)
    matched_iff (output_regex stream pattern) = (λ h. h, λ h. h)
    matched_iff (json_field stream path equals) = field_iff stream path equals
    matched_iff (all children) = every_iff children
    matched_iff (any children) = exists_iff children
    matched_iff (negation child) = not_iff (matched child) (matched_iff child)

    every_iff :
        (c : Children Value)
        → (every (λ v. v.matched) (evaluate_children host c run) ≡ true) ↔ AllSat c
    every_iff nil = (λ h. tt, λ h. refl)
    every_iff (cons child rest) = and_iff (matched child) _ (matched_iff child) (every_iff rest)

    exists_iff :
        (c : Children Value)
        → (exists (λ v. v.matched) (evaluate_children host c run) ≡ true) ↔ AnySat c
    exists_iff nil = (λ h. cc, λ h. absurd h)
    exists_iff (cons child rest) = or_iff (matched child) _ (matched_iff child) (exists_iff rest)

  -- How many tests an expression makes.
  mutual
    pub tests : OracleExpression Value → ℕ
    tests (all children) = tests_of children
    tests (any children) = tests_of children
    tests (negation child) = tests child
    tests _ = 1

    pub tests_of : Children Value → ℕ
    tests_of nil = 0
    tests_of (cons child rest) = tests child + tests_of rest

  mutual
    unfolding evaluate_expression tests evaluate_field

    evidence_count :
        (e : OracleExpression Value) → length (evaluate_expression host e run).evidence ≡ tests e
    evidence_count (exit_code expected) = refl
    evidence_count (output_contains stream value) = refl
    evidence_count (output_regex stream pattern) = refl
    evidence_count (json_field stream path equals) = ground arith
    evidence_count (all children) = children_count children
    evidence_count (any children) = children_count children
    evidence_count (negation child) = length-map not_line _ ∙ evidence_count child

    children_count :
        (c : Children Value) → length (flat_evidence (evaluate_children host c run)) ≡ tests_of c
    children_count nil = refl
    children_count (cons child rest) = omega (
      arith,
      length-append (evaluate_expression host child run).evidence
          (flat_evidence (evaluate_children host rest run)),
      evidence_count child,
      children_count rest,
    )

  -- An oracle that the schema accepts matches a run exactly if the run satisfies the expression,
  -- and leaves one line of evidence for each test of it, with no test skipped.
  pub evaluate_oracle-decides :
      (oracle : FailureOracle Value)
      → is_failure_oracle host oracle ≡ true
      → (evaluation : OracleEvaluation) × (evaluate_oracle host oracle run ≡ some evaluation)
        × ((evaluation.matched ≡ true) ↔ Sat oracle.root)
        × (length evaluation.evidence ≡ tests oracle.root)
  unfolding evaluate_oracle
  evaluate_oracle-decides oracle v = (
    evaluate_expression host oracle.root run,
    rw v,
    matched_iff oracle.root,
    evidence_count oracle.root,
  )
