-- ===== src/Domain/Minimization/Total.antt =====
-- When a minimization returns a result.
use mathlib.Core.List.{Memᴰ}
use reproforge.Base.{
  ◌≡◌, refl, ap, subst, inl, inr, String, true, some, List, [], ◌∷◌, map, ok, arith, eq_iff,
  has_text, every,
}
use reproforge.Domain.Host.{Host}
use reproforge.Domain.Run.{RunResult}
use reproforge.Domain.Verification.{
  VerificationSummary, verified, is_verification_input, VerificationInput, verify_reproduction,
}
use reproforge.Domain.Verification.Status.{verified_iff}
use reproforge.Domain.Minimization.{
  MinimizationProposal, MinimizationEvaluation, MinimizationInput, MinimizationResult, is_proposal,
  find_evaluation, is_minimization_result, verify_runs, evaluate_proposals, choose, result_of,
  conclude, minimize_reproduction, distinct_texts,
}
use reproforge.Domain.Minimization.Choice.{choice, evaluations-result_of}

abbrev ids : List MinimizationProposal → List String
ids = map (λ p. p.id)

abbrev evaluation_ids : List MinimizationEvaluation → List String
evaluation_ids = map (λ e. e.id)

has_text-mem :
    {a : MinimizationEvaluation} {es : List MinimizationEvaluation}
    → Memᴰ a es
    → has_text (evaluation_ids es) a.id ≡ true
has_text-mem {a} (Memᴰ.head p) = ground (arith, eq_iff a.id a.id)
has_text-mem (Memᴰ.tail t) = ground (arith, has_text-mem t)

find_evaluation-mem :
    (a : MinimizationEvaluation) {es : List MinimizationEvaluation}
    → Memᴰ a es
    → distinct_texts (evaluation_ids es) ≡ true
    → find_evaluation a.id es ≡ some a
unfolding find_evaluation
find_evaluation-mem a (Memᴰ.head p) d = ground (arith, eq_iff a.id a.id)
find_evaluation-mem a (Memᴰ.tail {x = e} t) d =
    ground (arith, find_evaluation-mem a t, has_text-mem t, eq_iff e.id a.id)

module _ (host : Host) where
  open host use {Value}

  result-is-valid :
      (es : List MinimizationEvaluation)
      → distinct_texts (evaluation_ids es) ≡ true
      → is_minimization_result (result_of es (choose host es)) ≡ true
  unfolding is_minimization_result
  result-is-valid es d = elim (choice host es) [
    | inl (c, i, r, n) ↦ ground arith
    | inr (a, c, i, r, v, m, best) ↦
        let list = evaluations-result_of host es (choose host es) in
        let m' = subst (λ l. Memᴰ a l) list m in ground (arith, list, find_evaluation-mem a m' d)
  ]

  abbrev input_of : MinimizationInput Value → List RunResult → RunResult → VerificationInput Value
  input_of input candidates control = record {
    oracle = input.oracle;
    control = control;
    candidates = candidates;
    required_runs = input.required_runs;
  }

  abbrev baseline_of : MinimizationInput Value → VerificationInput Value
  baseline_of input = input_of input input.baseline_candidates input.baseline_control

  baseline_valid :
      (input : MinimizationInput Value) (s : VerificationSummary)
      → verify_runs host input input.baseline_candidates input.baseline_control ≡ some s
      → is_verification_input host (baseline_of input) ≡ true
  unfolding verify_runs verify_reproduction
  baseline_valid input s e = ground arith

  proposal_valid :
      (input : MinimizationInput Value) (p : MinimizationProposal)
      → is_verification_input host (baseline_of input) ≡ true
      → is_proposal p ≡ true
      → is_verification_input host (input_of input p.candidates p.control) ≡ true
  unfolding is_verification_input is_proposal
  proposal_valid input p v h = ground arith

  proposal_verified :
      (input : MinimizationInput Value) (p : MinimizationProposal)
      → is_verification_input host (baseline_of input) ≡ true
      → is_proposal p ≡ true
      → (s : VerificationSummary) × (verify_runs host input p.candidates p.control ≡ some s)
  unfolding verify_runs
  proposal_verified input p v h =
      let (s, e, _) =
        verified_iff host (input_of input p.candidates p.control) (proposal_valid input p v h) in
      (s, e)

  evaluate_proposals-total :
      (input : MinimizationInput Value) (ps : List MinimizationProposal)
      → is_verification_input host (baseline_of input) ≡ true
      → every is_proposal ps ≡ true
      → (es : List MinimizationEvaluation) × (evaluate_proposals host input ps ≡ some es)
        × (evaluation_ids es ≡ ids ps)
  unfolding evaluate_proposals
  evaluate_proposals-total input [] v h = ([], refl, refl)
  evaluate_proposals-total input (p ∷ ps) v h =
      let (s, one) = proposal_verified input p v (ground arith) in
      let (es, rest, same) = evaluate_proposals-total input ps v (ground arith) in
      (
        record { id = p.id; removed_inputs = p.removed_inputs; summary = s } ∷ es,
        ground arith,
        ap (◌∷◌ p.id) same,
      )

  conclude-total :
      (es : List MinimizationEvaluation)
      → distinct_texts (evaluation_ids es) ≡ true
      → conclude host (some es) ≡ ok (result_of es (choose host es))
  unfolding conclude
  conclude-total es d = ground (arith, result-is-valid es d)

  -- With pairwise different identifiers, proposals that the schema accepts and a VERIFIED
  -- baseline, a minimization returns a result.
  pub minimize_reproduction-total :
      (input : MinimizationInput Value) (baseline : VerificationSummary)
      → every is_proposal input.proposals ≡ true
      → distinct_texts (ids input.proposals) ≡ true
      → verify_runs host input input.baseline_candidates input.baseline_control ≡ some baseline
      → baseline.status ≡ verified
      → (r : MinimizationResult) × (minimize_reproduction host input ≡ ok r)
  unfolding minimize_reproduction
  minimize_reproduction-total input baseline p d v b =
      let (es, listed, same) =
        evaluate_proposals-total input input.proposals (baseline_valid input baseline v) p in
      let d' : distinct_texts (evaluation_ids es) ≡ true = rw same d in
      (result_of es (choose host es), ground (arith, conclude-total es d'))
