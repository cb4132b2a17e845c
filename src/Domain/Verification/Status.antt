-- ===== src/Domain/Verification/Status.antt =====
-- When a reproduction counts as verified, unstable, not reproduced or blocked.
use reproforge.Base.{
  ℕ, ◌≤◌, ◌<◌, ◌≡◌, ◌≢◌, refl, ◌↔◌, ◌⊎◌, inl, inr, true, Bool-cases, some, List, [], ◌∷◌, map,
  arith, ◌==◌, length, All, set_of-single,
}
use reproforge.Domain.Host.{Host}
use reproforge.Domain.Run.{RunResult}
use reproforge.Domain.Oracle.{FailureOracle, is_failure_oracle}
use reproforge.Domain.Oracle.Meaning.{Sat, matched_iff}
use reproforge.Domain.Verification.{
  verified, unstable, not_reproduced, blocked, VerificationSummary, VerificationInput,
  required_or_default, oracle_matches, is_verification_input, count_matches, environment_hashes,
  summarize, verify_reproduction,
}

All-map {ℓ κ} :
    {A : Type ℓ} {B : Type ℓ} (P : B → Type κ) (f : A → B) (xs : List A)
    → All P (map f xs) ↔ All (λ x. P (f x)) xs
All-map P f [] = (λ h. h, λ h. h)
All-map P f (x ∷ xs) = (λ h. (h.0, (All-map P f xs).0 h.1), λ h. (h.0, (All-map P f xs).1 h.1))

-- The predicate holds of some element.
abbrev pub Some {ℓ} : {A : Type ℓ} → (A → Type 0) → List A → Type 0
Some P [] = ⊥
Some P (x ∷ xs) = P x ⊎ Some P xs

none_counted : (n : ℕ) → ¬ (0 < n) → n ≡ 0
none_counted n h = ground arith

module _ (host : Host) where
  open host use {Value}

  count_matches-le :
      (oracle : FailureOracle Value) (runs : List RunResult)
      → count_matches host oracle runs ≤ length runs
  unfolding count_matches
  count_matches-le oracle [] = omega arith
  count_matches-le oracle (run ∷ runs) = ground (arith, count_matches-le oracle runs)

  -- All the runs are counted exactly if each of them satisfies the oracle.
  count_matches-All :
      (oracle : FailureOracle Value) (runs : List RunResult)
      → (count_matches host oracle runs ≡ length runs) ↔ All (λ run. Sat host run oracle.root) runs
  unfolding count_matches
  count_matches-All oracle [] = (λ e. tt, λ h. refl)
  count_matches-All oracle (run ∷ runs) = elim (Bool-cases (oracle_matches host oracle run)) [
    | inl hit ↦ (
      λ e. (
        (matched_iff host run oracle.root).0 hit,
        (count_matches-All oracle runs).0 (ground arith),
      ),
      λ h. ground (arith, (count_matches-All oracle runs).1 h.1),
    )
    | inr miss ↦ (
      λ e. absurd (ground (arith, count_matches-le oracle runs)),
      λ h. ground (arith, (matched_iff host run oracle.root).1 h.0),
    )
  ]

  -- A run is counted exactly if some run satisfies the oracle.
  count_matches-Some :
      (oracle : FailureOracle Value) (runs : List RunResult)
      → (0 < count_matches host oracle runs) ↔ Some (λ run. Sat host run oracle.root) runs
  unfolding count_matches
  count_matches-Some oracle [] = (λ e. absurd (omega (arith, e)), λ h. absurd h)
  count_matches-Some oracle (run ∷ runs) = elim (Bool-cases (oracle_matches host oracle run)) [
    | inl hit ↦ (λ e. inl ((matched_iff host run oracle.root).0 hit), λ h. ground arith)
    | inr miss ↦ (
      λ e. inr ((count_matches-Some oracle runs).0 (ground arith)),
      λ h. elim h [
        | inl here ↦ absurd (cc (miss, (matched_iff host run oracle.root).1 here))
        | inr there ↦ ground (arith, (count_matches-Some oracle runs).1 there)
      ],
    )
  ]

  module _ (input : VerificationInput Value) where
    abbrev pub IsPinned : Type 0
    IsPinned = All (λ run. run.environment_hash ≡ input.control.environment_hash) input.candidates

    pinned_iff : ((length (environment_hashes host input) == 1) ≡ true) ↔ IsPinned
    pinned_iff =
        let hashes = map (λ (run : RunResult). run.environment_hash) input.candidates in
        let one = set_of-single input.control.environment_hash hashes in
        let each =
          All-map (λ h. h ≡ input.control.environment_hash)
            (λ (run : RunResult). run.environment_hash) input.candidates in
        (λ h. each.0 (one.0 (ground arith)), λ h. ground (arith, one.1 (each.1 h)))

    -- The control fails, one environment ran everything, enough candidates ran, and each of them
    -- satisfies the oracle.
    abbrev pub IsProof : Type 0
    IsProof =
        (¬ Sat host input.control input.oracle.root)
        × IsPinned
        × (required_or_default input.required_runs ≤ length input.candidates)
        × All (λ run. Sat host run input.oracle.root) input.candidates

    -- An input that the schema accepts always has a summary.
    verify_total :
        is_verification_input host input ≡ true
        → verify_reproduction host input ≡ some (summarize host input)
    unfolding verify_reproduction is_verification_input is_failure_oracle
    verify_total v = ground (arith, count_matches-le input.oracle input.candidates)

    control_iff :
        ((summarize host input).control_matched ≡ true) ↔ Sat host input.control input.oracle.root
    unfolding summarize
    control_iff = matched_iff host input.control input.oracle.root

    summary_verified : (summarize host input).status ≡ verified → IsProof
    unfolding summarize
    summary_verified e = (
      λ c. ground (arith, control_iff.1 c),
      pinned_iff.0 (ground arith),
      ground arith,
      (count_matches-All input.oracle input.candidates).0 (ground arith),
    )

    proof_verified : IsProof → (summarize host input).status ≡ verified
    unfolding summarize
    proof_verified h =
        let control = control_iff.0 in
        elim (Bool-cases (oracle_matches host input.oracle input.control)) [
          | inl hit ↦ absurd (h.0 (control_iff.0 hit))
          | inr miss ↦
              ground
                (arith, pinned_iff.1 h.1, (count_matches-All input.oracle input.candidates).1 h.3)
        ]

    -- An input that the schema accepts always has a summary, and its status is VERIFIED exactly if
    -- the control does not satisfy the oracle, all the runs name the control's environment, at
    -- least the required number of candidates ran, and every one of them satisfies the oracle.
    pub verified_iff :
        is_verification_input host input ≡ true
        → (s : VerificationSummary) × (verify_reproduction host input ≡ some s)
          × ((s.status ≡ verified) ↔ IsProof)
    verified_iff v = (summarize host input, verify_total v, (summary_verified, proof_verified))

    blocked_iff :
        ((summarize host input).status ≡ blocked)
        ↔ (Sat host input.control input.oracle.root ⊎ (¬ IsPinned))
    unfolding summarize
    blocked_iff = elim (Bool-cases (length (environment_hashes host input) == 1)) [
      | inl one ↦ (
        λ h. inl (control_iff.0 (ground arith)),
        λ h. elim h [
          | inl c ↦ ground (arith, control_iff.1 c)
          | inr n ↦ absurd (n (pinned_iff.0 one))
        ],
      )
      | inr more ↦ (λ h. inr (λ p. cc (pinned_iff.1 p)), λ h. ground arith)
    ]

    unstable_iff : ((summarize host input).status ≡ unstable) ↔ (
        (¬ Sat host input.control input.oracle.root)
        × IsPinned
        × (¬ IsProof)
        × Some (λ run. Sat host run input.oracle.root) input.candidates)
    unfolding summarize
    unstable_iff = (
      λ e. (
        λ c. ground (arith, control_iff.1 c),
        pinned_iff.0 (ground arith),
        λ p. let v = proof_verified p in cc (e, v),
        (count_matches-Some input.oracle input.candidates).0 (ground arith),
      ),
      λ (c, p, n, m). elim (Bool-cases (oracle_matches host input.oracle input.control)) [
        | inl hit ↦ absurd (c (control_iff.0 hit))
        | inr miss ↦
            let pinned = pinned_iff.1 p in
            let some_match = (count_matches-Some input.oracle input.candidates).1 m in
            let unproved : (summarize host input).status ≢ verified = λ v. n (summary_verified v) in
            ground (arith, unproved)
      ],
    )

    not_reproduced_iff :
        0 < required_or_default input.required_runs
        → ((summarize host input).status ≡ not_reproduced) ↔ (
            (¬ Sat host input.control input.oracle.root)
            × IsPinned
            × (¬ Some (λ run. Sat host run input.oracle.root) input.candidates))
    unfolding summarize
    not_reproduced_iff enough = (
      λ e. (
        λ c. ground (arith, control_iff.1 c),
        pinned_iff.0 (ground arith),
        λ m.
            let some_match = (count_matches-Some input.oracle input.candidates).1 m in ground arith,
      ),
      λ (c, p, n). elim (Bool-cases (oracle_matches host input.oracle input.control)) [
        | inl hit ↦ absurd (c (control_iff.0 hit))
        | inr miss ↦
            let pinned = pinned_iff.1 p in
            let no_match : count_matches host input.oracle input.candidates ≡ 0 =
              none_counted (count_matches host input.oracle input.candidates)
                (λ m. n ((count_matches-Some input.oracle input.candidates).0 m)) in
            ground arith
      ],
    )

    -- The summary of an input that the schema accepts is BLOCKED exactly if the control satisfies
    -- the oracle or the runs do not all name the control's environment. Where it is not BLOCKED, it
    -- is UNSTABLE exactly if some candidate satisfies the oracle and the input is no proof of a
    -- reproduction, as VERIFIED asks it, and NOT_REPRODUCED exactly if no candidate satisfies the
    -- oracle.
    pub other_statuses :
        is_verification_input host input ≡ true
        → (s : VerificationSummary) × (verify_reproduction host input ≡ some s)
          × ((s.status ≡ blocked) ↔ (Sat host input.control input.oracle.root ⊎ (¬ IsPinned)))
          × ((s.status ≡ unstable) ↔ (
              (¬ Sat host input.control input.oracle.root)
              × IsPinned
              × (¬ IsProof)
              × Some (λ run. Sat host run input.oracle.root) input.candidates))
          × ((s.status ≡ not_reproduced) ↔ (
              (¬ Sat host input.control input.oracle.root)
              × IsPinned
              × (¬ Some (λ run. Sat host run input.oracle.root) input.candidates)))
    unfolding is_verification_input
    other_statuses v = (
      summarize host input,
      verify_total v,
      blocked_iff,
      unstable_iff,
      not_reproduced_iff (ground arith),
    )
