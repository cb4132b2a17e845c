-- ===== src/Domain/Minimization/Choice.antt =====
-- Which reduction is chosen.
use mathlib.Core.List.{Memᴰ}
use reproforge.Base.{
  ◌≤◌, ◌≡◌, refl, sym, ap, ◌∙◌, subst, ◌⊎◌, inl, inr, true, false, Bool-cases, Option, none, some,
  List, [], ◌∷◌, ok, arith, All,
}
use reproforge.Domain.Host.{Host}
use reproforge.Domain.Verification.{VerificationSummary, verified}
use reproforge.Domain.Minimization.{
  MinimizationEvaluation, MinimizationInput, MinimizationResult, locally_minimized,
  baseline_retained, is_verified, verified_evaluations, size_of, comes_first, insert_sorted,
  sort_evaluations, evaluate_proposals, choose, result_of, parse_result, conclude,
  minimize_reproduction,
}

abbrev IsLargest : MinimizationEvaluation → List MinimizationEvaluation → Type 0
IsLargest a = All (λ e. size_of e ≤ size_of a)

IsLargest-trans :
    (a b : MinimizationEvaluation) (es : List MinimizationEvaluation)
    → size_of a ≤ size_of b
    → IsLargest a es
    → IsLargest b es
IsLargest-trans a b [] h k = tt
IsLargest-trans a b (e ∷ es) h k = (omega arith, IsLargest-trans a b es h k.1)

module _ (host : Host) where
  -- The head of a sorted list has the most removed inputs.
  abbrev IsHeaded : List MinimizationEvaluation → List MinimizationEvaluation → Type 0
  IsHeaded sorted es = elim sorted [ [] ↦ es ≡ [] | a ∷ _ ↦ Memᴰ a es × IsLargest a es ]

  comes_first-size :
      (e f : MinimizationEvaluation)
      → (comes_first host e f ≡ true → size_of f ≤ size_of e)
        × (comes_first host e f ≡ false → size_of e ≤ size_of f)
  unfolding comes_first
  comes_first-size e f = ground arith

  insert_sorted-IsHeaded :
      (e : MinimizationEvaluation) (sorted es : List MinimizationEvaluation)
      → IsHeaded sorted es
      → IsHeaded (insert_sorted host e sorted) (e ∷ es)
  unfolding insert_sorted
  insert_sorted-IsHeaded e [] es h = (Memᴰ.head refl, (omega arith, subst (IsLargest e) (sym h) tt))
  insert_sorted-IsHeaded e (f ∷ fs) es h = elim (Bool-cases (comes_first host e f)) [
    | inl before ↦ rw before (
      Memᴰ.head refl,
      (omega arith, IsLargest-trans f e es ((comes_first-size e f).0 before) h.1),
    )
    | inr after ↦ rw after (Memᴰ.tail h.0, ((comes_first-size e f).1 after, h.1))
  ]

  sort_evaluations-IsHeaded :
      (es : List MinimizationEvaluation) → IsHeaded (sort_evaluations host es) es
  unfolding sort_evaluations
  sort_evaluations-IsHeaded [] = refl
  sort_evaluations-IsHeaded (e ∷ es) =
      insert_sorted-IsHeaded e (sort_evaluations host es) es (sort_evaluations-IsHeaded es)

kept :
    {a e : MinimizationEvaluation} {vs es : List MinimizationEvaluation}
    → Memᴰ a (e ∷ vs)
    → is_verified e.summary.status ≡ true
    → (Memᴰ a vs → (is_verified a.summary.status ≡ true) × Memᴰ a es)
    → (is_verified a.summary.status ≡ true) × Memᴰ a (e ∷ es)
kept (Memᴰ.head p) v rest = (rw p v, Memᴰ.head p)
kept (Memᴰ.tail t) v rest = let (w, there) = rest t in (w, Memᴰ.tail there)

mem-verified_evaluations :
    (a : MinimizationEvaluation) (es : List MinimizationEvaluation)
    → Memᴰ a (verified_evaluations es)
    → (is_verified a.summary.status ≡ true) × Memᴰ a es
unfolding verified_evaluations
mem-verified_evaluations a [] m = elim m [ ]
mem-verified_evaluations a (e ∷ es) m = elim (Bool-cases (is_verified e.summary.status)) [
  | inl v ↦ kept (rw v at m) v (mem-verified_evaluations a es)
  | inr n ↦ let (v, there) = mem-verified_evaluations a es (rw n at m) in (v, Memᴰ.tail there)
]

-- No verified evaluation removes more inputs than `a`.
abbrev pub IsBest : MinimizationEvaluation → List MinimizationEvaluation → Type 0
IsBest a = All (λ e. is_verified e.summary.status ≡ true → size_of e ≤ size_of a)

abbrev pub NoneVerified : List MinimizationEvaluation → Type 0
NoneVerified = All (λ e. is_verified e.summary.status ≡ false)

IsLargest-IsBest :
    (a : MinimizationEvaluation) (es : List MinimizationEvaluation)
    → IsLargest a (verified_evaluations es)
    → IsBest a es
unfolding verified_evaluations
IsLargest-IsBest a [] h = tt
IsLargest-IsBest a (e ∷ es) h = elim (Bool-cases (is_verified e.summary.status)) [
  | inl v ↦
      let k : IsLargest a (e ∷ verified_evaluations es) = rw v at h in
      (λ _. k.0, IsLargest-IsBest a es k.1)
  | inr n ↦ (λ w. cc, IsLargest-IsBest a es (rw n at h))
]

none_verified : (es : List MinimizationEvaluation) → verified_evaluations es ≡ [] → NoneVerified es
unfolding verified_evaluations
none_verified [] h = tt
none_verified (e ∷ es) h = elim (Bool-cases (is_verified e.summary.status)) [
  | inl v ↦ absurd (ground arith)
  | inr n ↦ (n, none_verified es (rw n at h))
]

status_verified : (s : VerificationSummary) → is_verified s.status ≡ true → s.status ≡ verified
status_verified s h = ground arith

abbrev pub Retained : MinimizationResult → Type 0
Retained r =
    (r.claim ≡ baseline_retained)
    × (r.accepted_reduction_id ≡ none)
    × (r.accepted_removed_inputs ≡ [])
    × NoneVerified r.evaluations

abbrev pub Reduced : MinimizationResult → Type 0
Reduced r =
    (a : MinimizationEvaluation) × (r.claim ≡ locally_minimized)
    × (r.accepted_reduction_id ≡ some a.id)
    × (r.accepted_removed_inputs ≡ a.removed_inputs)
    × (a.summary.status ≡ verified)
    × Memᴰ a r.evaluations
    × IsBest a r.evaluations

module _ (host : Host) where
  open host use {Value}

  pub choice :
      (es : List MinimizationEvaluation)
      → Retained (result_of es (choose host es)) ⊎ Reduced (result_of es (choose host es))
  unfolding choose result_of
  choice es = go (sort_evaluations host (verified_evaluations es)) refl
    where
      go :
          (l : List MinimizationEvaluation)
          → sort_evaluations host (verified_evaluations es) ≡ l
          → Retained (result_of es (choose host es)) ⊎ Reduced (result_of es (choose host es))
      go [] e =
          let none_left =
            subst (λ l. IsHeaded host l (verified_evaluations es)) e
              (sort_evaluations-IsHeaded host (verified_evaluations es)) in
          rw e (inl (refl, refl, refl, none_verified es none_left))
      go (a ∷ rest) e =
          let (inside, largest) =
            subst (λ l. IsHeaded host l (verified_evaluations es)) e
              (sort_evaluations-IsHeaded host (verified_evaluations es)) in
          let (v, m) = mem-verified_evaluations a es inside in
          rw e (
            inr
              (a, refl, refl, refl, status_verified a.summary v, m, IsLargest-IsBest a es largest))

  parse_result-eq : (r r' : MinimizationResult) → parse_result r ≡ ok r' → r' ≡ r
  unfolding parse_result
  parse_result-eq r r' e = ground arith

  pub evaluations-result_of :
      (es : List MinimizationEvaluation) (o : Option MinimizationEvaluation)
      → (result_of es o).evaluations ≡ es
  unfolding result_of
  evaluations-result_of es none = refl
  evaluations-result_of es (some a) = refl

  conclude-ok :
      (o : Option (List MinimizationEvaluation)) (r : MinimizationResult)
      → conclude host o ≡ ok r
      → (o ≡ some r.evaluations) × (r ≡ result_of r.evaluations (choose host r.evaluations))
  unfolding conclude
  conclude-ok none r e = cc
  conclude-ok (some es) r e =
      let same = parse_result-eq (result_of es (choose host es)) r e in
      let list =
        ap (λ (x : MinimizationResult). x.evaluations) same
        ∙ evaluations-result_of es (choose host es) in
      (ap some (sym list), subst (λ l. r ≡ result_of l (choose host l)) (sym list) same)

  concluded :
      (input : MinimizationInput Value) (r : MinimizationResult)
      → minimize_reproduction host input ≡ ok r
      → conclude host (evaluate_proposals host input input.proposals) ≡ ok r
  unfolding minimize_reproduction
  concluded input r e = ground arith

  -- A result lists the evaluations of the proposals, and either retains the baseline, when no
  -- proposal was VERIFIED, or names a VERIFIED evaluation of the list that removes at least as
  -- many inputs as every other VERIFIED one.
  pub minimize_reproduction-best :
      (input : MinimizationInput Value) (r : MinimizationResult)
      → minimize_reproduction host input ≡ ok r
      → (evaluate_proposals host input input.proposals ≡ some r.evaluations)
        × (Retained r ⊎ Reduced r)
  minimize_reproduction-best input r e =
      let (list, same) =
        conclude-ok (evaluate_proposals host input input.proposals) r (concluded input r e) in
      (list, subst (λ x. Retained x ⊎ Reduced x) (sym same) (choice r.evaluations))
